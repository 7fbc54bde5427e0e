-- ===== src/Tcp/Examples.antt =====
-- The theorems on the TCP transport at concrete inputs.
use rabia.Base.{
  ℕ, ◌*◌, ◌≤◌, ◌≡◌, refl, sym, ap, ◌∙◌, Bool, true, false, [], ◌∷◌, ◌++◌, Option, none, some,
  is_some, ◌==◌, ◌||◌, ◌&&◌, length, arith, if◌then◌else◌,
}
use rabia.Base.Dict
use rabia.Base.Dict.{nat_key, contains_key}
use rabia.Core.Types.{NodeId, Bytes}
use rabia.Core.Error.{network, format, ok, err, is_ok}
use rabia.Core.Message.{
  ProtocolMessage, MessageType, new, heart_beat, propose, vote_round1, vote_round2, decision,
  sync_request, sync_response, new_batch, quorum_notification,
}
use rabia.Tcp.Frame.{max_payload, to_bytes}
use rabia.Tcp.Frame.Reading.{frame_of}
use rabia.Tcp.Stream.{reader_task, write_frames}
use rabia.Tcp.Stream.Ends.{reader_task-ends}
use rabia.Tcp.Stream.Relay.{always, reader_task-write_frames}
use rabia.Tcp.Handshake.{TcpStream, perform_outbound_handshake}
use rabia.Tcp.Connect.{default_retry, Dial, opened, refused, timed_out, connect}
use rabia.Tcp.Connect.Attempts.{first_greeted, or_failed, connect-outcome}
use rabia.Tcp.Peers.{
  TcpNetwork, new_network, new_connection, register, connected, queue, handle_inbound_connection,
  reconnect, send_to, is_connected, hand_on, writer_ends,
}
use rabia.Tcp.Peers.Accept.{accept-agrees}
use rabia.Tcp.Peers.Delivery.{send_each, waiting, serve_inbound, serve_inbound-send_each}
use rabia.Tcp.Peers.Lost.{reconnect-lost}
use rabia.Tcp.Peers.Reach.{is_reachable, contains-reconnect}
use rabia.Tcp.Peers.Health.{sends, pass_all}

-- An encoding of heartbeats to everybody, and no other message.
abbrev flag : Bool → ℕ
flag true = 1
flag false = 0

abbrev encode_as : Option NodeId → MessageType → ProtocolMessage → Option Bytes
encode_as none (heart_beat h) m =
    some
      (m.id ∷ m.timestamp ∷ m.from ∷ h.current_phase ∷ h.last_committed_phase ∷ flag h.active ∷ [])
encode_as _ _ m = none

abbrev encode : ProtocolMessage → Option Bytes
encode m = encode_as m.to m.message_type m

abbrev decode : Bytes → Option ProtocolMessage
decode (id ∷ now ∷ from ∷ p ∷ q ∷ f ∷ []) = some (
    new id now from none
      (heart_beat (record { current_phase = p; last_committed_phase = q; active = f == 1 })))
decode _ = none

flag-back : (b : Bool) → (flag b == 1) ≡ b
flag-back true = refl
flag-back false = refl

decode-encode_as :
    (m : ProtocolMessage) (o : Option NodeId) (t : MessageType) (b : Bytes)
    → m.to ≡ o
    → m.message_type ≡ t
    → encode_as o t m ≡ some b
    → decode b ≡ some m
decode-encode_as m none (heart_beat x) b p q h =
    ap decode (
      sym (
        let same : (m.id
              ∷ m.timestamp
              ∷ m.from
              ∷ x.current_phase
              ∷ x.last_committed_phase
              ∷ flag x.active
              ∷ [])
            ≡ b =
          cc h in
        same))
    ∙ ap
        (λ a. some (
          new m.id m.timestamp m.from none (
            heart_beat (record {
              current_phase = x.current_phase;
              last_committed_phase = x.last_committed_phase;
              active = a;
            }))))
        (flag-back x.active)
    ∙ ap (λ o. some (new m.id m.timestamp m.from o (heart_beat x))) (sym p)
    ∙ ap (λ t. some (new m.id m.timestamp m.from m.to t)) (sym q)
decode-encode_as m (some k) t b p q h = absurd (cc h)
decode-encode_as m none (propose x) b p q h = absurd (cc h)
decode-encode_as m none (vote_round1 x) b p q h = absurd (cc h)
decode-encode_as m none (vote_round2 x) b p q h = absurd (cc h)
decode-encode_as m none (decision x) b p q h = absurd (cc h)
decode-encode_as m none (sync_request x) b p q h = absurd (cc h)
decode-encode_as m none (sync_response x) b p q h = absurd (cc h)
decode-encode_as m none (new_batch x) b p q h = absurd (cc h)
decode-encode_as m none (quorum_notification x) b p q h = absurd (cc h)

decode-encode : (m : ProtocolMessage) (b : Bytes) → encode m ≡ some b → decode b ≡ some m
decode-encode m b h = decode-encode_as m m.to m.message_type b refl refl h

abbrev pulse : ProtocolMessage
pulse =
    new 9 100 1 none
      (heart_beat (record { current_phase = 4; last_committed_phase = 3; active = true }))

-- It cannot be encoded.
abbrev request : ProtocolMessage
request =
    new 10 101 1 (some 2)
      (heart_beat (record { current_phase = 4; last_committed_phase = 3; active = true }))

-- The third write gets five bytes out.
abbrev failing : ℕ → Option ℕ
failing n = if n == 2 then some 5 else none

reader_task-ends_example :
    is_some (reader_task decode (λ k. k == 0) (to_bytes (frame_of (3 ∷ 5 ∷ [])) ++ 1 ∷ [])) ≡ true
reader_task-ends_example =
    reader_task-ends decode (λ k. k == 0) (to_bytes (frame_of (3 ∷ 5 ∷ [])) ++ 1 ∷ [])

reader_task-write_frames_example :
    reader_task decode always
      (write_frames encode failing 0 (pulse ∷ request ∷ pulse ∷ pulse ∷ pulse ∷ []))
    ≡ some (pulse ∷ pulse ∷ [])
reader_task-write_frames_example =
    reader_task-write_frames encode decode decode-encode failing
      (pulse ∷ request ∷ pulse ∷ pulse ∷ pulse ∷ [])

-- An identifier as one byte.
abbrev encode_id : NodeId → Option Bytes
encode_id id = some (id ∷ [])

abbrev decode_id : Bytes → Option NodeId
decode_id (id ∷ []) = some id
decode_id _ = none

decode_id-encode_id : (id : NodeId) (b : Bytes) → encode_id id ≡ some b → decode_id b ≡ some id
decode_id-encode_id id b h = ap decode_id (sym (let same : id ∷ [] ≡ b = cc h in same))

encode_id-fits : (id : NodeId) (b : Bytes) → encode_id id ≡ some b → length b ≤ max_payload
encode_id-fits id b h = let same : id ∷ [] ≡ b = cc h in omega (arith, ap length same)

abbrev answers : NodeId → TcpStream
answers k = record { is_writable = true; incoming = to_bytes (frame_of (k ∷ [])) }

-- Node 2 is reached at the third attempt, and others never.
abbrev dialled : NodeId → ℕ → Dial
dialled k n =
    if n == 0
    then refused
    else if k == 2
    then if n == 1 then timed_out else opened (answers 2)
    else timed_out

abbrev twice : ℕ → ℕ
twice n = 2 * n

connect-outcome_example :
    (connect twice default_retry
      (perform_outbound_handshake encode_id decode_id 1 2)
      (dialled 2)
      70).outcome
    ≡ or_failed 70 5
        (first_greeted (perform_outbound_handshake encode_id decode_id 1 2) (dialled 2) 5 0)
connect-outcome_example =
    connect-outcome twice default_retry (perform_outbound_handshake encode_id decode_id 1 2)
      (dialled 2) 70

abbrev lonely : TcpNetwork
lonely = new_network 1 ((2, 70) ∷ (3, 71) ∷ []) 30000 default_retry

contains-reconnect_example :
    is_connected 2 (reconnect encode_id decode_id twice dialled 500 lonely).1
    ≡ is_connected 2 lonely
      || (contains_key 2 lonely.peer_addresses
          && is_reachable encode_id decode_id twice dialled 1 default_retry 2)
contains-reconnect_example = contains-reconnect encode_id decode_id twice dialled 500 2 lonely

-- Node 2, with a message of node 3.
abbrev other : TcpNetwork
other = hand_on 3 pulse (new_network 2 ((1, 72) ∷ []) 30000 default_retry)

-- Node 1 was looking for node 3 and finds node 2.
accept-agrees_example :
    let accepts =
      handle_inbound_connection encode_id decode_id 40 72
        (record { is_writable = true; incoming = to_bytes (frame_of (1 ∷ [])) ++ [] })
        other in
    let connects = connected 41 3 71 lonely (
      perform_outbound_handshake encode_id decode_id 1 3
        (record { is_writable = true; incoming = to_bytes (frame_of (2 ∷ [])) ++ 8 ∷ [] })) in
    (accepts.0 ≡ ok tt)
    × (Dict.get 1 accepts.1.connections ≡ some (new_connection 40 1 72 false))
    × (connects.0 ≡ err (network (format "Node ID mismatch: expected {}, got {}" (3 ∷ 2 ∷ []))))
    × (is_connected 3 connects.1 ≡ false)
accept-agrees_example =
    accept-agrees encode_id decode_id decode_id-encode_id encode_id-fits lonely other 41 40 72 71 3
      (1 ∷ []) (2 ∷ []) [] (8 ∷ []) refl refl

-- Connected to both peers.
abbrev joined : TcpNetwork
joined = register 100 2 70 true (register 90 3 71 false lonely)

-- A heartbeat is sent to node 2, and then its writer ends.
reconnect-lost_example :
    let lost = writer_ends 2 (pass_all (sends 2 pulse ∷ []) joined) in
    let after = reconnect encode_id decode_id twice dialled 500 lost in
    (after ≡ (ok tt, lost)) × (is_ok (send_to 2 pulse after.1).0 ≡ false)
reconnect-lost_example =
    reconnect-lost encode_id decode_id twice dialled 500 joined (sends 2 pulse ∷ []) 2 pulse
      (refl, (refl, tt))

-- One message was queued before, one cannot be encoded, and the third write fails.
serve_inbound-send_each_example :
    let a = (send_to 2 pulse joined).1 in
    let sent = waiting 2 (send_each 2 (request ∷ pulse ∷ pulse ∷ pulse ∷ []) a) in
    let after =
      serve_inbound decode encode_id decode_id 40 72
        (record {
          is_writable = true;
          incoming = to_bytes (frame_of (1 ∷ [])) ++ write_frames encode failing 0 sent;
        })
        other in
    (after.messages ≡ (3, pulse) ∷ (1, pulse) ∷ (1, pulse) ∷ []) × (is_connected 1 after ≡ true)
unfolding send_to
serve_inbound-send_each_example =
    serve_inbound-send_each encode decode decode-encode failing encode_id decode_id
      decode_id-encode_id encode_id-fits (request ∷ pulse ∷ pulse ∷ pulse ∷ [])
      (send_to 2 pulse joined).1 other (queue pulse (new_connection 100 2 70 true)) 40 72 (1 ∷ [])
      (2 ∷ []) refl refl refl refl
