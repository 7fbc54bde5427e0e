-- ===== src/Testing/Simulator/Accounts.antt =====
-- The statistics of rabia-testing/src/network_sim.rs.
use rabia.Base.{
  ℕ, ◌+◌, ◌≤◌, List, [], ◌∷◌, Option, none, some, leb, length, length-append, arith, if_all,
}
use rabia.Base.Dict
use rabia.Base.Dict.{nat_key}
use rabia.Core.Types.{NodeId}
use rabia.Core.Message.{ProtocolMessage}
use rabia.Testing.Simulator.{
  PendingMessage, Inbox, NetworkSimulator, are_nodes_partitioned, Draw, send_message, hand_over,
  deliver_from, deliver_pending_messages, cleanup_expired_partitions, NetworkAction, join, leave,
  set_conditions, partition, heal, send, deliver, clean_up, act_all,
}

-- Every message that was sent is at most one of: delivered, dropped, and on its way.
abbrev AddsUp : ℕ → NetworkSimulator → Type 0
AddsUp waiting s =
    s.message_stats.messages_delivered + s.message_stats.messages_dropped + waiting
    ≤ s.message_stats.messages_sent

abbrev pub Accounts : NetworkSimulator → Type 0
Accounts s = AddsUp (length s.pending_messages) s

send_message-Accounts :
    (now : ℕ) (draw : Draw) (from to : NodeId) (m : ProtocolMessage) (s : NetworkSimulator)
    → Accounts s
    → Accounts (send_message now draw from to m s)
unfolding send_message
send_message-Accounts now draw from to m s h =
    if_all Accounts (are_nodes_partitioned now from to s.partitions) _ _ (λ _. omega (arith, h))
      (λ _.
        if_all Accounts draw.is_lost _ _ (λ _. omega (arith, h))
          (λ _. omega (arith, h, length-append s.pending_messages (_ ∷ []))))

hand_over-AddsUp :
    (n now : ℕ) (m : PendingMessage) (o : Option Inbox) (s : NetworkSimulator)
    → AddsUp (1 + n) s
    → AddsUp n (hand_over now m o s)
hand_over-AddsUp n now m none s h = omega (arith, h)
hand_over-AddsUp n now m (some b) s h =
    if_all (AddsUp n) b.is_closed _ _ (λ _. omega (arith, h)) (λ _. omega (arith, h))

deliver_from-Accounts :
    (now : ℕ) (ms : List PendingMessage) (s : NetworkSimulator)
    → AddsUp (length ms) s
    → Accounts (deliver_from now ms s)
deliver_from-Accounts now [] s h = h
deliver_from-Accounts now (m ∷ ms) s h =
    if_all Accounts (leb m.deliver_at now) _ _
      (λ _.
        deliver_from-Accounts now ms _
          (hand_over-AddsUp (length ms) now m (Dict.get m.to s.nodes) s (omega (arith, h))))
      (λ _. h)

-- Whatever happens on a simulated network, the messages delivered, those dropped, and those on their
-- way are never more than those that were sent.
pub act_all-Accounts :
    (actions : List NetworkAction) (s : NetworkSimulator)
    → Accounts s
    → Accounts (act_all actions s)
unfolding deliver_pending_messages cleanup_expired_partitions
act_all-Accounts [] s h = h
act_all-Accounts (join id ∷ rest) s h = act_all-Accounts rest _ h
act_all-Accounts (leave id ∷ rest) s h = act_all-Accounts rest _ h
act_all-Accounts (set_conditions c ∷ rest) s h = act_all-Accounts rest _ h
act_all-Accounts (partition now nodes duration ∷ rest) s h = act_all-Accounts rest _ h
act_all-Accounts (heal ∷ rest) s h = act_all-Accounts rest _ h
act_all-Accounts (send now draw from to m ∷ rest) s h =
    act_all-Accounts rest _ (send_message-Accounts now draw from to m s h)
act_all-Accounts (deliver now ∷ rest) s h =
    act_all-Accounts rest _ (deliver_from-Accounts now s.pending_messages s h)
act_all-Accounts (clean_up now ∷ rest) s h = act_all-Accounts rest _ h
