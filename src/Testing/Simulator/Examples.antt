-- ===== src/Testing/Simulator/Examples.antt =====
-- A run of the simulated network.
use rabia.Base.{◌≡◌, refl, true, false, List, [], ◌∷◌, none, arith}
use rabia.Core.Message.{ProtocolMessage, new, heart_beat}
use rabia.Testing.Simulator.Accounts.{Accounts, act_all-Accounts}
use rabia.Testing.Simulator.{
  Draw, NetworkAction, join, partition, heal, send, deliver, new_simulator, act_all, send_message,
  deliver_pending_messages, estimate_message_size,
}

abbrev pulse : ProtocolMessage
pulse =
    new 9 100 1 none
      (heart_beat (record { current_phase = 1; last_committed_phase = 0; active = true }))

abbrev five_later : Draw
five_later = record { is_lost = false; latency = 5 }

-- One message meets a partition, one is delivered, and one is still on its way.
abbrev story : List NetworkAction
story =
    join 1
    ∷ join 2
    ∷ partition 100 (1 ∷ []) 50
    ∷ send 120 five_later 1 2 pulse
    ∷ heal
    ∷ send 130 five_later 1 2 pulse
    ∷ send 134 five_later 2 1 pulse
    ∷ deliver 136
    ∷ []

delivered_once : (act_all story new_simulator).message_stats.messages_delivered ≡ 1
unfolding send_message deliver_pending_messages estimate_message_size
delivered_once = refl

act_all-Accounts_example : Accounts (act_all story new_simulator)
act_all-Accounts_example = act_all-Accounts story new_simulator (omega arith)
