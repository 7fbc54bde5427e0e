-- ===== src/Core/Batching.antt =====
-- rabia-core/src/batching.rs: commands gathered into batches.
-- Counters and sizes are plain numbers. The tests on the quotient of two counters, which the code
-- computes in floating point, are written without the division.
pub mod Order
pub mod Relay
pub mod Size
pub mod Examples
use rabia.Base.{
  ℕ, zero, suc, ◌+◌, ◌*◌, ◌/◌, ◌-◌, Bool, true, false, ◌&&◌, not, Option, none, some, List, [], ◌∷◌,
  ◌++◌, leb, ltb, min, max, if◌then◌else◌, length, take, drop, is_empty,
}
use rabia.Core.Types.{Command}

-- Durations are in milliseconds.
pub record BatchConfig : Type 0 where
  pub max_batch_size : ℕ
  pub max_batch_delay : ℕ
  pub buffer_capacity : ℕ
  pub adaptive : Bool

abbrev pub default_batch_config : BatchConfig
default_batch_config = record {
  max_batch_size = 100;
  max_batch_delay = 10;
  buffer_capacity = 1000;
  adaptive = true;
}

-- The average, a floating-point number that nothing reads, is left out.
pub record BatchStats : Type 0 where
  pub total_commands : ℕ
  pub total_batches : ℕ
  pub commands_dropped : ℕ
  pub flush_timeouts : ℕ
  pub adaptive_adjustments : ℕ

abbrev pub record_batch : ℕ → BatchStats → BatchStats
record_batch n s = record s {
  total_commands = s.total_commands + n;
  total_batches = s.total_batches + 1;
}

pub record CommandBatcher : Type 0 where
  pub config : BatchConfig
  pub buffer : List Command
  pub stats : BatchStats
  pub last_flush : ℕ
  pub adaptive_batch_size : ℕ

-- `CommandBatcher::new` at the time `now`.
abbrev pub new_batcher : ℕ → BatchConfig → CommandBatcher
new_batcher now config = record {
  config = config;
  buffer = [];
  stats = record {
    total_commands = 0;
    total_batches = 0;
    commands_dropped = 0;
    flush_timeouts = 0;
    adaptive_adjustments = 0;
  };
  last_flush = now;
  adaptive_batch_size = config.max_batch_size;
}

abbrev pub current_batch_size : CommandBatcher → ℕ
current_batch_size b = if b.config.adaptive then b.adaptive_batch_size else b.config.max_batch_size

-- `size_ratio > 2.0` and `size_ratio < 0.5`
abbrev pub mostly_full : BatchStats → Bool
mostly_full s = ltb (2 * (s.flush_timeouts + 1)) s.total_batches

abbrev pub mostly_late : BatchStats → Bool
mostly_late s = ltb (2 * s.total_batches) (s.flush_timeouts + 1)

abbrev pub adjust_to : ℕ → CommandBatcher → CommandBatcher
adjust_to size b = record b {
  adaptive_batch_size = size;
  stats = record b.stats { adaptive_adjustments = b.stats.adaptive_adjustments + 1 };
}

unfoldable pub adjust_adaptive_batch_size : CommandBatcher → CommandBatcher
adjust_adaptive_batch_size b =
    if mostly_full b.stats && ltb b.adaptive_batch_size b.config.max_batch_size
    then adjust_to (min (b.adaptive_batch_size * 11 / 10) b.config.max_batch_size) b
    else if mostly_late b.stats && ltb 10 b.adaptive_batch_size
    then adjust_to (max (b.adaptive_batch_size * 9 / 10) 10) b
    else b

-- The size of the next batch, and what the batcher is without it.
abbrev pub next_size : CommandBatcher → ℕ
next_size b = min (current_batch_size b) (length b.buffer)

abbrev pub flushed : ℕ → CommandBatcher → CommandBatcher
flushed now b = record b {
  buffer = drop (next_size b) b.buffer;
  stats = record_batch (length (take (next_size b) b.buffer)) b.stats;
  last_flush = now;
}

-- The commands of the batch; its identifier and time are another module's.
unfoldable pub flush_batch : ℕ → CommandBatcher → List Command × CommandBatcher
flush_batch now b = (
  take (next_size b) b.buffer,
  if b.config.adaptive then adjust_adaptive_batch_size (flushed now b) else flushed now b,
)

pub data AddResult : Type 0 where
  -- `Ok`, with the batch that is ready.
  added : Option (List Command) → AddResult
  -- `Err(RabiaError::internal("Command buffer overflow"))`
  buffer_overflow : AddResult

abbrev pub ready : List Command × CommandBatcher → AddResult × CommandBatcher
ready (commands, b) = (added (some commands), b)

abbrev pub push_back : Command → CommandBatcher → CommandBatcher
push_back c b = record b { buffer = b.buffer ++ c ∷ [] }

abbrev pub count_timeout : CommandBatcher → CommandBatcher
count_timeout b = record b {
  stats = record b.stats { flush_timeouts = b.stats.flush_timeouts + 1 };
}

-- The checks after the command is in the buffer; `elapsed` compares two readings of the clock, the
-- second of which is not before the first.
unfoldable pub flush_if_due : ℕ → CommandBatcher → AddResult × CommandBatcher
flush_if_due now b =
    if leb (current_batch_size b) (length b.buffer)
    then ready (flush_batch now b)
    else if leb b.config.max_batch_delay (now - b.last_flush) && not (is_empty b.buffer)
    then ready (flush_batch now (count_timeout b))
    else (added none, b)

unfoldable pub add_command : ℕ → Command → CommandBatcher → AddResult × CommandBatcher
add_command now c b =
    if leb b.config.buffer_capacity (length b.buffer)
    then (
      buffer_overflow,
      record b { stats = record b.stats { commands_dropped = b.stats.commands_dropped + 1 } },
    )
    else flush_if_due now (push_back c b)

unfoldable pub flush : ℕ → CommandBatcher → Option (List Command) × CommandBatcher
flush now b =
    let (commands, rest) = flush_batch now b in
    if is_empty b.buffer then (none, b) else (some commands, rest)

unfoldable pub update_batch_config : BatchConfig → CommandBatcher → CommandBatcher
update_batch_config config b = record b {
  adaptive_batch_size = config.max_batch_size;
  config = config;
}

-- A call of the batcher: `add_command`, `flush` or `update_config`, with the time of the call.
pub data Request : Type 0 where
  arrive : ℕ → Command → Request
  force_flush : ℕ → Request
  reconfigure : BatchConfig → Request

-- The command that was taken, if one was, and the batch that was handed out, if one was.
abbrev pub taken : Command → AddResult → List Command
taken c (added o) = c ∷ []
taken c buffer_overflow = []

abbrev pub batch_of : AddResult → Option (List Command)
batch_of (added o) = o
batch_of buffer_overflow = none

abbrev pub serve : Request → CommandBatcher → List Command × Option (List Command) × CommandBatcher
serve (arrive now c) b = let (r, after) = add_command now c b in (taken c r, batch_of r, after)
serve (force_flush now) b = let (o, after) = flush now b in ([], o, after)
serve (reconfigure config) b = ([], none, update_batch_config config b)

abbrev pub cons_some {ℓ} : {A : Type ℓ} → Option A → List A → List A
cons_some none xs = xs
cons_some (some a) xs = a ∷ xs

-- The commands taken and the batches handed out by a sequence of calls.
abbrev pub serve_all :
    List Request → CommandBatcher → List Command × List (List Command) × CommandBatcher
serve_all [] b = ([], [], b)
serve_all (r ∷ rs) b =
    let (cs, o, t) = serve r b in let (ds, bs, u) = serve_all rs t in (cs ++ ds, cons_some o bs, u)

-- What the task of `AsyncCommandBatcher::new` waits for.
pub data TaskEvent : Type 0 where
  -- A command, or the end of the channel.
  received : ℕ → Command → TaskEvent
  senders_dropped : TaskEvent
  tick : ℕ → TaskEvent
  stats_request : TaskEvent

pub record BatcherTask : Type 0 where
  pub batcher : CommandBatcher
  pub sent : List (List Command)
  pub is_running : Bool

-- A batch goes to the channel, or ends the task if nobody holds the other end any more.
abbrev pub send_batch : Bool → Option (List Command) → BatcherTask → BatcherTask
send_batch alive none t = t
send_batch true (some commands) t = record t { sent = t.sent ++ commands ∷ [] }
send_batch false (some commands) t = record t { is_running = false }

abbrev pub handle_event : Bool → TaskEvent → BatcherTask → BatcherTask
handle_event alive (received now c) t =
    let (r, b) = add_command now c t.batcher in
    send_batch alive (batch_of r) (record t { batcher = b })
handle_event alive senders_dropped t = record t { is_running = false }
handle_event alive (tick now) t =
    let (o, b) = flush now t.batcher in send_batch alive o (record t { batcher = b })
handle_event alive stats_request t = t

-- The loop; with each event comes whether the receiver of the batches is alive.
unfoldable pub run_task : List (Bool × TaskEvent) → BatcherTask → BatcherTask
run_task [] t = t
run_task ((alive, e) ∷ es) t =
    let rest = run_task es (handle_event alive e t) in if t.is_running then rest else t
