-- ===== src/Core/Batching/Examples.antt =====
-- The theorems on the batcher at concrete inputs.
use rabia.Base.{ℕ, ◌≡◌, refl, true, List, [], ◌∷◌, ◌++◌, arith}
use rabia.Core.Types.{Command}
use rabia.Core.Batching.{
  BatchConfig, CommandBatcher, Request, arrive, force_flush, reconfigure, serve_all, new_batcher,
  BatcherTask, TaskEvent, received, tick, stats_request, run_task,
}
use rabia.Core.Batching.Order.{concat, serve_all-in_order}
use rabia.Core.Batching.Relay.{calls, attended, Relays, run_task-Relays}
use rabia.Core.Batching.Size.{AllBatches, IsCalm, serve_all-IsCalm, serve_all-never_adapts}

abbrev pairs : BatchConfig
pairs = record { max_batch_size = 2; max_batch_delay = 10; buffer_capacity = 5; adaptive = true }

abbrev order : ℕ → Command
order n = record { id = n; payload = n ∷ [] }

-- A batcher with one command that waits.
abbrev waiting : CommandBatcher
waiting = record (new_batcher 100 pairs) { buffer = order 1 ∷ [] }

-- A batch of two, one after a time-out, and one by force.
abbrev requests : List Request
requests = arrive 101 (order 2) ∷ arrive 120 (order 3) ∷ arrive 121 (order 4) ∷ force_flush 122 ∷ []

serve_all-in_order_example :
    let (cs, bs, t) = serve_all requests waiting in concat bs ++ t.buffer ≡ waiting.buffer ++ cs
serve_all-in_order_example = serve_all-in_order requests waiting

serve_all-IsCalm_example :
    AllBatches pairs ((serve_all requests waiting).1)
    × IsCalm pairs ((serve_all requests waiting).2)
serve_all-IsCalm_example =
    serve_all-IsCalm pairs requests waiting tt
      (refl, (refl, refl, omega arith), omega arith, omega arith)

serve_all-never_adapts_example :
    let (cs, bs, t) =
      serve_all
        (reconfigure (record pairs { max_batch_size = 3 }) ∷ requests)
        (new_batcher 100 pairs) in
    (t.adaptive_batch_size ≡ t.config.max_batch_size) × (t.stats.adaptive_adjustments ≡ 0)
serve_all-never_adapts_example =
    serve_all-never_adapts (reconfigure (record pairs { max_batch_size = 3 }) ∷ requests) 100 pairs

abbrev events : List TaskEvent
events = received 101 (order 2) ∷ stats_request ∷ received 103 (order 3) ∷ tick 110 ∷ []

abbrev batcher_task : BatcherTask
batcher_task = record { batcher = waiting; sent = []; is_running = true }

run_task-Relays_example :
    let (cs, bs, b) = serve_all (calls events) waiting in
    Relays batcher_task (bs, b) (run_task (attended events) batcher_task)
run_task-Relays_example = run_task-Relays events batcher_task refl
