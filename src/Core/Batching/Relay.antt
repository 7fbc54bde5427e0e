-- ===== src/Core/Batching/Relay.antt =====
-- The task of `AsyncCommandBatcher::new` in rabia-core/src/batching.rs beside the batcher alone.
use mathlib.Core.Path.{subst}
use rabia.Base.{
  ◌≡◌, refl, sym, ap, ◌∙◌, Bool, true, false, Option, none, some, List, [], ◌∷◌, ◌++◌,
  if◌then◌else◌,
}
use mathlib.Core.List.{append_assoc, append-nil}
use rabia.Core.Types.{Command}
use rabia.Core.Batching.{
  CommandBatcher, Request, arrive, force_flush, serve_all, cons_some, TaskEvent, received, tick,
  senders_dropped, stats_request, BatcherTask, send_batch, handle_event, run_task, add_command,
  flush, batch_of,
}

-- The calls that the events make, as long as both ends of the channels are held.
abbrev pub calls : List TaskEvent → List Request
calls [] = []
calls (received now c ∷ es) = arrive now c ∷ calls es
calls (tick now ∷ es) = force_flush now ∷ calls es
calls (senders_dropped ∷ es) = []
calls (stats_request ∷ es) = calls es

abbrev pub attended : List TaskEvent → List (Bool × TaskEvent)
attended [] = []
attended (e ∷ es) = (true, e) ∷ attended es

-- The state of the task after `serve_all` has answered.
abbrev pub Relays : BatcherTask → List (List Command) × CommandBatcher → BatcherTask → Type 0
Relays t (bs, b) u = (u.sent ≡ t.sent ++ bs) × (u.batcher ≡ b)

send_batch-Relays :
    (o : Option (List Command)) (bs : List (List Command)) (b c : CommandBatcher)
    (t u : BatcherTask)
    → Relays (send_batch true o (record t { batcher = b })) (bs, c) u
    → Relays t (cons_some o bs, c) u
send_batch-Relays none bs b c t u h = h
send_batch-Relays (some xs) bs b c t u h = (h.0 ∙ append_assoc t.sent (xs ∷ []) bs, h.1)

send_batch-batcher :
    (o : Option (List Command)) (t : BatcherTask) → (send_batch true o t).batcher ≡ t.batcher
send_batch-batcher none t = refl
send_batch-batcher (some xs) t = refl

send_batch-is_running :
    (o : Option (List Command)) (t : BatcherTask) → (send_batch true o t).is_running ≡ t.is_running
send_batch-is_running none t = refl
send_batch-is_running (some xs) t = refl

run_task-stopped :
    (es : List (Bool × TaskEvent)) (t : BatcherTask) → t.is_running ≡ false → run_task es t ≡ t
unfolding run_task
run_task-stopped [] t h = refl
run_task-stopped ((a, e) ∷ es) t h = ap (λ b. if b then run_task es (handle_event a e t) else t) h

run_task-running :
    (e : TaskEvent) (es : List TaskEvent) (t : BatcherTask)
    → t.is_running ≡ true
    → run_task (attended (e ∷ es)) t ≡ run_task (attended es) (handle_event true e t)
unfolding run_task
run_task-running e es t h =
    ap (λ b. if b then run_task (attended es) (handle_event true e t) else t) h

run_task-none : (t : BatcherTask) → Relays t ([], t.batcher) (run_task [] t)
unfolding run_task
run_task-none t = (sym (append-nil t.sent), refl)

-- What is claimed of the rest of the events, and of one event before them.
abbrev Rest : List TaskEvent → BatcherTask → Type 0
Rest es t =
    let (cs, bs, b) = serve_all (calls es) t.batcher in Relays t (bs, b) (run_task (attended es) t)

send_batch-Rest :
    (o : Option (List Command)) (b : CommandBatcher) (es : List TaskEvent) (t : BatcherTask)
    → let u = send_batch true o (record t { batcher = b }) in
      Rest es u
      → Relays t
          (cons_some o (serve_all (calls es) b).1, (serve_all (calls es) b).2)
          (run_task (attended es) u)
send_batch-Rest o b es t h =
    let u = send_batch true o (record t { batcher = b }) in
    send_batch-Relays o _ b _ t (run_task (attended es) u) (
      subst
        (λ x.
          Relays u ((serve_all (calls es) x).1, (serve_all (calls es) x).2)
            (run_task (attended es) u))
        (send_batch-batcher o (record t { batcher = b })) h)

-- A running task whose receiver stays sends the batches that its batcher hands out for the commands
-- and ticks that arrive before the senders are dropped, in that order, and leaves the batcher as
-- those calls leave it.
pub run_task-Relays :
    (es : List TaskEvent) (t : BatcherTask)
    → t.is_running ≡ true
    → let (cs, bs, b) = serve_all (calls es) t.batcher in
      Relays t (bs, b) (run_task (attended es) t)
run_task-Relays [] t h = run_task-none t
run_task-Relays (received now c ∷ es) t h =
    let (r, b) = add_command now c t.batcher in
    let u = send_batch true (batch_of r) (record t { batcher = b }) in
    subst (Relays t _) (sym (run_task-running (received now c) es t h)) (
      send_batch-Rest (batch_of r) b es t
        (run_task-Relays es u (send_batch-is_running (batch_of r) (record t { batcher = b }) ∙ h)))
run_task-Relays (tick now ∷ es) t h =
    let (o, b) = flush now t.batcher in
    let u = send_batch true o (record t { batcher = b }) in
    subst (Relays t _) (sym (run_task-running (tick now) es t h)) (
      send_batch-Rest o b es t
        (run_task-Relays es u (send_batch-is_running o (record t { batcher = b }) ∙ h)))
run_task-Relays (senders_dropped ∷ es) t h =
    subst (Relays t ([], t.batcher))
      (sym (
        run_task-running senders_dropped es t h
        ∙ run_task-stopped (attended es) (record t { is_running = false }) refl))
      (sym (append-nil t.sent), refl)
run_task-Relays (stats_request ∷ es) t h =
    subst (Relays t _) (sym (run_task-running stats_request es t h)) (run_task-Relays es t h)
