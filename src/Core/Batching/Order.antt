-- ===== src/Core/Batching/Order.antt =====
-- The order of the commands that go through the batcher of rabia-core/src/batching.rs.
use rabia.Base.{
  ℕ, ◌-◌, ◌≡◌, refl, sym, ap, ◌∙◌, not, ◌&&◌, Option, none, some, List, [], ◌∷◌, ◌++◌, leb, arith,
  if_all, length, is_empty, take, take-append-drop,
}
use mathlib.Core.List.{append_assoc, append-nil}
use rabia.Core.Types.{Command}
use rabia.Core.Batching.{
  CommandBatcher, AddResult, Request, arrive, force_flush, reconfigure, current_batch_size,
  next_size, flushed, push_back, count_timeout, flush_batch, flush_if_due, add_command, flush,
  serve, serve_all, cons_some, taken, batch_of, adjust_adaptive_batch_size, update_batch_config,
}

abbrev pub concat {ℓ} : {A : Type ℓ} → List (List A) → List A
concat [] = []
concat (xs ∷ xss) = xs ++ concat xss

-- The commands of a batch that may be there.
abbrev pub handed {ℓ} : {A : Type ℓ} → Option (List A) → List A
handed none = []
handed (some xs) = xs

adjust-buffer : (b : CommandBatcher) → (adjust_adaptive_batch_size b).buffer ≡ b.buffer
unfolding adjust_adaptive_batch_size
adjust-buffer b = ground arith

-- A flush splits the buffer in two.
pub flush_batch-splits :
    (now : ℕ) (b : CommandBatcher)
    → (flush_batch now b).0 ++ (flush_batch now b).1.buffer ≡ b.buffer
unfolding flush_batch
flush_batch-splits now b =
    if_all (λ (c : CommandBatcher). take (next_size b) b.buffer ++ c.buffer ≡ b.buffer)
      b.config.adaptive _ _
      (λ h.
        ap (λ xs. take (next_size b) b.buffer ++ xs) (adjust-buffer (flushed now b))
        ∙ take-append-drop (next_size b) b.buffer)
      (λ h. take-append-drop (next_size b) b.buffer)

-- What is handed out and what still waits, one after the other.
abbrev pub InOrder : List Command → Option (List Command) × CommandBatcher → Type 0
InOrder xs (o, b) = handed o ++ b.buffer ≡ xs

flush_if_due-InOrder :
    (now : ℕ) (b : CommandBatcher)
    → InOrder b.buffer (batch_of (flush_if_due now b).0, (flush_if_due now b).1)
unfolding flush_if_due
flush_if_due-InOrder now b =
    if_all (λ (r : AddResult × CommandBatcher). InOrder b.buffer (batch_of r.0, r.1))
      (leb (current_batch_size b) (length b.buffer)) _ _ (λ h. flush_batch-splits now b)
      (λ h.
        if_all (λ (r : AddResult × CommandBatcher). InOrder b.buffer (batch_of r.0, r.1))
          (leb b.config.max_batch_delay (now - b.last_flush) && not (is_empty b.buffer)) _ _
          (λ k. flush_batch-splits now (count_timeout b)) (λ k. refl))

flush_if_due-taken :
    (now : ℕ) (c : Command) (b : CommandBatcher) → taken c (flush_if_due now b).0 ≡ c ∷ []
unfolding flush_if_due
flush_if_due-taken now c b = ground arith

pub serve-InOrder :
    (r : Request) (b : CommandBatcher)
    → let (cs, o, t) = serve r b in InOrder (b.buffer ++ cs) (o, t)
unfolding add_command flush update_batch_config
serve-InOrder (arrive now c) b =
    if_all
      (λ (r : AddResult × CommandBatcher). InOrder (b.buffer ++ taken c r.0) (batch_of r.0, r.1))
      (leb b.config.buffer_capacity (length b.buffer)) _ _ (λ h. sym (append-nil b.buffer))
      (λ h.
        flush_if_due-InOrder now (push_back c b)
        ∙ ap (λ cs. b.buffer ++ cs) (sym (flush_if_due-taken now c (push_back c b))))
serve-InOrder (force_flush now) b =
    if_all (λ (r : Option (List Command) × CommandBatcher). InOrder (b.buffer ++ []) r)
      (is_empty b.buffer) _ _ (λ h. sym (append-nil b.buffer))
      (λ h. flush_batch-splits now b ∙ sym (append-nil b.buffer))
serve-InOrder (reconfigure config) b = sym (append-nil b.buffer)

handed-concat :
    (o : Option (List Command)) (bs : List (List Command))
    → concat (cons_some o bs) ≡ handed o ++ concat bs
handed-concat none bs = refl
handed-concat (some xs) bs = refl

-- However commands arrive, flushes are forced and the configuration changes: the batches handed
-- out, one after the other, and then the commands that still wait are the commands that waited at
-- first and those that were taken, in the order of their arrival, without loss or repetition.
pub serve_all-in_order :
    (rs : List Request) (b : CommandBatcher)
    → let (cs, bs, t) = serve_all rs b in concat bs ++ t.buffer ≡ b.buffer ++ cs
serve_all-in_order [] b = sym (append-nil b.buffer)
serve_all-in_order (r ∷ rs) b =
    let (cs, o, t) = serve r b in
    let (ds, bs, u) = serve_all rs t in
    ap (λ xs. xs ++ u.buffer) (handed-concat o bs)
    ∙ append_assoc (handed o) (concat bs) u.buffer
    ∙ ap (λ xs. handed o ++ xs) (serve_all-in_order rs t)
    ∙ sym (append_assoc (handed o) t.buffer ds)
    ∙ ap (λ xs. xs ++ ds) (serve-InOrder r b)
    ∙ append_assoc b.buffer cs ds
