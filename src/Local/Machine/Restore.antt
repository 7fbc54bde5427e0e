-- ===== src/Local/Machine/Restore.antt =====
-- Snapshots of `InMemoryStateMachine` (rabia-core/src/state_machine.rs).
use mathlib.Core.Path.{subst}
use rabia.Base.{ℕ, ◌≡◌, refl, ap, ◌∙◌, not, ==_refl, if◌then◌else◌, if_all}
use rabia.Base.Dict.{Dict}
use rabia.Base.Text.{Str}
use rabia.Core.Types.{Bytes}
use rabia.Core.Error.{RabiaError, checksum_mismatch, Result, ok, err}
use rabia.Core.Message.{Snapshot}
use rabia.Local.Machine.{
  InMemoryStateMachine, new_snapshot, verify_checksum, take_snapshot_of, load_from, restore_from,
}

module _ (hash : Bytes → ℕ) (to_json : Dict Str Bytes → Result Bytes)
    (from_json : Bytes → Result (Dict Str Bytes)) where
  restore_from-new_snapshot :
      (d : Dict Str Bytes) (version : ℕ) (b : Bytes) (t : InMemoryStateMachine)
      → from_json b ≡ ok d
      → restore_from hash from_json (new_snapshot hash version b) t
        ≡ (ok tt, record { state = d; version = version })
  unfolding restore_from
  restore_from-new_snapshot d version b t h =
      ap
        (λ x.
          if not x
          then (err (checksum_mismatch (hash b) (hash b)), t)
          else load_from hash (from_json b) version t)
        (==_refl (hash b))
      ∙ ap (λ x. load_from hash x version t) h

  -- If the JSON encoding reads back what it has written, then a machine that is restored from a
  -- snapshot of another, which was taken without an error, is that other machine.
  pub restore_from-take_snapshot_of :
      ((d : Dict Str Bytes) (b : Bytes) → to_json d ≡ ok b → from_json b ≡ ok d)
      → (s t : InMemoryStateMachine) (snapshot : Snapshot)
      → take_snapshot_of hash to_json s ≡ ok snapshot
      → restore_from hash from_json snapshot t ≡ (ok tt, s)
  restore_from-take_snapshot_of reads s t snapshot h = go (to_json s.state) refl h
    where
      go :
          (r : Result Bytes)
          → to_json s.state ≡ r
          → elim r [ ok payload ↦ ok (new_snapshot hash s.version payload) | err e ↦ err e ]
            ≡ ok snapshot
          → restore_from hash from_json snapshot t ≡ (ok tt, s)
      go (ok payload) e k =
          let same : new_snapshot hash s.version payload ≡ snapshot = cc k in
          subst (λ x. restore_from hash from_json x t ≡ (ok tt, s)) same
            (restore_from-new_snapshot s.state s.version payload t (reads s.state payload e))
      go (err x) e k = absurd (cc k)

  load_from_error :
      (r : Result (Dict Str Bytes)) (version : ℕ) (s : InMemoryStateMachine) (e : RabiaError)
      → (load_from hash r version s).0 ≡ err e
      → (load_from hash r version s).1 ≡ s
  load_from_error (ok d) version s e h = absurd (cc h)
  load_from_error (err x) version s e h = refl

  -- A snapshot that is refused, for its checksum or because its data cannot be read, leaves the
  -- machine as it was.
  pub restore_from_error :
      (snapshot : Snapshot) (s : InMemoryStateMachine) (e : RabiaError)
      → (restore_from hash from_json snapshot s).0 ≡ err e
      → (restore_from hash from_json snapshot s).1 ≡ s
  unfolding restore_from
  restore_from_error snapshot s e =
      if_all (λ (r : Result (Unit {0}) × InMemoryStateMachine). r.0 ≡ err e → r.1 ≡ s)
        (not (verify_checksum hash snapshot)) _ _ (λ _ _. refl)
        (λ _ h. load_from_error (from_json snapshot.payload) snapshot.version s e h)
