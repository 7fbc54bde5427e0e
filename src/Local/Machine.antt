-- ===== src/Local/Machine.antt =====
-- rabia-core/src/state_machine.rs: snapshots, and `InMemoryStateMachine`, a machine whose commands are
-- texts. Parameters are the crates' checksum and JSON encoding, `lossy`, which is
-- `String::from_utf8_lossy`, and `utf8`, the bytes of a text; a text is its characters.
pub mod Commands
pub mod Restore
use rabia.Base.{
  ℕ, ◌+◌, ◌%◌, Bool, true, false, not, List, [], ◌∷◌, Option, none, some, ◌==◌, if◌then◌else◌,
  u64_mod, is_some,
}
use rabia.Base.Dict
use rabia.Base.Dict.{Dict, text_key, bytes_eq, insert, remove}
use rabia.Base.Text.{Str, bytes}
use rabia.Core.Types.{Bytes, Command}
use rabia.Core.Error.{RabiaError, checksum_mismatch, Result, ok, err}
use rabia.Core.Message.{Snapshot}
use rabia.Engine.Runtime.{StateMachine}
use rabia.Local.Words.{split_whitespace}

pub record InMemoryStateMachine : Type 0 where
  pub state : Dict Str Bytes
  pub version : ℕ

-- `InMemoryStateMachine::new`
abbrev pub new_machine : InMemoryStateMachine
new_machine = record { state = []; version = 0 }

abbrev pub count_version : InMemoryStateMachine → InMemoryStateMachine
count_version s = record s { version = (s.version + 1) % u64_mod }

module _ (utf8 : Str → Bytes) where
  abbrev pub invalid : InMemoryStateMachine → Bytes × InMemoryStateMachine
  invalid s = (utf8 (bytes "ERROR: Invalid command"), s)

  abbrev pub set_word : Str → Str → InMemoryStateMachine → Bytes × InMemoryStateMachine
  set_word key value s =
      (utf8 (bytes "OK"), count_version (record s { state = insert key (utf8 value) s.state }))

  abbrev pub get_word : Str → InMemoryStateMachine → Bytes × InMemoryStateMachine
  get_word key s = elim (Dict.get key s.state) [
    | some value ↦ (value, s)
    | none ↦ (utf8 (bytes "NOT_FOUND"), s)
  ]

  abbrev pub delete_word : Str → InMemoryStateMachine → Bytes × InMemoryStateMachine
  delete_word key s =
      if is_some (Dict.get key s.state)
      then (utf8 (bytes "OK"), count_version (record s { state = remove key s.state }))
      else (utf8 (bytes "NOT_FOUND"), s)

  -- The match on the first word, with its guards on the number of words.
  abbrev pub apply_words : List Str → InMemoryStateMachine → Bytes × InMemoryStateMachine
  apply_words [] s = (utf8 (bytes "ERROR: Empty command"), s)
  apply_words (c ∷ key ∷ []) s =
      if bytes_eq c (bytes "GET")
      then get_word key s
      else if bytes_eq c (bytes "DEL")
      then delete_word key s
      else invalid s
  apply_words (c ∷ key ∷ value ∷ []) s =
      if bytes_eq c (bytes "SET") then set_word key value s else invalid s
  apply_words (c ∷ _) s = invalid s

  unfoldable pub apply_text :
      (Bytes → Str) → Command → InMemoryStateMachine → Bytes × InMemoryStateMachine
  apply_text lossy c s = apply_words (split_whitespace (lossy c.payload)) s

module _ (hash : Bytes → ℕ) where
  -- `Snapshot::new` and `verify_checksum`
  abbrev pub new_snapshot : ℕ → Bytes → Snapshot
  new_snapshot version payload = record {
    version = version;
    payload = payload;
    checksum = hash payload;
  }

  abbrev pub verify_checksum : Snapshot → Bool
  verify_checksum snapshot = hash snapshot.payload == snapshot.checksum

  abbrev pub take_snapshot_of :
      (Dict Str Bytes → Result Bytes) → InMemoryStateMachine → Result Snapshot
  take_snapshot_of to_json s = elim (to_json s.state) [
    | ok payload ↦ ok (new_snapshot s.version payload)
    | err e ↦ err e
  ]

  abbrev pub load_from :
      Result (Dict Str Bytes) → ℕ → InMemoryStateMachine → Result (Unit {0}) × InMemoryStateMachine
  load_from (ok state) version s = (ok tt, record { state = state; version = version })
  load_from (err e) version s = (err e, s)

  unfoldable pub restore_from :
      (Bytes → Result (Dict Str Bytes))
      → Snapshot
      → InMemoryStateMachine
      → Result (Unit {0}) × InMemoryStateMachine
  restore_from from_json snapshot s =
      if not (verify_checksum snapshot)
      then (err (checksum_mismatch snapshot.checksum (hash snapshot.payload)), s)
      else load_from (from_json snapshot.payload) snapshot.version s

-- The machine that an engine is given.
abbrev pub local_machine :
    (Str → Bytes)
    → (Bytes → Str)
    → (Bytes → ℕ)
    → (Dict Str Bytes → Result Bytes)
    → (Bytes → Result (Dict Str Bytes))
    → StateMachine InMemoryStateMachine
local_machine utf8 lossy hash to_json from_json = record {
  apply_command = λ s c. let (r, t) = apply_text utf8 lossy c s in (ok r, t);
  create_snapshot = take_snapshot_of hash to_json;
  restore_snapshot = λ s snapshot. restore_from hash from_json snapshot s;
}
