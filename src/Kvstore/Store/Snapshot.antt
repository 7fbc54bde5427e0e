-- ===== src/Kvstore/Store/Snapshot.antt =====
-- `create_snapshot` and `restore_snapshot` of rabia-kvstore/src/store.rs, one after the other.
use rabia.Base.{ℕ, ◌≡◌, refl, List, [], ◌∷◌, arith, if◌then◌else◌, ==_refl}
use rabia.Base.Dict
use rabia.Base.Dict.{Dict, text_key, contains_key, insert, NoRepeat, get-insert, get-absent}
use rabia.Base.Text.{Str}
use rabia.Kvstore.Operations.{ok}
use rabia.Kvstore.Store.{ValueEntry, KvStore, load_all, fed, create_snapshot, restore_snapshot}
use rabia.Kvstore.Store.Invariant.{IsValid}

pub get-load_all :
    (k : Str) (d acc : Dict Str ValueEntry)
    → NoRepeat d
    → Dict.get k (load_all d acc) ≡ (if contains_key k d then Dict.get k d else Dict.get k acc)
get-load_all k [] acc h = refl
get-load_all k ((i, e) ∷ d) acc h =
    ground
      (arith, get-load_all k d (insert i e acc) h.1, get-insert i k e acc, text_key.same_iff k i)

-- A snapshot of a store can be restored into any store, the same or another, and every key then has
-- the entry, with its version and times, that it had in the store that the snapshot was taken of.
-- Taking it leaves the entries as they are.
pub restore-create_snapshot :
    (clock : ℕ → ℕ) (hash : List (Str × Str × ℕ) → ℕ) (s t : KvStore) (k : Str)
    → IsValid s
    → let taken = create_snapshot clock hash s in
      let restored = restore_snapshot clock hash taken.0 t in
      (restored.0 ≡ ok tt)
      × (Dict.get k restored.1.entries ≡ Dict.get k s.entries)
      × (restored.1.version ≡ s.version)
      × (taken.1.entries ≡ s.entries)
unfolding create_snapshot restore_snapshot
restore-create_snapshot clock hash s t k v =
    let checked = ==_refl (hash (fed s.entries)) in
    rw checked (
      refl,
      ground (arith, get-load_all k s.entries [] v.keys_distinct, get-absent k s.entries),
      refl,
      refl,
    )
