-- ===== src/Local/Examples.antt =====
-- The theorems on the local machine and on persistence at concrete inputs.
use rabia.Base.{
  ℕ, ◌≡◌, ◌≢◌, refl, ap, Bool, true, false, ◌&&◌, List, [], ◌∷◌, Option, none, some, is_some, inl,
  inr, ◌↔◌, if◌then◌else◌, if_all, arith, length,
}
use rabia.Base.Dict.{Dict, bytes_eq, bytes_eq_iff}
use rabia.Base.Text.{Str, bytes}
use rabia.Core.Types.{Bytes, Command}
use rabia.Core.Error.{Result, ok, err, checksum_mismatch}
use rabia.Engine.Runtime.{apply_commands}
use rabia.Local.Machine.{new_machine, local_machine}
use rabia.Local.Machine.Commands.{
  TextCommand, AllSay, set, get, delete, view, spec_all, apply_commands_refines,
}
use rabia.Local.Words.{IsWord}
use rabia.Local.Persistence.{FilePath, not_found, FileSystem, FileSystemPersistence, save_file}
use rabia.Local.Persistence.Atomic.{Documented, IsAtomic, save_file-IsAtomic}

-- ASCII text is its own encoding; the encoding of a map keeps its first key, so it is read back only
-- for the empty map and is refused for others.
abbrev same_text : Str → Str
same_text s = s

abbrev sum : Bytes → ℕ
sum b = length b

abbrev write_empty : Dict Str Bytes → Result Bytes
write_empty [] = ok (123 ∷ 125 ∷ [])
write_empty (e ∷ d) = err (checksum_mismatch 0 0)

abbrev read_empty : Bytes → Result (Dict Str Bytes)
read_empty b = ok []

abbrev order : Str → Command
order s = record { id = 1; payload = s }

abbrev orders : List Command
orders =
    order (bytes "SET a x")
    ∷ order (bytes "GET a")
    ∷ order (bytes "DEL a")
    ∷ order (bytes "GET a")
    ∷ []

abbrev meant : List TextCommand
meant = set (bytes "a") (bytes "x") ∷ get (bytes "a") ∷ delete (bytes "a") ∷ get (bytes "a") ∷ []

set-IsWord : IsWord (bytes "SET")
set-IsWord = (refl, (refl, (refl, (refl, tt))))

get-IsWord : IsWord (bytes "GET")
get-IsWord = (refl, (refl, (refl, (refl, tt))))

del-IsWord : IsWord (bytes "DEL")
del-IsWord = (refl, (refl, (refl, (refl, tt))))

a-IsWord : IsWord (bytes "a")
a-IsWord = (refl, (refl, tt))

x-IsWord : IsWord (bytes "x")
x-IsWord = (refl, (refl, tt))

orders-said : AllSay same_text orders meant
orders-said = (
  (refl, (set-IsWord, (a-IsWord, (x-IsWord, tt)))),
  (
    (refl, (get-IsWord, (a-IsWord, tt))),
    ((refl, (del-IsWord, (a-IsWord, tt))), ((refl, (get-IsWord, (a-IsWord, tt))), tt)),
  ),
)

apply_commands_refines_example :
    let spec = spec_all same_text meant (view new_machine) in
    let r =
      apply_commands
        (local_machine same_text same_text sum write_empty read_empty)
        orders
        new_machine in
    (r.0 ≡ ok spec.0) × (view r.1 ≡ spec.1)
apply_commands_refines_example =
    apply_commands_refines same_text same_text sum write_empty read_empty orders meant new_machine
      orders-said tt

-- A disk that finds every file by its path.
path_eq : FilePath → FilePath → Bool
path_eq [] [] = true
path_eq (a ∷ p) (b ∷ q) = bytes_eq a b && path_eq p q
path_eq _ _ = false

path_eq_iff : (p q : FilePath) → (path_eq p q ≡ true) ↔ (p ≡ q)
unfolding path_eq
path_eq_iff [] [] = (λ h. refl, λ h. refl)
path_eq_iff [] (b ∷ q) = (λ h. absurd (cc), λ h. absurd (cc))
path_eq_iff (a ∷ p) [] = (λ h. absurd (cc), λ h. absurd (cc))
path_eq_iff (a ∷ p) (b ∷ q) =
    let rest = path_eq_iff p q in
    let first = bytes_eq_iff a b in
    (λ h. ground (arith, rest.0, first.0), λ h. ground (arith, rest.1, first.1))

abbrev Disk : Type 0
Disk = FilePath → Option Bytes

abbrev put : FilePath → Option Bytes → Disk → Disk
put p b d q = if path_eq q p then b else d q

abbrev plain_disk : FileSystem Disk
plain_disk = record {
  file_exists = λ p d. is_some (d p);
  create_dir_all = λ p d. (none, d);
  write_file = λ p b d. (none, put p (some b) d);
  rename_file = λ p q d. (none, put q (d p) d);
  read_file = λ p d. elim (d p) [ some b ↦ inl b | none ↦ inr not_found ];
}

put-same : (p : FilePath) (b : Option Bytes) (d : Disk) → put p b d p ≡ b
put-same p b d = ap (λ x. if x then b else d p) ((path_eq_iff p p).1 refl)

put-other : (p q : FilePath) (b : Option Bytes) (d : Disk) → q ≢ p → put p b d q ≡ d q
put-other p q b d h =
    if_all (λ x. x ≡ d q) (path_eq q p) _ _ (λ e. absurd (h ((path_eq_iff q p).0 e))) (λ _. refl)

abbrev content : FilePath → Disk → Option Bytes
content p d = d p

plain_disk-Documented : Documented plain_disk content
plain_disk-Documented = record {
  write_apart = λ p q b d h. put-other p q (some b) d h;
  write_there = λ p b d h. put-same p (some b) d;
  rename_there = λ p q d h. put-same q (d p) d;
  rename_failed = λ p q d e h. absurd (cc h);
  exists_there = λ p d. refl;
  read_there = λ p d b h. inl (ap (λ o. elim o [ some x ↦ inl x | none ↦ inr not_found ]) h);
}

abbrev home : FileSystemPersistence
home = record { data_dir = bytes "home" ∷ [] }

abbrev empty_disk : Disk
empty_disk p = none

save_file-IsAtomic_example :
    IsAtomic content home
      (1 ∷ 2 ∷ [])
      empty_disk
      (save_file plain_disk home (1 ∷ 2 ∷ []) empty_disk)
save_file-IsAtomic_example =
    save_file-IsAtomic plain_disk content plain_disk-Documented home (1 ∷ 2 ∷ []) empty_disk
