-- ===== src/Local/Persistence/Atomic.antt =====
-- The write to a temporary file and the renaming of rabia-persistence/src/file_system.rs.
use rabia.Base.{
  ◌⊎◌, inl, inr, ◌≡◌, ◌≢◌, refl, sym, ◌∙◌, ap, true, false, not, [], ◌∷◌, ◌++◌, Option, none, some,
  is_some, if◌then◌else◌,
}
use rabia.Base.Dict.{bytes_eq}
use rabia.Base.Text.{Str, bytes}
use rabia.Core.Types.{Bytes}
use rabia.Core.Error.{Result, ok, err, is_ok}
use rabia.Local.Persistence.{
  FilePath, IoError, other, FileSystem, FileSystemPersistence, state_file_path, temp_file_path,
  moved, written, save_file, loaded, load_file,
}

-- What is documented of the file system, where `content` is what stands in a file: writing a file
-- touches no other, and what is written stands there if no error is reported; renaming puts the one
-- file in the place of the other at once, or reports an error and touches neither; and a file that
-- exists is read as it is, or an error other than that it is missing is reported.
pub record Documented {D : Type 0} (fs : FileSystem D) (content : FilePath → D → Option Bytes)
    : Type 0 where
  pub write_apart :
      (p q : FilePath) (b : Bytes) (d : D) → q ≢ p → content q (fs.write_file p b d).1 ≡ content q d
  pub write_there :
      (p : FilePath) (b : Bytes) (d : D)
      → (fs.write_file p b d).0 ≡ none
      → content p (fs.write_file p b d).1 ≡ some b
  pub rename_there :
      (p q : FilePath) (d : D)
      → (fs.rename_file p q d).0 ≡ none
      → content q (fs.rename_file p q d).1 ≡ content p d
  pub rename_failed :
      (p q : FilePath) (d : D) (e : IoError)
      → (fs.rename_file p q d).0 ≡ some e
      → (r : FilePath) → content r (fs.rename_file p q d).1 ≡ content r d
  pub exists_there : (p : FilePath) (d : D) → fs.file_exists p d ≡ is_some (content p d)
  pub read_there :
      (p : FilePath) (d : D) (b : Bytes)
      → content p d ≡ some b
      → (fs.read_file p d ≡ inl b) ⊎ (fs.read_file p d ≡ inr other)

-- Two files of one directory.
append-cancel : (d : FilePath) (x y : Str) → d ++ x ∷ [] ≡ d ++ y ∷ [] → x ≡ y
append-cancel [] x y h = cc h
append-cancel (a ∷ d) x y h = append-cancel d x y (cc h)

state_is_not_temp : (f : FileSystemPersistence) → state_file_path f ≢ temp_file_path f
state_is_not_temp f h =
    let same = append-cancel f.data_dir (bytes "state.dat") (bytes "state.tmp") h in
    let eq : true ≡ false = ap (bytes_eq (bytes "state.dat")) same in absurd (cc eq)

-- The state file has the new state if there is no error, and what it had if there is one.
abbrev pub IsAtomic :
    {D : Type 0}
    → (FilePath → D → Option Bytes)
    → FileSystemPersistence
    → Bytes
    → D
    → Result (Unit {0}) × D
    → Type 0
IsAtomic content f b d (ok u, d') = content (state_file_path f) d' ≡ some b
IsAtomic content f b d (err e, d') = content (state_file_path f) d' ≡ content (state_file_path f) d

module _ {D : Type 0} (fs : FileSystem D) (content : FilePath → D → Option Bytes)
    (law : Documented fs content) where
  moved-IsAtomic :
      (f : FileSystemPersistence) (b : Bytes) (d t : D) (r : Option IoError × D)
      → fs.rename_file (temp_file_path f) (state_file_path f) t ≡ r
      → content (temp_file_path f) t ≡ some b
      → content (state_file_path f) t ≡ content (state_file_path f) d
      → IsAtomic content f b d (moved fs r)
  moved-IsAtomic f b d t (none, u) h there same =
      ap (λ x. content (state_file_path f) x.1) (sym h)
      ∙ law.rename_there (temp_file_path f) (state_file_path f) t (ap (λ x. x.0) h)
      ∙ there
  moved-IsAtomic f b d t (some e, u) h there same =
      ap (λ x. content (state_file_path f) x.1) (sym h)
      ∙ law.rename_failed (temp_file_path f) (state_file_path f) t e (ap (λ x. x.0) h)
          (state_file_path f)
      ∙ same

  written-IsAtomic :
      (f : FileSystemPersistence) (b : Bytes) (d : D) (r : Option IoError × D)
      → fs.write_file (temp_file_path f) b d ≡ r
      → IsAtomic content f b d (written fs f r)
  written-IsAtomic f b d (none, t) h =
      moved-IsAtomic f b d t _ refl
        (ap (λ x. content (temp_file_path f) x.1) (sym h)
          ∙ law.write_there (temp_file_path f) b d (ap (λ x. x.0) h))
        (ap (λ x. content (state_file_path f) x.1) (sym h)
          ∙ law.write_apart (temp_file_path f) (state_file_path f) b d (state_is_not_temp f))
  written-IsAtomic f b d (some e, t) h =
      ap (λ x. content (state_file_path f) x.1) (sym h)
      ∙ law.write_apart (temp_file_path f) (state_file_path f) b d (state_is_not_temp f)

  -- On a file system that does what is documented, `save_state` leaves the new state in the state
  -- file if it succeeds, and the old one, untouched, if it reports an error at any point.
  pub save_file-IsAtomic :
      (f : FileSystemPersistence) (b : Bytes) (d : D) → IsAtomic content f b d (save_file fs f b d)
  unfolding save_file
  save_file-IsAtomic f b d = written-IsAtomic f b d _ refl

  saved-there :
      (f : FileSystemPersistence) (b : Bytes) (d : D) (r : Result (Unit {0}) × D)
      → r.0 ≡ ok tt
      → IsAtomic content f b d r
      → content (state_file_path f) r.1 ≡ some b
  saved-there f b d (ok u, t) h a = a
  saved-there f b d (err e, t) h a = absurd (cc h)

  load_file-there :
      (f : FileSystemPersistence) (b : Bytes) (d : D)
      → content (state_file_path f) d ≡ some b
      → (load_file fs f d ≡ ok (some b)) ⊎ (is_ok (load_file fs f d) ≡ false)
  unfolding load_file
  load_file-there f b d h =
      let there = law.exists_there (state_file_path f) d ∙ ap is_some h in
      let reads =
        ap (λ x. if not x then ok none else loaded fs (fs.read_file (state_file_path f) d)) there in
      elim (law.read_there (state_file_path f) d b h) [
        | inl q ↦ inl (reads ∙ ap (loaded fs) q)
        | inr q ↦ inr (ap is_ok (reads ∙ ap (loaded fs) q))
      ]

  -- On such a file system, `load_state` after a `save_state` that has succeeded either returns the
  -- state that was saved or reports an error; it never returns another state, or none.
  pub load_file-save_file :
      (f : FileSystemPersistence) (b : Bytes) (d : D)
      → (save_file fs f b d).0 ≡ ok tt
      → (load_file fs f (save_file fs f b d).1 ≡ ok (some b))
        ⊎ (is_ok (load_file fs f (save_file fs f b d).1) ≡ false)
  load_file-save_file f b d h =
      load_file-there f b (save_file fs f b d).1
        (saved-there f b d (save_file fs f b d) h (save_file-IsAtomic f b d))
