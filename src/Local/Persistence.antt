-- ===== src/Local/Persistence.antt =====
-- rabia-persistence/src: the two layers that keep the state of an engine, in memory (in_memory.rs) and
-- in a file (file_system.rs). The file system is a parameter over the states `D` of a disk.
pub mod Atomic
use rabia.Base.{
  ◌⊎◌, inl, inr, Bool, true, false, not, List, [], ◌∷◌, ◌++◌, Option, none, some, if◌then◌else◌,
}
use rabia.Base.Text.{Str, bytes}
use rabia.Core.Types.{Bytes}
use rabia.Core.Error.{RabiaError, persistence, text, Result, ok, err}

-- The lock of `InMemoryPersistence` is held for one operation.
pub record InMemoryPersistence : Type 0 where
  pub state : Option Bytes

abbrev pub keep_state : Bytes → InMemoryPersistence → Result (Unit {0}) × InMemoryPersistence
keep_state state m = (ok tt, record m { state = some state })

abbrev pub kept_state : InMemoryPersistence → Result (Option Bytes)
kept_state m = ok m.state

-- The names on the way to a file.
abbrev pub FilePath : Type 0
FilePath = List Str

pub data IoError : Type 0 where
  not_found other : IoError

-- What the code calls of `tokio::fs` and `std::path`.
pub record FileSystem (D : Type 0) : Type 0 where
  pub file_exists : FilePath → D → Bool
  pub create_dir_all : FilePath → D → Option IoError × D
  pub write_file : FilePath → Bytes → D → Option IoError × D
  pub rename_file : FilePath → FilePath → D → Option IoError × D
  pub read_file : FilePath → D → Bytes ⊎ IoError

pub record FileSystemPersistence : Type 0 where
  pub data_dir : FilePath

-- `data_dir.join("state.dat")`, and what `with_extension("tmp")` makes of it.
abbrev pub state_file_path : FileSystemPersistence → FilePath
state_file_path f = f.data_dir ++ bytes "state.dat" ∷ []

abbrev pub temp_file_path : FileSystemPersistence → FilePath
temp_file_path f = f.data_dir ++ bytes "state.tmp" ∷ []

module _ {D : Type 0} (fs : FileSystem D) where
  abbrev pub opened : FilePath → Option IoError × D → Result FileSystemPersistence × D
  opened dir (none, d) = (ok (record { data_dir = dir }), d)
  opened dir (some e, d) = (err (persistence (text "Failed to create data directory: {}")), d)

  -- `FileSystemPersistence::new`
  unfoldable pub open_dir : FilePath → D → Result FileSystemPersistence × D
  open_dir dir d = opened dir (if fs.file_exists dir d then (none, d) else fs.create_dir_all dir d)

  -- The end of `save_state`, and what follows the writing of the temporary file.
  abbrev pub moved : Option IoError × D → Result (Unit {0}) × D
  moved (none, d) = (ok tt, d)
  moved (some e, d) = (err (persistence (text "Failed to rename temp file to state file: {}")), d)

  abbrev pub written : FileSystemPersistence → Option IoError × D → Result (Unit {0}) × D
  written f (none, d) = moved (fs.rename_file (temp_file_path f) (state_file_path f) d)
  written f (some e, d) = (err (persistence (text "Failed to write state to temp file: {}")), d)

  unfoldable pub save_file : FileSystemPersistence → Bytes → D → Result (Unit {0}) × D
  save_file f state d = written f (fs.write_file (temp_file_path f) state d)

  abbrev pub loaded : Bytes ⊎ IoError → Result (Option Bytes)
  loaded (inl b) = ok (some b)
  loaded (inr not_found) = ok none
  loaded (inr other) = err (persistence (text "Failed to read state file: {}"))

  unfoldable pub load_file : FileSystemPersistence → D → Result (Option Bytes)
  load_file f d =
      if not (fs.file_exists (state_file_path f) d)
      then ok none
      else loaded (fs.read_file (state_file_path f) d)
