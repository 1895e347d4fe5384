-- ===== src/Keystore/Filesystem.antt =====
-- src/keystore/store/fs.rs: what the file keystore asks of the file system and of the CBOR library.
-- Paths are those below the store's directory: `key l` is the file of the label `l` there, the rest
-- lies in its work directory `.tmp`. A directory comes with those that it lies in.
pub mod Journal
pub mod Batch
pub mod Store
pub mod Disk
pub mod Undo
pub mod Recovery
pub mod Staging
pub mod Encoding
pub mod Atomic
pub mod Commit
pub mod Access
pub mod Listing
pub mod Crash
use connexa.Prelude.{
  ℕ, Bool, true, false, Option, List, Exec, Eq, ◌==◌, ◌≡◌, ◌↔◌, nat_beq, list_eq, nat_eq, arith,
  list_beq_iff, nat_beq_iff,
}
use connexa.Keystore.Types.{Bytes, Label, IoError, EncryptedEntry}

pub data FilePath : Type 0 where
  key : Label → FilePath
  journal journal_new committed restore : FilePath
  staged : ℕ → FilePath

abbrev pub path_beq : FilePath → FilePath → Bool
path_beq (key l) (key m) = l == m
path_beq journal journal = true
path_beq journal_new journal_new = true
path_beq committed committed = true
path_beq restore restore = true
path_beq (staged i) (staged j) = nat_beq i j
path_beq _ _ = false

pub data Folder : Type 0 where
  store_dir work_dir staging_dir current_dir : Folder
  outer : ℕ → Folder

pub data FileKind : Type 0 where
  regular directory other_kind : FileKind

abbrev pub is_file : FileKind → Bool
is_file regular = true
is_file _ = false

pub record DirEntry : Type 0 where
  pub file_name : Label
  pub kind : FileKind

-- `Journal`
pub record JournalRecord : Type 0 where
  pub version : ℕ
  pub originals : List (Label × Option Bytes)

-- `cbor4ii::serde`
pub record Cbor : Type 0 where
  pub encode_entry : EncryptedEntry → Option Bytes
  pub decode_entry : Bytes → Option EncryptedEntry
  pub encode_journal : JournalRecord → Option Bytes
  pub decode_journal : Bytes → Option JournalRecord

-- `std::fs`. A file that is not there is no error here: `read` then gives nothing, and `unlink` says
-- whether there was one. `make_dir` says whether it made the directory, which may be there already.
-- `is_dir`, and `kind` of a label's path, count an error as a no.
-- `read_dir` is the whole iteration, with the kinds of the entries.
pub record FileSystem (F : Type 0) : Type 0 where
  pub store_exists : Exec IoError F Bool
  pub exists : FilePath → Exec IoError F Bool
  pub is_dir : Folder → F → Bool
  pub make_dir : Folder → Exec IoError F Bool
  pub sync_dir : Folder → Exec IoError F (Unit {0})
  pub acquire_lock : Exec IoError F (Unit {0})
  pub kind : Label → F → Option FileKind
  pub read : FilePath → Exec IoError F (Option Bytes)
  pub write_new : FilePath → Bytes → Exec IoError F (Unit {0})
  pub rename : FilePath → FilePath → Exec IoError F (Unit {0})
  pub unlink : FilePath → Exec IoError F Bool
  pub remove_staging : Exec IoError F (Unit {0})
  pub read_dir : Exec IoError F (List DirEntry)
