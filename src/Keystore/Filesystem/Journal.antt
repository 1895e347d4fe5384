-- ===== src/Keystore/Filesystem/Journal.antt =====
-- src/keystore/store/fs.rs: `create_dir`, and `recover`, which undoes a batch that has not been
-- committed.
use connexa.Prelude.{
  Bool, true, false, not, Option, none, some, List, [], ◌∷◌, Result, ok, err, Exec, pure, lift,
  ◌>>=◌, ◌>>◌, ensure, if◌then◌else◌, nat_beq, ◌==◌, list_eq, nat_eq,
}
use connexa.Keystore.Types.{
  Bytes, Label, IoError, conflicting_journals, unsupported_journal, invalid_journal_label,
  converted, not_found_file, exists_already,
}
use connexa.Keystore.Label.{validate_label}
use connexa.Keystore.Filesystem.{
  key, journal, journal_new, committed, restore, Folder, store_dir, work_dir, current_dir,
  JournalRecord, Cbor, FileSystem,
}

-- ".tmp"
abbrev pub work_name : Label
work_name = b'.' ∷ b't' ∷ b'm' ∷ b'p' ∷ []

abbrev pub to_io : {A : Type 0} → IoError → Option A → Result IoError A
to_io e none = err e
to_io e (some a) = ok a

-- The labels of a journal, checked before any file is restored.
unfoldable pub check_labels : List (Label × Option Bytes) → Result IoError (Unit {0})
check_labels [] = ok tt
check_labels ((label, original) ∷ originals) = elim (validate_label label) [
  | err e ↦ err converted
  | ok _ ↦ if label == work_name then err invalid_journal_label else check_labels originals
]

-- The innermost of the directories, or the current one.
abbrev pub parent_of : List Folder → Folder
parent_of [] = current_dir
parent_of (d ∷ parents) = d

module _ {F : Type 0} (fs : FileSystem F) where
  unfoldable pub make_and_sync : Folder → List Folder → Exec IoError F (Unit {0})
  make_and_sync dir parents = do
    made ← fs.make_dir dir
    present ← λ s. (ok (fs.is_dir dir s), s)
    ensure (if made then true else present) exists_already
    fs.sync_dir dir
    fs.sync_dir (parent_of parents)

  -- `create_dir`, on a directory and those that it lies in, the innermost first.
  unfoldable pub create_dir : List Folder → Exec IoError F (Unit {0})
  unfolding make_and_sync
  create_dir [] = pure tt
  create_dir (dir ∷ parents) =
      let rest = create_dir parents >> make_and_sync dir parents in
      λ s. if fs.is_dir dir s then (ok tt, s) else rest s

  unfoldable pub restore_one : Label → Option Bytes → Exec IoError F (Unit {0})
  restore_one label (some bytes) = do
    fs.unlink restore
    fs.write_new restore bytes
    fs.rename restore (key label)
  restore_one label none = do fs.unlink (key label); pure tt

  unfoldable pub restore_all : List (Label × Option Bytes) → Exec IoError F (Unit {0})
  restore_all [] = pure tt
  restore_all ((label, original) ∷ originals) = do restore_one label original; restore_all originals

  -- What `recover` does where there is a journal, once it is read.
  unfoldable pub undo : JournalRecord → Exec IoError F (Unit {0})
  undo record_found = do
    ensure (nat_beq record_found.version 1) unsupported_journal
    lift (check_labels record_found.originals)
    restore_all record_found.originals
    fs.sync_dir store_dir
    fs.unlink journal
    fs.sync_dir work_dir

  unfoldable pub roll_back : Cbor → Exec IoError F (Unit {0})
  roll_back cbor = do
    bytes ← fs.read journal
    found ← lift (to_io not_found_file bytes)
    decoded ← lift (to_io converted (cbor.decode_journal found))
    undo decoded

  unfoldable pub clean_up : Exec IoError F (Unit {0})
  clean_up = do
    fs.unlink committed
    fs.unlink journal_new
    fs.unlink restore
    fs.remove_staging
    fs.sync_dir work_dir

  -- Whether there are both a journal and a commit record.
  unfoldable pub conflict : Exec IoError F Bool
  conflict = do
    has_commit ← fs.exists committed
    if has_commit then fs.exists journal else pure false

  unfoldable pub recover : Cbor → Exec IoError F (Unit {0})
  recover cbor = do
    both ← conflict
    ensure (not both) conflicting_journals
    pending ← fs.exists journal
    if pending then roll_back cbor else pure tt
    clean_up
