-- ===== src/Keystore/Filesystem/Batch.antt =====
-- src/keystore/store/fs.rs: `prepare` and `commit_batch`.
use connexa.Prelude.{
  ℕ, suc, Bool, true, false, Option, none, some, List, [], ◌∷◌, map, Result, ok, err, Exec, pure,
  lift, gets, ◌>>=◌, ◌>>◌, ensure, map_err, if◌then◌else◌, ltb, nat_beq, ◌&&◌, ◌||◌, list_eq,
  nat_eq,
}
use connexa.Dict.{Dict, has, insert}
use connexa.Keystore.Types.{
  Bytes, Label, Error, backend, IoError, not_a_file, converted, recovery_failed, EncryptedEntry,
}
use connexa.Keystore.Label.{validate_label}
use connexa.Keystore.Filesystem.{
  key, journal, journal_new, committed, staged, Folder, store_dir, work_dir, staging_dir, FileKind,
  regular, Cbor, FileSystem,
}
use connexa.Keystore.Filesystem.Journal.{to_io, create_dir, recover}

-- The order of labels, byte by byte.
unfoldable pub label_lt : Label → Label → Bool
label_lt [] [] = false
label_lt [] (b ∷ m) = true
label_lt (a ∷ l) [] = false
label_lt (a ∷ l) (b ∷ m) = ltb a b || (nat_beq a b && label_lt l m)

unfoldable pub place : Label → Bytes → Dict Label Bytes → Dict Label Bytes
place l v [] = (l, v) ∷ []
place l v ((j, w) ∷ m) =
    let rest = place l v m in if label_lt l j then (l, v) ∷ (j, w) ∷ m else (j, w) ∷ rest

-- `BTreeMap::insert`
unfoldable pub put_sorted : Label → Bytes → Dict Label Bytes → Dict Label Bytes
unfolding place
put_sorted l v m = if has l m then insert l v m else place l v m

-- No file, or a regular one.
unfoldable pub may_hold_key : Option FileKind → Bool
may_hold_key none = true
may_hold_key (some regular) = true
may_hold_key (some _) = false

module _ {F : Type 0} (fs : FileSystem F) (cbor : Cbor) (parents : List Folder) where
  -- The first loop of `prepare`
  unfoldable pub encode_entries :
      List EncryptedEntry → Dict Label Bytes → Exec Error F (Dict Label Bytes)
  encode_entries [] encoded = pure encoded
  encode_entries (entry ∷ entries) encoded = do
    lift (validate_label entry.metadata.label)
    kind ← gets (fs.kind entry.metadata.label)
    ensure (may_hold_key kind) (backend not_a_file)
    bytes ← map_err backend (lift (to_io converted (cbor.encode_entry entry)))
    encode_entries entries (put_sorted entry.metadata.label bytes encoded)

  -- The second loop: the files that will replace others, and what these held.
  unfoldable pub stage : ℕ → Dict Label Bytes → Exec IoError F (List (Label × Option Bytes))
  stage index [] = pure []
  stage index ((label, bytes) ∷ encoded) = do
    old ← fs.read (key label)
    fs.write_new (staged index) bytes
    originals ← stage (suc index) encoded
    pure ((label, old) ∷ originals)

  unfoldable pub write_journal : List (Label × Option Bytes) → Exec IoError F (Unit {0})
  write_journal originals = do
    fs.sync_dir staging_dir
    bytes ←
        lift (to_io converted (cbor.encode_journal (record { version = 1; originals = originals })))
    fs.write_new journal_new bytes
    fs.rename journal_new journal
    fs.sync_dir work_dir

  unfoldable pub prepare_files : Dict Label Bytes → Exec IoError F (Unit {0})
  prepare_files encoded = do
    create_dir fs (staging_dir ∷ work_dir ∷ store_dir ∷ parents)
    originals ← stage 0 encoded
    write_journal originals

  -- `prepare`
  unfoldable pub prepare : List EncryptedEntry → Exec Error F (List Label)
  prepare entries = do
    encoded ← encode_entries entries []
    map_err backend (prepare_files encoded)
    pure (map (λ kv. kv.0) encoded)

  unfoldable pub rollback_error : Error → Exec Error F (Unit {0})
  rollback_error error s =
      let (recovery, s') = recover fs cbor s in
      elim recovery [ ok _ ↦ (err error, s') | err _ ↦ (err (backend recovery_failed), s') ]

  -- The loop over the labels; `after_replace` is the callback of `commit_batch`.
  unfoldable pub replace_each :
      (ℕ → Result IoError (Unit {0})) → ℕ → List Label → Exec IoError F (Unit {0})
  replace_each after_replace index [] = pure tt
  replace_each after_replace index (label ∷ labels) = do
    fs.rename (staged index) (key label)
    lift (after_replace index)
    replace_each after_replace (suc index) labels

  unfoldable pub apply : (ℕ → Result IoError (Unit {0})) → List Label → Exec IoError F (Unit {0})
  apply after_replace labels = do
    replace_each after_replace 0 labels
    fs.sync_dir store_dir
    fs.rename journal committed

  -- The end of `commit_batch`: a failure of the clean-up is left to the next access.
  unfoldable pub conclude : Exec Error F (Unit {0})
  conclude = do map_err backend (fs.sync_dir work_dir); λ s. (ok tt, (recover fs cbor s).1)

  -- `commit_batch` behind `prepare`
  unfoldable pub replace_prepared :
      (ℕ → Result IoError (Unit {0})) → Result Error (List Label) → Exec Error F (Unit {0})
  replace_prepared after_replace (err error) s = rollback_error error s
  replace_prepared after_replace (ok labels) s =
      let (applied, s') = apply after_replace labels s in
      elim applied [ ok _ ↦ conclude s' | err error ↦ rollback_error (backend error) s' ]

  unfoldable pub commit_batch :
      (ℕ → Result IoError (Unit {0})) → List EncryptedEntry → Exec Error F (Unit {0})
  unfolding replace_prepared
  commit_batch after_replace entries s =
      let (prepared, s') = prepare entries s in replace_prepared after_replace prepared s'
