-- ===== src/Keystore/Filesystem/Store.antt =====
-- src/keystore/store/fs.rs: `FilesystemKeystore` as a backend of a keychain. Every access runs alone,
-- under the lock file; the blocking task that runs it does not panic.
use connexa.Prelude.{
  ℕ, Bool, true, false, Option, none, some, List, [], ◌∷◌, Result, ok, err, Exec, pure, raise, lift,
  ◌>>=◌, ◌>>◌, ensure, map_err, if◌then◌else◌, ◌==◌, list_eq, nat_eq,
}
use connexa.Keystore.Types.{
  Bytes, Label, Error, backend, IoError, converted, unexpected_entry, label_mismatch, KeyMetadata,
  EncryptedEntry, not_found_file,
}
use connexa.Keystore.Label.{validate_label}
use connexa.Keystore.Backend.{Keystore}
use connexa.Keystore.Filesystem.{
  is_file, key, Folder, store_dir, work_dir, DirEntry, directory, Cbor, FileSystem,
}
use connexa.Keystore.Filesystem.Journal.{work_name, to_io, create_dir, recover}
use connexa.Keystore.Filesystem.Batch.{commit_batch}

abbrev pub is_work : DirEntry → Bool
is_work entry = elim entry.kind [ directory ↦ entry.file_name == work_name | _ ↦ false ]

-- What `get` makes of a file.
unfoldable pub decode_found : Cbor → Option Bytes → Result Error (Option EncryptedEntry)
decode_found cbor none = ok none
decode_found cbor (some bytes) = elim (cbor.decode_entry bytes) [
  | none ↦ err (backend converted)
  | some entry ↦ ok (some entry)
]

-- The callback of `put_many`
abbrev pub after_nothing : ℕ → Result IoError (Unit {0})
after_nothing index = ok tt

module _ {F : Type 0} (fs : FileSystem F) (cbor : Cbor) (parents : List Folder) where
  -- `lock`
  unfoldable pub lock : Exec IoError F (Unit {0})
  lock = do create_dir fs (work_dir ∷ store_dir ∷ parents); fs.acquire_lock

  unfoldable pub locked : {A : Type 0} → Exec Error F A → Exec Error F A
  locked operation = do map_err backend lock; map_err backend (recover fs cbor); operation

  -- `access`
  unfoldable pub access : {A : Type 0} → Bool → A → Exec Error F A → Exec Error F A
  unfolding locked
  access true missing operation = locked operation
  access false missing operation = do
    there ← map_err backend fs.store_exists
    if there then locked operation else pure missing

  unfoldable pub put_many : List EncryptedEntry → Exec Error F (Unit {0})
  put_many [] = access false tt (pure tt)
  put_many (entry ∷ entries) =
      access true tt (commit_batch fs cbor parents after_nothing (entry ∷ entries))

  unfoldable pub put : EncryptedEntry → Exec Error F (Unit {0})
  put entry = put_many (entry ∷ [])

  unfoldable pub get : Label → Exec Error F (Option EncryptedEntry)
  unfolding decode_found
  get label = do
    lift (validate_label label)
    access false none
        (map_err backend (fs.read (key label)) >>= λ found. lift (decode_found cbor found))

  unfoldable pub read_entry : DirEntry → Exec Error F KeyMetadata
  read_entry entry = do
    bytes ← map_err backend (fs.read (key entry.file_name))
    found ← lift (elim bytes [ none ↦ err (backend not_found_file) | some b ↦ ok b ])
    decoded ← map_err backend (lift (to_io converted (cbor.decode_entry found)))
    ensure (entry.file_name == decoded.metadata.label) (backend label_mismatch)
    pure decoded.metadata

  -- The loop of `list`
  unfoldable pub read_entries : List DirEntry → Exec Error F (List KeyMetadata)
  read_entries [] = pure []
  read_entries (entry ∷ entries) =
      let rest = read_entries entries in
      if is_file entry.kind
      then (do metadata ← read_entry entry; others ← rest; pure (metadata ∷ others))
      else if is_work entry
      then rest
      else raise (backend unexpected_entry)

  unfoldable pub list : Exec Error F (List KeyMetadata)
  list = access false [] (map_err backend fs.read_dir >>= read_entries)

  unfoldable pub remove : Label → Exec Error F Bool
  remove label = do
    lift (validate_label label)
    access false false (do
      removed ← map_err backend (fs.unlink (key label))
      map_err backend (fs.sync_dir store_dir)
      pure removed)

  unfoldable pub filesystem : Keystore F
  unfolding put put_many get list remove
  filesystem = record { put = put; put_many = put_many; get = get; list = list; remove = remove }
