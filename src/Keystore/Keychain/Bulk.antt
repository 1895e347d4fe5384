-- ===== src/Keystore/Keychain/Bulk.antt =====
-- src/keystore.rs, the operations of `Keychain` on every entry: `list`, `purge_expired` and
-- `migrate_cipher`.
use connexa.Prelude.{
  ℕ, suc, ◌+◌, Bool, true, false, none, some, List, [], ◌∷◌, map, Result, ok, err, Exec, pure, lift,
  ◌>>=◌, ◌>>◌, ensure, if◌then◌else◌, and_then, not, keep, nat_eq, list_eq,
}
use connexa.Dict.{contains}
use connexa.Keystore.Types.{
  Label, Error, not_found, decrypt_failed, join_error, Identity, KeyMetadata, is_expired,
  EncryptedEntry, same_metadata, same_entry,
}
use connexa.Keystore.Label.{validate_label}
use connexa.Keystore.Backend.{Keystore}
use connexa.Keystore.Cipher.{Cipher}
use connexa.Keystore.Keychain.{
  Keychain, Call, finishes, stops, to_result, on_backend, lock, disable_check, finish_mutation,
  Fate,
}
use connexa.Keystore.Keychain.Entries.{OpenedEntry, seal_entry, open_entry, open_entries}

module _ {S : Type 0} (K : Keystore S) where
  -- The loop of `load_entries`; `labels` is the set of the labels that it has met.
  unfoldable pub load_listed :
      List KeyMetadata → List Label → Exec Error (Keychain S) (List EncryptedEntry)
  load_listed [] labels = pure []
  load_listed (metadata ∷ listed) labels = do
    lift (validate_label metadata.label)
    ensure (not (contains metadata.label labels)) decrypt_failed
    found ← on_backend (K.get metadata.label)
    entry ← lift (to_result (not_found metadata.label) found)
    ensure (same_metadata metadata entry.metadata) decrypt_failed
    entries ← load_listed listed (metadata.label ∷ labels)
    pure (entry ∷ entries)

  unfoldable pub load_entries : Exec Error (Keychain S) (List EncryptedEntry)
  load_entries = do listed ← on_backend K.list; load_listed listed []

  -- The work of `purge_expired`: it counts the entries that were there.
  unfoldable pub remove_all : List Label → ℕ → Exec Error S ℕ
  remove_all [] removed = pure removed
  remove_all (label ∷ expired) removed = do
    existed ← K.remove label
    remove_all expired (if existed then removed + 1 else removed)

  -- After a failed `put_many`: whether every original is still in its place.
  unfoldable pub is_intact : List EncryptedEntry → S → Bool × S
  is_intact [] s = (true, s)
  is_intact (original ∷ originals) s =
      let (found, s') = K.get original.metadata.label s in
      let rest = is_intact originals s' in
      elim found [
        | ok some_entry ↦ elim some_entry [
          | some entry ↦ if same_entry entry original then rest else (false, s')
          | none ↦ (false, s')
        ]
        | err e ↦ (false, s')
      ]

module _ (I : Identity) {S : Type 0} (K : Keystore S) where
  unfoldable pub authenticated_entries : Exec Error (Keychain S) (List (OpenedEntry I))
  authenticated_entries = do
    guard ← lock
    entries ← load_entries K
    lift (open_entries I guard entries)

  unfoldable pub list : Exec Error (Keychain S) (List KeyMetadata)
  list = do entries ← authenticated_entries; pure (map (λ entry. entry.metadata) entries)

  unfoldable pub expired_labels : Call S → List (OpenedEntry I) → List Label
  expired_labels c opened =
      map (λ entry. entry.metadata.label) (keep (λ entry. is_expired c.now entry.metadata) opened)

  -- Nothing is written when no key has expired.
  unfoldable pub purge : Call S → List Label → Exec Error (Keychain S) ℕ
  purge c [] = pure 0
  purge c (label ∷ expired) = finish_mutation c.fate (remove_all K (label ∷ expired) 0)

  unfoldable pub purge_expired : Call S → Exec Error (Keychain S) ℕ
  purge_expired c = do
    guard ← lock
    entries ← load_entries K
    opened ← lift (open_entries I guard entries)
    purge c (expired_labels c opened)

  -- The loop of `migrate_cipher` over the originals; the i-th entry uses the i-th draw.
  unfoldable pub reseal :
      (ℕ → ℕ) → ℕ → Cipher → Cipher → List EncryptedEntry → Result Error (List EncryptedEntry)
  reseal random i cipher new_cipher [] = ok []
  reseal random i cipher new_cipher (entry ∷ originals) =
      and_then (open_entry I cipher entry.metadata.label entry) λ opened.
        and_then (seal_entry I (random i) new_cipher opened.metadata opened.keypair) λ sealed.
          and_then (reseal random (suc i) cipher new_cipher originals)
            λ entries. ok (sealed ∷ entries)

  -- What `migrate_cipher` does after `put_many`: the new cipher goes in, or the previous one goes
  -- back if the originals are intact.
  unfoldable pub settle :
      Result Error (Unit {0})
      → List EncryptedEntry
      → Cipher
      → Cipher
      → Exec Error (Keychain S) (Unit {0})
  settle (ok _) originals previous new_cipher k = (ok tt, record k { cipher = some new_cipher })
  settle (err error) originals previous new_cipher k =
      let (intact, s) = is_intact K originals k.backend in
      (err error, record k { cipher = if intact then some previous else none; backend = s })

  -- The task that `migrate_cipher` spawns, while `previous` is out of its place.
  unfoldable pub replace_all :
      Fate S
      → List EncryptedEntry
      → List EncryptedEntry
      → Cipher
      → Cipher
      → Exec Error (Keychain S) (Unit {0})
  replace_all (stops s) originals entries previous new_cipher k =
      (err join_error, record k { cipher = none; backend = s })
  replace_all finishes originals entries previous new_cipher k =
      let (result, s) = K.put_many entries k.backend in
      settle result originals previous new_cipher (record k { cipher = none; backend = s })

  -- The keychain that is returned shares the state, so it is the state.
  unfoldable pub migrate_cipher : Call S → Cipher → Exec Error (Keychain S) (Unit {0})
  migrate_cipher c new_cipher = do
    guard ← lock
    disable_check
    originals ← load_entries K
    entries ← lift (reseal c.random 0 guard new_cipher originals)
    replace_all c.fate originals entries guard new_cipher
