-- ===== src/Keystore/Keychain/Ops.antt =====
-- src/keystore.rs, the operations of `Keychain` on one label.
use connexa.Prelude.{
  ℕ, Bool, Option, none, some, Result, ok, err, Exec, pure, lift, ◌>>=◌, ◌>>◌, if◌then◌else◌,
  map_ok,
}
use connexa.Keystore.Types.{
  Label, KeyType, ed25519, Error, not_found, expired, from_p2p, Identity, Expiry, never, resolve,
  KeyMetadata, is_expired, EncryptedEntry, RotateKey,
}
use connexa.Keystore.Label.{validate_label}
use connexa.Keystore.Backend.{Keystore}
use connexa.Keystore.Cipher.{Cipher}
use connexa.Keystore.Keychain.{
  Keychain, Features, Call, saturating_add_one, to_result, on_backend, lock, disable_check,
  finish_mutation, generate_keypair,
}
use connexa.Keystore.Keychain.Entries.{OpenedEntry, seal_entry, open_entry}

module _ (I : Identity) (features : Features) {S : Type 0} (K : Keystore S) where
  open I use {Keypair, PublicKey, PeerId, key_type, public, encode_public, to_peer_id}

  -- The metadata that `store` writes.
  unfoldable pub new_metadata : Call S → Label → Keypair → Expiry → ℕ → KeyMetadata
  new_metadata c label keypair expiry version = record {
    label = label;
    key_type = from_p2p (key_type keypair);
    version = version;
    created_at = c.now;
    expires_at = resolve c.time_limit expiry c.now;
    public_key = encode_public (public keypair);
  }

  -- `Keychain::store`, with the cipher of the guard
  unfoldable pub store :
      Call S → Label → Keypair → Expiry → ℕ → Cipher → Exec Error (Keychain S) (Unit {0})
  store c label keypair expiry version cipher = do
    disable_check
    lift (validate_label label)
    let metadata = new_metadata c label keypair expiry version
    entry ← lift (seal_entry I (c.random 0) cipher metadata keypair)
    finish_mutation c.fate (K.put entry)

  unfoldable pub insert_with_expiry :
      Call S → Label → Keypair → Expiry → Exec Error (Keychain S) (Unit {0})
  insert_with_expiry c label keypair expiry = do guard ← lock; store c label keypair expiry 1 guard

  unfoldable pub insert : Call S → Label → Keypair → Exec Error (Keychain S) (Unit {0})
  insert c label keypair = do guard ← lock; store c label keypair never 1 guard

  -- `Keychain::generate`; the draw with the number 1 makes the key.
  unfoldable pub generate : Call S → Label → KeyType → Exec Error (Keychain S) Keypair
  generate c label key_type = do
    keypair ← lift (generate_keypair I features key_type (c.random 1))
    insert c label keypair
    pure keypair

  unfoldable pub open_found :
      Cipher → Label → Option EncryptedEntry → Result Error (Option (OpenedEntry I))
  open_found cipher label none = ok none
  open_found cipher label (some entry) = map_ok some (open_entry I cipher label entry)

  unfoldable pub authenticated_entry : Label → Exec Error (Keychain S) (Option (OpenedEntry I))
  authenticated_entry label = do
    guard ← lock
    entry ← on_backend (K.get label)
    lift (open_found guard label entry)

  -- The expired entry is refused.
  unfoldable pub unexpired : Call S → Label → OpenedEntry I → Result Error Keypair
  unexpired c label opened =
      if is_expired c.now opened.metadata then err (expired label) else ok opened.keypair

  unfoldable pub get : Call S → Label → Exec Error (Keychain S) Keypair
  get c label = do
    disable_check
    lift (validate_label label)
    found ← authenticated_entry label
    opened ← lift (to_result (not_found label) found)
    lift (unexpired c label opened)

  unfoldable pub public_key : Call S → Label → Exec Error (Keychain S) PublicKey
  public_key c label = do keypair ← get c label; pure (public keypair)

  unfoldable pub peer_id : Call S → Label → Exec Error (Keychain S) PeerId
  peer_id c label = do pubkey ← public_key c label; pure (to_peer_id pubkey)

  unfoldable pub metadata : Label → Exec Error (Keychain S) (Option KeyMetadata)
  metadata label = do
    lift (validate_label label)
    found ← authenticated_entry label
    pure (elim found [ none ↦ none | some entry ↦ some entry.metadata ])

  unfoldable pub rotated_keypair : Call S → RotateKey I → Result Error Keypair
  rotated_keypair c (RotateKey.keypair keypair) = ok keypair
  rotated_keypair c (RotateKey.generate key_type) =
      generate_keypair I features key_type (c.random 1)

  unfoldable pub rotate : Call S → Label → RotateKey I → Expiry → Exec Error (Keychain S) (Unit {0})
  rotate c label key expiry = do
    guard ← lock
    lift (validate_label label)
    found ← on_backend (K.get label)
    entry ← lift (to_result (not_found label) found)
    current ← lift (open_entry I guard label entry)
    let version = saturating_add_one current.metadata.version
    keypair ← lift (rotated_keypair c key)
    store c label keypair expiry version guard

  -- The `None` branch of `get_or_create`.
  unfoldable pub create : Call S → Label → Cipher → Exec Error (Keychain S) Keypair
  create c label guard = do
    let keypair = I.generate ed25519 (c.random 1)
    store c label keypair never 1 guard
    pure keypair

  -- The `match` of `get_or_create`.
  unfoldable pub open_or_create :
      Call S → Label → Cipher → Option EncryptedEntry → Exec Error (Keychain S) Keypair
  open_or_create c label guard none = create c label guard
  open_or_create c label guard (some entry) = do
    opened ← lift (open_entry I guard label entry)
    lift (unexpired c label opened)

  unfoldable pub get_or_create : Call S → Label → Exec Error (Keychain S) Keypair
  get_or_create c label = do
    guard ← lock
    disable_check
    lift (validate_label label)
    found ← on_backend (K.get label)
    open_or_create c label guard found

  unfoldable pub remove : Call S → Label → Exec Error (Keychain S) Bool
  remove c label = do
    guard ← lock
    lift (validate_label label)
    finish_mutation c.fate (K.remove label)
