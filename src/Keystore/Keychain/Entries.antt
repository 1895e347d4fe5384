-- ===== src/Keystore/Keychain/Entries.antt =====
-- src/keystore.rs, `Keychain::seal_entry` and `Keychain::open_entry`.
use connexa.Prelude.{
  ℕ, ◌&&◌, Bool, some, List, [], ◌∷◌, Result, ok, err, and_then, if◌then◌else◌, ◌==◌, list_eq,
  nat_eq,
}
use connexa.Keystore.Types.{
  Label, key_type_eq, Error, decrypt_failed, key, from_p2p, Identity, KeyMetadata, EncryptedEntry,
}
use connexa.Keystore.Aad.{metadata_aad}
use connexa.Keystore.Cipher.{Cipher}
use connexa.Keystore.Keychain.{to_result}

pub record OpenedEntry (I : Identity) : Type 0 where
  pub keypair : I.Keypair
  pub metadata : KeyMetadata

module _ (I : Identity) where
  open I use {
    Keypair, key_type, public, encode_public, to_protobuf_encoding, from_protobuf_encoding,
  }

  unfoldable pub seal_entry : ℕ → Cipher → KeyMetadata → Keypair → Result Error EncryptedEntry
  seal_entry draw cipher metadata keypair =
      and_then (to_result key (to_protobuf_encoding keypair)) λ plaintext.
        let aad = metadata_aad metadata in
        and_then (cipher.encrypt draw (some aad) plaintext)
          λ ciphertext. ok (record { metadata = metadata; ciphertext = ciphertext })

  -- The key type and the public key that the metadata claims are those of the keypair.
  unfoldable pub matches_metadata : Keypair → KeyMetadata → Bool
  matches_metadata keypair m =
      from_p2p (key_type keypair) == m.key_type && encode_public (public keypair) == m.public_key

  -- `open_entry` behind its test of the label
  unfoldable pub open_blob : Cipher → EncryptedEntry → Result Error (OpenedEntry I)
  unfolding matches_metadata
  open_blob cipher entry =
      and_then (cipher.decrypt (some (metadata_aad entry.metadata)) entry.ciphertext) λ plaintext.
        and_then (to_result key (from_protobuf_encoding plaintext)) λ keypair.
          if matches_metadata keypair entry.metadata
          then ok (record { keypair = keypair; metadata = entry.metadata })
          else err decrypt_failed

  unfoldable pub open_entry : Cipher → Label → EncryptedEntry → Result Error (OpenedEntry I)
  unfolding open_blob
  open_entry cipher label entry =
      if entry.metadata.label == label then open_blob cipher entry else err decrypt_failed

  unfoldable pub open_entries : Cipher → List EncryptedEntry → Result Error (List (OpenedEntry I))
  open_entries cipher [] = ok []
  open_entries cipher (entry ∷ entries) =
      and_then (open_entry cipher entry.metadata.label entry)
        λ opened. and_then (open_entries cipher entries) λ rest. ok (opened ∷ rest)
