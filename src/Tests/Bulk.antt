-- ===== src/Tests/Bulk.antt =====
-- The operations on every entry of a keychain over the in-memory backend, on concrete inputs.
use connexa.Prelude.{ℕ, ◌≡◌, ◌∷◌, [], refl, sym, false, some, ok, length, keep, list_eq, nat_eq}
use connexa.Keystore.Types
use connexa.Keystore.Time.{since}
use connexa.Keystore.Types.{
  Bytes, Expiry, after, never, EncryptedEntry, KeyMetadata, is_expired, not_found, expired,
  join_error, ed25519, RotateKey,
}
use connexa.Keystore.Aad
use connexa.Keystore.Label.{validate_label}
use connexa.Keystore.Cipher.Laws.{IsInverse}
use connexa.Keystore.Cipher.Aead.{plaintext}
use connexa.Keystore.Memory
use connexa.Dict
use connexa.Dict.{lookup}
use connexa.Keystore.Memory.{MemoryKeystore, memory}
use connexa.Keystore.Memory.Laws.{IsKeyed, values, memory-IsReliable}
use connexa.Keystore.Keychain
use connexa.Keystore.Keychain.{Keychain, Call, finishes, stops}
use connexa.Keystore.Keychain.Entries
use connexa.Keystore.Keychain.Entries.{OpenedEntry, seal_entry, open_entry}
use connexa.Keystore.Keychain.Ops.{get}
use connexa.Keystore.Keychain.Bulk
use connexa.Keystore.Keychain.Bulk.{load_entries, purge_expired, migrate_cipher}
use connexa.Keystore.Keychain.Loading.{HaveValidLabels}
use connexa.Keystore.Keychain.Migration.{get-migrate_cipher}
use connexa.Keystore.Keychain.Purging.{has_expired, unless_expired, view-purge_expired}
use connexa.Tests.Samples.{
  small_identity, small_identity-IsLawful, framing, alice, bob, alice_metadata, bob_metadata,
  framed, all_features, early, later, keychain_of, two_entries,
}

two_entries-IsKeyed : IsKeyed two_entries
unfolding lookup
two_entries-IsKeyed = (refl, refl, (refl, refl, tt))

two_labels : HaveValidLabels (values two_entries)
unfolding validate_label
two_labels = (refl, (refl, tt))

abbrev purged : Keychain MemoryKeystore
purged = keychain_of ((bob, framed bob_metadata 9) ∷ [])

alice_purged : purge_expired small_identity memory later (keychain_of two_entries) ≡ (ok 1, purged)
unfolding purge_expired Keychain.lock load_entries Bulk.load_listed Memory.list_entries
    validate_label Dict.contains lookup Types.same_metadata open_entry Aad.metadata_aad
    Aad.extend_bytes Aad.extend_time Aad.be_bytes Types.from_p2p Aad.be_bytes_onto Aad.key_type_tag
    Entries.matches_metadata Entries.open_blob Entries.open_entries Bulk.purge Bulk.expired_labels
    Bulk.remove_all Keychain.finish_mutation connexa.Keystore.Time.time_ge is_expired Dict.remove
alice_purged = refl

abbrev one : ℕ
one = 1

purge_expired_example :
    (one ≡ length (keep (has_expired later.now) (values two_entries)))
    × ((j : Bytes) → lookup j purged.backend ≡ unless_expired later.now (lookup j two_entries))
    × (purged.cipher ≡ some framing)
purge_expired_example =
    view-purge_expired memory memory-IsReliable small_identity later (keychain_of two_entries)
      purged 1 two_entries-IsKeyed two_labels alice_purged

plaintext-IsInverse : IsInverse plaintext
plaintext-IsInverse = record { decrypt-encrypt = λ draw aad p blob e. sym e }

abbrev migrated : Keychain MemoryKeystore
migrated = record {
  cipher = some plaintext;
  backend =
      (alice, record { metadata = alice_metadata; ciphertext = 7 ∷ [] })
      ∷ (bob, record { metadata = bob_metadata; ciphertext = 9 ∷ [] })
      ∷ [];
  is_disabled = false;
}

both_migrated :
    migrate_cipher small_identity memory early plaintext (keychain_of two_entries)
    ≡ (ok tt, migrated)
unfolding migrate_cipher Keychain.lock load_entries Bulk.load_listed Memory.list_entries
    validate_label Dict.contains lookup Types.same_metadata open_entry Aad.metadata_aad
    Aad.extend_bytes Aad.extend_time Aad.be_bytes Types.from_p2p Aad.be_bytes_onto Aad.key_type_tag
    Entries.matches_metadata Entries.open_blob Keychain.disable_check Bulk.reseal seal_entry
    Bulk.replace_all Bulk.settle Memory.put_entries Dict.insert
both_migrated = refl

migrate_cipher_example :
    (migrated.cipher ≡ some plaintext)
    × ((get small_identity all_features memory early alice migrated).0
        ≡ (get small_identity all_features memory early alice (keychain_of two_entries)).0)
migrate_cipher_example =
    get-migrate_cipher small_identity small_identity-IsLawful memory all_features memory-IsReliable
      early early framing plaintext (keychain_of two_entries) migrated alice plaintext-IsInverse
      two_entries-IsKeyed two_labels refl both_migrated
