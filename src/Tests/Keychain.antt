-- ===== src/Tests/Keychain.antt =====
-- The operations of a keychain over the in-memory backend, on concrete inputs.
use connexa.Prelude.{
  ℕ, ◌+◌, ◌≡◌, ◌∷◌, [], refl, true, none, some, ok, err, if◌then◌else◌, min, list_eq, nat_eq, ◌⊎◌,
}
use connexa.Keystore.Types
use connexa.Keystore.Time.{since}
use connexa.Keystore.Types.{
  Bytes, Expiry, after, never, EncryptedEntry, KeyMetadata, is_expired, not_found, expired,
  join_error, ed25519, RotateKey,
}
use connexa.Keystore.Aad
use connexa.Keystore.Label.{validate_label}
use connexa.Keystore.Memory
use connexa.Dict
use connexa.Dict.{lookup}
use connexa.Keystore.Memory.{MemoryKeystore, memory}
use connexa.Keystore.Memory.Laws.{memory-IsReliable}
use connexa.Keystore.Keychain
use connexa.Keystore.Keychain.{Keychain, Call, finishes, stops}
use connexa.Keystore.Keychain.Entries
use connexa.Keystore.Keychain.Entries.{OpenedEntry, seal_entry, open_entry}
use connexa.Keystore.Keychain.Ops
use connexa.Keystore.Keychain.Ops.{
  new_metadata, insert_with_expiry, get, rotate, rotated_keypair, unexpired, remove, get_or_create,
}
use connexa.Keystore.Keychain.Lifetime.{has_expired}
use connexa.Keystore.Keychain.Writes.{SameElsewhere, get-insert_with_expiry}
use connexa.Keystore.Keychain.Rotation.{get-rotate, get-remove}
use connexa.Keystore.Keychain.Creation.{get_or_create_once}
use connexa.Keystore.Keychain.FailStop.{IsLockedOut}
use connexa.Keystore.Keychain.Outcomes.{halted}
use connexa.Keystore.Keychain.Stopped.{run, removing, with_fate, run-stopped}
use connexa.Keystore.Backend.Laws.{is_some}
use connexa.Tests.Samples.{
  small_identity, small_identity-IsLawful, framing, framing-IsInverse, alice, bob, alice_metadata,
  bob_metadata, framed, all_features, early, later, keychain_of, two_entries,
}

-- "carol"
abbrev carol : Bytes
carol = 99 ∷ 97 ∷ 114 ∷ 111 ∷ 108 ∷ []

abbrev carol_metadata : KeyMetadata
carol_metadata = new_metadata small_identity all_features memory early carol 5 (after 1000000000) 1

carol_sealed : seal_entry small_identity 40 framing carol_metadata 5 ≡ ok (framed carol_metadata 5)
unfolding seal_entry
carol_sealed = refl

carol_valid : validate_label carol ≡ ok tt
unfolding validate_label
carol_valid = refl

insert_with_expiry_example :
    (k' : Keychain MemoryKeystore) × (insert_with_expiry small_identity all_features memory early
        carol 5
        (after 1000000000)
        (keychain_of two_entries)
      ≡ (ok tt, k'))
    × (get small_identity all_features memory later carol k' ≡ (
      (if has_expired early.time_limit early.now (after 1000000000) later.now
          then err (expired carol)
          else ok 5),
      k',
    ))
    × SameElsewhere small_identity small_identity-IsLawful all_features memory memory-IsReliable
        carol
        (keychain_of two_entries)
        k'
insert_with_expiry_example =
    get-insert_with_expiry small_identity small_identity-IsLawful all_features memory
      memory-IsReliable early later carol 5 (after 1000000000) framing (keychain_of two_entries)
      framing-IsInverse refl refl carol_valid carol_sealed refl

-- The task of bob's removal stops when the backend is empty.
stays_locked :
    run small_identity all_features memory
      (removing bob)
      (with_fate (stops []) early)
      (keychain_of two_entries)
    ≡ (err join_error, halted [] (keychain_of two_entries))
unfolding remove Keychain.lock validate_label Keychain.finish_mutation
stays_locked = refl

run-stopped_example :
    ((run small_identity all_features memory
          (removing bob)
          (with_fate (stops []) early)
          (keychain_of two_entries)
        ≡ run small_identity all_features memory
            (removing bob)
            (with_fate finishes early)
            (keychain_of two_entries))
      × ((run small_identity all_features memory
            (removing bob)
            (with_fate (stops []) early)
            (keychain_of two_entries)).1
          ≡ keychain_of two_entries))
    ⊎ ((run small_identity all_features memory
            (removing bob)
            (with_fate (stops []) early)
            (keychain_of two_entries)
          ≡ (err join_error, halted [] (keychain_of two_entries)))
        × IsLockedOut small_identity all_features memory (halted [] (keychain_of two_entries)))
run-stopped_example =
    run-stopped small_identity all_features memory memory-IsReliable early [] (removing bob)
      (keychain_of two_entries)

bob_removed :
    remove small_identity all_features memory early bob (keychain_of two_entries)
    ≡ (ok true, keychain_of ((alice, framed alice_metadata 7) ∷ []))
unfolding remove Keychain.lock validate_label Keychain.finish_mutation lookup Dict.remove
bob_removed = refl

remove_example :
    (true ≡ is_some (lookup bob two_entries))
    × (get small_identity all_features memory later bob
          (keychain_of ((alice, framed alice_metadata 7) ∷ []))
        ≡ (err (not_found bob), keychain_of ((alice, framed alice_metadata 7) ∷ [])))
    × SameElsewhere small_identity small_identity-IsLawful all_features memory memory-IsReliable bob
        (keychain_of two_entries)
        (keychain_of ((alice, framed alice_metadata 7) ∷ []))
remove_example =
    get-remove small_identity small_identity-IsLawful all_features memory memory-IsReliable early
      later bob (keychain_of two_entries) refl bob_removed

abbrev rotated_metadata : KeyMetadata
rotated_metadata = record {
  label = alice;
  key_type = ed25519;
  version = 2;
  created_at = since 6000000000;
  expires_at = none;
  public_key = 8 ∷ [];
}

abbrev rotated : Keychain MemoryKeystore
rotated = keychain_of ((alice, framed rotated_metadata 8) ∷ (bob, framed bob_metadata 9) ∷ [])

replaced_alice :
    rotate small_identity all_features memory early alice
      (RotateKey.keypair 8)
      never
      (keychain_of two_entries)
    ≡ (ok tt, rotated)
unfolding rotate Keychain.lock Keychain.disable_check validate_label lookup Ops.store
    Keychain.finish_mutation Ops.new_metadata Types.from_p2p seal_entry Dict.insert Memory.put_entry
    Types.resolve open_entry Entries.open_blob Entries.matches_metadata Aad.metadata_aad
    Aad.extend_bytes Aad.extend_time Aad.be_bytes Aad.be_bytes_onto Aad.key_type_tag
    Keychain.saturating_add_one rotated_keypair
replaced_alice = refl

rotate_example :
    (e : EncryptedEntry) × (old : OpenedEntry small_identity) × (kp : ℕ) × (e' : EncryptedEntry)
    × (lookup alice two_entries ≡ some e)
    × (open_entry small_identity framing alice e ≡ ok old)
    × (rotated_keypair small_identity all_features memory early (RotateKey.keypair 8) ≡ ok kp)
    × (get small_identity all_features memory later alice rotated ≡ (
      (if has_expired early.time_limit early.now never later.now
          then err (expired alice)
          else ok kp),
      rotated,
    ))
    × (lookup alice rotated.backend ≡ some e')
    × (e'.metadata.version ≡ min 4294967295 (e.metadata.version + 1))
    × SameElsewhere small_identity small_identity-IsLawful all_features memory memory-IsReliable
        alice
        (keychain_of two_entries)
        rotated
rotate_example =
    get-rotate small_identity small_identity-IsLawful all_features memory memory-IsReliable early
      later alice (RotateKey.keypair 8) never framing (keychain_of two_entries) rotated
      framing-IsInverse refl replaced_alice

-- The first draw after the one of the cipher makes carol's key.
abbrev created_metadata : KeyMetadata
created_metadata = record {
  label = carol;
  key_type = ed25519;
  version = 1;
  created_at = since 6000000000;
  expires_at = none;
  public_key = 41 ∷ [];
}

abbrev created : Keychain MemoryKeystore
created = keychain_of ((carol, framed created_metadata 41) ∷ [])

made_carol :
    get_or_create small_identity all_features memory early carol (keychain_of []) ≡ (ok 41, created)
unfolding get_or_create Keychain.lock Keychain.disable_check validate_label lookup Ops.store
    Keychain.finish_mutation Ops.new_metadata Types.from_p2p seal_entry Dict.insert Memory.put_entry
    Types.resolve Ops.open_or_create Ops.create
made_carol = refl

-- The keychain after another key has come in.
abbrev and_alice : Keychain MemoryKeystore
and_alice =
    keychain_of ((alice, framed alice_metadata 7) ∷ (carol, framed created_metadata 41) ∷ [])

get_or_create_once_example :
    (get_or_create small_identity all_features memory later carol and_alice
      ≡ get small_identity all_features memory later carol and_alice)
    × ((get_or_create small_identity all_features memory later carol and_alice ≡ (ok 41, and_alice))
        ⊎ ((e : EncryptedEntry) × (lookup carol (keychain_of []).backend ≡ some e)
            × (is_expired later.now e.metadata ≡ true)
            × (get_or_create small_identity all_features memory later carol and_alice
                ≡ (err (expired carol), and_alice))))
unfolding lookup
get_or_create_once_example =
    get_or_create_once small_identity small_identity-IsLawful all_features memory memory-IsReliable
      early later carol framing (keychain_of []) and_alice framing-IsInverse refl made_carol refl
      refl refl
