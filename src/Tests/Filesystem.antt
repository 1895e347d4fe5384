-- ===== src/Tests/Filesystem.antt =====
-- The file keystore on a file system in memory, with failures in the middle of a batch.
use connexa.Prelude.{
  ℕ, Bool, true, false, none, List, [], ◌∷◌, suc, zero, ◌⊎◌, inl, refl, ◌≡◌, err, Option, inr,
  arith, ◌==◌, list_eq, nat_eq, if◌then◌else◌, ok, Post, some,
}
use connexa.Keystore.Types.{EncryptedEntry, Label, backend, io, recovery_failed, Bytes}
use connexa.Keystore.Filesystem.Store.{
  put_many, put, access, locked, lock, get, remove, list, decode_found,
}
use connexa.Keystore.Filesystem.Journal.{
  recover, create_dir, conflict, roll_back, undo, restore_all, restore_one, clean_up, check_labels,
}
use connexa.Tests.Samples.{alice_metadata, bob_metadata, alice, bob}
use connexa.Tests.Codec.{small_cbor, small_cbor-IsCbor}
use connexa.Tests.Disk.{Disk, disk, content, disk-IsFileSystem}
use connexa.Keystore.Filesystem.Batch.{
  commit_batch, prepare, encode_entries, put_sorted, prepare_files, stage, write_journal,
  replace_prepared, apply, replace_each, conclude, rollback_error, may_hold_key, label_lt,
}
use connexa.Keystore.Label.{validate_label}
use connexa.Keystore.Filesystem.Undo.{IsClean, IsRecoverable}
use connexa.Dict.{lookup, contains}
use connexa.Keystore.Filesystem.Crash.{
  attempts, recover-attempts, recover-put_many, get-put, decode_found-remove,
}
use connexa.Keystore.Filesystem.Encoding.{written}
use connexa.Keystore.Filesystem.{key, journal}
use connexa.Keystore.Backend.Laws.{is_some}
use connexa.Keystore.Filesystem.Listing.{AreFound, names, list-get}

abbrev old_alice : EncryptedEntry
old_alice = record { metadata = alice_metadata; ciphertext = 1 ∷ [] }

abbrev new_alice : EncryptedEntry
new_alice = record { metadata = alice_metadata; ciphertext = 2 ∷ [] }

abbrev new_bob : EncryptedEntry
new_bob = record { metadata = bob_metadata; ciphertext = 3 ∷ [] }

-- That many calls that succeed, then one that fails.
abbrev fails_after : ℕ → List Bool → List Bool
fails_after zero rest = true ∷ rest
fails_after (suc n) rest = false ∷ fails_after n rest

-- Where there was no store, and the old entry has been put.
stored : Disk
unfolding put_many access locked lock create_dir recover conflict roll_back undo restore_all
    restore_one clean_up check_labels commit_batch prepare encode_entries put_sorted prepare_files
    stage write_journal replace_prepared apply replace_each conclude rollback_error validate_label
    disk small_cbor put
stored = (put disk small_cbor [] old_alice (record { files = none; script = [] })).1

abbrev before : List Bool → Disk
before script = record { files = stored.files; script = script }

-- Both keys have been replaced when the flush fails. The recovery that follows fails, and so does
-- the next one.
abbrev thrice : List Bool
thrice = fails_after 18 (fails_after 4 (fails_after 5 []))

abbrev keys_before : Label → Option Bytes
keys_before l = content (key l) stored

before-IsRecoverable :
    (script : List Bool) → IsRecoverable content small_cbor keys_before (before script)
unfolding stored lookup put_many access locked lock create_dir recover conflict roll_back undo
    restore_all restore_one clean_up check_labels commit_batch prepare encode_entries put_sorted
    prepare_files stage write_journal replace_prepared apply replace_each conclude rollback_error
    validate_label may_hold_key label_lt disk small_cbor
before-IsRecoverable script = inl (record { no_journal = refl; keys = λ l. refl })

abbrev two_entries : List EncryptedEntry
two_entries = new_bob ∷ new_alice ∷ []

after_batch : Disk
unfolding stored put_many access locked lock create_dir recover conflict roll_back undo restore_all
    restore_one clean_up check_labels commit_batch prepare encode_entries put_sorted prepare_files
    stage write_journal replace_prepared apply replace_each conclude rollback_error validate_label
    may_hold_key label_lt disk small_cbor
after_batch = (put_many disk small_cbor [] two_entries (before thrice)).1

recovered : Disk
unfolding attempts after_batch
recovered = (recover disk small_cbor (attempts disk small_cbor 1 after_batch)).1

batch_fails :
    put_many disk small_cbor [] two_entries (before thrice)
    ≡ (err (backend recovery_failed), after_batch)
unfolding after_batch may_hold_key label_lt
batch_fails = refl

attempt_fails : (recover disk small_cbor after_batch).0 ≡ err (io 5)
unfolding after_batch
attempt_fails = refl

alice_replaced : content (key alice) after_batch ≡ small_cbor.encode_entry new_alice
unfolding after_batch lookup
alice_replaced = refl

alice_restored : content (key alice) recovered ≡ small_cbor.encode_entry old_alice
unfolding recovered lookup
alice_restored = refl

recover-put_many_example :
    ((l : Label) → content (key l) recovered ≡ keys_before l)
    ⊎ ((l : Label) → content (key l) recovered ≡ written small_cbor two_entries l (keys_before l))
unfolding recovered
recover-put_many_example =
    recover-put_many disk content disk-IsFileSystem small_cbor small_cbor-IsCbor [] keys_before
      two_entries 1 (before thrice) recovered (before-IsRecoverable thrice) refl

-- The same store in the middle of the failed batch, byte by byte.
abbrev alice_bytes : ℕ → Bytes
alice_bytes n =
    5 ∷ 97 ∷ 108 ∷ 105 ∷ 99 ∷ 101 ∷ 0 ∷ 1 ∷ 0 ∷ 5000000000 ∷ 1 ∷ 0 ∷ 10000000000 ∷ 1 ∷ 7 ∷ 1 ∷ n
    ∷ []

abbrev journal_bytes : Bytes
journal_bytes =
    1 ∷ 2 ∷ 5 ∷ 97 ∷ 108 ∷ 105 ∷ 99 ∷ 101 ∷ 1 ∷ 17 ∷ 5 ∷ 97 ∷ 108 ∷ 105 ∷ 99 ∷ 101 ∷ 0 ∷ 1 ∷ 0
    ∷ 5000000000 ∷ 1 ∷ 0 ∷ 10000000000 ∷ 1 ∷ 7 ∷ 1 ∷ 1 ∷ 3 ∷ 98 ∷ 111 ∷ 98 ∷ 0 ∷ []

abbrev torn : List Bool → Disk
torn script = record {
  files = some ((key alice, alice_bytes 2) ∷ (journal, journal_bytes) ∷ (key bob, 3 ∷ []) ∷ []);
  script = script;
}

abbrev only_alice : Label → Option Bytes
only_alice l = if alice == l then some (alice_bytes 1) else none

torn-IsRecoverable :
    (script : List Bool) → IsRecoverable content small_cbor only_alice (torn script)
unfolding small_cbor lookup contains
torn-IsRecoverable script = inr (
  journal_bytes,
  (alice, some (alice_bytes 1)) ∷ (bob, none) ∷ [],
  refl,
  (refl, (refl, tt)),
  record { there = refl; uncommitted = refl; untouched = λ l h. ground (arith, h) },
)

untorn : Disk
unfolding attempts put_many access locked lock create_dir recover conflict roll_back undo
    restore_all restore_one clean_up check_labels commit_batch prepare encode_entries put_sorted
    prepare_files stage write_journal replace_prepared apply replace_each conclude rollback_error
    validate_label may_hold_key label_lt disk small_cbor
untorn = (recover disk small_cbor (attempts disk small_cbor 1 (torn (fails_after 7 [])))).1

recover-attempts_example : IsClean content only_alice untorn
unfolding untorn
recover-attempts_example =
    recover-attempts disk content disk-IsFileSystem small_cbor only_alice 1
      (torn (fails_after 7 [])) untorn (torn-IsRecoverable (fails_after 7 [])) refl

abbrev bob_bytes : Bytes
bob_bytes = 3 ∷ 98 ∷ 111 ∷ 98 ∷ 0 ∷ 3 ∷ 0 ∷ 5000000000 ∷ 0 ∷ 1 ∷ 9 ∷ 1 ∷ 3 ∷ []

abbrev after_put : Disk
after_put = record {
  files = some ((key alice, alice_bytes 1) ∷ (key bob, bob_bytes) ∷ []);
  script = [];
}

put_bob : put disk small_cbor [] new_bob (torn []) ≡ (ok tt, after_put)
unfolding put put_many access locked lock create_dir recover conflict roll_back undo restore_all
    restore_one clean_up check_labels commit_batch prepare encode_entries put_sorted prepare_files
    stage write_journal replace_prepared apply replace_each conclude rollback_error validate_label
    may_hold_key label_lt disk small_cbor
put_bob = refl

bob_encoded : small_cbor.encode_entry new_bob ≡ some bob_bytes
unfolding small_cbor
bob_encoded = refl

get_bob : get disk small_cbor [] bob after_put ≡ (ok (some new_bob), after_put)
unfolding get decode_found put_many access locked lock create_dir recover conflict roll_back undo
    restore_all restore_one clean_up check_labels commit_batch prepare encode_entries put_sorted
    prepare_files stage write_journal replace_prepared apply replace_each conclude rollback_error
    validate_label may_hold_key label_lt disk small_cbor
get_bob = refl

get-put_example :
    ok (some new_bob)
    ≡ (if bob == bob then ok (some new_bob) else decode_found small_cbor (only_alice bob))
get-put_example =
    get-put disk content disk-IsFileSystem small_cbor small_cbor-IsCbor [] only_alice new_bob
      bob_bytes bob (torn []) after_put after_put (some new_bob) bob_encoded (torn-IsRecoverable [])
      put_bob get_bob

after_remove : Disk
unfolding remove put_many access locked lock create_dir recover conflict roll_back undo restore_all
    restore_one clean_up check_labels commit_batch prepare encode_entries put_sorted prepare_files
    stage write_journal replace_prepared apply replace_each conclude rollback_error validate_label
    may_hold_key label_lt disk small_cbor
after_remove = (remove disk small_cbor [] alice (torn [])).1

decode_found-remove_example :
    (true ≡ is_some (only_alice alice))
    × (ok none ≡ (if alice == alice then ok none else decode_found small_cbor (only_alice alice)))
unfolding get decode_found after_remove
decode_found-remove_example =
    decode_found-remove disk content disk-IsFileSystem small_cbor small_cbor-IsCbor [] only_alice
      alice alice (torn []) after_remove after_remove true none (torn-IsRecoverable []) refl refl

list-get_example :
    Post
      (λ metadata t.
        IsRecoverable content small_cbor only_alice t
        × AreFound disk content disk-IsFileSystem small_cbor [] only_alice metadata
        × ((l : Label)
            → contains l (names disk content disk-IsFileSystem small_cbor [] only_alice metadata)
              ≡ is_some (only_alice l)))
      (IsRecoverable content small_cbor only_alice)
      (list disk small_cbor [] (torn []))
list-get_example =
    list-get disk content disk-IsFileSystem small_cbor [] only_alice (torn [])
      (torn-IsRecoverable [])
