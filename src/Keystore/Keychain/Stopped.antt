-- ===== src/Keystore/Keychain/Stopped.antt =====
-- `Keychain` of src/keystore.rs: operations whose task of a write stops before its end.
use connexa.Prelude.{
  ◌≡◌, refl, Result, err, Exec, Option, none, list_eq, nat_eq, Bool, inl, ap, inr, ℕ, List, [], ◌∷◌,
  not, returned, ◌⊎◌,
}
use connexa.Keystore.Types.{
  Error, Label, EncryptedEntry, Expiry, RotateKey, KeyMetadata, never, decrypt_failed, not_found,
  same_metadata,
}
use connexa.Keystore.Cipher.{Cipher}
use connexa.Keystore.Keychain.{
  Keychain, Bool, Fate, Identity, Call, join_error, Features, stops, finishes, ℕ, KeyType,
  on_backend, some, generate_keypair, ed25519, to_result, saturating_add_one,
}
use connexa.Keystore.Label.{validate_label}
use connexa.Keystore.Keychain.Entries.{seal_entry, open_entry, open_entries}
use connexa.Keystore.Backend.{Keystore}
use connexa.Keystore.Backend.Laws.{IsReliable}
use connexa.Keystore.Keychain.Bulk.{
  load_listed, load_entries, remove_all, expired_labels, reseal, purge_expired, migrate_cipher,
  purge, replace_all,
}
use connexa.Keystore.Keychain.Ops
use connexa.Keystore.Keychain.Ops.{
  new_metadata, unexpired, rotated_keypair, store, insert, insert_with_expiry, generate, rotate,
  get_or_create, open_or_create, create,
}
use connexa.Dict.{contains}
use connexa.Keystore.Keychain.FailStop.{IsLockedOut, gone-IsLockedOut}
use connexa.Keystore.Keychain.Outcomes.{
  Stops, over, untouched, Keeps, Keeps-bind, lift-Keeps, known-Keeps, lock-Keeps,
  disable_check-Keeps, ensure-Keeps, halted, Stops-read, Stops-after, Stops-then,
  Stops-finish_mutation,
}

abbrev pub with_fate : {S : Type 0} → Fate S → Call S → Call S
with_fate fate c = record c { fate = fate }

module _ (I : Identity) (features : Features) {S : Type 0} (K : Keystore S) where
  -- The operations of a keychain that write.
  pub data Write : Type 0 where
    inserting : Label → I.Keypair → Write
    inserting_with_expiry : Label → I.Keypair → Expiry → Write
    generating : Label → KeyType → Write
    rotating : Label → RotateKey I → Expiry → Write
    creating : Label → Write
    removing : Label → Write
    purging : Write
    migrating : Cipher → Write

  abbrev pub Answer : Write → Type 0
  Answer (generating label key_type) = I.Keypair
  Answer (creating label) = I.Keypair
  Answer (removing label) = Bool
  Answer purging = ℕ
  Answer _ = Unit

  abbrev pub run : (o : Write) → Call S → Exec Error (Keychain S) (Answer o)
  run (inserting label keypair) c = insert I features K c label keypair
  run (inserting_with_expiry label keypair expiry) c =
      insert_with_expiry I features K c label keypair expiry
  run (generating label key_type) c = generate I features K c label key_type
  run (rotating label key expiry) c = rotate I features K c label key expiry
  run (creating label) c = get_or_create I features K c label
  run (removing label) c = Ops.remove I features K c label
  run purging c = purge_expired I K c
  run (migrating new_cipher) c = migrate_cipher I K c new_cipher

  module _ {IsValid : S → Type 0} {view : Label → S → Option EncryptedEntry}
      {entries : S → List EncryptedEntry} (rel : IsReliable K IsValid view entries) where
    get-Keeps : (k : Keychain S) (label : Label) → Keeps k (on_backend (K.get label) k)
    get-Keeps k label = known-Keeps (
        ap (λ (p : Result Error (Option EncryptedEntry) × S). (p.0, record k { backend = p.1 }))
          (rel.get_lem label k.backend))

    list-Keeps : (k : Keychain S) → Keeps k (on_backend K.list k)
    list-Keeps k = known-Keeps (
        ap (λ (p : Result Error (List KeyMetadata) × S). (p.0, record k { backend = p.1 }))
          (rel.list_lem k.backend))

    load_listed-Keeps :
        (k : Keychain S) (listed : List KeyMetadata) (labels : List Label)
        → Keeps k (load_listed K listed labels k)
    unfolding load_listed
    load_listed-Keeps k [] labels = returned refl
    load_listed-Keeps k (metadata ∷ listed) labels =
        Keeps-bind (lift-Keeps k (validate_label metadata.label)) (λ _ k.
          Keeps-bind (ensure-Keeps k (not (contains metadata.label labels)) decrypt_failed) (λ _ k.
            Keeps-bind (get-Keeps k metadata.label) (λ found k.
              Keeps-bind (lift-Keeps k (to_result (not_found metadata.label) found)) (λ entry k.
                Keeps-bind (ensure-Keeps k (same_metadata metadata entry.metadata) decrypt_failed)
                  (λ _ k.
                    Keeps-bind (load_listed-Keeps k listed (metadata.label ∷ labels))
                      (λ entries t. returned refl))))))

    load_entries-Keeps : (k : Keychain S) → Keeps k (load_entries K k)
    unfolding load_entries
    load_entries-Keeps k = Keeps-bind (list-Keeps k) (λ listed k. load_listed-Keeps k listed [])

    module _ (c : Call S) (s : S) where
      abbrev stopped : Call S
      stopped = with_fate (stops s) c

      abbrev finished : Call S
      finished = with_fate finishes c

      store-Stops :
          (label : Label) (kp : I.Keypair) (expiry : Expiry) (version : ℕ) (cipher : Cipher)
          (k : Keychain S)
          → Stops s k
              (store I features K stopped label kp expiry version cipher k)
              (store I features K finished label kp expiry version cipher k)
      unfolding store new_metadata
      store-Stops label kp expiry version cipher k = Stops-after (disable_check-Keeps k) (λ _ k.
          Stops-after (lift-Keeps k (validate_label label)) (λ _ k.
            Stops-after
              (lift-Keeps k (
                seal_entry I (c.random 0) cipher
                  (new_metadata I features K c label kp expiry version) kp))
              (λ entry k. Stops-finish_mutation (K.put entry))))

      create-Stops :
          (label : Label) (cipher : Cipher) (k : Keychain S)
          → Stops s k
              (create I features K stopped label cipher k)
              (create I features K finished label cipher k)
      unfolding create
      create-Stops label cipher k =
          Stops-then (store-Stops label (I.generate ed25519 (c.random 1)) never 1 cipher k)
            (λ _ t. returned refl)

      open_or_create-Stops :
          (label : Label) (cipher : Cipher) (found : Option EncryptedEntry) (k : Keychain S)
          → Stops s k
              (open_or_create I features K stopped label cipher found k)
              (open_or_create I features K finished label cipher found k)
      unfolding open_or_create unexpired
      open_or_create-Stops label cipher none k = create-Stops label cipher k
      open_or_create-Stops label cipher (some entry) k =
          Stops-after (lift-Keeps k (open_entry I cipher label entry))
            (λ opened k. Stops-read (lift-Keeps k (unexpired I features K c label opened)))

      purge-Stops :
          (expired : List Label) (k : Keychain S)
          → Stops s k (purge I K stopped expired k) (purge I K finished expired k)
      unfolding purge
      purge-Stops [] k = Stops-read (returned refl)
      purge-Stops (label ∷ expired) k = Stops-finish_mutation (remove_all K (label ∷ expired) 0)

      insert-Stops :
          (label : Label) (kp : I.Keypair) (k : Keychain S)
          → Stops s k
              (insert I features K stopped label kp k)
              (insert I features K finished label kp k)
      unfolding insert
      insert-Stops label kp k =
          Stops-after (lock-Keeps k) (λ guard k. store-Stops label kp never 1 guard k)

      run-Stops : (o : Write) (k : Keychain S) → Stops s k (run o stopped k) (run o finished k)
      unfolding insert_with_expiry generate rotate rotated_keypair get_or_create Ops.remove
          purge_expired expired_labels migrate_cipher replace_all
      run-Stops (inserting label kp) k = insert-Stops label kp k
      run-Stops (inserting_with_expiry label kp expiry) k =
          Stops-after (lock-Keeps k) (λ guard k. store-Stops label kp expiry 1 guard k)
      run-Stops (generating label key_type) k =
          Stops-after (lift-Keeps k (generate_keypair I features key_type (c.random 1)))
            (λ kp k. Stops-then (insert-Stops label kp k) (λ _ t. returned refl))
      run-Stops (rotating label key expiry) k = Stops-after (lock-Keeps k) (λ guard k.
          Stops-after (lift-Keeps k (validate_label label)) (λ _ k.
            Stops-after (get-Keeps k label) (λ found k.
              Stops-after (lift-Keeps k (to_result (not_found label) found)) (λ entry k.
                Stops-after (lift-Keeps k (open_entry I guard label entry)) (λ current k.
                  Stops-after (lift-Keeps k (rotated_keypair I features K c key)) (λ kp k.
                    store-Stops label kp expiry (saturating_add_one current.metadata.version) guard
                      k))))))
      run-Stops (creating label) k = Stops-after (lock-Keeps k) (λ guard k.
          Stops-after (disable_check-Keeps k) (λ _ k.
            Stops-after (lift-Keeps k (validate_label label)) (λ _ k.
              Stops-after (get-Keeps k label)
                (λ found k. open_or_create-Stops label guard found k))))
      run-Stops (removing label) k = Stops-after (lock-Keeps k) (λ guard k.
          Stops-after (lift-Keeps k (validate_label label))
            (λ _ k. Stops-finish_mutation (K.remove label)))
      run-Stops purging k = Stops-after (lock-Keeps k) (λ guard k.
          Stops-after (load_entries-Keeps k) (λ loaded k.
            Stops-after (lift-Keeps k (open_entries I guard loaded))
              (λ opened k. purge-Stops (expired_labels I K c opened) k)))
      run-Stops (migrating new_cipher) k = Stops-after (lock-Keeps k) (λ guard k.
          Stops-after (disable_check-Keeps k) (λ _ k.
            Stops-after (load_entries-Keeps k) (λ originals k.
              Stops-after (lift-Keeps k (reseal I K c.random 0 guard new_cipher originals))
                (λ sealed k. over refl))))

      -- A writing operation of a keychain over a reliable backend, if the task of its write stops and
      -- leaves the backend in any state: either it never comes to the write, does what it does when
      -- no task stops, and leaves the keychain as it was; or the caller gets `JoinError`, the cipher
      -- is gone, and from then on every operation of the keychain fails and changes nothing.
      pub run-stopped :
          (o : Write) (k : Keychain S)
          → ((run o stopped k ≡ run o finished k) × ((run o stopped k).1 ≡ k))
            ⊎ ((run o stopped k ≡ (err join_error, halted s k))
                × IsLockedOut I features K (halted s k))
      run-stopped o k = by_outcome (run-Stops o k)
        where
          by_outcome :
              {A : Type 0} {k : Keychain S} {p p' : Result Error A × Keychain S}
              → Stops s k p p'
              → ((p ≡ p') × (p.1 ≡ k))
                ⊎ ((p ≡ (err join_error, halted s k)) × IsLockedOut I features K (halted s k))
          by_outcome (untouched same kept) = inl (same, kept)
          by_outcome {k = k} (over h) = inr (h, gone-IsLockedOut I features K (halted s k) refl)
