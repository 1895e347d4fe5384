-- ===== src/Keystore/Keychain/FailStop.antt =====
-- `Keychain` of src/keystore.rs once its cipher is gone: nothing works on it.
use connexa.Prelude.{
  ap, continue, pure, ◌≡◌, err, list_eq, nat_eq, none, Result-cases, Bool-cases, inl, inr,
}
use connexa.Keystore.Keychain.Ops.{
  insert, generate, public_key, peer_id, get, get_or_create, insert_with_expiry, rotate, remove,
  metadata,
}
use connexa.Keystore.Types.{Identity, KeyType, Label, Expiry, RotateKey}
use connexa.Keystore.Keychain.{
  generate_keypair, Features, Keychain, Result, Call, Error, backend, write_result_unknown, Cipher,
  none, disabled,
}
use connexa.Keystore.Backend.{Keystore}
use connexa.Keystore.Keychain.Bulk.{list, purge_expired, migrate_cipher, authenticated_entries}
use connexa.Keystore.Keychain.Access.{authenticated_entry_gone}
use connexa.Keystore.Keychain.Steps.{lock_gone, disable_check_on, disable_check_off}
use connexa.Keystore.Label.{validate_label}

module _ (I : Identity) (features : Features) {S : Type 0} (K : Keystore S) where
  abbrev refusal : {A : Type 0} → Keychain S → Result Error A × Keychain S
  refusal k = (err (backend write_result_unknown), k)

  -- Every operation reports an error and changes nothing; those that take the lock first report that
  -- the result of a write is unknown.
  pub record IsLockedOut (k : Keychain S) : Type 0 where
    pub inserts :
        (c : Call S) (l : Label) (kp : I.Keypair) (x : Expiry)
        → insert_with_expiry I features K c l kp x k ≡ refusal k
    pub inserts_forever :
        (c : Call S) (l : Label) (kp : I.Keypair) → insert I features K c l kp k ≡ refusal k
    pub generates :
        (c : Call S) (l : Label) (t : KeyType)
        → (e : Error) × (generate I features K c l t k ≡ (err e, k))
    pub rotates :
        (c : Call S) (l : Label) (r : RotateKey I) (x : Expiry)
        → rotate I features K c l r x k ≡ refusal k
    pub creates : (c : Call S) (l : Label) → get_or_create I features K c l k ≡ refusal k
    pub removes : (c : Call S) (l : Label) → remove I features K c l k ≡ refusal k
    pub lists : list I K k ≡ refusal k
    pub purges : (c : Call S) → purge_expired I K c k ≡ refusal k
    pub migrates : (c : Call S) (new : Cipher) → migrate_cipher I K c new k ≡ refusal k
    pub gets : (c : Call S) (l : Label) → (e : Error) × (get I features K c l k ≡ (err e, k))
    pub public_keys :
        (c : Call S) (l : Label) → (e : Error) × (public_key I features K c l k ≡ (err e, k))
    pub peer_ids :
        (c : Call S) (l : Label) → (e : Error) × (peer_id I features K c l k ≡ (err e, k))
    pub shows : (l : Label) → (e : Error) × (metadata I features K l k ≡ (err e, k))

  get_gone :
      (k : Keychain S)
      → k.cipher ≡ none
      → (c : Call S) (l : Label) → (e : Error) × (get I features K c l k ≡ (err e, k))
  unfolding get
  get_gone k gone c l = elim (Bool-cases k.is_disabled) [
    | inl on ↦ (disabled, simp (disable_check_on k on))
    | inr off ↦ elim (Result-cases (validate_label l)) [
      | inr (e, bad) ↦ (e, simp (disable_check_off k off, bad))
      | inl (_, good) ↦ (
        backend write_result_unknown,
        simp (disable_check_off k off, good, authenticated_entry_gone I features K l k gone),
      )
    ]
  ]

  metadata_gone :
      (k : Keychain S)
      → k.cipher ≡ none
      → (l : Label) → (e : Error) × (metadata I features K l k ≡ (err e, k))
  unfolding metadata
  metadata_gone k gone l = elim (Result-cases (validate_label l)) [
    | inr (e, bad) ↦ (e, simp bad)
    | inl (_, good) ↦
        (backend write_result_unknown, simp (good, authenticated_entry_gone I features K l k gone))
  ]

  generate_gone :
      (k : Keychain S)
      → k.cipher ≡ none
      → (c : Call S) (l : Label) (t : KeyType)
      → (e : Error) × (generate I features K c l t k ≡ (err e, k))
  unfolding generate insert
  generate_gone k gone c l t = elim (Result-cases (generate_keypair I features t (c.random 1))) [
    | inr (e, bad) ↦ (e, simp bad)
    | inl (kp, made) ↦ (backend write_result_unknown, simp (made, lock_gone k gone))
  ]

  public_key_gone :
      (k : Keychain S)
      → k.cipher ≡ none
      → (c : Call S) (l : Label) → (e : Error) × (public_key I features K c l k ≡ (err e, k))
  unfolding public_key
  public_key_gone k gone c l =
      let (e, refused) = get_gone k gone c l in
      (e, ap (λ p. continue p (λ keypair. pure (I.public keypair))) refused)

  peer_id_gone :
      (k : Keychain S)
      → k.cipher ≡ none
      → (c : Call S) (l : Label) → (e : Error) × (peer_id I features K c l k ≡ (err e, k))
  unfolding peer_id
  peer_id_gone k gone c l =
      let (e, refused) = public_key_gone k gone c l in
      (e, ap (λ p. continue p (λ pubkey. pure (I.to_peer_id pubkey))) refused)

  pub gone-IsLockedOut : (k : Keychain S) → k.cipher ≡ none → IsLockedOut k
  unfolding insert insert_with_expiry rotate get_or_create remove list authenticated_entries
      purge_expired migrate_cipher
  gone-IsLockedOut k gone = record {
    inserts = λ c l kp x. simp (lock_gone k gone);
    inserts_forever = λ c l kp. simp (lock_gone k gone);
    generates = generate_gone k gone;
    rotates = λ c l r x. simp (lock_gone k gone);
    creates = λ c l. simp (lock_gone k gone);
    removes = λ c l. simp (lock_gone k gone);
    lists = simp (lock_gone k gone);
    purges = λ c. simp (lock_gone k gone);
    migrates = λ c new. simp (lock_gone k gone);
    gets = get_gone k gone;
    public_keys = public_key_gone k gone;
    peer_ids = peer_id_gone k gone;
    shows = metadata_gone k gone;
  }
