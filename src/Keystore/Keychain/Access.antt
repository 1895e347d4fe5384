-- ===== src/Keystore/Keychain/Access.antt =====
-- What a write of one label means for the reads that follow, over a reliable backend.
use connexa.Prelude.{
  ℕ, ◌≡◌, refl, ap, ◌∙◌, true, false, Option, some, List, ok, beq_refl, list_eq, nat_eq, Bool-cases,
  inl, inr, Result-cases, Option-cases, if◌then◌else◌, and_then, lift_chain, ◌>>=◌, sym, continue,
}
use connexa.Keystore.Types.{
  Label, Identity, KeyMetadata, EncryptedEntry, Expiry, from_p2p, backend, not_found, disabled,
  write_result_unknown,
}
use connexa.Keystore.Label.{validate_label}
use connexa.Keystore.Backend.{Keystore}
use connexa.Keystore.Backend.Laws.{IsReliable, label_of}
use connexa.Keystore.Cipher.{Cipher}
use connexa.Keystore.Keychain.{
  Keychain, Call, Features, Bool, Result, Error, err, disabled, to_result, none, Exec, on_backend,
}
use connexa.Keystore.Keychain.Entries.{OpenedEntry, seal_entry, matches_metadata, open_entry}
use connexa.Keystore.Keychain.Ops.{
  store, new_metadata, get, unexpired, open_found, authenticated_entry,
}
use connexa.Keystore.Keychain.Sealing.{seal_entry-eq-ok}
use connexa.Keystore.Keychain.Steps.{
  disable_check_bind, lift_bind, finish_mutation-eq-ok, disable_check_off, lock_held,
  disable_check_on, lock_gone,
}

module _ (I : Identity) (features : Features) {S : Type 0} (K : Keystore S) where
  -- What a successful `store` has done to the state.
  abbrev Stored :
      Call S → Label → I.Keypair → Expiry → ℕ → Cipher → Keychain S → Keychain S → Type 0
  Stored c label kp expiry version cipher k k' =
      (e : EncryptedEntry) × (seal_entry I (c.random 0) cipher
          (new_metadata I features K c label kp expiry version) kp
        ≡ ok e)
      × (validate_label label ≡ ok tt)
      × (k.is_disabled ≡ false)
      × (K.put e k.backend ≡ (ok tt, k'.backend))
      × (k'.cipher ≡ k.cipher)
      × (k'.is_disabled ≡ false)

  pub store-eq-ok :
      (c : Call S) (label : Label) (kp : I.Keypair) (expiry : Expiry) (version : ℕ)
      (cipher : Cipher) (k k' : Keychain S)
      → store I features K c label kp expiry version cipher k ≡ (ok tt, k')
      → Stored c label kp expiry version cipher k k'
  unfolding store
  store-eq-ok c label kp expiry version cipher k k' h =
      let (enabled, h1) = disable_check_bind _ k h in
      let (_, valid, h2) = lift_bind (validate_label label) _ k h1 in
      let (e, sealed, h3) =
        lift_bind
          (seal_entry I (c.random 0) cipher (new_metadata I features K c label kp expiry version)
            kp)
          _ k h2 in
      let (put, kept, same) = finish_mutation-eq-ok c.fate (K.put e) k h3 in
      (e, sealed, valid, enabled, put, kept, same ∙ enabled)

  pub matches_new_metadata :
      (c : Call S) (label : Label) (kp : I.Keypair) (expiry : Expiry) (version : ℕ)
      → matches_metadata I kp (new_metadata I features K c label kp expiry version) ≡ true
  unfolding matches_metadata new_metadata
  matches_new_metadata c label kp expiry version =
      rw (beq_refl (from_p2p (I.key_type kp)), beq_refl (I.encode_public (I.public kp))) refl

  pub label-seal_entry :
      (draw : ℕ) (cipher : Cipher) (m : KeyMetadata) (kp : I.Keypair) (e : EncryptedEntry)
      → seal_entry I draw cipher m kp ≡ ok e
      → label_of e ≡ m.label
  label-seal_entry draw cipher m kp e h =
      let (p, encoded, encrypted, same) = seal_entry-eq-ok I draw cipher m kp h in
      ap (λ (x : KeyMetadata). x.label) same

  pub version-seal_entry :
      (draw : ℕ) (cipher : Cipher) (m : KeyMetadata) (kp : I.Keypair) (e : EncryptedEntry)
      → seal_entry I draw cipher m kp ≡ ok e
      → e.metadata.version ≡ m.version
  version-seal_entry draw cipher m kp e h =
      let (p, encoded, encrypted, same) = seal_entry-eq-ok I draw cipher m kp h in
      ap (λ (x : KeyMetadata). x.version) same

  pub authenticated_entry_gone :
      (label : Label) (k : Keychain S)
      → k.cipher ≡ none
      → authenticated_entry I features K label k ≡ (err (backend write_result_unknown), k)
  unfolding authenticated_entry
  authenticated_entry_gone label k gone = simp (lock_gone k gone)

  module _ {IsValid : S → Type 0} {view : Label → S → Option EncryptedEntry}
      {entries : S → List EncryptedEntry} (rel : IsReliable K IsValid view entries) where
    authenticated_entry_lem :
        (label : Label) (cipher : Cipher) (k : Keychain S)
        → k.cipher ≡ some cipher
        → authenticated_entry I features K label k
          ≡ (open_found I features K cipher label (view label k.backend), k)
    unfolding authenticated_entry
    authenticated_entry_lem label cipher k held = simp (lock_held k held, rel.get_lem)

    pub get_found :
        (c : Call S) (label : Label) (cipher : Cipher) (e : EncryptedEntry) (o : OpenedEntry I)
        (k : Keychain S)
        → k.cipher ≡ some cipher
        → k.is_disabled ≡ false
        → validate_label label ≡ ok tt
        → view label k.backend ≡ some e
        → open_entry I cipher label e ≡ ok o
        → get I features K c label k ≡ (unexpired I features K c label o, k)
    unfolding get open_found
    get_found c label cipher e o k held enabled valid found opened = simp (
      disable_check_off k enabled,
      valid,
      authenticated_entry_lem label cipher k held,
      found,
      opened,
    )

    -- What `get` returns, as a function of the cipher, the flag and what the label holds.
    abbrev pub get_result :
        Call S → Label → Option Cipher → Bool → Option EncryptedEntry → Result Error I.Keypair
    get_result c label cipher is_disabled held =
        if is_disabled
        then err disabled
        else and_then (validate_label label) (λ _.
          and_then (to_result (backend write_result_unknown) cipher) (λ cipher.
            and_then (open_found I features K cipher label held) (λ found.
              and_then (to_result (not_found label) found)
                (λ opened. unexpired I features K c label opened))))

    -- `get` changes nothing, and its result depends on the keychain only through its cipher, whether
    -- it is disabled, and what the backend holds under that label: a disabled keychain, an invalid
    -- label, a cipher that is gone, an entry that does not open, a missing entry and an expired one
    -- are refused in this order, and otherwise the keypair is returned.
    pub get_lem :
        (c : Call S) (label : Label) (k : Keychain S)
        → get I features K c label k
          ≡ (get_result c label k.cipher k.is_disabled (view label k.backend), k)
    unfolding get
    get_lem c label k = elim (Bool-cases k.is_disabled) [
      | inl on ↦ simp (disable_check_on k on) (ap (λ r. (r, k)) (simp on))
      | inr off ↦ elim (Result-cases (validate_label label)) [
        | inr (e, bad) ↦ simp (disable_check_off k off, bad) (ap (λ r. (r, k)) (simp off))
        | inl (_, good) ↦ elim (Option-cases k.cipher) [
          | inl gone ↦
              simp (disable_check_off k off, good, authenticated_entry_gone label k gone)
                (ap (λ r. (r, k)) (simp (off, gone)))
          | inr (cipher, held) ↦
              simp (disable_check_off k off, good, authenticated_entry_lem label cipher k held)
                (lift_chain (open_found I features K cipher label (view label k.backend))
                    (to_result (not_found label)) (unexpired I features K c label) k
                  ∙ ap (λ r. (r, k)) (simp (off, held)))
        ]
      ]
    ]

    pub lookup_bind :
        {B : Type 0} (label : Label) (f : Option EncryptedEntry → Exec Error (Keychain S) B)
        (k : Keychain S) {b : B} {k' : Keychain S}
        → (on_backend (K.get label) >>= f) k ≡ (ok b, k')
        → f (view label k.backend) k ≡ (ok b, k')
    lookup_bind label f k h =
        sym (
          ap
            (λ (p : Result Error (Option EncryptedEntry) × S).
              continue (p.0, record k { backend = p.1 }) f)
            (rel.get_lem label k.backend))
        ∙ h
