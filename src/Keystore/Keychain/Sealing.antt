-- ===== src/Keystore/Keychain/Sealing.antt =====
-- What `seal_entry` and `open_entry` guarantee together.
use connexa.Prelude.{
  ℕ, ◌≡◌, true, some, ok, arith, inl, inr, Option-cases, Result-cases, list_beq_iff, beq_refl,
  list_eq, nat_eq, ap, ◌∙◌,
}
use connexa.Keystore.Types.{Bytes, Label, Identity, IsLawful, KeyMetadata, EncryptedEntry}
use connexa.Keystore.Aad.{metadata_aad}
use connexa.Keystore.Cipher.{Cipher}
use connexa.Keystore.Cipher.Laws.{IsInverse, IsBinding}
use connexa.Keystore.Keychain.Entries.{OpenedEntry, seal_entry, matches_metadata, open_entry}
use connexa.Keystore.Aad.Injective.{Fits, metadata_aad_injective}

module _ (I : Identity) where
  -- What a successful `seal_entry` has done.
  abbrev Sealed : ℕ → Cipher → KeyMetadata → I.Keypair → EncryptedEntry → Type 0
  Sealed draw cipher m kp e =
      (plaintext : Bytes) × (I.to_protobuf_encoding kp ≡ some plaintext)
      × (cipher.encrypt draw (some (metadata_aad m)) plaintext ≡ ok e.ciphertext)
      × (e.metadata ≡ m)

  pub seal_entry-eq-ok :
      (draw : ℕ) (cipher : Cipher) (m : KeyMetadata) (kp : I.Keypair) {e : EncryptedEntry}
      → seal_entry I draw cipher m kp ≡ ok e
      → Sealed draw cipher m kp e
  unfolding seal_entry
  seal_entry-eq-ok draw cipher m kp h = elim (Option-cases (I.to_protobuf_encoding kp)) [
    | inl none' ↦ absurd (ground arith)
    | inr (p, hp) ↦ elim (Result-cases (cipher.encrypt draw (some (metadata_aad m)) p)) [
      | inr (x, hx) ↦ absurd (ground arith)
      | inl (c, hc) ↦ (p, hp, ground arith, ground arith)
    ]
  ]

  -- What a successful `open_entry` has checked.
  abbrev Opened : Cipher → Label → EncryptedEntry → OpenedEntry I → Type 0
  Opened cipher label e o =
      (plaintext : Bytes) × (cipher.decrypt (some (metadata_aad e.metadata)) e.ciphertext
        ≡ ok plaintext)
      × (I.from_protobuf_encoding plaintext ≡ some o.keypair)
      × (e.metadata.label ≡ label)
      × (o.metadata ≡ e.metadata)
      × (matches_metadata I o.keypair e.metadata ≡ true)

  pub open_entry-eq-ok :
      (cipher : Cipher) (label : Label) (e : EncryptedEntry) {o : OpenedEntry I}
      → open_entry I cipher label e ≡ ok o
      → Opened cipher label e o
  unfolding open_entry
  open_entry-eq-ok cipher label e {o} h =
      elim (Result-cases (cipher.decrypt (some (metadata_aad e.metadata)) e.ciphertext)) [
        | inr (x, hx) ↦ absurd (ground arith)
        | inl (p, hp) ↦ elim (Option-cases (I.from_protobuf_encoding p)) [
          | inl none' ↦ absurd (ground arith)
          | inr (kp, hkp) ↦ (
            p,
            hp,
            ground arith,
            ground (arith, list_beq_iff e.metadata.label label),
            ground arith,
            ground arith,
          )
        ]
      ]

  pub open_entry-seal_entry :
      IsLawful I
      → (draw : ℕ) (cipher : Cipher) (m : KeyMetadata) (kp : I.Keypair) {e : EncryptedEntry}
      → IsInverse cipher
      → matches_metadata I kp m ≡ true
      → seal_entry I draw cipher m kp ≡ ok e
      → open_entry I cipher m.label e ≡ ok (record { keypair = kp; metadata = m })
  unfolding open_entry
  open_entry-seal_entry law draw cipher m kp {e} inv fits h =
      let (p, encoded, encrypted, same) = seal_entry-eq-ok draw cipher m kp h in
      let opened : cipher.decrypt (some (metadata_aad e.metadata)) e.ciphertext ≡ ok p =
        ap (λ (x : KeyMetadata). cipher.decrypt (some (metadata_aad x)) e.ciphertext) same
        ∙ inv.decrypt-encrypt draw (some (metadata_aad m)) p e.ciphertext encrypted in
      let decoded = law.keypair_decode kp p encoded in
      ground (arith, opened, decoded, same, beq_refl m.label)

  -- A sealed key can only be opened with the metadata that it was sealed with. With a cipher that
  -- reads back what it wrote and accepts a ciphertext under one associated data only, and metadata
  -- that fits the machine widths: if the stored metadata is replaced by any other, under any label,
  -- and the entry still opens, then the metadata is the original one, the label is its label, and
  -- the keypair is the one that was sealed.
  pub open_entry_authentic :
      IsLawful I
      → (draw : ℕ) (cipher : Cipher) (m m' : KeyMetadata) (label : Label) (kp : I.Keypair)
        {e : EncryptedEntry} {o : OpenedEntry I}
      → IsInverse cipher
      → IsBinding cipher
      → Fits m
      → Fits m'
      → seal_entry I draw cipher m kp ≡ ok e
      → open_entry I cipher label (record e { metadata = m' }) ≡ ok o
      → (m' ≡ m) × (label ≡ m.label) × (o.metadata ≡ m) × (o.keypair ≡ kp)
  open_entry_authentic law draw cipher m m' label kp {e} {o} inv bind fm fm' hs ho =
      let (p, encoded, encrypted, same) = seal_entry-eq-ok draw cipher m kp hs in
      let (q, opened, decoded, labelled, kept, matched) =
        open_entry-eq-ok cipher label (record e { metadata = m' }) ho in
      let back = inv.decrypt-encrypt draw (some (metadata_aad m)) p e.ciphertext encrypted in
      let equal : m' ≡ m =
        metadata_aad_injective m' m fm' fm
          (bind.one_aad (metadata_aad m') (metadata_aad m) e.ciphertext q p opened back) in
      let plain : cipher.decrypt (some (metadata_aad m')) e.ciphertext ≡ ok p = rw equal back in
      (
        equal,
        cc (labelled, ap (λ (x : KeyMetadata). x.label) equal),
        kept ∙ equal,
        ground (arith, opened, plain, decoded, law.keypair_decode kp p encoded),
      )
