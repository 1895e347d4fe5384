-- ===== src/Tests/Sealing.antt =====
-- The encodings, the ciphers and the sealed entries on concrete inputs.
use connexa.Prelude.{
  ℕ, ◌≡◌, refl, arith, some, [], ◌∷◌, ok, err, length, drop, ◌++◌, suc, zero, ap, subst,
  drop-length_append, ◌↔◌,
}
use connexa.Keystore.Types.{Bytes, invalid_label}
use connexa.Keystore.Aad.{be_bytes_onto, be_bytes, extend_bytes, extend_time, metadata_aad}
use connexa.Keystore.Aad.Injective.{Fits, metadata_aad_injective}
use connexa.Keystore.Label.{validate_label, IsFileName, validate_label_iff}
use connexa.Keystore.Keychain.Entries.{open_blob, open_entry, seal_entry, matches_metadata}
use connexa.Keystore.Keychain.Sealing.{open_entry_authentic}
use connexa.Keystore.Cipher.Aead.{Aead, aes_gcm, xchacha20poly1305, framed-IsInverse}
use connexa.Keystore.Cipher.Laws.{IsInverse}
use connexa.Tests.Samples.{
  small_identity, small_identity-IsLawful, framing, framing-IsInverse, framing-IsBinding, alice,
  alice_metadata, framed,
}

alice_metadata-Fits : Fits alice_metadata
alice_metadata-Fits = record {
  label = ground arith;
  version = ground arith;
  created_at = ground arith;
  expires_at = ground arith;
  public_key = ground arith;
}

metadata_aad_injective_example : alice_metadata ≡ alice_metadata
metadata_aad_injective_example =
    metadata_aad_injective alice_metadata alice_metadata alice_metadata-Fits alice_metadata-Fits
      refl

alice_sealed : seal_entry small_identity 0 framing alice_metadata 7 ≡ ok (framed alice_metadata 7)
unfolding seal_entry
alice_sealed = refl

alice_opened :
    open_entry small_identity framing alice (framed alice_metadata 7)
    ≡ ok (record { keypair = 7; metadata = alice_metadata })
unfolding open_entry open_blob matches_metadata metadata_aad be_bytes be_bytes_onto extend_bytes
    extend_time connexa.Keystore.Types.from_p2p
alice_opened = refl

abbrev seven : ℕ
seven = 7

open_entry_authentic_example :
    (alice_metadata ≡ alice_metadata)
    × (alice ≡ alice)
    × (alice_metadata ≡ alice_metadata)
    × (seven ≡ seven)
open_entry_authentic_example =
    open_entry_authentic small_identity small_identity-IsLawful 0 framing alice_metadata
      alice_metadata alice 7 framing-IsInverse framing-IsBinding alice_metadata-Fits
      alice_metadata-Fits alice_sealed alice_opened

validate_label_iff_example :
    ((validate_label alice ≡ ok tt) ↔ IsFileName alice)
    × ((validate_label alice ≡ err (invalid_label alice)) ↔ (¬ IsFileName alice))
validate_label_iff_example = validate_label_iff alice

-- An algorithm that puts the nonce in front of the message.
abbrev prefixing : Aead
prefixing = record {
  seal = λ nonce aad msg. some (nonce ++ msg);
  open_sealed = λ nonce aad ct. some (drop (length nonce) ct);
}

abbrev sevens : ℕ → ℕ → Bytes
sevens draw zero = []
sevens draw (suc n) = 7 ∷ sevens draw n

length-sevens : (draw n : ℕ) → length (sevens draw n) ≡ n
length-sevens draw zero = refl
length-sevens draw (suc n) = ap suc (length-sevens draw n)

prefixing_opens :
    (nonce aad msg ct : Bytes)
    → prefixing.seal nonce aad msg ≡ some ct
    → prefixing.open_sealed nonce aad ct ≡ some msg
prefixing_opens nonce aad msg ct e =
    let same : nonce ++ msg ≡ ct = ground arith in
    subst (λ b. prefixing.open_sealed nonce aad b ≡ some msg) same
      (ap some (drop-length_append nonce msg))

framed-IsInverse_example :
    IsInverse (aes_gcm sevens prefixing) × IsInverse (xchacha20poly1305 sevens prefixing)
framed-IsInverse_example =
    framed-IsInverse sevens prefixing length-sevens (record { open-seal = prefixing_opens })
