-- ===== src/Keystore/Cipher/Aead.antt =====
-- src/keystore/cipher/aes_gcm.rs, xchacha20poly1305.rs and plaintext.rs. The algorithms of the
-- crates `aes-gcm` and `chacha20poly1305` and the random generator are parameters.
use connexa.Prelude.{
  ℕ, ◌≡◌, Option, none, some, Result, ok, err, ◌++◌, [], length, take, drop, ltb, if◌then◌else◌,
  arith, length-append, take-length_append, drop-length_append, Option-cases, inl, inr, subst,
}
use connexa.Keystore.Types.{Bytes, Error, encrypt_failed, decrypt_failed}
use connexa.Keystore.Cipher.{Cipher}
use connexa.Keystore.Cipher.Laws.{IsInverse}

-- `aead::Aead` under a fixed key: nonce, associated data and message.
pub record Aead : Type 0 where
  pub seal : Bytes → Bytes → Bytes → Option Bytes
  pub open_sealed : Bytes → Bytes → Bytes → Option Bytes

pub record IsAead (a : Aead) : Type 0 where
  pub open-seal :
      (nonce aad msg ct : Bytes)
      → a.seal nonce aad msg ≡ some ct
      → a.open_sealed nonce aad ct ≡ some msg

abbrev unwrap_or_empty : Option Bytes → Bytes
unwrap_or_empty none = []
unwrap_or_empty (some aad) = aad

module _ (nonce_len : ℕ) (fill : ℕ → ℕ → Bytes) (a : Aead) where
  encrypt_framed : ℕ → Option Bytes → Bytes → Result Error Bytes
  encrypt_framed draw aad plaintext =
      let nonce = fill draw nonce_len in
      elim (a.seal nonce (unwrap_or_empty aad) plaintext) [
        | none ↦ err encrypt_failed
        | some ciphertext ↦ ok (nonce ++ ciphertext)
      ]

  decrypt_framed : Option Bytes → Bytes → Result Error Bytes
  decrypt_framed aad ciphertext =
      if ltb (length ciphertext) nonce_len
      then err decrypt_failed
      else elim (a.open_sealed (take nonce_len ciphertext) (unwrap_or_empty aad)
          (drop nonce_len ciphertext)) [ none ↦ err decrypt_failed | some plaintext ↦ ok plaintext ]

-- `AesGcmCipher`
pub aes_gcm : (ℕ → ℕ → Bytes) → Aead → Cipher
unfolding encrypt_framed decrypt_framed
aes_gcm fill a = record { encrypt = encrypt_framed 12 fill a; decrypt = decrypt_framed 12 fill a }

-- `XChaCha20Poly1305Cipher`
pub xchacha20poly1305 : (ℕ → ℕ → Bytes) → Aead → Cipher
unfolding encrypt_framed decrypt_framed
xchacha20poly1305 fill a = record {
  encrypt = encrypt_framed 24 fill a;
  decrypt = decrypt_framed 24 fill a;
}

-- `Plaintext`
abbrev pub plaintext : Cipher
plaintext = record { encrypt = λ _ _ bytes. ok bytes; decrypt = λ _ bytes. ok bytes }

module _ (nonce_len : ℕ) (fill : ℕ → ℕ → Bytes) (a : Aead) where
  decrypt_framed-append :
      IsAead a
      → (nonce ct msg : Bytes) (aad : Option Bytes) → length nonce ≡ nonce_len
      → a.seal nonce (unwrap_or_empty aad) msg ≡ some ct
      → decrypt_framed nonce_len fill a aad (nonce ++ ct) ≡ ok msg
  unfolding decrypt_framed
  decrypt_framed-append law nonce ct msg aad len sealed =
      let front : take nonce_len (nonce ++ ct) ≡ nonce = rw (← len) (take-length_append nonce ct) in
      let back : drop nonce_len (nonce ++ ct) ≡ ct = rw (← len) (drop-length_append nonce ct) in
      ground (
        arith,
        front,
        back,
        length-append nonce ct,
        law.open-seal nonce (unwrap_or_empty aad) msg ct sealed,
      )

  decrypt-encrypt_framed :
      ((draw n : ℕ) → length (fill draw n) ≡ n)
      → IsAead a
      → (draw : ℕ) (aad : Option Bytes) (msg blob : Bytes)
      → encrypt_framed nonce_len fill a draw aad msg ≡ ok blob
      → decrypt_framed nonce_len fill a aad blob ≡ ok msg
  unfolding encrypt_framed decrypt_framed
  decrypt-encrypt_framed filled law draw aad msg blob e =
      let nonce = fill draw nonce_len in
      elim (Option-cases (a.seal nonce (unwrap_or_empty aad) msg)) [
        | inl failed ↦ absurd (ground arith)
        | inr (ct, sealed) ↦
            let framed : nonce ++ ct ≡ blob = ground arith in
            subst (λ b. decrypt_framed nonce_len fill a aad b ≡ ok msg) framed
              (decrypt_framed-append law nonce ct msg aad (filled draw nonce_len) sealed)
      ]

-- With a generator that fills its buffer and algorithms that open what they seal, each of the two
-- ciphers, AES-256-GCM with a 12-byte nonce and XChaCha20-Poly1305 with a 24-byte nonce, reads its
-- own blobs back under the associated data of the encryption.
pub framed-IsInverse :
    (fill : ℕ → ℕ → Bytes) (a : Aead)
    → ((draw n : ℕ) → length (fill draw n) ≡ n)
    → IsAead a
    → IsInverse (aes_gcm fill a) × IsInverse (xchacha20poly1305 fill a)
unfolding aes_gcm xchacha20poly1305
framed-IsInverse fill a filled law = (
  record { decrypt-encrypt = decrypt-encrypt_framed 12 fill a filled law },
  record { decrypt-encrypt = decrypt-encrypt_framed 24 fill a filled law },
)
