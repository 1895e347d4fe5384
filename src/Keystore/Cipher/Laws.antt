-- ===== src/Keystore/Cipher/Laws.antt =====
-- src/keystore.rs, `trait Cipher`: what "authenticated encryption" promises.
use connexa.Prelude.{ℕ, Option, some, ◌≡◌, ok}
use connexa.Keystore.Types.{Bytes}
use connexa.Keystore.Cipher.{Cipher}

-- What was encrypted is read back under the same associated data.
pub record IsInverse (c : Cipher) : Type 0 where
  pub decrypt-encrypt :
      (draw : ℕ) (aad : Option Bytes) (plaintext blob : Bytes)
      → c.encrypt draw aad plaintext ≡ ok blob
      → c.decrypt aad blob ≡ ok plaintext

-- A ciphertext is accepted under one associated data only.
pub record IsBinding (c : Cipher) : Type 0 where
  pub one_aad :
      (a b : Bytes) (blob p q : Bytes)
      → c.decrypt (some a) blob ≡ ok p
      → c.decrypt (some b) blob ≡ ok q
      → a ≡ b
