-- ===== src/Keystore/Cipher.antt =====
-- src/keystore.rs, `trait Cipher`: authenticated encryption. `encrypt` takes what the call draws
-- from the random generator.
pub mod Laws
pub mod Aead
use connexa.Prelude.{ℕ, Option, Result}
use connexa.Keystore.Types.{Bytes, Error}

pub record Cipher : Type 0 where
  pub encrypt : ℕ → Option Bytes → Bytes → Result Error Bytes
  pub decrypt : Option Bytes → Bytes → Result Error Bytes
