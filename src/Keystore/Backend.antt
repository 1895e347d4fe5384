-- ===== src/Keystore/Backend.antt =====
-- src/keystore.rs, `trait Keystore`: what the keychain asks of a storage backend with state `S`.
-- A call returns its result and the new state, also where it fails.
pub mod Laws
use connexa.Prelude.{Bool, Option, List, Exec}
use connexa.Keystore.Types.{Label, Error, KeyMetadata, EncryptedEntry}

pub record Keystore (S : Type 0) : Type 0 where
  pub put : EncryptedEntry → Exec Error S (Unit {0})
  pub put_many : List EncryptedEntry → Exec Error S (Unit {0})
  pub get : Label → Exec Error S (Option EncryptedEntry)
  pub list : Exec Error S (List KeyMetadata)
  pub remove : Label → Exec Error S Bool
