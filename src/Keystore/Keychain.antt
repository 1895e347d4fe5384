-- ===== src/Keystore/Keychain.antt =====
-- src/keystore.rs, `Keychain`. The lock over the cipher serialises the operations: each one is a
-- function of the state that it finds. Clones of a keychain share that state. `now` is the clock
-- and `random` the draws of one call; `fate` says whether the task of its write runs to its end.
pub mod Entries
pub mod Ops
pub mod Bulk
pub mod Lifetime
pub mod Sealing
pub mod Steps
pub mod Access
pub mod Writes
pub mod Rotation
pub mod Creation
pub mod FailStop
pub mod Outcomes
pub mod Stopped
pub mod Loading
pub mod Migration
pub mod Purging
use connexa.Prelude.{
  ℕ, ◌+◌, Bool, Option, none, some, Result, ok, err, Exec, if◌then◌else◌, list_eq, nat_eq, ltb,
}
use connexa.Keystore.Time.{SystemTime}
use connexa.Keystore.Types.{
  KeyType, ed25519, rsa, secp256k1, ecdsa, key_type_eq, Error, backend, unsupported_key_type,
  join_error, disabled, write_result_unknown, Identity,
}
use connexa.Keystore.Cipher.{Cipher}

pub record Keychain (S : Type 0) : Type 0 where
  pub cipher : Option Cipher
  pub backend : S
  pub is_disabled : Bool

-- How the spawned task of a write ends: it finishes, or it stops and leaves the backend as it is.
pub data Fate (S : Type 0) : Type 0 where
  finishes : Fate S
  stops : S → Fate S

-- The features `ed25519`, `secp256k1` and `ecdsa` that the crate was built with.
pub record Features : Type 0 where
  pub has_ed25519 : Bool
  pub has_secp256k1 : Bool
  pub has_ecdsa : Bool

pub record Call (S : Type 0) : Type 0 where
  pub now : SystemTime
  pub time_limit : ℕ
  pub random : ℕ → ℕ
  pub fate : Fate S

-- The largest `u32`.
abbrev pub u32_max : ℕ
u32_max = 4294967295

unfoldable pub saturating_add_one : ℕ → ℕ
saturating_add_one n = if ltb n u32_max then n + 1 else u32_max

abbrev pub to_result : {A : Type 0} → Error → Option A → Result Error A
to_result e none = err e
to_result e (some a) = ok a

module _ {S : Type 0} where
  -- A call of the backend, under the lock.
  abbrev pub on_backend : {A : Type 0} → Exec Error S A → Exec Error (Keychain S) A
  on_backend work k = let (r, s) = work k.backend in (r, record k { backend = s })

  -- `read_lock` and `write_lock`: both refuse a keychain whose cipher is gone.
  unfoldable pub lock : Exec Error (Keychain S) Cipher
  lock k = elim k.cipher [
    | none ↦ (err (backend write_result_unknown), k)
    | some cipher ↦ (ok cipher, k)
  ]

  unfoldable pub disable_check : Exec Error (Keychain S) (Unit {0})
  disable_check k = if k.is_disabled then (err disabled, k) else (ok tt, k)

  -- `finish_mutation`: the cipher is taken out, and put back by the task when the work is done.
  unfoldable pub finish_mutation :
      {A : Type 0} → Fate S → Exec Error S A → Exec Error (Keychain S) A
  finish_mutation finishes work k =
      let cipher = k.cipher in
      let taken = record k { cipher = none } in
      let (result, s) = work taken.backend in
      (result, record taken { backend = s; cipher = cipher })
  finish_mutation (stops s) work k =
      let taken = record k { cipher = none } in (err join_error, record taken { backend = s })

unfoldable pub generate_keypair :
    (I : Identity) → Features → KeyType → ℕ → Result Error (Identity.Keypair I)
generate_keypair I features ed25519 draw =
    if features.has_ed25519
    then ok (I.generate ed25519 draw)
    else err (unsupported_key_type ed25519)
generate_keypair I features secp256k1 draw =
    if features.has_secp256k1
    then ok (I.generate secp256k1 draw)
    else err (unsupported_key_type secp256k1)
generate_keypair I features ecdsa draw =
    if features.has_ecdsa then ok (I.generate ecdsa draw) else err (unsupported_key_type ecdsa)
generate_keypair I features rsa draw = err (unsupported_key_type rsa)
