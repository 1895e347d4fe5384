-- ===== src/Keystore/Aad.antt =====
-- src/keystore.rs, `metadata_aad`: the bytes that a cipher authenticates along with a key.
pub mod Injective
use connexa.Prelude.{ℕ, zero, suc, ◌/◌, ◌%◌, List, [], ◌∷◌, ◌++◌, Option, none, some, length}
use connexa.Keystore.Time.{SystemTime, since, before, as_secs, subsec_nanos}
use connexa.Keystore.Types.{Bytes, KeyType, ed25519, rsa, secp256k1, ecdsa, KeyMetadata}

-- `n.to_be_bytes()` of a w-byte number, in front of what follows.
unfoldable pub be_bytes_onto : ℕ → ℕ → Bytes → Bytes
be_bytes_onto zero n rest = rest
be_bytes_onto (suc w) n rest = be_bytes_onto w (n / 256) (n % 256 ∷ rest)

unfoldable pub be_bytes : ℕ → ℕ → Bytes
unfolding be_bytes_onto
be_bytes w n = be_bytes_onto w n []

-- b"connexa-keystore-metadata-v1"
abbrev pub metadata_aad_domain : Bytes
metadata_aad_domain =
    b'c' ∷ b'o' ∷ b'n' ∷ b'n' ∷ b'e' ∷ b'x' ∷ b'a' ∷ b'-' ∷ b'k' ∷ b'e' ∷ b'y' ∷ b's' ∷ b't' ∷ b'o'
    ∷ b'r' ∷ b'e' ∷ b'-' ∷ b'm' ∷ b'e' ∷ b't' ∷ b'a' ∷ b'd' ∷ b'a' ∷ b't' ∷ b'a' ∷ b'-' ∷ b'v'
    ∷ b'1' ∷ []

unfoldable pub extend_bytes : Bytes → Bytes → Bytes
extend_bytes aad bytes = (aad ++ be_bytes 8 (length bytes)) ++ bytes

extend_duration : Bytes → ℕ → ℕ → Bytes
extend_duration aad before_epoch duration =
    ((aad ++ (before_epoch ∷ [])) ++ be_bytes 8 (as_secs duration))
    ++ be_bytes 4 (subsec_nanos duration)

unfoldable pub extend_time : Bytes → SystemTime → Bytes
unfolding extend_duration
extend_time aad (since n) = extend_duration aad 0 n
extend_time aad (before n) = extend_duration aad 1 (suc n)

unfoldable pub key_type_tag : KeyType → ℕ
key_type_tag ed25519 = 0
key_type_tag rsa = 1
key_type_tag secp256k1 = 2
key_type_tag ecdsa = 3

extend_expiry : Bytes → Option SystemTime → Bytes
extend_expiry aad none = aad ++ (0 ∷ [])
extend_expiry aad (some expires_at) = extend_time (aad ++ (1 ∷ [])) expires_at

unfoldable pub metadata_aad : KeyMetadata → Bytes
unfolding extend_expiry key_type_tag
metadata_aad m =
    let aad = extend_bytes metadata_aad_domain m.label in
    let aad = aad ++ (key_type_tag m.key_type ∷ []) in
    let aad = aad ++ be_bytes 4 m.version in
    let aad = extend_time aad m.created_at in
    let aad = extend_expiry aad m.expires_at in extend_bytes aad m.public_key
