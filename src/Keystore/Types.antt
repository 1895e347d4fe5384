-- ===== src/Keystore/Types.antt =====
-- src/keystore.rs: errors, key types, expiry policies, metadata and entries. What libp2p's
-- `identity` module provides is the record `Identity`, a parameter of all that uses it.
use connexa.Prelude.{
  ℕ, ◌≡◌, Bool, true, false, ◌&&◌, Option, none, some, List, arith, if◌then◌else◌, Eq, ◌==◌,
  nat_beq, ◌↔◌, Result, ok, err, nat_eq, list_eq,
}
use connexa.Keystore.Time.{SystemTime, checked_add, time_ge, time_eq}

abbrev pub Bytes : Type 0
Bytes = List ℕ

-- A label is the UTF-8 text of a Rust `String`, as its bytes.
abbrev pub Label : Type 0
Label = Bytes

pub data KeyType : Type 0 where
  ed25519 rsa secp256k1 ecdsa : KeyType

-- `std::io::Error` as the keystore makes it or passes it on, one constructor for each message;
-- `converted` is `io::Error::other` of an error of another kind.
pub data IoError : Type 0 where
  write_result_unknown : IoError
  not_a_file conflicting_journals unsupported_journal invalid_journal_label : IoError
  unexpected_entry label_mismatch recovery_failed converted not_found_file exists_already : IoError
  io : ℕ → IoError

pub data Error : Type 0 where
  not_found : Label → Error
  expired : Label → Error
  encrypt_failed decrypt_failed key : Error
  backend : IoError → Error
  unsupported_key_type : KeyType → Error
  key_type_mismatch : KeyType → KeyType → Error
  invalid_label : Label → Error
  join_error disabled : Error

abbrev key_type_beq : KeyType → KeyType → Bool
key_type_beq ed25519 ed25519 = true
key_type_beq rsa rsa = true
key_type_beq secp256k1 secp256k1 = true
key_type_beq ecdsa ecdsa = true
key_type_beq _ _ = false

pub key_type_beq_iff : (a b : KeyType) → (key_type_beq a b ≡ true) ↔ (a ≡ b)
key_type_beq_iff a b = ground arith

instance abbrev pub key_type_eq : Eq KeyType
key_type_eq = record { beq = key_type_beq; beq_iff = key_type_beq_iff }

-- `libp2p::identity::KeyType`
pub data P2pKeyType : Type 0 where
  p2p_ed25519 p2p_rsa p2p_secp256k1 p2p_ecdsa : P2pKeyType

-- `impl From<libp2p::identity::KeyType> for KeyType`
unfoldable pub from_p2p : P2pKeyType → KeyType
from_p2p p2p_ed25519 = ed25519
from_p2p p2p_rsa = rsa
from_p2p p2p_secp256k1 = secp256k1
from_p2p p2p_ecdsa = ecdsa

-- What the keystore calls of `libp2p::identity`. A decoding error has no content here. `generate`
-- takes the random draw that the library makes.
pub record Identity : Type 1 where
  pub Keypair : Type 0
  pub PublicKey : Type 0
  pub PeerId : Type 0
  pub key_type : Keypair → P2pKeyType
  pub public : Keypair → PublicKey
  pub public_key_type : PublicKey → P2pKeyType
  pub encode_public : PublicKey → Bytes
  pub try_decode_public : Bytes → Option PublicKey
  pub to_peer_id : PublicKey → PeerId
  pub to_protobuf_encoding : Keypair → Option Bytes
  pub from_protobuf_encoding : Bytes → Option Keypair
  pub generate : KeyType → ℕ → Keypair

-- The encodings of libp2p are read back by their decoders, and a public key has its keypair's type.
pub record IsLawful (I : Identity) : Type 0 where
  pub keypair_decode :
      (k : I.Keypair) (b : Bytes)
      → I.to_protobuf_encoding k ≡ some b
      → I.from_protobuf_encoding b ≡ some k
  pub public_decode : (p : I.PublicKey) → I.try_decode_public (I.encode_public p) ≡ some p
  pub public_type : (k : I.Keypair) → I.public_key_type (I.public k) ≡ I.key_type k

pub data Expiry : Type 0 where
  never : Expiry
  after : ℕ → Expiry
  at : SystemTime → Expiry

-- `Expiry::resolve`
unfoldable pub resolve : ℕ → Expiry → SystemTime → Option SystemTime
resolve limit never created_at = none
resolve limit (after ttl) created_at = checked_add limit created_at ttl
resolve limit (at t) created_at = some t

pub record KeyMetadata : Type 0 where
  pub label : Label
  pub key_type : KeyType
  pub version : ℕ
  pub created_at : SystemTime
  pub expires_at : Option SystemTime
  pub public_key : Bytes

-- `KeyMetadata::is_expired`, at the time `now`
unfoldable pub is_expired : SystemTime → KeyMetadata → Bool
is_expired now m = elim m.expires_at [ none ↦ false | some exp ↦ time_ge now exp ]

pub record EncryptedEntry : Type 0 where
  pub metadata : KeyMetadata
  pub ciphertext : Bytes

-- A replacement keypair or the key type to generate.
pub data RotateKey (I : Identity) : Type 0 where
  keypair : I.Keypair → RotateKey I
  generate : KeyType → RotateKey I

abbrev pub option_time_beq : Option SystemTime → Option SystemTime → Bool
option_time_beq none none = true
option_time_beq (some a) (some b) = a == b
option_time_beq _ _ = false

-- `same_metadata`
unfoldable pub same_metadata : KeyMetadata → KeyMetadata → Bool
same_metadata a b =
    a.label == b.label
    && (a.key_type == b.key_type
        && (nat_beq a.version b.version
            && (a.created_at == b.created_at
                && (option_time_beq a.expires_at b.expires_at && a.public_key == b.public_key))))

-- `same_entry`
unfoldable pub same_entry : EncryptedEntry → EncryptedEntry → Bool
unfolding same_metadata
same_entry a b = a.ciphertext == b.ciphertext && same_metadata a.metadata b.metadata

module _ (I : Identity) where
  open I use {PublicKey, PeerId, try_decode_public, public_key_type, to_peer_id}

  -- `KeyMetadata::public_key`
  metadata_public_key : KeyMetadata → Result Error PublicKey
  metadata_public_key m = elim (try_decode_public m.public_key) [
    | none ↦ err key
    | some pubkey ↦
        let has = from_p2p (public_key_type pubkey) in
        if has == m.key_type then ok pubkey else err (key_type_mismatch has m.key_type)
  ]

  -- `KeyMetadata::peer_id`
  unfoldable pub metadata_peer_id : KeyMetadata → Result Error PeerId
  unfolding metadata_public_key
  metadata_peer_id m = elim (metadata_public_key m) [
    | ok pubkey ↦ ok (to_peer_id pubkey)
    | err e ↦ err e
  ]
