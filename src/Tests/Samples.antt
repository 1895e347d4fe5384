-- ===== src/Tests/Samples.antt =====
-- A small identity library, a cipher that frames the associated data, and keychains over the
-- in-memory backend.
use connexa.Prelude.{
  ℕ, suc, ◌≡◌, refl, sym, ◌∙◌, ap, subst, arith, Option, none, some, [], ◌∷◌, ◌++◌, Result, ok, err,
  length, take, drop, list_eq, nat_eq, ◌==◌, if◌then◌else◌, list_beq_iff, take-length_append,
  drop-length_append, true, false, ◌+◌,
}
use connexa.Keystore.Types.{
  Bytes, Error, Identity, IsLawful, p2p_ed25519, decrypt_failed, KeyMetadata, EncryptedEntry,
  ed25519,
}
use connexa.Keystore.Cipher.{Cipher}
use connexa.Keystore.Cipher.Laws.{IsInverse, IsBinding}
use connexa.Keystore.Aad.{metadata_aad}
use connexa.Keystore.Memory.{MemoryKeystore}
use connexa.Keystore.Keychain.{Fate, Features, Call, Keychain, finishes}
use connexa.Keystore.Time.{since}

abbrev decode_one : Bytes → Option ℕ
decode_one (b ∷ []) = some b
decode_one _ = none

abbrev pub small_identity : Identity
small_identity = record {
  Keypair = ℕ;
  PublicKey = ℕ;
  PeerId = ℕ;
  key_type = λ k. p2p_ed25519;
  public = λ k. k;
  public_key_type = λ p. p2p_ed25519;
  encode_public = λ p. p ∷ [];
  try_decode_public = decode_one;
  to_peer_id = λ p. p;
  to_protobuf_encoding = λ k. some (k ∷ []);
  from_protobuf_encoding = decode_one;
  generate = λ key_type draw. draw;
}

decode_some :
    (k : ℕ) (b : Bytes)
    → (let e : Option Bytes = some (k ∷ []) in e) ≡ some b
    → decode_one b ≡ some k
decode_some k [] e = absurd (ground arith)
decode_some k (b ∷ []) e = ground arith
decode_some k (b ∷ c ∷ rest) e = absurd (ground arith)

pub small_identity-IsLawful : IsLawful small_identity
small_identity-IsLawful = record {
  keypair_decode = decode_some;
  public_decode = λ p. refl;
  public_type = λ k. refl;
}

-- The blob is the associated data behind its length, then the message.
abbrev frame : Option Bytes → Bytes
frame none = 0 ∷ []
frame (some aad) = suc (length aad) ∷ aad

abbrev framing_encrypt : ℕ → Option Bytes → Bytes → Result Error Bytes
framing_encrypt draw aad message = ok (frame aad ++ message)

abbrev framing_decrypt : Option Bytes → Bytes → Result Error Bytes
framing_decrypt aad blob =
    let n = length (frame aad) in
    if take n blob == frame aad then ok (drop n blob) else err decrypt_failed

abbrev pub framing : Cipher
framing = record { encrypt = framing_encrypt; decrypt = framing_decrypt }

framing_inverse :
    (draw : ℕ) (aad : Option Bytes) (p blob : Bytes)
    → framing_encrypt draw aad p ≡ ok blob
    → framing_decrypt aad blob ≡ ok p
framing_inverse draw aad p blob e =
    let framed : frame aad ++ p ≡ blob = ground arith in
    subst (λ b. framing_decrypt aad b ≡ ok p) framed
      (ground (
        arith,
        take-length_append (frame aad) p,
        drop-length_append (frame aad) p,
        list_beq_iff (frame aad) (frame aad),
      ))

framing_decrypt-frame :
    (a : Bytes) (blob p : Bytes)
    → framing_decrypt (some a) blob ≡ ok p
    → take (suc (length a)) blob ≡ frame (some a)
framing_decrypt-frame a blob p h =
    ground (arith, list_beq_iff (take (suc (length a)) blob) (frame (some a)))

same_frame :
    (a b blob : Bytes)
    → take (suc (length a)) blob ≡ frame (some a)
    → take (suc (length b)) blob ≡ frame (some b)
    → a ≡ b
same_frame a b [] ha hb = absurd (ground arith)
same_frame a b (n ∷ rest) ha hb =
    let na : n ≡ suc (length a) = ground (arith) in
    let nb : n ≡ suc (length b) = ground (arith) in
    let fa : take (length a) rest ≡ a = ground (arith) in
    let fb : take (length b) rest ≡ b = ground (arith) in
    let same : length a ≡ length b = omega arith in sym fa ∙ ap (λ m. take m rest) same ∙ fb

framing_one_aad :
    (a b : Bytes) (blob p q : Bytes)
    → framing_decrypt (some a) blob ≡ ok p
    → framing_decrypt (some b) blob ≡ ok q
    → a ≡ b
framing_one_aad a b blob p q ha hb =
    same_frame a b blob (framing_decrypt-frame a blob p ha) (framing_decrypt-frame b blob q hb)

pub framing-IsInverse : IsInverse framing
framing-IsInverse = record { decrypt-encrypt = framing_inverse }

pub framing-IsBinding : IsBinding framing
framing-IsBinding = record { one_aad = framing_one_aad }

-- "alice" and "bob"
abbrev pub alice : Bytes
alice = 97 ∷ 108 ∷ 105 ∷ 99 ∷ 101 ∷ []

abbrev pub bob : Bytes
bob = 98 ∷ 111 ∷ 98 ∷ []

-- Made five seconds after the epoch, with five seconds to live.
abbrev pub alice_metadata : KeyMetadata
alice_metadata = record {
  label = alice;
  key_type = ed25519;
  version = 1;
  created_at = since 5000000000;
  expires_at = some (since 10000000000);
  public_key = 7 ∷ [];
}

abbrev pub bob_metadata : KeyMetadata
bob_metadata = record {
  label = bob;
  key_type = ed25519;
  version = 3;
  created_at = since 5000000000;
  expires_at = none;
  public_key = 9 ∷ [];
}

abbrev pub framed : KeyMetadata → ℕ → EncryptedEntry
framed m k = record { metadata = m; ciphertext = frame (some (metadata_aad m)) ++ (k ∷ []) }

abbrev pub all_features : Features
all_features = record { has_ed25519 = true; has_secp256k1 = true; has_ecdsa = true }

-- A call at that many nanoseconds after the epoch.
abbrev pub call_at : ℕ → Fate MemoryKeystore → Call MemoryKeystore
call_at now fate = record {
  now = since now;
  time_limit = 9223372036854775807999999999;
  random = λ i. 40 + i;
  fate = fate;
}

abbrev pub keychain_of : MemoryKeystore → Keychain MemoryKeystore
keychain_of entries = record { cipher = some framing; backend = entries; is_disabled = false }

abbrev pub two_entries : MemoryKeystore
two_entries = (alice, framed alice_metadata 7) ∷ (bob, framed bob_metadata 9) ∷ []

abbrev pub later : Call MemoryKeystore
later = call_at 20000000000 finishes

abbrev pub early : Call MemoryKeystore
early = call_at 6000000000 finishes
