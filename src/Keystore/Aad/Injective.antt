-- ===== src/Keystore/Aad/Injective.antt =====
-- `metadata_aad` forgets nothing: the bytes determine the metadata.
use mathlib.Core.List.{append_assoc, append-nil, tail}
use native.Mathlib.Nat.{pow-suc}
use connexa.Prelude.{
  ℕ, zero, suc, ◌/◌, ◌%◌, ◌^◌, ◌<◌, ◌≡◌, refl, sym, ◌∙◌, ap, [], ◌∷◌, ◌++◌, Option, none, some,
  arith, length,
}
use connexa.Keystore.Time.{SystemTime, since, before, as_secs, subsec_nanos}
use connexa.Keystore.Types.{Bytes, KeyType, KeyMetadata}
use connexa.Keystore.Aad.{
  be_bytes_onto, be_bytes, metadata_aad_domain, extend_bytes, extend_time, key_type_tag,
  extend_expiry, metadata_aad,
}

-- The machine widths of what is encoded: `u64` lengths and seconds, a `u32` version.
abbrev TimeFits : SystemTime → Type 0
TimeFits (since n) = as_secs n < 256 ^ 8
TimeFits (before n) = as_secs (suc n) < 256 ^ 8

abbrev ExpiryFits : Option SystemTime → Type 0
ExpiryFits none = Unit {0}
ExpiryFits (some t) = TimeFits t

pub record Fits (m : KeyMetadata) : Type 0 where
  pub label : length m.label < 256 ^ 8
  pub version : m.version < 256 ^ 4
  pub created_at : TimeFits m.created_at
  pub expires_at : ExpiryFits m.expires_at
  pub public_key : length m.public_key < 256 ^ 8

be_bytes_onto-append :
    (w n : ℕ) (r s : Bytes) → be_bytes_onto w n r ++ s ≡ be_bytes_onto w n (r ++ s)
unfolding be_bytes_onto
be_bytes_onto-append zero n r s = refl
be_bytes_onto-append (suc w) n r s = be_bytes_onto-append w (n / 256) (n % 256 ∷ r) s

be_bytes-append : (w n : ℕ) (s : Bytes) → be_bytes w n ++ s ≡ be_bytes_onto w n s
unfolding be_bytes
be_bytes-append w n s = be_bytes_onto-append w n [] s

div_bound : (w n : ℕ) → n < 256 ^ suc w → n / 256 < 256 ^ w
div_bound w n h = omega (arith, pow-suc 256 w)

be_bytes_onto_injective :
    (w n m : ℕ) (r s : Bytes)
    → n < 256 ^ w
    → m < 256 ^ w
    → be_bytes_onto w n r ≡ be_bytes_onto w m s
    → (n ≡ m) × (r ≡ s)
unfolding be_bytes_onto
be_bytes_onto_injective zero n m r s hn hm e = (omega arith, e)
be_bytes_onto_injective (suc w) n m r s hn hm e =
    let rest =
      be_bytes_onto_injective w (n / 256) (m / 256) (n % 256 ∷ r) (m % 256 ∷ s) (div_bound w n hn)
        (div_bound w m hm) e in
    (ground (arith, rest), ground (arith, rest))

append_cancel : (a b r s : Bytes) → length a ≡ length b → a ++ r ≡ b ++ s → (a ≡ b) × (r ≡ s)
append_cancel [] [] r s h e = (refl, e)
append_cancel [] (y ∷ b) r s h e = absurd (omega arith)
append_cancel (x ∷ a) [] r s h e = absurd (omega arith)
append_cancel (x ∷ a) (y ∷ b) r s h e = ground (arith, append_cancel a b r s)

-- The encoders, each in front of what follows.
abbrev duration_onto : ℕ → ℕ → Bytes → Bytes
duration_onto sign d r = sign ∷ be_bytes_onto 8 (as_secs d) (be_bytes_onto 4 (subsec_nanos d) r)

abbrev time_onto : SystemTime → Bytes → Bytes
time_onto (since n) r = duration_onto 0 n r
time_onto (before n) r = duration_onto 1 (suc n) r

abbrev expiry_onto : Option SystemTime → Bytes → Bytes
expiry_onto none r = 0 ∷ r
expiry_onto (some t) r = 1 ∷ time_onto t r

abbrev bytes_onto : Bytes → Bytes → Bytes
bytes_onto b r = be_bytes_onto 8 (length b) (b ++ r)

abbrev metadata_onto : KeyMetadata → Bytes
metadata_onto m =
    metadata_aad_domain
    ++ bytes_onto m.label (
        key_type_tag m.key_type
        ∷ be_bytes_onto 4 m.version
            (time_onto m.created_at (expiry_onto m.expires_at (bytes_onto m.public_key []))))

ruleset flatten = (append_assoc, be_bytes-append, append-nil)

extend_time_onto : (aad r : Bytes) (t : SystemTime) → extend_time aad t ++ r ≡ aad ++ time_onto t r
unfolding extend_time be_bytes_onto
extend_time_onto aad r (since n) = simp flatten
extend_time_onto aad r (before n) = simp flatten

extend_expiry_onto :
    (aad r : Bytes) (t : Option SystemTime) → extend_expiry aad t ++ r ≡ aad ++ expiry_onto t r
unfolding extend_expiry
extend_expiry_onto aad r none = simp flatten
extend_expiry_onto aad r (some t) = simp (flatten, extend_time_onto)

extend_bytes_onto : (aad b r : Bytes) → extend_bytes aad b ++ r ≡ aad ++ bytes_onto b r
unfolding extend_bytes be_bytes_onto
extend_bytes_onto aad b r = simp flatten

metadata_aad_onto : (m : KeyMetadata) → metadata_aad m ≡ metadata_onto m
unfolding metadata_aad be_bytes_onto
metadata_aad_onto m =
    sym (append-nil _)
    ∙ simp (append_assoc, extend_bytes_onto, extend_expiry_onto, extend_time_onto, be_bytes-append)

duration_onto_injective :
    (i j d c : ℕ) (r s : Bytes)
    → as_secs d < 256 ^ 8
    → as_secs c < 256 ^ 8
    → duration_onto i d r ≡ duration_onto j c s
    → (i ≡ j) × (d ≡ c) × (r ≡ s)
duration_onto_injective i j d c r s hd hc e =
    let secs =
      be_bytes_onto_injective 8 (as_secs d) (as_secs c) (be_bytes_onto 4 (subsec_nanos d) r)
        (be_bytes_onto 4 (subsec_nanos c) s) hd hc (cc) in
    let nanos =
      be_bytes_onto_injective 4 (subsec_nanos d) (subsec_nanos c) r s (omega arith) (omega arith)
        secs.1 in
    (cc, omega (arith, secs.0, nanos.0), nanos.1)

time_onto_injective :
    (t u : SystemTime) (r s : Bytes)
    → TimeFits t
    → TimeFits u
    → time_onto t r ≡ time_onto u s
    → (t ≡ u) × (r ≡ s)
time_onto_injective (since n) (since m) r s ht hu e =
    let h = duration_onto_injective 0 0 n m r s ht hu e in (ap since h.1, h.2)
time_onto_injective (since n) (before m) r s ht hu e =
    let h = duration_onto_injective 0 1 n (suc m) r s ht hu e in absurd (omega (arith, h.0))
time_onto_injective (before n) (since m) r s ht hu e =
    let h = duration_onto_injective 1 0 (suc n) m r s ht hu e in absurd (omega (arith, h.0))
time_onto_injective (before n) (before m) r s ht hu e =
    let h = duration_onto_injective 1 1 (suc n) (suc m) r s ht hu e in
    (ap before (omega (arith, h.1)), h.2)

expiry_onto_injective :
    (t u : Option SystemTime) (r s : Bytes)
    → ExpiryFits t
    → ExpiryFits u
    → expiry_onto t r ≡ expiry_onto u s
    → (t ≡ u) × (r ≡ s)
expiry_onto_injective none none r s ht hu e = (refl, cc)
expiry_onto_injective none (some u) r s ht hu e = absurd (grind arith)
expiry_onto_injective (some t) none r s ht hu e = absurd (grind arith)
expiry_onto_injective (some t) (some u) r s ht hu e =
    let h = time_onto_injective t u r s ht hu (cc) in (ap some h.0, h.1)

bytes_onto_injective :
    (a b r s : Bytes)
    → length a < 256 ^ 8
    → length b < 256 ^ 8
    → bytes_onto a r ≡ bytes_onto b s
    → (a ≡ b) × (r ≡ s)
bytes_onto_injective a b r s ha hb e =
    let h = be_bytes_onto_injective 8 (length a) (length b) (a ++ r) (b ++ s) ha hb e in
    append_cancel a b r s h.0 h.1

key_type_tag_injective : (k l : KeyType) → key_type_tag k ≡ key_type_tag l → k ≡ l
unfolding key_type_tag
key_type_tag_injective k l e = ground arith

fields_equal :
    {m n : KeyMetadata}
    → m.label ≡ n.label
    → m.key_type ≡ n.key_type
    → m.version ≡ n.version
    → m.created_at ≡ n.created_at
    → m.expires_at ≡ n.expires_at
    → m.public_key ≡ n.public_key
    → m ≡ n
fields_equal a b c d e f = λ i. record {
  label = a i;
  key_type = b i;
  version = c i;
  created_at = d i;
  expires_at = e i;
  public_key = f i;
}

metadata_onto_injective :
    (m n : KeyMetadata) → Fits m → Fits n → metadata_onto m ≡ metadata_onto n → m ≡ n
metadata_onto_injective m n hm hn e =
    let labels =
      bytes_onto_injective m.label n.label _ _ hm.label hn.label
        (append_cancel metadata_aad_domain metadata_aad_domain _ _ refl e).1 in
    let versions =
      be_bytes_onto_injective 4 m.version n.version _ _ hm.version hn.version (ap tail labels.1) in
    let created =
      time_onto_injective m.created_at n.created_at _ _ hm.created_at hn.created_at versions.1 in
    let expires =
      expiry_onto_injective m.expires_at n.expires_at _ _ hm.expires_at hn.expires_at created.1 in
    let keys =
      bytes_onto_injective m.public_key n.public_key [] [] hm.public_key hn.public_key expires.1 in
    fields_equal labels.0 (key_type_tag_injective m.key_type n.key_type (cc labels.1)) versions.0
      created.0 expires.0 keys.0

-- Two pieces of metadata that fit the machine widths and have the same authenticated bytes are
-- equal in every field: label, key type, version, both times and public key.
pub metadata_aad_injective :
    (m n : KeyMetadata) → Fits m → Fits n → metadata_aad m ≡ metadata_aad n → m ≡ n
metadata_aad_injective m n hm hn e =
    metadata_onto_injective m n hm hn (sym (metadata_aad_onto m) ∙ e ∙ metadata_aad_onto n)
