-- ===== src/Tests/Codec.antt =====
-- A codec for the entries and journals of the file keystore, in the place of the CBOR library.
use connexa.Prelude.{
  ℕ, suc, zero, Option, none, some, List, [], ◌∷◌, ◌++◌, length, ◌≡◌, refl, ap, sym, subst, ◌∙◌,
}
use connexa.Keystore.Types.{Bytes, KeyType, EncryptedEntry, ed25519, rsa, secp256k1, ecdsa}
use connexa.Keystore.Filesystem.Staging.{IsCbor}
use connexa.Keystore.Time.{SystemTime, since, before}
use connexa.Keystore.Filesystem.{Cbor, JournalRecord}

record Codec (A : Type 0) : Type 0 where
  write : A → Bytes
  read : Bytes → Option (A × Bytes)
  back : (a : A) (rest : Bytes) → read (write a ++ rest) ≡ some (a, rest)

abbrev read_number : Bytes → Option (ℕ × Bytes)
read_number [] = none
read_number (n ∷ rest) = some (n, rest)

abbrev number : Codec ℕ
number = record { write = λ n. n ∷ []; read = read_number; back = λ n rest. refl }

abbrev then_read :
    {A B C : Type 0}
    → Option (A × Bytes)
    → (A → Bytes → Option (B × Bytes))
    → (A → B → C)
    → Option (C × Bytes)
then_read none f g = none
then_read (some (a, rest)) f g = elim (f a rest) [
  | none ↦ none
  | some (b, rest') ↦ some (g a b, rest')
]

abbrev read_as : {A B : Type 0} → (A → B) → Option (A × Bytes) → Option (B × Bytes)
read_as to none = none
read_as to (some (a, rest)) = some (to a, rest)

append_assoc : (a b c : Bytes) → (a ++ b) ++ c ≡ a ++ (b ++ c)
append_assoc [] b c = refl
append_assoc (x ∷ a) b c = ap (λ l. x ∷ l) (append_assoc a b c)

module _ {A : Type 0} (first : Codec A) where
  pair_back :
      {B : Type 0} (second : Codec B) (a : A) (b : B) (rest : Bytes)
      → then_read {C = A × B}
          (first.read ((first.write a ++ second.write b) ++ rest))
          (λ _ l. second.read l)
          (λ x y. (x, y))
        ≡ some ((a, b), rest)
  pair_back second a b rest =
      rw
        (
          append_assoc (first.write a) (second.write b) rest,
          first.back a (second.write b ++ rest),
          second.back b rest,
        )
        refl

  abbrev pair : {B : Type 0} → Codec B → Codec (A × B)
  pair {B = B} second = record {
    write = λ p. first.write p.0 ++ second.write p.1;
    read = λ l. then_read {C = A × B} (first.read l) (λ _ r. second.read r) (λ x y. (x, y));
    back = λ p rest. pair_back second p.0 p.1 rest;
  }

  abbrev write_all : List A → Bytes
  write_all [] = []
  write_all (a ∷ l) = first.write a ++ write_all l

  abbrev read_all : ℕ → Bytes → Option (List A × Bytes)
  read_all zero l = some ([], l)
  read_all (suc n) l = then_read (first.read l) (λ _ r. read_all n r) (λ x y. x ∷ y)

  all_back :
      (l : List A) (rest : Bytes) → read_all (length l) (write_all l ++ rest) ≡ some (l, rest)
  all_back [] rest = refl
  all_back (a ∷ l) rest =
      rw
        (
          append_assoc (first.write a) (write_all l) rest,
          first.back a (write_all l ++ rest),
          all_back l rest,
        )
        refl

  abbrev many : Codec (List A)
  many = record {
    write = λ l. length l ∷ write_all l;
    read = λ l. elim l [ [] ↦ none | n ∷ rest ↦ read_all n rest ];
    back = all_back;
  }

  via_back :
      {B : Type 0} (to : A → B) (from : B → A) (inverse : (b : B) → to (from b) ≡ b) (b : B)
      (rest : Bytes)
      → read_as to (first.read (first.write (from b) ++ rest)) ≡ some (b, rest)
  via_back to from inverse b rest =
      rw (first.back (from b) rest) (ap (λ x. some (x, rest)) (inverse b))

  abbrev via : {B : Type 0} (to : A → B) (from : B → A) → ((b : B) → to (from b) ≡ b) → Codec B
  via to from inverse = record {
    write = λ b. first.write (from b);
    read = λ l. read_as to (first.read l);
    back = via_back to from inverse;
  }

abbrev type_number : KeyType → ℕ
type_number ed25519 = 0
type_number rsa = 1
type_number secp256k1 = 2
type_number ecdsa = 3

abbrev numbered_type : ℕ → KeyType
numbered_type zero = ed25519
numbered_type (suc zero) = rsa
numbered_type (suc (suc zero)) = secp256k1
numbered_type (suc (suc (suc _))) = ecdsa

numbered_back : (k : KeyType) → numbered_type (type_number k) ≡ k
numbered_back ed25519 = refl
numbered_back rsa = refl
numbered_back secp256k1 = refl
numbered_back ecdsa = refl

abbrev time_pair : SystemTime → ℕ × ℕ
time_pair (since n) = (0, n)
time_pair (before n) = (1, n)

abbrev paired_time : ℕ × ℕ → SystemTime
paired_time (zero, n) = since n
paired_time (suc _, n) = before n

paired_back : (t : SystemTime) → paired_time (time_pair t) ≡ t
paired_back (since n) = refl
paired_back (before n) = refl

abbrev to_list : {A : Type 0} → Option A → List A
to_list none = []
to_list (some a) = a ∷ []

abbrev from_list : {A : Type 0} → List A → Option A
from_list [] = none
from_list (a ∷ l) = some a

from-to_list : {A : Type 0} (o : Option A) → from_list (to_list o) ≡ o
from-to_list none = refl
from-to_list (some a) = refl

abbrev optional : {A : Type 0} → Codec A → Codec (Option A)
optional c = via (many c) from_list to_list from-to_list

abbrev text : Codec Bytes
text = many number

abbrev time : Codec SystemTime
time = via (pair number number) paired_time time_pair paired_back

abbrev Plain : Type 0
Plain = Bytes × (KeyType × (ℕ × (SystemTime × (Option SystemTime × (Bytes × Bytes)))))

abbrev plain : EncryptedEntry → Plain
plain e =
    let m = e.metadata in
    (
      m.label,
      (m.key_type, (m.version, (m.created_at, (m.expires_at, (m.public_key, e.ciphertext))))),
    )

abbrev entry_of : Plain → EncryptedEntry
entry_of (label, (key_type, (version, (created_at, (expires_at, (public_key, ciphertext)))))) =
    record {
      metadata = record {
        label = label;
        key_type = key_type;
        version = version;
        created_at = created_at;
        expires_at = expires_at;
        public_key = public_key;
      };
      ciphertext = ciphertext;
    }

abbrev entry_codec : Codec EncryptedEntry
entry_codec =
    via
      (pair text (
        pair (via number numbered_type type_number numbered_back)
          (pair number (pair time (pair (optional time) (pair text text))))))
      entry_of plain (λ e. refl)

abbrev journal_codec : Codec JournalRecord
journal_codec =
    via (pair number (many (pair text (optional text))))
      (λ p. record { version = p.0; originals = p.1 }) (λ j. (j.version, j.originals)) (λ j. refl)

abbrev whole : {A : Type 0} → Option (A × Bytes) → Option A
whole none = none
whole (some (a, [])) = some a
whole (some (a, _ ∷ _)) = none

append-nil : (b : Bytes) → b ++ [] ≡ b
append-nil [] = refl
append-nil (x ∷ b) = ap (λ l. x ∷ l) (append-nil b)

whole_back : {A : Type 0} (c : Codec A) (a : A) → whole (c.read (c.write a)) ≡ some a
whole_back c a = ap whole (ap c.read (sym (append-nil (c.write a))) ∙ c.back a [])

unfoldable pub small_cbor : Cbor
unfolding numbered_back paired_back via_back pair_back all_back from-to_list append_assoc
small_cbor = record {
  encode_entry = λ e. some (entry_codec.write e);
  decode_entry = λ b. whole (entry_codec.read b);
  encode_journal = λ j. some (journal_codec.write j);
  decode_journal = λ b. whole (journal_codec.read b);
}

read_written :
    {A : Type 0} (c : Codec A) (a : A) (b : Bytes)
    → ◌≡◌ {A = Option Bytes} (some (c.write a)) (some b)
    → whole (c.read b) ≡ some a
read_written c a b e =
    let same : c.write a ≡ b = cc in subst (λ x. whole (c.read x) ≡ some a) same (whole_back c a)

pub small_cbor-IsCbor : IsCbor small_cbor
unfolding small_cbor
small_cbor-IsCbor = record {
  decode-encode_entry = λ e b h. read_written entry_codec e b h;
  decode-encode_journal = λ j b h. read_written journal_codec j b h;
}
