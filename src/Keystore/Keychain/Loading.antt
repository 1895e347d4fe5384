-- ===== src/Keystore/Keychain/Loading.antt =====
-- `load_entries` over a reliable backend.
use connexa.Prelude.{
  ◌≡◌, ok, arith, refl, list_eq, nat_eq, map, List, [], ◌∷◌, Option, false, true, list_beq_iff,
  some, beq_refl, none, continue, pure, ap,
}
use connexa.Keystore.Keychain.Bulk.{load_listed, load_entries}
use connexa.Keystore.Types.{
  EncryptedEntry, same_metadata, Label, KeyMetadata, option_time_beq, key_type_eq,
}
use connexa.Dict.{contains}
use connexa.Keystore.Backend.{Keystore}
use connexa.Keystore.Backend.Laws.{All, IsReliable, label_of, AreDistinct}
use connexa.Keystore.Label.{validate_label}
use connexa.Keystore.Keychain.{Keychain, some}
use connexa.Keystore.Time.{SystemTime, time_eq}

-- Labels that `validate_label` accepts, one for each entry.
abbrev pub HaveValidLabels : List EncryptedEntry → Type 0
HaveValidLabels = All (λ e. validate_label (label_of e) ≡ ok tt)

option_time_refl : (t : Option SystemTime) → option_time_beq t t ≡ true
option_time_refl none = refl
option_time_refl (some t) = beq_refl t

same_metadata_refl : (m : KeyMetadata) → same_metadata m m ≡ true
unfolding same_metadata
same_metadata_refl m = ground (
  arith,
  beq_refl m.label,
  beq_refl m.key_type,
  beq_refl m.created_at,
  option_time_refl m.expires_at,
  beq_refl m.public_key,
)

-- No label of the first list is in the second.
abbrev Avoids : List Label → List Label → Type 0
Avoids [] seen = Unit
Avoids (l ∷ ls) seen = (contains l seen ≡ false) × Avoids ls seen

Avoids-cons :
    (ls : List Label) (l : Label) (seen : List Label)
    → contains l ls ≡ false
    → Avoids ls seen
    → Avoids ls (l ∷ seen)
unfolding contains
Avoids-cons [] l seen h a = tt
Avoids-cons (j ∷ ls) l seen h a =
    (ground (arith, list_beq_iff j l, list_beq_iff l j), Avoids-cons ls l seen (ground arith) a.1)

Avoids-nil : (ls : List Label) → Avoids ls []
unfolding contains
Avoids-nil [] = tt
Avoids-nil (l ∷ ls) = (refl, Avoids-nil ls)

module _ {S : Type 0} (K : Keystore S) {IsValid : S → Type 0}
    {view : Label → S → Option EncryptedEntry} {entries : S → List EncryptedEntry}
    (rel : IsReliable K IsValid view entries) where
  load_listed_lem :
      (es : List EncryptedEntry) (seen : List Label) (k : Keychain S)
      → All (λ e. view (label_of e) k.backend ≡ some e) es
      → AreDistinct (map label_of es)
      → Avoids (map label_of es) seen
      → HaveValidLabels es
      → load_listed K (map (λ e. e.metadata) es) seen k ≡ (ok es, k)
  unfolding load_listed
  load_listed_lem [] seen k held distinct fresh valid = refl
  load_listed_lem (e ∷ es) seen k held distinct fresh valid =
      let rest =
        load_listed_lem es (label_of e ∷ seen) k held.1 distinct.1
          (Avoids-cons (map label_of es) (label_of e) seen distinct.0 fresh.1) valid.1 in
      simp (valid.0, fresh.0, rel.get_lem, held.0, same_metadata_refl)
        (ap (λ r. continue r (λ es. pure (e ∷ es))) rest)

  -- Over a reliable backend in a valid state whose labels are all valid, `load_entries` reads every
  -- entry exactly once, in the order of the listing, and changes nothing.
  pub load_entries_lem :
      (k : Keychain S)
      → IsValid k.backend
      → HaveValidLabels (entries k.backend)
      → load_entries K k ≡ (ok (entries k.backend), k)
  unfolding load_entries
  load_entries_lem k valid labels =
      let listed =
        load_listed_lem (entries k.backend) [] k (rel.entries_view k.backend valid)
          (rel.entries_distinct k.backend valid) (Avoids-nil (map label_of (entries k.backend)))
          labels in
      simp rel.list_lem listed
