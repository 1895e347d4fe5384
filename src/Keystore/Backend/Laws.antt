-- ===== src/Keystore/Backend/Laws.antt =====
-- src/keystore.rs, `trait Keystore`: what its documentation promises of a backend that does not
-- fail. `view` is what a label holds, `entries` all that is stored, `IsValid` the backend's own
-- invariant.
use connexa.Prelude.{
  ◌≡◌, Bool, true, false, Option, none, some, List, [], ◌∷◌, map, ok, if◌then◌else◌, ◌==◌, nat_eq,
  list_eq,
}
use connexa.Dict.{contains}
use connexa.Keystore.Types.{Label, EncryptedEntry}
use connexa.Keystore.Backend.{Keystore}

abbrev pub is_some : {A : Type 0} → Option A → Bool
is_some none = false
is_some (some a) = true

abbrev pub label_of : EncryptedEntry → Label
label_of e = e.metadata.label

-- What a label holds after a batch: its last entry there.
abbrev pub last_put : Label → List EncryptedEntry → Option EncryptedEntry → Option EncryptedEntry
last_put l [] before = before
last_put l (e ∷ es) before = last_put l es (if label_of e == l then some e else before)

abbrev pub All : {A : Type 0} → (A → Type 0) → List A → Type 0
All P [] = Unit
All P (x ∷ xs) = P x × All P xs

abbrev pub AreDistinct : List Label → Type 0
AreDistinct [] = Unit
AreDistinct (l ∷ ls) = (contains l ls ≡ false) × AreDistinct ls

pub record IsReliable {S : Type 0} (K : Keystore S) (IsValid : S → Type 0)
    (view : Label → S → Option EncryptedEntry) (entries : S → List EncryptedEntry) : Type 0 where
  pub put_result : (e : EncryptedEntry) (s : S) → (K.put e s).0 ≡ ok tt
  pub put-IsValid : (e : EncryptedEntry) (s : S) → IsValid s → IsValid (K.put e s).1
  pub view-put :
      (e : EncryptedEntry) (l : Label) (s : S)
      → view l (K.put e s).1 ≡ (if label_of e == l then some e else view l s)
  pub put_many_result : (es : List EncryptedEntry) (s : S) → (K.put_many es s).0 ≡ ok tt
  pub put_many-IsValid :
      (es : List EncryptedEntry) (s : S) → IsValid s → IsValid (K.put_many es s).1
  pub view-put_many :
      (es : List EncryptedEntry) (l : Label) (s : S)
      → view l (K.put_many es s).1 ≡ last_put l es (view l s)
  pub get_lem : (l : Label) (s : S) → K.get l s ≡ (ok (view l s), s)
  pub remove_result : (l : Label) (s : S) → (K.remove l s).0 ≡ ok (is_some (view l s))
  pub remove-IsValid : (l : Label) (s : S) → IsValid s → IsValid (K.remove l s).1
  pub view-remove :
      (l j : Label) (s : S) → view j (K.remove l s).1 ≡ (if l == j then none else view j s)
  pub list_lem : (s : S) → K.list s ≡ (ok (map (λ e. e.metadata) (entries s)), s)
  pub entries_view : (s : S) → IsValid s → All (λ e. view (label_of e) s ≡ some e) (entries s)
  pub entries_distinct : (s : S) → IsValid s → AreDistinct (map label_of (entries s))
  pub entries_complete :
      (s : S) (l : Label) → IsValid s → contains l (map label_of (entries s)) ≡ is_some (view l s)
