-- ===== src/Dict.antt =====
-- The standard library's maps and sets: `HashMap`, `HashSet`, `IndexMap`, `IndexSet`. A map is its
-- list of entries, in the order in which the program would iterate; an entry that is replaced keeps
-- its place, a new one goes to the end, and a removal keeps the order of the rest, as `IndexMap`
-- documents for `insert` and `shift_remove`. A `HashMap` may iterate in any order.
mod Keys
pub mod Values
use connexa.Prelude.{
  ℕ, suc, ◌+◌, ◌≤◌, ◌≡◌, refl, ap, Bool, true, false, ◌||◌, ◌&&◌, not, Option, none, some, List, [],
  ◌∷◌, ◌++◌, map, arith, if◌then◌else◌, Eq, ◌==◌, length, ◌⊎◌, inl, inr, Bool-cases,
}
unfoldable pub use Keys.*

abbrev pub Dict : Type 0 → Type 0 → Type 0
Dict K V = List (K × V)

module _ {K V : Type 0} ⦃e : Eq K⦄ where
  unfoldable pub lookup : K → Dict K V → Option V
  lookup k [] = none
  lookup k ((j, v) ∷ m) = if j == k then some v else lookup k m

  unfoldable pub insert : K → V → Dict K V → Dict K V
  insert k v [] = (k, v) ∷ []
  insert k v ((j, w) ∷ m) = let rest = insert k v m in if j == k then (j, v) ∷ m else (j, w) ∷ rest

  unfoldable pub remove : K → Dict K V → Dict K V
  remove k [] = []
  remove k ((j, w) ∷ m) = let rest = remove k m in if j == k then rest else (j, w) ∷ rest

  abbrev pub has : K → Dict K V → Bool
  has k m = elim (lookup k m) [ none ↦ false | some v ↦ true ]

  pub lookup-insert :
      (key other : K) (v : V) (m : Dict K V)
      → lookup other (insert key v m) ≡ (if key == other then some v else lookup other m)
  unfolding insert lookup
  lookup-insert key other v ((at, w) ∷ m) = ground (
    arith,
    lookup-insert key other v m,
    e.beq_iff at key,
    e.beq_iff at other,
    e.beq_iff key other,
  )
  lookup-insert key other v [] = refl

  pub lookup-remove :
      (k j : K) (m : Dict K V) → lookup j (remove k m) ≡ (if k == j then none else lookup j m)
  unfolding lookup remove
  lookup-remove k j [] = ground arith
  lookup-remove k j ((i, w) ∷ m) =
      ground (arith, e.beq_iff k j, e.beq_iff i k, e.beq_iff i j, lookup-remove k j m)

  pub contains-keys : (k : K) (m : Dict K V) → contains k (map (λ kv. kv.0) m) ≡ has k m
  unfolding contains lookup
  contains-keys k [] = refl
  contains-keys k ((j, v) ∷ m) = ground (arith, contains-keys k m)
