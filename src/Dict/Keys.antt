-- ===== src/Dict/Keys.antt =====
-- Sets as lists without repetition.
use connexa.Prelude.{
  ◌≡◌, refl, Bool, false, ◌||◌, ◌&&◌, not, List, [], ◌∷◌, ◌++◌, arith, if◌then◌else◌, Eq, ◌==◌,
  keep, Bool-cases, inl, inr, ap,
}

module _ {K : Type 0} ⦃e : Eq K⦄ where
  unfoldable pub contains : K → List K → Bool
  contains k [] = false
  contains k (j ∷ s) = j == k || contains k s

  unfoldable pub add : K → List K → List K
  unfolding contains
  add k s = if contains k s then s else s ++ (k ∷ [])

  unfoldable pub drop_key : K → List K → List K
  drop_key k [] = []
  drop_key k (j ∷ s) = let rest = drop_key k s in if j == k then rest else j ∷ rest

  contains-append : (k : K) (s t : List K) → contains k (s ++ t) ≡ (contains k s || contains k t)
  unfolding contains
  contains-append k [] t = refl
  contains-append k (j ∷ s) t = ground (arith, contains-append k s t)

  pub contains-add : (k j : K) (s : List K) → contains j (add k s) ≡ (k == j || contains j s)
  unfolding add
  contains-add k j s = ground (arith, contains-append j s (k ∷ []), e.beq_iff k j)

  pub contains-drop_key :
      (k j : K) (s : List K) → contains j (drop_key k s) ≡ (not (k == j) && contains j s)
  unfolding contains drop_key
  contains-drop_key k j [] = ground arith
  contains-drop_key k j (i ∷ s) =
      ground (arith, e.beq_iff k j, e.beq_iff i k, e.beq_iff i j, contains-drop_key k j s)

  pub contains-keep :
      (p : K → Bool) (k : K) (s : List K) → contains k (keep p s) ≡ (p k && contains k s)
  unfolding contains
  contains-keep p k [] = ground arith
  contains-keep p k (j ∷ s) = elim (Bool-cases (j == k)) [
    | inl same ↦ ground (arith, ap p ((e.beq_iff j k).0 same), contains-keep p k s, same)
    | inr other ↦ ground (arith, contains-keep p k s, other)
  ]
