-- ===== src/Dict/Values.antt =====
-- Maps whose values are channels: how often a channel stands in a map.
use connexa.Prelude.{
  ℕ, ◌+◌, ◌≡◌, refl, Option, none, some, [], ◌∷◌, arith, Eq, ◌==◌, nat_eq, Bool, true, false, Bool,
}
use connexa.Dict.{Dict, lookup, insert, remove, lookup-insert, lookup-remove, Bool}

abbrev pub one_if : Bool → ℕ
one_if true = 1
one_if false = 0

-- Whether it is this channel.
abbrev pub is_channel : ℕ → Option ℕ → ℕ
is_channel c none = 0
is_channel c (some ch) = one_if (ch == c)

abbrev pub times : {K : Type 0} → ℕ → Dict K ℕ → ℕ
times c [] = 0
times c ((k, ch) ∷ m) = one_if (ch == c) + times c m

module _ {K : Type 0} ⦃e : Eq K⦄ where
  -- No key stands in the map twice, as in any `IndexMap`.
  abbrev pub IsMap : {V : Type 0} → Dict K V → Type 0
  IsMap [] = Unit {0}
  IsMap ((k, v) ∷ m) = (lookup k m ≡ none) × IsMap m

  pub insert-IsMap : {V : Type 0} (k : K) (v : V) (m : Dict K V) → IsMap m → IsMap (insert k v m)
  unfolding insert lookup
  insert-IsMap k v [] h = (refl, tt)
  insert-IsMap k v ((j, u) ∷ m) h =
      ground (arith, insert-IsMap k v m h.1, lookup-insert k j v m, e.beq_iff j k, e.beq_iff k j)

  pub remove-IsMap : {V : Type 0} (k : K) (m : Dict K V) → IsMap m → IsMap (remove k m)
  unfolding remove
  remove-IsMap k [] h = tt
  remove-IsMap k ((j, u) ∷ m) h = ground (arith, remove-IsMap k m h.1, lookup-remove k j m)

  remove-none : {V : Type 0} (k : K) (m : Dict K V) → lookup k m ≡ none → remove k m ≡ m
  unfolding lookup remove
  remove-none k [] h = refl
  remove-none k ((j, u) ∷ m) h = ground (arith, remove-none k m)

  -- The channel that was there under the key goes.
  pub times-insert :
      (c : ℕ) (k : K) (ch : ℕ) (m : Dict K ℕ)
      → times c (insert k ch m) + is_channel c (lookup k m) ≡ times c m + one_if (ch == c)
  unfolding insert lookup
  times-insert c k ch [] = ground arith
  times-insert c k ch ((j, u) ∷ m) = ground (arith, times-insert c k ch m)

  pub times-remove :
      (c : ℕ) (k : K) (m : Dict K ℕ)
      → IsMap m
      → times c (remove k m) + is_channel c (lookup k m) ≡ times c m
  unfolding remove lookup
  times-remove c k [] h = refl
  times-remove c k ((j, u) ∷ m) h =
      ground (arith, times-remove c k m h.1, remove-none k m, e.beq_iff j k)
