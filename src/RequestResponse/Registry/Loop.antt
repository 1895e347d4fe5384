-- ===== src/RequestResponse/Registry/Loop.antt =====
-- The loop of `Behaviour::new` over the configurations.
use connexa.Prelude.{
  ℕ, suc, ◌<◌, ◌≤◌, ◌≡◌, refl, Bool, true, false, Option, none, some, List, [], ◌∷◌, arith, ok, err,
  if◌then◌else◌, ltb, Eq, ◌==◌, nat_eq, Option-cases, Bool-cases, inl, inr, Result, ◌&&◌, ◌∙◌,
}
use connexa.Dict.{Dict, lookup, insert, lookup-insert}
use connexa.Dict.Values.{IsMap, insert-IsMap}
use connexa.RequestResponse.Registry.{Naming, Made, register, fill}

module _ {C P : Type 0} ⦃e : Eq P⦄ where
  -- What the loop has made leads to.
  abbrev pub route : P → Made C P → Option C
  route p (slots, existing) = elim (lookup p existing) [ none ↦ none | some i ↦ lookup i slots ]

  -- The loop stands at the index: all slots and numbers are below it.
  abbrev pub IsBelow : ℕ → Made C P → Type 0
  IsBelow index (slots, existing) =
      ((i : ℕ) → index ≤ i → lookup i slots ≡ none)
      × ((p : P) (i : ℕ) → lookup p existing ≡ some i → (i < index) × (i < 10))
      × IsMap existing

module _ {C P : Type 0} ⦃e : Eq P⦄ (naming : Naming C P) where
  -- The first configuration at an index below ten that names the protocol.
  abbrev pub first : P → ℕ → List C → Option C
  first p index [] = none
  first p index (config ∷ configs) =
      let rest = first p (suc index) configs in
      if ltb index 10 then (if naming.protocol config == p then some config else rest) else none

  abbrev pub are_valid : List C → Bool
  are_valid [] = true
  are_valid (config ∷ configs) = naming.is_valid (naming.protocol config) && are_valid configs

module _ {C P : Type 0} ⦃e : Eq P⦄ (naming : Naming C P) (enabled : Bool) where
  -- Where a protocol will lead, from what has been made and what is to come.
  abbrev pub expected : P → ℕ → List C → Made C P → Option C
  expected p index configs (slots, existing) = elim (lookup p existing) [
    | none ↦ if enabled then first naming p index configs else none
    | some i ↦ lookup i slots
  ]

  abbrev pub Routed : ℕ → List C → Made C P → Result (Unit {0}) (Made C P) → Type 0
  Routed index configs made (err u) = ⊥
  Routed index configs made (ok end) =
      ((p : P) → route p end ≡ expected p index configs made)
      × ((p : P) (i : ℕ) → lookup p end.1 ≡ some i → i < 10)
      × IsMap end.1

  Routed-expected :
      (i j : ℕ) (cs ds : List C) (made begun : Made C P) (r : Result (Unit {0}) (Made C P))
      → ((p : P) → expected p i cs made ≡ expected p j ds begun)
      → Routed i cs made r
      → Routed j ds begun r
  Routed-expected i j cs ds made begun (err u) same h = h
  Routed-expected i j cs ds made begun (ok end) same (h, k, m) = (λ p. h p ∙ same p, k, m)

  first-full :
      (p : P) (index : ℕ) (configs : List C)
      → ltb index 10 ≡ false
      → first naming p index configs ≡ none
  first-full p index [] h = refl
  first-full p index (config ∷ configs) h = rw (first, h) refl

  -- A protocol that is there already is skipped, with its index.
  expected-skip :
      (p : P) (index : ℕ) (config : C) (configs : List C) (slots : Dict ℕ C) (existing : Dict P ℕ)
      (i : ℕ)
      → lookup (naming.protocol config) existing ≡ some i
      → expected p (suc index) configs (slots, existing)
        ≡ expected p index (config ∷ configs) (slots, existing)
  expected-skip p index config configs slots existing i there = elim (Bool-cases (ltb index 10)) [
    | inl small ↦ ground (arith, there, small, e.beq_iff (naming.protocol config) p)
    | inr full ↦
        ground (arith, there, full, first-full p (suc index) configs (ground (arith, full)))
  ]

  expected-next :
      (p : P) (index : ℕ) (config : C) (configs : List C) (slots : Dict ℕ C) (existing : Dict P ℕ)
      → ltb index 10 ≡ true
      → IsBelow index (slots, existing)
      → lookup (naming.protocol config) existing ≡ none
      → expected p
          (suc index)
          configs
          (fill enabled index config slots, insert (naming.protocol config) index existing)
        ≡ expected p index (config ∷ configs) (slots, existing)
  expected-next p index config configs slots existing small (free, below, m) new_protocol =
      elim (Bool-cases (naming.protocol config == p)) [
        | inl same ↦ ground (
          arith,
          same,
          small,
          new_protocol,
          e.beq_iff (naming.protocol config) p,
          lookup-insert (naming.protocol config) p index existing,
          lookup-insert index index config slots,
          free index (omega arith),
        )
        | inr other ↦ elim (Option-cases (lookup p existing)) [
          | inl absent ↦
              ground (
                arith,
                other,
                small,
                absent,
                lookup-insert (naming.protocol config) p index existing,
              )
          | inr (i, there) ↦ ground (
            arith,
            other,
            there,
            lookup-insert (naming.protocol config) p index existing,
            lookup-insert index i config slots,
            (below p i there).0,
          )
        ]
      ]

  -- The step of the loop at a protocol that is new.
  register-next :
      (index : ℕ) (config : C) (configs : List C) (slots : Dict ℕ C) (existing : Dict P ℕ)
      → naming.is_valid (naming.protocol config) ≡ true
      → lookup (naming.protocol config) existing ≡ none
      → ltb index 10 ≡ true
      → lookup index slots ≡ none
      → register naming enabled index (config ∷ configs) (slots, existing)
        ≡ register naming enabled
            (suc index)
            configs
            (fill enabled index config slots, insert (naming.protocol config) index existing)
  unfolding register
  register-next index config configs slots existing valid new_protocol small free =
      ground (arith, valid, new_protocol, small, free)

  register-full :
      (index : ℕ) (config : C) (configs : List C) (slots : Dict ℕ C) (existing : Dict P ℕ)
      → naming.is_valid (naming.protocol config) ≡ true
      → lookup (naming.protocol config) existing ≡ none
      → ltb index 10 ≡ false
      → register naming enabled index (config ∷ configs) (slots, existing) ≡ ok (slots, existing)
  unfolding register
  register-full index config configs slots existing valid new_protocol full =
      ground (arith, valid, new_protocol, full)

  register-skip :
      (index i : ℕ) (config : C) (configs : List C) (slots : Dict ℕ C) (existing : Dict P ℕ)
      → naming.is_valid (naming.protocol config) ≡ true
      → lookup (naming.protocol config) existing ≡ some i
      → register naming enabled index (config ∷ configs) (slots, existing)
        ≡ register naming enabled (suc index) configs (slots, existing)
  unfolding register
  register-skip index i config configs slots existing valid there = ground (arith, valid, there)

  next-IsBelow :
      (index : ℕ) (p : P) (config : C) (slots : Dict ℕ C) (existing : Dict P ℕ)
      → ltb index 10 ≡ true
      → IsBelow index (slots, existing)
      → IsBelow (suc index) (fill enabled index config slots, insert p index existing)
  next-IsBelow index p config slots existing small (free, below, m) = (
    λ j le. ground (arith, lookup-insert index j config slots, free j (omega (arith, le)), le),
    λ q j h. elim (Bool-cases (p == q)) [
      | inl same ↦ ground (arith, lookup-insert p q index existing, same, small, h)
      | inr other ↦ ground (arith, lookup-insert p q index existing, other, h, below q j)
    ],
    insert-IsMap p index existing m,
  )

  pub register-Routed :
      (index : ℕ) (configs : List C) (slots : Dict ℕ C) (existing : Dict P ℕ)
      → are_valid naming configs ≡ true
      → IsBelow index (slots, existing)
      → Routed index configs
          (slots, existing)
          (register naming enabled index configs (slots, existing))
  unfolding register
  register-Routed index [] slots existing v (free, below, m) =
      (λ p. ground arith, λ p i h. (below p i h).1, m)
  register-Routed index (config ∷ configs) slots existing v (free, below, m) =
      let valid : naming.is_valid (naming.protocol config) ≡ true = ground (arith, v) in
      let rest : are_valid naming configs ≡ true = ground (arith, v) in
      elim (Option-cases (lookup (naming.protocol config) existing)) [
        | inr (i, there) ↦ rw (register-skip index i config configs slots existing valid there) (
            Routed-expected (suc index) index configs (config ∷ configs) (slots, existing)
              (slots, existing) _ (λ p. expected-skip p index config configs slots existing i there)
              (register-Routed (suc index) configs slots existing rest
                (λ j le. free j (omega (arith, le)), λ p j h. ground (arith, below p j h), m)))
        | inl new_protocol ↦ elim (Bool-cases (ltb index 10)) [
          | inl small ↦
              rw
                (register-next index config configs slots existing valid new_protocol small
                  (free index (omega arith)))
                (Routed-expected (suc index) index configs (config ∷ configs) _ (slots, existing) _
                  (λ p.
                    expected-next p index config configs slots existing small (free, below, m)
                      new_protocol)
                  (register-Routed (suc index) configs _ _ rest (
                    next-IsBelow index (naming.protocol config) config slots existing small
                      (free, below, m))))
          | inr full ↦
              rw (register-full index config configs slots existing valid new_protocol full)
                ((λ p. ground (arith, full)), (λ p i h. (below p i h).1), m)
        ]
      ]
