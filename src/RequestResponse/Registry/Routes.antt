-- ===== src/RequestResponse/Registry/Routes.antt =====
-- Which behaviour a protocol leads to.
use connexa.Prelude.{
  ℕ, ◌<◌, ◌≡◌, refl, Bool, true, none, some, List, [], ◌∷◌, arith, ok, err, if◌then◌else◌, Eq,
  nat_eq, Option-cases, inl, inr, Result, ◌∙◌, map_ok, and_then, ap,
}
use connexa.Dict.{Dict, lookup, insert, lookup-insert}
use connexa.RequestResponse.Registry.Loop.{
  first, are_valid, route, expected, Routed, register-Routed,
}
use connexa.Dict.Values.{IsMap}
use connexa.RequestResponse.Registry.{
  Naming, Made, register, manager, build, request_response, new, from_iter, get_protocol,
}

module _ {P : Type 0} ⦃e : Eq P⦄ where
  -- Collecting a map again changes nothing.
  lookup-from_iter :
      (p : P) (l : Dict P ℕ) (m : Dict P ℕ)
      → IsMap l
      → lookup p (from_iter l m) ≡ elim (lookup p l) [ none ↦ lookup p m | some i ↦ some i ]
  unfolding from_iter lookup
  lookup-from_iter p [] m h = refl
  lookup-from_iter p ((q, i) ∷ l) m h =
      rw (lookup-from_iter p l (insert q i m) h.1)
        (ground (arith, lookup-insert q p i m, e.beq_iff q p, h.0))

module _ {C P : Type 0} ⦃e : Eq P⦄ where
  -- The index gives the protocol its number again.
  request_response-made :
      (p : P) (slots : Dict ℕ C) (existing : Dict P ℕ)
      → IsMap existing
      → ((i : ℕ) → lookup p existing ≡ some i → i < 10)
      → request_response (some p) (record { slots = slots; rr_man = manager existing })
        ≡ route p (slots, existing)
  unfolding request_response manager new get_protocol lookup
  request_response-made p slots [] m small = refl
  request_response-made p slots (entry ∷ existing) m small =
      elim (Option-cases (lookup p (entry ∷ existing))) [
        | inl absent ↦
            rw (request_response, lookup-from_iter p (entry ∷ existing) [] m, route, absent) refl
        | inr (i, there) ↦
            rw (request_response, lookup-from_iter p (entry ∷ existing) [] m, route, there)
              (ground (arith, small i there))
      ]

module _ {C P : Type 0} ⦃e : Eq P⦄ (naming : Naming C P) (enabled : Bool) where
  build_made :
      (configs : List C) (p : P) (r : Result (Unit {0}) (Made C P))
      → Routed naming enabled 0 configs ([], []) r
      → map_ok
          (request_response (some p))
          (and_then r (λ made. ok (record { slots = made.0; rr_man = manager made.1 })))
        ≡ ok (expected naming enabled p 0 configs ([], []))
  build_made configs p (err u) h = absurd h
  build_made configs p (ok (slots, existing)) (h, small, m) =
      ap ok (request_response-made p slots existing m (small p) ∙ h p)

  -- Where every protocol is valid, the behaviours are built, and a request for a protocol reaches the
  -- one that was made for the first configuration with that protocol among those at an index below ten,
  -- if requests are enabled in the node, and else none.
  pub request_response-build :
      (configs : List C) (p : P)
      → are_valid naming configs ≡ true
      → map_ok (request_response (some p)) (build naming enabled configs)
        ≡ ok (if enabled then first naming p 0 configs else none)
  unfolding build lookup
  request_response-build configs p valid =
      build_made configs p (register naming enabled 0 configs ([], [])) (
        register-Routed naming enabled 0 configs [] [] valid
          ((λ i le. refl), (λ q i h. ground (arith, h)), tt))
