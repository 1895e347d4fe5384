-- ===== src/RequestResponse/Registry.antt =====
-- The request-response behaviours of one node by their protocols: the end of `Behaviour::new` and
-- `request_response` in src/behaviour.rs, with the index of src/behaviour/rr_man.rs. A configuration
-- is of any type, and so is a protocol.
pub mod Loop
pub mod Routes
use connexa.Prelude.{
  ℕ, zero, suc, Bool, true, false, not, Option, none, some, List, [], ◌∷◌, Result, ok, err,
  and_then, if◌then◌else◌, ltb, Eq, nat_eq,
}
use connexa.Dict.{Dict, lookup, insert, has}

-- `rr_man::Behaviour`
pub record Index (P : Type 0) : Type 0 where
  pub rr_list : Dict P ℕ

module _ {P : Type 0} ⦃e : Eq P⦄ where
  -- `IndexMap::from_iter`
  unfoldable pub from_iter : List (P × ℕ) → Dict P ℕ → Dict P ℕ
  from_iter [] m = m
  from_iter ((protocol, i) ∷ list) m = from_iter list (insert protocol i m)

  unfoldable pub new : List (P × ℕ) → Index P
  unfolding from_iter
  new list = record { rr_list = from_iter list [] }

  unfoldable pub get_protocol : P → Index P → Option ℕ
  get_protocol protocol index = lookup protocol index.rr_list

-- The fields `rr_0` to `rr_9`, those that are enabled by their number, and `rr_man`.
pub record Behaviours (C P : Type 0) : Type 0 where
  pub slots : Dict ℕ C
  pub rr_man : Option (Index P)

-- The protocol of a configuration, and `StreamProtocol::try_from_owned`
pub record Naming (C P : Type 0) : Type 0 where
  pub protocol : C → P
  pub is_valid : P → Bool

-- What the loop has made: the behaviours, and `existing_protocol`.
abbrev pub Made : Type 0 → Type 0 → Type 0
Made C P = Dict ℕ C × Dict P ℕ

module _ {P : Type 0} ⦃e : Eq P⦄ where
  -- The index exists if some protocol was registered.
  unfoldable pub manager : Dict P ℕ → Option (Index P)
  unfolding new
  manager [] = none
  manager (entry ∷ existing) = some (new (entry ∷ existing))

-- A slot is filled only if the protocol is enabled in the node.
abbrev pub fill : {C : Type 0} → Bool → ℕ → C → Dict ℕ C → Dict ℕ C
fill enabled index config slots = if enabled then insert index config slots else slots

module _ {C P : Type 0} ⦃e : Eq P⦄ (naming : Naming C P) (enabled : Bool) where
  -- The loop over the configurations; `unit_err` of it is the error of a protocol that is not valid.
  unfoldable pub register : ℕ → List C → Made C P → Result (Unit {0}) (Made C P)
  register index [] (slots, existing) = ok (slots, existing)
  register index (config ∷ configs) (slots, existing) =
      let protocol = naming.protocol config in
      let skip = register (suc index) configs (slots, existing) in
      let next =
        register (suc index) configs
          (fill enabled index config slots, insert protocol index existing) in
      if not (naming.is_valid protocol)
      then err tt
      else (if has protocol existing
          then skip
          else (if ltb index 10
              then (if has index slots then skip else next)
              else ok (slots, existing)))

  unfoldable pub build : List C → Result (Unit {0}) (Behaviours C P)
  unfolding register manager
  build configs =
      and_then (register 0 configs ([], []))
        (λ made. ok (record { slots = made.0; rr_man = manager made.1 }))

module _ {C P : Type 0} ⦃e : Eq P⦄ where
  -- `request_response`, which a node without a protocol asks for the first behaviour.
  unfoldable pub request_response : Option P → Behaviours C P → Option C
  unfolding get_protocol
  request_response none b = lookup 0 b.slots
  request_response (some protocol) b = elim b.rr_man [
    | none ↦ none
    | some index ↦ elim (get_protocol protocol index) [
      | none ↦ none
      | some i ↦ if ltb i 10 then lookup i b.slots else none
    ]
  ]
