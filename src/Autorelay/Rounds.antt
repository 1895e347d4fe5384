-- ===== src/Autorelay/Rounds.antt =====
-- src/behaviour/autorelay.rs: the loop of `poll` ends.
use connexa.Prelude.{
  ℕ, suc, ◌≤◌, ◌≡◌, refl, arith, Bool, true, false, Option, none, some, List, [], ◌∷◌, any, leb,
  ltb, min, Option-cases, inl, inr, ap, sym, ◌∙◌, if◌then◌else◌,
}
use connexa.Dict.{Dict}
use connexa.Keystore.Backend.Laws.{is_some}
use connexa.Autorelay.{PeerId, Behaviour, Libp2p, ToSwarm}
use connexa.Autorelay.Cooldowns.{
  due_dials, poll_cooldowns, earliest, poll, is_empty, Turn, ready, waits, again, poll_turn,
}
use connexa.Autorelay.Settled.{finds_due, finds_due-poll_cooldowns}

abbrev is_late : ℕ → Option ℕ → Bool
is_late now none = true
is_late now (some at) = ltb now at

earliest_late :
    (now : ℕ) (first : Option ℕ) (m : Dict PeerId ℕ)
    → is_late now first ≡ true
    → any (λ kv. leb kv.1 now) m ≡ false
    → is_late now (earliest first m) ≡ true
unfolding earliest
earliest_late now first [] h k = h
earliest_late now none ((p, d) ∷ m) h k =
    earliest_late now (some d) m (ground (arith, k)) (ground (arith, k))
earliest_late now (some at) ((p, d) ∷ m) h k =
    earliest_late now (some (min at d)) m (ground (arith, h, k)) (ground (arith, k))

no_due_dials :
    (now : ℕ) (m : Dict PeerId ℕ)
    → is_empty (due_dials now m) ≡ true
    → any (λ kv. leb kv.1 now) m ≡ false
unfolding due_dials
no_due_dials now [] h = refl
no_due_dials now ((p, d) ∷ m) h = ground (arith, h, no_due_dials now m)

-- Where nothing is due, the behaviour waits, unless a timer is ready before its time.
idle_waits :
    (lib : Libp2p) (now : ℕ) (is_ready : ℕ → Bool) (b : Behaviour)
    → ((at : ℕ) → is_ready at ≡ true → at ≤ now)
    → finds_due now b ≡ false
    → (poll_cooldowns lib now is_ready b).0 ≡ false
unfolding poll_cooldowns
idle_waits lib now is_ready b honest idle =
    elim (Option-cases (earliest (earliest none b.reservation_cooldowns) b.static_dial_cooldowns)) [
      | inl never ↦ ground (arith, idle, never)
      | inr (deadline, found) ↦
          let late : ltb now deadline ≡ true =
            ap (is_late now) (sym found)
            ∙ earliest_late now (earliest none b.reservation_cooldowns) b.static_dial_cooldowns
                (earliest_late now none b.reservation_cooldowns refl (ground (arith, idle)))
                (no_due_dials now b.static_dial_cooldowns (ground (arith, idle))) in
          ground (arith, idle, found, late, honest deadline)
    ]

-- A turn, by what is queued and what `poll_cooldowns` gives.
abbrev choose : Behaviour → List ToSwarm → Bool × Behaviour → Turn × Behaviour
choose b (event ∷ rest) q = (ready event, record b { events = rest })
choose b [] (true, b') = (again, b')
choose b [] (false, b') = (waits, b')

abbrev continue_with :
    (Behaviour → Option (Option ToSwarm × Behaviour))
    → Turn × Behaviour
    → Option (Option ToSwarm × Behaviour)
continue_with next (ready event, b) = some (some event, b)
continue_with next (waits, b) = some (none, b)
continue_with next (again, b) = next b

module _ (lib : Libp2p) (now : ℕ) (is_ready : ℕ → Bool) where
  poll_turn_lem :
      (b : Behaviour)
      → poll_turn lib now is_ready b ≡ choose b b.events (poll_cooldowns lib now is_ready b)
  unfolding poll_turn
  poll_turn_lem b = by_queue b.events (poll_cooldowns lib now is_ready b)
    where
      by_queue :
          (l : List ToSwarm) (q : Bool × Behaviour)
          → ◌≡◌ {A = Turn × Behaviour}
              (elim l [
                | event ∷ rest ↦ (ready event, record b { events = rest })
                | [] ↦ (if q.0 then again else waits, q.1)
              ])
              (choose b l q)
      by_queue (event ∷ rest) q = refl
      by_queue [] (true, b') = refl
      by_queue [] (false, b') = refl

  poll_lem :
      (fuel : ℕ) (b : Behaviour)
      → poll lib now is_ready (suc fuel) b
        ≡ continue_with (poll lib now is_ready fuel) (poll_turn lib now is_ready b)
  unfolding poll
  poll_lem fuel b = by_turn (poll_turn lib now is_ready b)
    where
      by_turn :
          (p : Turn × Behaviour)
          → ◌≡◌ {A = Option (Option ToSwarm × Behaviour)}
              (elim p.0 [
                | ready event ↦ some (some event, p.1)
                | waits ↦ some (none, p.1)
                | again ↦ poll lib now is_ready fuel p.1
              ])
              (continue_with (poll lib now is_ready fuel) p)
      by_turn (ready event, b) = refl
      by_turn (waits, b) = refl
      by_turn (again, b) = refl

  -- A turn that goes round again needs one more that ends.
  ends_if :
      (fuel : ℕ) (b : Behaviour)
      → ((poll_cooldowns lib now is_ready b).0 ≡ true
          → is_some (poll lib now is_ready fuel (poll_cooldowns lib now is_ready b).1) ≡ true)
      → is_some (poll lib now is_ready (suc fuel) b) ≡ true
  ends_if fuel b next =
      ap is_some
        (poll_lem fuel b ∙ ap (continue_with (poll lib now is_ready fuel)) (poll_turn_lem b))
      ∙ by_queue b.events (poll_cooldowns lib now is_ready b) next
    where
      by_queue :
          (l : List ToSwarm) (q : Bool × Behaviour)
          → (q.0 ≡ true → is_some (poll lib now is_ready fuel q.1) ≡ true)
          → is_some (continue_with (poll lib now is_ready fuel) (choose b l q)) ≡ true
      by_queue (event ∷ rest) q h = refl
      by_queue [] (true, b') h = h refl
      by_queue [] (false, b') h = refl

  -- Two turns are enough for `poll` while the clock stands, where no timer is ready before its time:
  -- it gives a command or waits.
  pub poll_ends :
      (fuel : ℕ) (b : Behaviour)
      → ((at : ℕ) → is_ready at ≡ true → at ≤ now)
      → is_some (poll lib now is_ready (suc (suc fuel)) b) ≡ true
  poll_ends fuel b honest = ends_if (suc fuel) b (λ _.
      let b' = (poll_cooldowns lib now is_ready b).1 in
      ends_if fuel b' (λ more. absurd (
        cc (
          more,
          idle_waits lib now is_ready b' honest (finds_due-poll_cooldowns lib now is_ready b),
        ))))
