-- ===== src/Autorelay/Cooldowns.antt =====
-- src/behaviour/autorelay.rs: `poll_cooldowns`, and the loop in `poll`.
use connexa.Prelude.{
  ℕ, zero, suc, min, Bool, true, false, not, ◌||◌, Option, none, some, List, [], ◌∷◌, keep, nat_eq,
  if◌then◌else◌, any, nat_beq, ltb, leb,
}
use connexa.Dict.{Dict, remove, has}
use connexa.Autorelay.{PeerId, Behaviour, Libp2p, ToSwarm}
use connexa.Autorelay.Reserve.{meet_reservation_target}
use connexa.Autorelay.Events.{redial_static}

unfoldable pub due_dials : ℕ → Dict PeerId ℕ → List PeerId
due_dials now [] = []
due_dials now ((p, deadline) ∷ cooldowns) =
    let rest = due_dials now cooldowns in if leb deadline now then p ∷ rest else rest

unfoldable pub redial_due : Libp2p → ℕ → List PeerId → Behaviour → Behaviour
redial_due lib now [] b = b
redial_due lib now (p ∷ due) b = redial_due lib now due (
    redial_static lib now p (record b { static_dial_cooldowns = remove p b.static_dial_cooldowns }))

-- Cooldowns that are over, and the failures that nothing keeps any more, are forgotten.
unfoldable pub forget_expired : ℕ → Behaviour → Behaviour
forget_expired now b =
    let cooldowns = keep (λ kv. ltb now kv.1) b.reservation_cooldowns in
    record b {
      reservation_cooldowns = cooldowns;
      failure_counts =
          keep (λ kv. has kv.0 cooldowns || any (λ c. nat_beq c.0.0 kv.0) b.connections)
            b.failure_counts;
      cooldown_wakeup = none;
    }

-- The earliest of the deadlines.
unfoldable pub earliest : Option ℕ → Dict PeerId ℕ → Option ℕ
earliest first [] = first
earliest none ((p, deadline) ∷ cooldowns) = earliest (some deadline) cooldowns
earliest (some at) ((p, deadline) ∷ cooldowns) = earliest (some (min at deadline)) cooldowns

abbrev pub is_empty : List PeerId → Bool
is_empty [] = true
is_empty (p ∷ ps) = false

-- `poll_cooldowns`; `is_ready` says whether the timer for a deadline is ready when it is polled.
unfoldable pub poll_cooldowns : Libp2p → ℕ → (ℕ → Bool) → Behaviour → Bool × Behaviour
unfolding forget_expired
poll_cooldowns lib now is_ready b =
    let reservations_expired = any (λ kv. leb kv.1 now) b.reservation_cooldowns in
    let due = due_dials now b.static_dial_cooldowns in
    let redialled = redial_due lib now due (forget_expired now b) in
    if reservations_expired || not (is_empty due)
    then (
      true,
      if reservations_expired then meet_reservation_target lib now redialled else redialled,
    )
    else elim (earliest (earliest none b.reservation_cooldowns) b.static_dial_cooldowns) [
      | none ↦ (false, record b { cooldown_wakeup = none })
      | some deadline ↦ (is_ready deadline, record b { cooldown_wakeup = some deadline })
    ]

pub data Turn : Type 0 where
  ready : ToSwarm → Turn
  again waits : Turn

-- One turn of the loop: a queued command, or another turn, or the end of the poll.
unfoldable pub poll_turn : Libp2p → ℕ → (ℕ → Bool) → Behaviour → Turn × Behaviour
unfolding poll_cooldowns
poll_turn lib now is_ready b = elim b.events [
  | event ∷ rest ↦ (ready event, record b { events = rest })
  | [] ↦ let (more, b') = poll_cooldowns lib now is_ready b in (if more then again else waits, b')
]

-- The loop of `poll`, with fuel for its turns and one reading of the clock: the command that it gives
-- or none, and no result at all when the fuel runs out.
unfoldable pub poll : Libp2p → ℕ → (ℕ → Bool) → ℕ → Behaviour → Option (Option ToSwarm × Behaviour)
unfolding poll_turn
poll lib now is_ready zero b = none
poll lib now is_ready (suc fuel) b =
    let (turn, b') = poll_turn lib now is_ready b in
    elim turn [
      | ready event ↦ some (some event, b')
      | waits ↦ some (none, b')
      | again ↦ poll lib now is_ready fuel b'
    ]
