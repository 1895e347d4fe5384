-- ===== src/Autorelay/Settled.antt =====
-- src/behaviour/autorelay.rs: the loop of `poll` does not spin on cooldowns that are over.
use connexa.Prelude.{
  ℕ, Bool, true, false, not, ◌||◌, ◌≡◌, refl, sym, ◌∙◌, ap, beq_refl, arith, Option, none, some,
  List, [], ◌∷◌, ◌++◌, keep, any, leb, ltb, take, length, ◌-◌, nat_eq, pair_eq, Option-cases,
  Bool-cases, inl, inr,
}
use connexa.Dict.{Dict, lookup, remove, drop_key}
use connexa.MultiaddrExt.{Multiaddr}
use connexa.Autorelay.{PeerId, ConnectionId, Connection, Behaviour, Libp2p, push_event}
use connexa.Autorelay.Relays.{queue_static_dial}
use connexa.Autorelay.Reserve.{
  reserve, select_connection_for_reservation, select_all, evict, find_evictable,
  make_room_for_static_relays, fill_reservations, meet_reservation_target, covered_peers,
  candidates,
}
use connexa.Autorelay.Events.{redial_static}
use connexa.Autorelay.Cooldowns.{
  due_dials, redial_due, forget_expired, poll_cooldowns, earliest, is_empty,
}

abbrev cooldowns : Behaviour → Dict PeerId ℕ × Dict PeerId ℕ
cooldowns b = (b.reservation_cooldowns, b.static_dial_cooldowns)

redial_keeps :
    (lib : Libp2p) (now : ℕ) (p : PeerId) (b : Behaviour)
    → cooldowns (redial_static lib now p b) ≡ cooldowns b
unfolding redial_static queue_static_dial push_event
redial_keeps lib now p b = elim (Option-cases (lookup p b.static_relays)) [
  | inl gone ↦ ground (arith, gone)
  | inr (addresses, found) ↦ ground (arith, found)
]

reserve_keeps :
    (lib : Libp2p) (p : PeerId) (c : ConnectionId) (info : Connection) (o : Option Multiaddr)
    (b : Behaviour)
    → cooldowns (reserve lib p c info o b) ≡ cooldowns b
unfolding reserve push_event
reserve_keeps lib p c info none b = refl
reserve_keeps lib p c info (some a) b = refl

select_keeps :
    (lib : Libp2p) (p : PeerId) (c : ConnectionId) (b : Behaviour)
    → cooldowns (select_connection_for_reservation lib p c b) ≡ cooldowns b
unfolding select_connection_for_reservation
select_keeps lib p c b = elim (Option-cases (lookup (p, c) b.connections)) [
  | inl gone ↦ ground (arith, gone)
  | inr (info, found) ↦
      ground
        (arith, found, reserve_keeps lib p c info (lib.with_p2p info.endpoint.remote_address p) b)
]

select_all_keeps :
    (lib : Libp2p) (selected : Dict PeerId ConnectionId) (b : Behaviour)
    → cooldowns (select_all lib selected b) ≡ cooldowns b
unfolding select_all
select_all_keeps lib [] b = refl
select_all_keeps lib ((p, c) ∷ selected) b =
    select_all_keeps lib selected (select_connection_for_reservation lib p c b)
    ∙ select_keeps lib p c b

room_keeps :
    (needed : ℕ) (b : Behaviour) → cooldowns (make_room_for_static_relays needed b) ≡ cooldowns b
unfolding make_room_for_static_relays evict push_event
room_keeps needed b = elim (Option-cases b.pending_eviction) [
  | inr (id, there) ↦ ground (arith, there)
  | inl free ↦ elim (Option-cases (find_evictable b b.reservations)) [
    | inl nobody ↦ ground (arith, free, nobody)
    | inr (id, found) ↦ ground (arith, free, found)
  ]
]

meet_keeps :
    (lib : Libp2p) (now : ℕ) (b : Behaviour)
    → cooldowns (meet_reservation_target lib now b) ≡ cooldowns b
unfolding meet_reservation_target fill_reservations
meet_keeps lib now b =
    let covered = covered_peers b in
    let budget = b.config.max_reservations - length covered in
    let found = candidates now b covered b.connections in
    let b' = make_room_for_static_relays (length found.0 - budget) b in
    ground (
      arith,
      room_keeps (length found.0 - budget) b,
      select_all_keeps lib (take budget (found.0 ++ found.1)) b',
    )

abbrev remove_each : List PeerId → Dict PeerId ℕ → Dict PeerId ℕ
remove_each [] m = m
remove_each (p ∷ ps) m = remove_each ps (remove p m)

redial_due_keeps :
    (lib : Libp2p) (now : ℕ) (due : List PeerId) (b : Behaviour)
    → cooldowns (redial_due lib now due b)
      ≡ (b.reservation_cooldowns, remove_each due b.static_dial_cooldowns)
unfolding redial_due
redial_due_keeps lib now [] b = refl
redial_due_keeps lib now (p ∷ due) b =
    let b' = record b { static_dial_cooldowns = remove p b.static_dial_cooldowns } in
    redial_due_keeps lib now due (redial_static lib now p b')
    ∙ ap (λ (c : Dict PeerId ℕ × Dict PeerId ℕ). (c.0, remove_each due c.1))
        (redial_keeps lib now p b')

due_dials-remove :
    (now : ℕ) (p : PeerId) (m : Dict PeerId ℕ)
    → due_dials now (remove p m) ≡ drop_key p (due_dials now m)
unfolding due_dials remove drop_key
due_dials-remove now p [] = refl
due_dials-remove now p ((q, at) ∷ m) = ground (arith, due_dials-remove now p m)

abbrev drop_each : List PeerId → List PeerId → List PeerId
drop_each [] l = l
drop_each (p ∷ ps) l = drop_each ps (drop_key p l)

due_dials-remove_each :
    (now : ℕ) (ps : List PeerId) (m : Dict PeerId ℕ)
    → due_dials now (remove_each ps m) ≡ drop_each ps (due_dials now m)
due_dials-remove_each now [] m = refl
due_dials-remove_each now (p ∷ ps) m =
    due_dials-remove_each now ps (remove p m) ∙ ap (drop_each ps) (due_dials-remove now p m)

drop_key-drop_key :
    (p q : PeerId) (l : List PeerId) → drop_key p (drop_key q l) ≡ drop_key q (drop_key p l)
unfolding drop_key
drop_key-drop_key p q [] = refl
drop_key-drop_key p q (i ∷ l) = ground (arith, drop_key-drop_key p q l)

drop_key-drop_each :
    (p : PeerId) (ps l : List PeerId) → drop_key p (drop_each ps l) ≡ drop_each ps (drop_key p l)
drop_key-drop_each p [] l = refl
drop_key-drop_each p (q ∷ ps) l =
    drop_key-drop_each p ps (drop_key q l) ∙ ap (drop_each ps) (drop_key-drop_key p q l)

drop_each_self : (l : List PeerId) → drop_each l l ≡ []
unfolding drop_key
drop_each_self [] = refl
drop_each_self (p ∷ l) =
    let first : drop_key p (p ∷ l) ≡ drop_key p l = rw (beq_refl p) refl in
    ap (drop_each l) first ∙ sym (drop_key-drop_each p l l) ∙ ap (drop_key p) (drop_each_self l)

keep_later :
    (now : ℕ) (m : Dict PeerId ℕ) → any (λ kv. leb kv.1 now) (keep (λ kv. ltb now kv.1) m) ≡ false
keep_later now [] = refl
keep_later now ((p, at) ∷ m) = ground (arith, keep_later now m)

-- The test of `poll_cooldowns`
abbrev pub finds_due : ℕ → Behaviour → Bool
finds_due now b =
    any (λ kv. leb kv.1 now) b.reservation_cooldowns
    || not (is_empty (due_dials now b.static_dial_cooldowns))

abbrev still_due : ℕ → Dict PeerId ℕ × Dict PeerId ℕ → Bool
still_due now c = any (λ kv. leb kv.1 now) c.0 || not (is_empty (due_dials now c.1))

redialled_settled :
    (lib : Libp2p) (now : ℕ) (b : Behaviour)
    → finds_due now
        (redial_due lib now (due_dials now b.static_dial_cooldowns) (forget_expired now b))
      ≡ false
unfolding forget_expired
redialled_settled lib now b =
    let due = due_dials now b.static_dial_cooldowns in
    let maps = redial_due_keeps lib now due (forget_expired now b) in
    let gone : due_dials now (remove_each due b.static_dial_cooldowns) ≡ [] =
      due_dials-remove_each now due b.static_dial_cooldowns ∙ drop_each_self due in
    ap (still_due now) maps ∙ rw gone (ground (arith, keep_later now b.reservation_cooldowns))

module _ (lib : Libp2p) (now : ℕ) (is_ready : ℕ → Bool) (b : Behaviour) where
  abbrev redialled : Behaviour
  redialled = redial_due lib now (due_dials now b.static_dial_cooldowns) (forget_expired now b)

  poll_due : finds_due now b ≡ true → finds_due now (poll_cooldowns lib now is_ready b).1 ≡ false
  unfolding poll_cooldowns
  poll_due due =
      let met : finds_due now (meet_reservation_target lib now redialled) ≡ false =
        ap (still_due now) (meet_keeps lib now redialled) ∙ redialled_settled lib now b in
      rw due (elim (Bool-cases (any (λ kv. leb kv.1 now) b.reservation_cooldowns)) [
        | inl over ↦ rw over met
        | inr early ↦ rw early (redialled_settled lib now b)
      ])

  poll_idle : finds_due now b ≡ false → finds_due now (poll_cooldowns lib now is_ready b).1 ≡ false
  unfolding poll_cooldowns
  poll_idle idle =
      elim (Option-cases
        (earliest (earliest none b.reservation_cooldowns) b.static_dial_cooldowns)) [
          | inl never ↦ ground (arith, idle, never)
          | inr (deadline, found) ↦ ground (arith, idle, found)
        ]

pub finds_due-poll_cooldowns :
    (lib : Libp2p) (now : ℕ) (is_ready : ℕ → Bool) (b : Behaviour)
    → finds_due now (poll_cooldowns lib now is_ready b).1 ≡ false
finds_due-poll_cooldowns lib now is_ready b = elim (Bool-cases (finds_due now b)) [
  | inl due ↦ poll_due lib now is_ready b due
  | inr idle ↦ poll_idle lib now is_ready b idle
]

any-due_dials :
    (now : ℕ) (m : Dict PeerId ℕ) → not (is_empty (due_dials now m)) ≡ any (λ kv. leb kv.1 now) m
unfolding due_dials
any-due_dials now [] = refl
any-due_dials now ((p, at) ∷ m) = ground (arith, any-due_dials now m)

-- Whether the deadline of some reservation cooldown or dial cooldown has come.
abbrev pub is_due : ℕ → Behaviour → Bool
is_due now b =
    any (λ kv. leb kv.1 now) b.reservation_cooldowns
    || any (λ kv. leb kv.1 now) b.static_dial_cooldowns

-- After `poll_cooldowns`, whatever it found, the deadline of every reservation cooldown and of every
-- dial cooldown that is left is later than that instant.
pub is_due-poll_cooldowns :
    (lib : Libp2p) (now : ℕ) (is_ready : ℕ → Bool) (b : Behaviour)
    → is_due now (poll_cooldowns lib now is_ready b).1 ≡ false
is_due-poll_cooldowns lib now is_ready b =
    let b' = (poll_cooldowns lib now is_ready b).1 in
    ap (λ r. any (λ kv. leb kv.1 now) b'.reservation_cooldowns || r)
      (sym (any-due_dials now b'.static_dial_cooldowns))
    ∙ finds_due-poll_cooldowns lib now is_ready b
