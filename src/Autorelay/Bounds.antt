-- ===== src/Autorelay/Bounds.antt =====
-- src/behaviour/autorelay.rs: how many reservations there are.
use connexa.Prelude.{
  ℕ, ◌+◌, ◌-◌, ◌≤◌, ◌≡◌, arith, Option, none, some, [], ◌∷◌, ◌++◌, length, take, length-take_le,
  nat_eq, pair_eq, ap, Eq, Option-cases, inl, inr,
}
use connexa.Dict.{Dict, lookup, insert}
use connexa.MultiaddrExt.{Multiaddr}
use connexa.Autorelay.{PeerId, ConnectionId, Connection, Behaviour, Libp2p, push_event}
use connexa.Autorelay.Reserve.{
  reserve, select_connection_for_reservation, select_all, fill_reservations,
  make_room_for_static_relays, evict, find_evictable, meet_reservation_target, covered_peers,
  candidates,
}

length-insert_le :
    {K V : Type 0} ⦃e : Eq K⦄ (k : K) (v : V) (m : Dict K V) → length (insert k v m) ≤ length m + 1
unfolding insert
length-insert_le k v [] = omega arith
length-insert_le k v ((j, w) ∷ m) = ground (arith, length-insert_le k v m)

reserve_le :
    (lib : Libp2p) (p : PeerId) (c : ConnectionId) (info : Connection) (o : Option Multiaddr)
    (b : Behaviour)
    → length (reserve lib p c info o b).reservations ≤ length b.reservations + 1
unfolding reserve push_event
reserve_le lib p c info none b = omega arith
reserve_le lib p c info (some a) b = length-insert_le _ _ b.reservations

select_le :
    (lib : Libp2p) (p : PeerId) (c : ConnectionId) (b : Behaviour)
    → length (select_connection_for_reservation lib p c b).reservations ≤ length b.reservations + 1
unfolding select_connection_for_reservation
select_le lib p c b = elim (Option-cases (lookup (p, c) b.connections)) [
  | inl gone ↦ ground (arith, gone)
  | inr (info, found) ↦
      ground (arith, found, reserve_le lib p c info (lib.with_p2p info.endpoint.remote_address p) b)
]

select_all_le :
    (lib : Libp2p) (selected : Dict PeerId ConnectionId) (b : Behaviour)
    → length (select_all lib selected b).reservations ≤ length b.reservations + length selected
unfolding select_all
select_all_le lib [] b = omega arith
select_all_le lib ((p, c) ∷ selected) b = omega (
  arith,
  select_le lib p c b,
  select_all_le lib selected (select_connection_for_reservation lib p c b),
)

make_room_keeps :
    (needed : ℕ) (b : Behaviour)
    → (make_room_for_static_relays needed b).reservations ≡ b.reservations
unfolding make_room_for_static_relays evict push_event
make_room_keeps needed b = elim (Option-cases b.pending_eviction) [
  | inr (id, there) ↦ ground (arith, there)
  | inl free ↦ elim (Option-cases (find_evictable b b.reservations)) [
    | inl nobody ↦ ground (arith, free, nobody)
    | inr (id, found) ↦ ground (arith, free, found)
  ]
]

-- While at most the configured maximum of peers is covered by a reservation, the behaviour's own or
-- the user's, `meet_reservation_target` adds at most as many reservations as places are left.
pub length-meet_reservation_target_le :
    (lib : Libp2p) (now : ℕ) (b : Behaviour)
    → length (covered_peers b) ≤ b.config.max_reservations
    → length (meet_reservation_target lib now b).reservations + length (covered_peers b)
      ≤ length b.reservations + b.config.max_reservations
unfolding meet_reservation_target fill_reservations
length-meet_reservation_target_le lib now b h =
    let covered = covered_peers b in
    let budget = b.config.max_reservations - length covered in
    let found = candidates now b covered b.connections in
    let b' = make_room_for_static_relays (length found.0 - budget) b in
    let kept = ap length (make_room_keeps (length found.0 - budget) b) in
    ground (
      arith,
      kept,
      select_all_le lib (take budget (found.0 ++ found.1)) b',
      length-take_le budget (found.0 ++ found.1),
    )
