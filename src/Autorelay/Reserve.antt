-- ===== src/Autorelay/Reserve.antt =====
-- src/behaviour/autorelay.rs: which relays get a reservation, and when one ends. The random or
-- hashed order of a map is the order of its list; a peer's order is that of its number.
use connexa.Prelude.{
  ℕ, ◌+◌, ◌-◌, min, Bool, true, false, not, ◌&&◌, Option, none, some, List, [], ◌∷◌, ◌++◌, map,
  nat_eq, pair_eq, list_eq, if◌then◌else◌, any, nat_beq, ltb, length, take,
}
use connexa.Dict.{Dict, lookup, insert, remove, has, contains, add}
use connexa.MultiaddrExt.{Multiaddr, p2p_circuit, protocol_eq, is_relayed}
use connexa.Autorelay.{
  PeerId, ConnectionId, ListenerId, Status, enable, disable, status_beq, not_supported,
  is_supported, waiting, Connection, Reservation, Behaviour, Libp2p, status_changed,
  relays_available, no_relays_available, generate_event, listen_on, remove_listener, push_event,
}
use connexa.Autorelay.Relays.{
  reservation_in_cooldown, record_failure, record_previous_relay, queue_static_dial,
}

abbrev distinct : List PeerId → List PeerId
distinct [] = []
distinct (p ∷ ps) = add p (distinct ps)

unfoldable pub covered_peers : Behaviour → List PeerId
covered_peers b =
    distinct (map (λ kv. kv.1.peer_id) b.reservations ++ map (λ kv. kv.1) b.external_reservations)

-- `entry(peer_id).and_modify(min).or_insert(connection_id)` on a `BTreeMap`
unfoldable pub add_candidate :
    PeerId → ConnectionId → Dict PeerId ConnectionId → Dict PeerId ConnectionId
add_candidate p c [] = (p, c) ∷ []
add_candidate p c ((q, d) ∷ m) =
    let rest = add_candidate p c m in
    if ltb p q then (p, c) ∷ (q, d) ∷ m else if nat_beq p q then (q, min d c) ∷ m else (q, d) ∷ rest

unfoldable pub is_candidate : ℕ → Behaviour → List PeerId → PeerId → Connection → Bool
is_candidate now b covered p info =
    not (contains p covered)
    && (not (reservation_in_cooldown now p b) && is_supported info.relay_status)

-- The loop over the connections: the candidates among the static relays, then the others.
unfoldable pub candidates :
    ℕ
    → Behaviour
    → List PeerId
    → Dict (PeerId × ConnectionId) Connection
    → Dict PeerId ConnectionId × Dict PeerId ConnectionId
candidates now b covered [] = ([], [])
candidates now b covered (((p, c), info) ∷ connections) =
    let (static, others) = candidates now b covered connections in
    if is_candidate now b covered p info
    then if has p b.static_relays
      then (add_candidate p c static, others)
      else (static, add_candidate p c others)
    else (static, others)

-- The first reservation whose relay is neither static nor reserved by the user.
unfoldable pub find_evictable : Behaviour → Dict ListenerId Reservation → Option ListenerId
find_evictable b [] = none
find_evictable b ((id, reservation) ∷ reservations) =
    if not (has reservation.peer_id b.static_relays)
      && not (any (λ kv. nat_beq kv.1 reservation.peer_id) b.external_reservations)
    then some id
    else find_evictable b reservations

unfoldable pub evict : Option ListenerId → Behaviour → Behaviour
unfolding push_event
evict none b = b
evict (some id) b = push_event (remove_listener id) (record b { pending_eviction = some id })

unfoldable pub make_room_for_static_relays : ℕ → Behaviour → Behaviour
unfolding evict
make_room_for_static_relays needed b = elim b.pending_eviction [
  | some id ↦ b
  | none ↦ if nat_beq needed 0 then b else evict (find_evictable b b.reservations) b
]

abbrev is_eviction : ListenerId → Option ListenerId → Bool
is_eviction id none = false
is_eviction id (some other) = nat_beq id other

remove_reservation : ListenerId → Behaviour → Option Reservation × Behaviour
remove_reservation id b = (
  lookup id b.reservations,
  record b {
    pending_eviction = if is_eviction id b.pending_eviction then none else b.pending_eviction;
    reservations = remove id b.reservations;
  },
)

unfoldable pub reserve :
    Libp2p → PeerId → ConnectionId → Connection → Option Multiaddr → Behaviour → Behaviour
unfolding push_event
reserve lib p c info none b = record b {
  connections = insert (p, c) (record info { relay_status = not_supported }) b.connections;
}
reserve lib p c info (some with_peer) b =
    let id = lib.listener_id b.listens in
    push_event (listen_on id (with_peer ++ (p2p_circuit ∷ []))) (record b {
      listens = b.listens + 1;
      reservations =
          insert id
            (record {
              peer_id = p;
              selected_connection_id = c;
              address = info.endpoint.remote_address;
              status = waiting;
            })
            b.reservations;
    })

-- The connection is one of `connections`: its absence would be a panic, and has no effect here.
unfoldable pub select_connection_for_reservation :
    Libp2p → PeerId → ConnectionId → Behaviour → Behaviour
unfolding reserve
select_connection_for_reservation lib p c b = elim (lookup (p, c) b.connections) [
  | none ↦ b
  | some info ↦
      if is_supported info.relay_status
      then reserve lib p c info (lib.with_p2p info.endpoint.remote_address p) b
      else b
]

unfoldable pub select_all : Libp2p → Dict PeerId ConnectionId → Behaviour → Behaviour
select_all lib [] b = b
select_all lib ((p, c) ∷ selected) b =
    select_all lib selected (select_connection_for_reservation lib p c b)

-- `meet_reservation_target` where the status is `Enable`
unfoldable pub fill_reservations : Libp2p → ℕ → Behaviour → Behaviour
unfolding make_room_for_static_relays
fill_reservations lib now b =
    let covered = covered_peers b in
    let budget = b.config.max_reservations - length covered in
    let found = candidates now b covered b.connections in
    let b' = make_room_for_static_relays (length found.0 - budget) b in
    if nat_beq budget 0 then b' else select_all lib (take budget (found.0 ++ found.1)) b'

unfoldable pub meet_reservation_target : Libp2p → ℕ → Behaviour → Behaviour
meet_reservation_target lib now b =
    if status_beq b.status disable then b else fill_reservations lib now b

unfoldable pub end_reservation : Libp2p → ℕ → ℕ → Bool → Reservation → Behaviour → Behaviour
end_reservation lib now time failed reservation b =
    let (duration, counted) = record_failure reservation.peer_id b in
    let cooled = record counted {
      reservation_cooldowns =
          insert reservation.peer_id (now + duration) counted.reservation_cooldowns;
    } in
    meet_reservation_target lib now (
      record_previous_relay time reservation.peer_id reservation.address
        (if failed then cooled else b))

unfoldable pub disable_reservation : Libp2p → ℕ → ℕ → ListenerId → Bool → Behaviour → Behaviour
unfolding remove_reservation
disable_reservation lib now time id failed b =
    if has id b.external_reservations
    then meet_reservation_target lib now
        (record b { external_reservations = remove id b.external_reservations })
    else let (found, b') = remove_reservation id b in
      elim found [
        | none ↦ b'
        | some reservation ↦ end_reservation lib now time failed reservation b'
      ]

remove_all_reservations : Behaviour → Behaviour
remove_all_reservations b = record b {
  events = b.events ++ map (λ kv. remove_listener kv.0) b.reservations;
}

change_status : Libp2p → ℕ → Status → Behaviour → Behaviour
unfolding push_event remove_all_reservations
change_status lib now enable b =
    meet_reservation_target lib now
      (push_event (generate_event (status_changed enable)) (record b { status = enable }))
change_status lib now disable b =
    remove_all_reservations
      (push_event (generate_event (status_changed disable)) (record b { status = disable }))

unfoldable pub determine_status_from_external_addresses : Libp2p → ℕ → Behaviour → Behaviour
unfolding change_status
determine_status_from_external_addresses lib now b =
    let new_status =
      if any (λ addr. not (is_relayed addr)) b.external_addresses then disable else enable in
    if status_beq new_status b.status then b else change_status lib now new_status b

-- `set_status`; a status that is set by hand leaves the reservations when it is `Disable`.
unfoldable pub set_status : Libp2p → ℕ → Option Status → Behaviour → Behaviour
unfolding push_event
set_status lib now none b =
    determine_status_from_external_addresses lib now (record b { auto_status_change = true })
set_status lib now (some s) b =
    let by_hand = record b { auto_status_change = false } in
    let changed = push_event (generate_event (status_changed s)) (record by_hand { status = s }) in
    if status_beq b.status s
    then by_hand
    else if status_beq s enable
    then meet_reservation_target lib now changed
    else changed

unfoldable pub update_relay_availability : Behaviour → Behaviour
unfolding push_event
update_relay_availability b =
    let has_hop_peer = any (λ kv. is_supported kv.1.relay_status) b.connections in
    if has_hop_peer && not b.has_relays
    then push_event (generate_event relays_available) (record b { has_relays = true })
    else if not has_hop_peer && b.has_relays
    then push_event (generate_event no_relays_available) (record b { has_relays = false })
    else b

unfoldable pub relay_addresses : PeerId → Multiaddr → Behaviour → List Multiaddr
relay_addresses p address b = elim (lookup p b.static_relays) [
  | none ↦ address ∷ []
  | some known ↦ if contains address known then known else known ++ (address ∷ [])
]

unfoldable pub add_static_relay : Libp2p → ℕ → PeerId → Multiaddr → Behaviour → Bool × Behaviour
add_static_relay lib now p address b =
    let combined = relay_addresses p address b in
    let known = record b { static_relays = insert p combined b.static_relays } in
    let (queued, b') = queue_static_dial lib now p combined known in
    if is_relayed address
    then (false, b)
    else (true, if queued then b' else meet_reservation_target lib now b')
