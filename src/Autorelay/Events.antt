-- ===== src/Autorelay/Events.antt =====
-- src/behaviour/autorelay.rs: what the behaviour does on the events of the swarm and of its
-- handlers, and when it is polled. `now` is the instant and `time` the wall clock of the call.
use connexa.Prelude.{
  ℕ, ◌+◌, Bool, true, false, not, ◌&&◌, Option, none, some, List, [], ◌∷◌, ◌++◌, nat_eq, pair_eq,
  if◌then◌else◌, any, nat_beq,
}
use connexa.Dict.{Dict, lookup, insert, remove, has}
use connexa.MultiaddrExt.{Multiaddr, relay_peer_id}
use connexa.MultiaddrExt
use connexa.Autorelay.{
  PeerId, ConnectionId, ListenerId, RelayStatus, not_supported, pending, is_supported,
  ReservationStatus, waiting, active, Endpoint, Connection, Reservation, Behaviour, Libp2p, ToSwarm,
  remove_listener, disqualify_connection_if_relayed,
}
use connexa.Autorelay.Relays.{
  has_direct_connection, reservation_in_cooldown, clear_failure, record_previous_relay,
  forget_previous_relay, queue_static_dial,
}
use connexa.Autorelay.Reserve.{
  meet_reservation_target, disable_reservation, determine_status_from_external_addresses,
  update_relay_availability,
}

-- The events of `FromSwarm` that the behaviour reads, with the fields that it reads.
pub data SwarmEvent : Type 0 where
  connection_established : PeerId → ConnectionId → Endpoint → SwarmEvent
  connection_closed : PeerId → ConnectionId → SwarmEvent
  address_change : PeerId → ConnectionId → Endpoint → SwarmEvent
  new_listen_addr : ListenerId → Multiaddr → SwarmEvent
  listener_error : ListenerId → SwarmEvent
  listener_closed : ListenerId → Bool → SwarmEvent
  dial_failure : Option PeerId → ConnectionId → SwarmEvent
  other_event : SwarmEvent

pub data Out : Type 0 where
  supported unsupported : Out

-- Whether the peer's dial as a static relay is that connection.
unfoldable pub is_pending_dial : PeerId → ConnectionId → Behaviour → Bool
is_pending_dial p c b = elim (lookup p b.pending_static_dials) [
  | none ↦ false
  | some d ↦ nat_beq d c
]

abbrev forget_dial : PeerId → Behaviour → Behaviour
forget_dial p b = record b { pending_static_dials = remove p b.pending_static_dials }

unfoldable pub on_established : PeerId → ConnectionId → Endpoint → Behaviour → Behaviour
on_established p c endpoint b =
    let connection =
      disqualify_connection_if_relayed (record { endpoint = endpoint; relay_status = pending }) in
    let b = record b { connections = insert (p, c) connection b.connections } in
    let b = if is_pending_dial p c b then forget_dial p b else b in
    if has_direct_connection p b
    then record b { static_dial_cooldowns = remove p b.static_dial_cooldowns }
    else b

unfoldable pub reserved_address : PeerId → Dict ListenerId Reservation → Option Multiaddr
reserved_address p [] = none
reserved_address p ((id, reservation) ∷ reservations) =
    if nat_beq reservation.peer_id p
    then some reservation.address
    else reserved_address p reservations

unfoldable pub redial_static : Libp2p → ℕ → PeerId → Behaviour → Behaviour
redial_static lib now p b = elim (lookup p b.static_relays) [
  | none ↦ b
  | some addresses ↦ (queue_static_dial lib now p addresses b).1
]

-- The end of a connection that was known; it is no longer among the connections.
unfoldable pub after_close : Libp2p → ℕ → ℕ → PeerId → Connection → Behaviour → Behaviour
after_close lib now time p connection b =
    let b =
      if not (any (λ kv. nat_beq kv.0.0 p) b.connections) && not (reservation_in_cooldown now p b)
      then clear_failure p b
      else b in
    let b =
      if not connection.endpoint.is_relayed && not (has_direct_connection p b)
      then elim (reserved_address p b.reservations) [
        | none ↦ b
        | some address ↦ record_previous_relay time p address b
      ]
      else b in
    update_relay_availability (redial_static lib now p b)

unfoldable pub on_closed : Libp2p → ℕ → ℕ → PeerId → ConnectionId → Behaviour → Behaviour
on_closed lib now time p c b = elim (lookup (p, c) b.connections) [
  | none ↦ b
  | some connection ↦
      after_close lib now time p connection (record b { connections = remove (p, c) b.connections })
]

unfoldable pub on_address_change : PeerId → ConnectionId → Endpoint → Behaviour → Behaviour
on_address_change p c new b = elim (lookup (p, c) b.connections) [
  | none ↦ b
  | some connection ↦ record b {
    connections = insert (p, c) (record connection { endpoint = new }) b.connections;
  }
]

unfoldable pub activate : ListenerId → Reservation → ReservationStatus → Behaviour → Behaviour
activate id reservation active b = b
activate id reservation waiting b =
    let b = record b {
      reservations = insert id (record reservation { status = active }) b.reservations;
    } in
    clear_failure reservation.peer_id (forget_previous_relay reservation.peer_id b)

unfoldable pub on_listen_addr : ListenerId → Multiaddr → Behaviour → Behaviour
on_listen_addr id addr b =
    if MultiaddrExt.is_relayed addr
    then elim (lookup id b.reservations) [
      | some reservation ↦ activate id reservation reservation.status b
      | none ↦ elim (relay_peer_id addr) [
        | none ↦ b
        | some p ↦ record b { external_reservations = insert id p b.external_reservations }
      ]
    ]
    else b

abbrev cool_dial : ℕ → PeerId → Behaviour → Behaviour
cool_dial now p b =
    if has p b.static_relays && not (has_direct_connection p b)
    then record b {
      static_dial_cooldowns = insert p (now + b.config.failure_cooldown) b.static_dial_cooldowns;
    }
    else b

unfoldable pub on_dial_failure : ℕ → PeerId → ConnectionId → Behaviour → Behaviour
on_dial_failure now p c b = if is_pending_dial p c b then cool_dial now p (forget_dial p b) else b

-- `ExternalAddresses` is libp2p's: its new list and whether it has changed come with the event.
observe_external : Libp2p → ℕ → List Multiaddr → Bool → Behaviour → Behaviour
observe_external lib now addresses change b =
    let b = record b { external_addresses = addresses } in
    if b.auto_status_change && change then determine_status_from_external_addresses lib now b else b

-- The `match` of `on_swarm_event`
on_event : Libp2p → ℕ → ℕ → SwarmEvent → Behaviour → Behaviour
on_event lib now time (connection_established p c endpoint) b = on_established p c endpoint b
on_event lib now time (connection_closed p c) b = on_closed lib now time p c b
on_event lib now time (address_change p c new) b = on_address_change p c new b
on_event lib now time (new_listen_addr id addr) b = on_listen_addr id addr b
on_event lib now time (listener_error id) b = disable_reservation lib now time id true b
on_event lib now time (listener_closed id failed) b = disable_reservation lib now time id failed b
on_event lib now time (dial_failure (some p) c) b = on_dial_failure now p c b
on_event lib now time (dial_failure none c) b = b
on_event lib now time other_event b = b

unfoldable pub on_swarm_event :
    Libp2p → ℕ → ℕ → SwarmEvent → List Multiaddr → Bool → Behaviour → Behaviour
unfolding on_event observe_external
on_swarm_event lib now time event addresses change b =
    on_event lib now time event (observe_external lib now addresses change b)

-- The listeners of a peer's reservations, to be removed.
listeners_of : PeerId → Dict ListenerId Reservation → List ToSwarm
listeners_of p [] = []
listeners_of p ((id, reservation) ∷ reservations) =
    let rest = listeners_of p reservations in
    if nat_beq reservation.peer_id p then remove_listener id ∷ rest else rest

unfoldable pub on_reported :
    Libp2p → ℕ → PeerId → ConnectionId → Connection → Out → Behaviour → Behaviour
unfolding listeners_of
on_reported lib now p c connection supported b =
    if is_supported connection.relay_status
    then b
    else update_relay_availability (
        meet_reservation_target lib now (record b {
          connections =
              insert (p, c) (record connection { relay_status = RelayStatus.supported })
                b.connections;
        }))
on_reported lib now p c connection unsupported b =
    let b = record b {
      connections =
          insert (p, c) (record connection { relay_status = not_supported }) b.connections;
    } in
    let has_supported_connection =
      any
        (λ kv. nat_beq kv.0.0 p && (not kv.1.endpoint.is_relayed && is_supported kv.1.relay_status))
        b.connections in
    update_relay_availability (
      if has_supported_connection
      then b
      else record b { events = b.events ++ listeners_of p b.reservations })

unfoldable pub on_connection_handler_event :
    Libp2p → ℕ → PeerId → ConnectionId → Out → Behaviour → Behaviour
unfolding on_reported
on_connection_handler_event lib now p c event b = elim (lookup (p, c) b.connections) [
  | none ↦ b
  | some connection ↦ on_reported lib now p c connection event b
]
