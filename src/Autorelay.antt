-- ===== src/Autorelay.antt =====
-- src/behaviour/autorelay.rs: the behaviour that keeps relay reservations. Peers, connections and
-- listeners are numbers; so are instants and durations, in nanoseconds. The waker and the log are
-- left out.
pub mod Relays
pub mod Reserve
pub mod Events
pub mod Cooldowns
pub mod Bounds
pub mod Settled
pub mod Choice
pub mod Rounds
pub mod Handler
pub mod Setup
use connexa.Prelude.{
  ℕ, Bool, true, false, not, Option, none, some, List, [], ◌∷◌, ◌++◌, nat_eq, Eq, ◌==◌,
  if◌then◌else◌, any, ◌↔◌, ◌≡◌, arith,
}
use connexa.Dict.{Dict}
use connexa.MultiaddrExt.{Multiaddr}

abbrev pub PeerId : Type 0
PeerId = ℕ

abbrev pub ConnectionId : Type 0
ConnectionId = ℕ

abbrev pub ListenerId : Type 0
ListenerId = ℕ

pub data Status : Type 0 where
  enable disable : Status

abbrev pub status_beq : Status → Status → Bool
status_beq enable enable = true
status_beq disable disable = true
status_beq _ _ = false

pub data RelayStatus : Type 0 where
  supported not_supported pending : RelayStatus

abbrev pub is_supported : RelayStatus → Bool
is_supported supported = true
is_supported _ = false

pub data ReservationStatus : Type 0 where
  waiting active : ReservationStatus

-- `ConnectedPoint`, by the two answers that the behaviour asks of it.
pub record Endpoint : Type 0 where
  pub is_relayed : Bool
  pub remote_address : Multiaddr

pub record Connection : Type 0 where
  pub endpoint : Endpoint
  pub relay_status : RelayStatus

-- `Connection::disqualify_connection_if_relayed`
unfoldable pub disqualify_connection_if_relayed : Connection → Connection
disqualify_connection_if_relayed c =
    if c.endpoint.is_relayed then record c { relay_status = not_supported } else c

pub record Reservation : Type 0 where
  pub peer_id : PeerId
  pub selected_connection_id : ConnectionId
  pub address : Multiaddr
  pub status : ReservationStatus

pub record Config : Type 0 where
  pub max_reservations : ℕ
  pub failure_cooldown : ℕ
  pub failure_cooldown_max : ℕ
  pub max_previous_relays : ℕ

pub data Event : Type 0 where
  status_changed : Status → Event
  no_relays_available relays_available : Event

-- The commands of `ToSwarm` that the behaviour queues.
pub data ToSwarm : Type 0 where
  generate_event : Event → ToSwarm
  dial : PeerId → ConnectionId → List Multiaddr → ToSwarm
  listen_on : ListenerId → Multiaddr → ToSwarm
  remove_listener : ListenerId → ToSwarm

pub record Behaviour : Type 0 where
  pub config : Config
  pub status : Status
  pub auto_status_change : Bool
  pub external_addresses : List Multiaddr
  pub events : List ToSwarm
  pub connections : Dict (PeerId × ConnectionId) Connection
  pub reservations : Dict ListenerId Reservation
  pub pending_eviction : Option ListenerId
  pub external_reservations : Dict ListenerId PeerId
  pub static_relays : Dict PeerId (List Multiaddr)
  pub pending_static_dials : Dict PeerId ConnectionId
  pub static_dial_cooldowns : Dict PeerId ℕ
  pub failure_counts : Dict PeerId ℕ
  pub reservation_cooldowns : Dict PeerId ℕ
  pub previous_relays : List (PeerId × Multiaddr × ℕ)
  pub has_relays : Bool
  pub cooldown_wakeup : Option ℕ
  -- How many `ListenOpts` and `DialOpts` the behaviour has built.
  pub listens : ℕ
  pub dials : ℕ

-- libp2p: the identifiers that the n-th options get, and `Multiaddr::with_p2p`, which fails on an
-- address that ends in another peer.
pub record Libp2p : Type 0 where
  pub listener_id : ℕ → ListenerId
  pub connection_id : ℕ → ConnectionId
  pub with_p2p : Multiaddr → PeerId → Option Multiaddr

pub push_event : ToSwarm → Behaviour → Behaviour
push_event e b = record b { events = b.events ++ (e ∷ []) }
