-- ===== src/Autorelay/Setup.antt =====
-- src/behaviour/autorelay.rs: `Config`, and how the behaviour is made of one. Durations are in
-- nanoseconds.
use connexa.Prelude.{
  ℕ, ◌*◌, Bool, true, false, none, some, List, [], ◌∷◌, nat_eq, if◌then◌else◌, list_eq,
}
use connexa.Dict.{Dict, lookup, insert, add}
use connexa.MultiaddrExt.{Multiaddr, is_relayed, protocol_eq}
use connexa.Autorelay.{PeerId, Behaviour, Config, Libp2p, enable}
use connexa.Autorelay.Reserve.{add_static_relay}

-- `Config` before the behaviour takes its static relays out.
pub record Settings : Type 0 where
  pub limits : Config
  pub static_relays : Dict PeerId (List Multiaddr)

unfoldable pub default_config : Config
default_config = record {
  max_reservations = 2;
  failure_cooldown = 30 * 1000000000;
  failure_cooldown_max = 600 * 1000000000;
  max_previous_relays = 16;
}

-- `Config::default`
unfoldable pub default_settings : Settings
unfolding default_config
default_settings = record { limits = default_config; static_relays = [] }

unfoldable pub set_max_reservations : ℕ → Settings → Settings
set_max_reservations max_reservations s = record s {
  limits = record s.limits { max_reservations = max_reservations };
}

unfoldable pub set_failure_cooldown : ℕ → Settings → Settings
set_failure_cooldown duration s = record s {
  limits = record s.limits { failure_cooldown = duration };
}

unfoldable pub set_failure_cooldown_max : ℕ → Settings → Settings
set_failure_cooldown_max duration s = record s {
  limits = record s.limits { failure_cooldown_max = duration };
}

unfoldable pub set_max_previous_relays : ℕ → Settings → Settings
set_max_previous_relays max s = record s { limits = record s.limits { max_previous_relays = max } }

unfoldable pub add_all : List Multiaddr → List Multiaddr → List Multiaddr
add_all [] entry = entry
add_all (address ∷ addresses) entry = add_all addresses (add address entry)

-- `Config::add_static_relay`
unfoldable pub add_relay_setting : PeerId → List Multiaddr → Settings → Settings
unfolding add_all
add_relay_setting p addresses s =
    let entry : List Multiaddr = elim (lookup p s.static_relays) [ none ↦ [] | some list ↦ list ] in
    record s { static_relays = insert p (add_all addresses entry) s.static_relays }

-- `Behaviour::default`, with these limits
unfoldable pub new_behaviour : Config → Behaviour
new_behaviour limits = record {
  config = limits;
  status = enable;
  auto_status_change = true;
  external_addresses = [];
  events = [];
  connections = [];
  reservations = [];
  pending_eviction = none;
  external_reservations = [];
  static_relays = [];
  pending_static_dials = [];
  static_dial_cooldowns = [];
  failure_counts = [];
  reservation_cooldowns = [];
  previous_relays = [];
  has_relays = false;
  cooldown_wakeup = none;
  listens = 0;
  dials = 0;
}

unfoldable pub add_addresses : Libp2p → ℕ → PeerId → List Multiaddr → Behaviour → Behaviour
add_addresses lib now p [] b = b
add_addresses lib now p (address ∷ addresses) b =
    add_addresses lib now p addresses (add_static_relay lib now p address b).1

unfoldable pub add_relays : Libp2p → ℕ → Dict PeerId (List Multiaddr) → Behaviour → Behaviour
unfolding add_addresses
add_relays lib now [] b = b
add_relays lib now ((p, addresses) ∷ relays) b =
    add_relays lib now relays (add_addresses lib now p addresses b)

-- `new_with_config`
unfoldable pub new_with_config : Libp2p → ℕ → Settings → Behaviour
unfolding add_relays new_behaviour
new_with_config lib now s = add_relays lib now s.static_relays (new_behaviour s.limits)

-- Whether a connection over the address gets a `Handler`; a relayed one gets none that reports. The
-- address is the local one of an inbound connection and the remote one of an outbound connection.
unfoldable pub has_handler : Multiaddr → Bool
has_handler address = if is_relayed address then false else true
