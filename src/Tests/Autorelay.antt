-- ===== src/Tests/Autorelay.antt =====
-- The relay behaviour on concrete inputs.
use connexa.Prelude.{
  ◌&&◌, not, Bool, ◌+◌, ◌≤◌, ◌≡◌, refl, arith, true, false, none, some, [], ◌∷◌, ◌++◌, length,
  pair_eq, nat_eq, ℕ, List,
}
use connexa.MultiaddrExt.{ip4, p2p}
use connexa.Autorelay.{Behaviour, Libp2p, Connection, supported, pending, waiting, enable, disable}
use connexa.Dict
use connexa.Autorelay.Relays
use connexa.Autorelay.Reserve
use connexa.Autorelay.Relays.{cooldown_after, push_relay}
use connexa.Autorelay.Reserve.{
  candidates, meet_reservation_target, covered_peers, update_relay_availability,
}
use connexa.Autorelay.Cooldowns.{poll_cooldowns, poll}
use connexa.Autorelay.Settled.{is_due, is_due-poll_cooldowns}
use connexa.Dict.{has}
use connexa.Autorelay.Choice.{is_available, has-candidates}
use connexa.Autorelay.Bounds.{length-meet_reservation_target_le}
use connexa.Keystore.Backend.Laws.{is_some}
use connexa.Autorelay.Rounds.{poll_ends}
use connexa.Autorelay.Handler
use connexa.Autorelay.Handler.{
  Protocols, Op, event_op, poll_op, remote_protocols_change, supported, speaks_hop,
}
use connexa.Autorelay.Handler.Truthful.{follows, follows-run}

abbrev counting : Libp2p
counting = record {
  listener_id = λ n. n + 100;
  connection_id = λ n. n + 1000;
  with_p2p = λ address p. some (address ++ (p2p p ∷ []));
}

abbrev relay : Connection
relay = record {
  endpoint = record { is_relayed = false; remote_address = ip4 10 0 0 1 ∷ [] };
  relay_status = supported;
}

-- Peers 1, 2 and 3 are relays, 3 by choice of the user; peer 1 has a reservation.
abbrev client : Behaviour
client = record {
  config = record {
    max_reservations = 2;
    failure_cooldown = 1000;
    failure_cooldown_max = 60000;
    max_previous_relays = 4;
  };
  status = enable;
  auto_status_change = true;
  external_addresses = [];
  events = [];
  connections = ((1, 11), relay) ∷ ((2, 12), relay) ∷ ((3, 13), relay) ∷ [];
  reservations =
      (
        50,
        record {
          peer_id = 1;
          selected_connection_id = 11;
          address = ip4 10 0 0 1 ∷ [];
          status = waiting;
        },
      )
      ∷ [];
  pending_eviction = none;
  external_reservations = [];
  static_relays = (3, []) ∷ [];
  pending_static_dials = [];
  static_dial_cooldowns = [];
  failure_counts = [];
  reservation_cooldowns = [];
  previous_relays = [];
  has_relays = true;
  cooldown_wakeup = none;
  listens = 0;
  dials = 0;
}

two_reserved : length (meet_reservation_target counting 0 client).reservations ≡ 2
unfolding meet_reservation_target Reserve.fill_reservations covered_peers Dict.add
    Reserve.select_all Reserve.candidates Reserve.is_candidate Relays.reservation_in_cooldown
    Dict.lookup Reserve.add_candidate Reserve.select_connection_for_reservation Dict.insert
two_reserved = refl

length-meet_reservation_target_le_example :
    length (meet_reservation_target counting 0 client).reservations + length (covered_peers client)
    ≤ length client.reservations + 2
unfolding covered_peers Dict.add
length-meet_reservation_target_le_example =
    length-meet_reservation_target_le counting 0 client (omega arith)

abbrev disabled_client : Behaviour
disabled_client = record client {
  status = disable;
  connections = ((2, 12), record relay { relay_status = pending }) ∷ [];
}

abbrev alone : Behaviour
alone = record client { connections = [] }

abbrev cooling : Behaviour
cooling = record client {
  reservation_cooldowns = (2, 500) ∷ (3, 9000) ∷ [];
  static_dial_cooldowns = (3, 700) ∷ [];
}

abbrev never_ready : ℕ → Bool
never_ready deadline = false

is_due-poll_cooldowns_example :
    is_due 1000 (poll_cooldowns counting 1000 never_ready cooling).1 ≡ false
is_due-poll_cooldowns_example = is_due-poll_cooldowns counting 1000 never_ready cooling

has-candidates_example :
    (has 3 (candidates 0 client (1 ∷ []) client.connections).0
      ≡ (has 3 client.static_relays && is_available 0 client (1 ∷ []) 3 client.connections))
    × (has 3 (candidates 0 client (1 ∷ []) client.connections).1
        ≡ (not (has 3 client.static_relays) && is_available 0 client (1 ∷ []) 3 client.connections))
has-candidates_example = has-candidates 0 client (1 ∷ []) 3 client.connections

poll_ends_example : is_some (poll counting 1000 never_ready 2 cooling) ≡ true
poll_ends_example = poll_ends counting 1000 never_ready 0 cooling (λ at h. cc h)

-- "/hop", and a library in which a change brings the whole list.
abbrev hop : List ℕ
hop = 47 ∷ 104 ∷ 111 ∷ 112 ∷ []

abbrev listing : Protocols (List (List ℕ)) (List (List ℕ))
listing = record { on_protocols_change = λ c p. (true, c); names = λ p. p; hop_name = hop }

abbrev two_reports : List (Op (List (List ℕ)))
two_reports =
    event_op (remote_protocols_change (hop ∷ []))
    ∷ poll_op
    ∷ event_op (remote_protocols_change ((1 ∷ []) ∷ hop ∷ []))
    ∷ event_op (remote_protocols_change ((1 ∷ []) ∷ []))
    ∷ []

reported_so_far : (Handler.run listing two_reports ([], Handler.new [])).0 ≡ supported ∷ []
unfolding Handler.run Handler.new
reported_so_far = refl

follows-run_example :
    follows false (
      (Handler.run listing two_reports ([], Handler.new [])).0
      ++ (Handler.run listing two_reports ([], Handler.new [])).1.events)
    ≡ some (
        speaks_hop listing
          (Handler.run listing two_reports ([], Handler.new [])).1.supported_protocol)
follows-run_example = follows-run listing (λ c p h. cc h) two_reports [] refl
