-- ===== src/Task/Swarm.antt =====
-- The commands for the swarm in src/task.rs, and the tables in which `ConnexaTask` keeps the channels
-- of commands that an event of the swarm will answer.
pub mod Events
pub mod Channels
pub mod Accounted
pub mod Maps
pub mod Run
pub mod Listeners
use connexa.Prelude.{
  ℕ, Bool, true, false, Option, none, some, List, [], ◌∷◌, ◌++◌, Result, ok, err, if◌then◌else◌,
  nat_eq,
}
use connexa.Dict.{Dict, lookup, insert, remove}
use connexa.Task.{PeerId, Error, not_connected, not_found, dial, io, connection, listener}

abbrev pub ConnectionId : Type 0
ConnectionId = ℕ

abbrev pub ListenerId : Type 0
ListenerId = ℕ

abbrev pub Address : Type 0
Address = ℕ

-- `DialOpts`: the identifier that the connection will have, and the rest.
pub record DialOpts : Type 0 where
  pub connection_id : ConnectionId
  pub target : ℕ

-- `handle::swarm::ConnectionTarget`
pub data ConnectionTarget : Type 0 where
  to_peer : PeerId → ConnectionTarget
  to_connection : ConnectionId → ConnectionTarget

-- The last argument of each is the channel for the answer.
pub data SwarmCommand : Type 0 where
  dial_peer : DialOpts → ℕ → SwarmCommand
  is_connected : PeerId → ℕ → SwarmCommand
  disconnect : ConnectionTarget → ℕ → SwarmCommand
  connected_peers : ℕ → SwarmCommand
  listen_on : Address → ℕ → SwarmCommand
  get_listening_address : ListenerId → ℕ → SwarmCommand
  remove_listener : ListenerId → ℕ → SwarmCommand
  add_external_address : Address → ℕ → SwarmCommand
  remove_external_address : Address → ℕ → SwarmCommand
  list_external_addresses : ℕ → SwarmCommand
  list_listening_addresses : ℕ → SwarmCommand
  add_peer_address : PeerId → Address → ℕ → SwarmCommand
  listen_to_events : ℕ → SwarmCommand

-- What the listeners of the application are told: `types::ConnexaSwarmEvent`.
pub data ConnexaSwarmEvent : Type 0 where
  connection_established : PeerId → ConnectionId → ℕ → ℕ → ConnexaSwarmEvent
  connection_closed : PeerId → ConnectionId → ℕ → ℕ → Option ℕ → ConnexaSwarmEvent
  incoming_connection : ConnectionId → Address → Address → ConnexaSwarmEvent
  incoming_connection_error :
      ConnectionId → Address → Address → ℕ → Option PeerId → ConnexaSwarmEvent
  outgoing_connection_error : ConnectionId → Option PeerId → ℕ → ConnexaSwarmEvent
  new_listen_addr : ListenerId → Address → ConnexaSwarmEvent
  listen_addr_expired : ListenerId → Address → ConnexaSwarmEvent
  listen_addr_closed : ListenerId → List Address → ConnexaSwarmEvent
  new_external_addr : Address → ConnexaSwarmEvent
  external_addr_expired : Address → ConnexaSwarmEvent
  external_addr_of_peer : PeerId → Address → ConnexaSwarmEvent

-- What goes through the channel of a command.
pub data Answer : Type 0 where
  done : Result Error (Unit {0}) → Answer
  dialed : Result Error ConnectionId → Answer
  listening : Result Error ListenerId → Answer
  listed : Result Error (List Address) → Answer
  flag : Bool → Answer
  all_of : List ℕ → Answer
  receiver : ℕ → Answer

-- `resp.send(…)` of a command, or `try_send` to one who listens to events, which may fail unseen.
pub data Output : Type 0 where
  answer : ℕ → Answer → Output
  notify : ℕ → ConnexaSwarmEvent → Output

-- What the task calls of libp2p's `Swarm` and of the channels of `futures`; the error of a dial is a
-- number, and a channel is a pair of its two ends.
pub record Swarm (W : Type 0) : Type 0 where
  pub dial : DialOpts → W → Option ℕ × W
  pub is_connected : PeerId → W → Bool
  pub disconnect_peer_id : PeerId → W → Bool × W
  pub close_connection : ConnectionId → W → Bool × W
  pub connected_peers : W → List PeerId
  pub listen_on : Address → W → Result ℕ ListenerId × W
  pub remove_listener : ListenerId → W → Bool × W
  pub add_external_address : Address → W → W
  pub remove_external_address : Address → W → W
  pub external_addresses : W → List Address
  pub listeners : W → List Address
  pub add_peer_address : PeerId → Address → W → W
  pub channel : ℕ → W → (ℕ × ℕ) × W
  pub is_closed : ℕ → W → Bool

-- The fields of `ConnexaTask` for the swarm.
pub record Tables : Type 0 where
  pub connection_listeners : List ℕ
  pub listener_addresses : Dict ListenerId (List Address)
  pub pending_connection : Dict ConnectionId ℕ
  pub pending_disconnection_by_connection_id : Dict ConnectionId ℕ
  pub pending_disconnection_by_peer_id : Dict PeerId ℕ
  pub pending_listen_on : Dict ListenerId ℕ
  pub pending_remove_listener : Dict ListenerId ℕ

-- `ConnexaTask::new`
unfoldable pub new : Tables
new = record {
  connection_listeners = [];
  listener_addresses = [];
  pending_connection = [];
  pending_disconnection_by_connection_id = [];
  pending_disconnection_by_peer_id = [];
  pending_listen_on = [];
  pending_remove_listener = [];
}

module _ {W : Type 0} (swarm : Swarm W) where
  unfoldable pub disconnect_target : ConnectionTarget → ℕ → Tables → W → List Output × Tables × W
  disconnect_target (to_peer peer_id) resp t w =
      let (accepted, w') = swarm.disconnect_peer_id peer_id w in
      if accepted
      then (
        [],
        record t {
          pending_disconnection_by_peer_id = insert peer_id resp t.pending_disconnection_by_peer_id;
        },
        w',
      )
      else (answer resp (done (err (not_connected peer_id))) ∷ [], t, w')
  disconnect_target (to_connection connection_id) resp t w =
      let (accepted, w') = swarm.close_connection connection_id w in
      if accepted
      then (
        [],
        record t {
          pending_disconnection_by_connection_id =
              insert connection_id resp t.pending_disconnection_by_connection_id;
        },
        w',
      )
      else (answer resp (done (err (not_found connection))) ∷ [], t, w')

  -- `Command::Swarm` in `process_command`
  unfoldable pub process_swarm_command : SwarmCommand → Tables → W → List Output × Tables × W
  unfolding disconnect_target
  process_swarm_command (listen_to_events resp) t w =
      let ((tx, rx), w') = swarm.channel 50 w in
      (
        answer resp (receiver rx) ∷ [],
        record t { connection_listeners = t.connection_listeners ++ (tx ∷ []) },
        w',
      )
  process_swarm_command (dial_peer opt resp) t w =
      let (failed, w') = swarm.dial opt w in
      elim failed [
        | some e ↦ (answer resp (dialed (err (dial e))) ∷ [], t, w')
        | none ↦ (
          [],
          record t { pending_connection = insert opt.connection_id resp t.pending_connection },
          w',
        )
      ]
  process_swarm_command (is_connected peer_id resp) t w =
      (answer resp (flag (swarm.is_connected peer_id w)) ∷ [], t, w)
  process_swarm_command (disconnect target_type resp) t w = disconnect_target target_type resp t w
  process_swarm_command (connected_peers resp) t w =
      (answer resp (all_of (swarm.connected_peers w)) ∷ [], t, w)
  process_swarm_command (listen_on address resp) t w =
      let (result, w') = swarm.listen_on address w in
      elim result [
        | ok id ↦ ([], record t { pending_listen_on = insert id resp t.pending_listen_on }, w')
        | err e ↦ (answer resp (listening (err (io e))) ∷ [], t, w')
      ]
  process_swarm_command (get_listening_address id resp) t w =
      elim (lookup id t.listener_addresses) [
        | none ↦ (answer resp (listed (err (not_found listener))) ∷ [], t, w)
        | some addrs ↦ (answer resp (listed (ok addrs)) ∷ [], t, w)
      ]
  process_swarm_command (remove_listener listener_id resp) t w =
      let (removed, w') = swarm.remove_listener listener_id w in
      if removed
      then (
        [],
        record t {
          listener_addresses = remove listener_id t.listener_addresses;
          pending_remove_listener = insert listener_id resp t.pending_remove_listener;
        },
        w',
      )
      else (answer resp (done (err (not_found listener))) ∷ [], t, w')
  process_swarm_command (add_external_address address resp) t w =
      (answer resp (done (ok tt)) ∷ [], t, swarm.add_external_address address w)
  process_swarm_command (remove_external_address address resp) t w =
      (answer resp (done (ok tt)) ∷ [], t, swarm.remove_external_address address w)
  process_swarm_command (list_external_addresses resp) t w =
      (answer resp (all_of (swarm.external_addresses w)) ∷ [], t, w)
  process_swarm_command (list_listening_addresses resp) t w =
      (answer resp (all_of (swarm.listeners w)) ∷ [], t, w)
  process_swarm_command (add_peer_address peer_id address resp) t w =
      (answer resp (done (ok tt)) ∷ [], t, swarm.add_peer_address peer_id address w)
