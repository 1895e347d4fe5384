-- ===== src/Task/Swarm/Events.antt =====
-- `process_swarm_event` of src/task/swarm.rs, but for the events of the behaviours.
use connexa.Prelude.{
  ℕ, Option, none, some, List, [], ◌∷◌, ◌++◌, keep, not, Result, ok, err, ◌==◌, nat_eq,
}
use connexa.Dict.{Dict, lookup, insert, remove}
use connexa.Task.{PeerId, Error, dial, io, io_text, listener_closed_early}
use connexa.Task.Swarm.{
  Swarm, Tables, Output, Answer, answer, notify, done, dialed, listening, ConnectionId, ListenerId,
  Address, ConnexaSwarmEvent, connection_established, connection_closed, incoming_connection,
  incoming_connection_error, outgoing_connection_error, new_listen_addr, listen_addr_expired,
  listen_addr_closed, new_external_addr, external_addr_expired, external_addr_of_peer,
}

-- The events of libp2p's swarm; `on_other` is one that is only logged or ignored. The numbers are the
-- endpoint, how many connections to the peer there are, and the errors.
pub data SwarmEvent : Type 0 where
  on_established : PeerId → ConnectionId → ℕ → ℕ → SwarmEvent
  on_closed : PeerId → ConnectionId → ℕ → ℕ → Option ℕ → SwarmEvent
  on_incoming : ConnectionId → Address → Address → SwarmEvent
  on_incoming_error : Option PeerId → ConnectionId → Address → Address → ℕ → SwarmEvent
  on_outgoing_error : ConnectionId → Option PeerId → ℕ → SwarmEvent
  on_new_listen_addr : ListenerId → Address → SwarmEvent
  on_expired_listen_addr : ListenerId → Address → SwarmEvent
  on_listener_closed : ListenerId → List Address → Result ℕ (Unit {0}) → SwarmEvent
  on_external_addr_confirmed : Address → SwarmEvent
  on_external_addr_expired : Address → SwarmEvent
  on_external_addr_of_peer : PeerId → Address → SwarmEvent
  on_other : SwarmEvent

-- `if let Some(ch) = … { let _ = ch.send(…); }`
abbrev pub send : Option ℕ → Answer → List Output
send none a = []
send (some ch) a = answer ch a ∷ []

-- The loop over the listeners.
unfoldable pub notify_all : List ℕ → ConnexaSwarmEvent → List Output
notify_all [] event = []
notify_all (ch ∷ listeners) event = notify ch event ∷ notify_all listeners event

-- The channels of the two tables when a connection closes, by which of them there are.
unfoldable pub answer_disconnected : Option ℕ → Option ℕ → Result Error (Unit {0}) → List Output
answer_disconnected (some ch) none ret = answer ch (done ret) ∷ []
answer_disconnected none (some ch) ret = answer ch (done ret) ∷ []
answer_disconnected (some ch_left) (some ch_right) ret =
    answer ch_left (done (ok tt)) ∷ answer ch_right (done ret) ∷ []
answer_disconnected none none ret = []

abbrev pub closing_result : Option ℕ → Result Error (Unit {0})
closing_result (some e) = err (io e)
closing_result none = ok tt

abbrev pub early_error : Result ℕ (Unit {0}) → Error
early_error (ok _) = io_text listener_closed_early
early_error (err e) = io e

abbrev pub removal_result : Result ℕ (Unit {0}) → Result Error (Unit {0})
removal_result (ok u) = ok u
removal_result (err e) = err (io e)

-- `entry(listener_id).or_default()`
abbrev pub addresses_of : ListenerId → Dict ListenerId (List Address) → List Address
addresses_of id m = elim (lookup id m) [ none ↦ [] | some list ↦ list ]

-- An entry whose list has become empty is removed.
abbrev pub put_addresses :
    ListenerId → List Address → Dict ListenerId (List Address) → Dict ListenerId (List Address)
put_addresses id [] m = remove id m
put_addresses id (a ∷ list) m = insert id (a ∷ list) m

abbrev pub expire :
    ListenerId → Address → Dict ListenerId (List Address) → Dict ListenerId (List Address)
expire id address m = elim (lookup id m) [
  | none ↦ m
  | some list ↦ put_addresses id (keep (λ a. not (a == address)) list) m
]

module _ {W : Type 0} (swarm : Swarm W) where
  -- `retain(|ch| !ch.is_closed())`
  abbrev pub open_listeners : W → List ℕ → List ℕ
  open_listeners w = keep (λ ch. not (swarm.is_closed ch w))

  abbrev pub process_new_listen_addr : ListenerId → Address → Tables → W → List Output × Tables
  process_new_listen_addr listener_id address t w = (
    send (lookup listener_id t.pending_listen_on) (listening (ok listener_id))
        ++ notify_all t.connection_listeners (new_listen_addr listener_id address),
    record t {
      pending_listen_on = remove listener_id t.pending_listen_on;
      listener_addresses =
          insert listener_id (addresses_of listener_id t.listener_addresses ++ (address ∷ []))
            t.listener_addresses;
    },
  )

  abbrev pub process_expired_listen_addr : ListenerId → Address → Tables → W → List Output × Tables
  process_expired_listen_addr listener_id address t w = (
    notify_all t.connection_listeners (listen_addr_expired listener_id address),
    record t { listener_addresses = expire listener_id address t.listener_addresses },
  )

  abbrev pub process_listener_closed :
      ListenerId → List Address → Result ℕ (Unit {0}) → Tables → W → List Output × Tables
  process_listener_closed listener_id addresses reason t w = (
    send (lookup listener_id t.pending_listen_on) (listening (err (early_error reason)))
        ++ (send (lookup listener_id t.pending_remove_listener) (done (removal_result reason))
            ++ notify_all t.connection_listeners (listen_addr_closed listener_id addresses)),
    record t {
      listener_addresses = remove listener_id t.listener_addresses;
      pending_listen_on = remove listener_id t.pending_listen_on;
      pending_remove_listener = remove listener_id t.pending_remove_listener;
    },
  )

  unfoldable pub process_swarm_event : SwarmEvent → Tables → W → List Output × Tables
  unfolding notify_all answer_disconnected
  process_swarm_event (on_established peer_id connection_id endpoint num_established) t w =
      let listeners = open_listeners w t.connection_listeners in
      (
        send (lookup connection_id t.pending_connection) (dialed (ok connection_id))
            ++ notify_all listeners
                (connection_established peer_id connection_id endpoint num_established),
        record t {
          pending_connection = remove connection_id t.pending_connection;
          connection_listeners = listeners;
        },
      )
  process_swarm_event (on_closed peer_id connection_id endpoint num_established cause) t w =
      let listeners = open_listeners w t.connection_listeners in
      (
        answer_disconnected (lookup connection_id t.pending_disconnection_by_connection_id)
              (lookup peer_id t.pending_disconnection_by_peer_id) (closing_result cause)
            ++ notify_all listeners
                (connection_closed peer_id connection_id endpoint num_established cause),
        record t {
          pending_disconnection_by_connection_id =
              remove connection_id t.pending_disconnection_by_connection_id;
          pending_disconnection_by_peer_id = remove peer_id t.pending_disconnection_by_peer_id;
          connection_listeners = listeners;
        },
      )
  process_swarm_event (on_incoming connection_id local_addr send_back_addr) t w = (
    notify_all t.connection_listeners (incoming_connection connection_id local_addr send_back_addr),
    t,
  )
  process_swarm_event (on_incoming_error peer_id connection_id local_addr send_back_addr error) t
        w =
      (
        notify_all t.connection_listeners
            (incoming_connection_error connection_id local_addr send_back_addr error peer_id),
        t,
      )
  process_swarm_event (on_outgoing_error connection_id peer_id error) t w = (
    send (lookup connection_id t.pending_connection) (dialed (err (dial error)))
        ++ notify_all t.connection_listeners
            (outgoing_connection_error connection_id peer_id error),
    record t { pending_connection = remove connection_id t.pending_connection },
  )
  process_swarm_event (on_new_listen_addr listener_id address) t w =
      process_new_listen_addr listener_id address t w
  process_swarm_event (on_expired_listen_addr listener_id address) t w =
      process_expired_listen_addr listener_id address t w
  process_swarm_event (on_listener_closed listener_id addresses reason) t w =
      process_listener_closed listener_id addresses reason t w
  process_swarm_event (on_external_addr_confirmed address) t w =
      (notify_all t.connection_listeners (new_external_addr address), t)
  process_swarm_event (on_external_addr_expired address) t w =
      (notify_all t.connection_listeners (external_addr_expired address), t)
  process_swarm_event (on_external_addr_of_peer peer_id address) t w =
      (notify_all t.connection_listeners (external_addr_of_peer peer_id address), t)
  process_swarm_event on_other t w = ([], t)
