-- ===== src/Task/Swarm/Maps.antt =====
-- Every table is a map, with one channel for an identifier, through every command and event.
use connexa.Prelude.{nat_eq, Option-cases, inl, inr, Bool-cases, Result-cases}
use connexa.Dict.{lookup}
use connexa.Dict.Values.{insert-IsMap, remove-IsMap}
use connexa.Task.Swarm.{
  Swarm, Tables, SwarmCommand, dial_peer, is_connected, disconnect, connected_peers, listen_on,
  get_listening_address, remove_listener, add_external_address, remove_external_address,
  list_external_addresses, list_listening_addresses, add_peer_address, listen_to_events, to_peer,
  to_connection, process_swarm_command, disconnect_target,
}
use connexa.Task.Swarm.Events.{
  on_established, on_closed, on_incoming, on_incoming_error, on_outgoing_error, on_new_listen_addr,
  on_expired_listen_addr, on_listener_closed, on_external_addr_confirmed, on_external_addr_expired,
  on_external_addr_of_peer, on_other, process_swarm_event, SwarmEvent,
}
use connexa.Task.Swarm.Channels.{AreMaps}

module _ {W : Type 0} (swarm : Swarm W) where
  pub event-AreMaps :
      (e : SwarmEvent) (t : Tables) (w : W)
      → AreMaps t
      → AreMaps (process_swarm_event swarm e t w).1
  unfolding process_swarm_event
  event-AreMaps (on_established peer id endpoint n) t w (a, b, c, d, f) =
      (remove-IsMap id t.pending_connection a, b, c, d, f)
  event-AreMaps (on_closed peer id endpoint n cause) t w (a, b, c, d, f) =
      (a, remove-IsMap id _ b, remove-IsMap peer _ c, d, f)
  event-AreMaps (on_incoming id local from) t w h = h
  event-AreMaps (on_incoming_error peer id local from error) t w h = h
  event-AreMaps (on_outgoing_error id peer error) t w (a, b, c, d, f) =
      (remove-IsMap id _ a, b, c, d, f)
  event-AreMaps (on_new_listen_addr id address) t w (a, b, c, d, f) =
      (a, b, c, remove-IsMap id _ d, f)
  event-AreMaps (on_expired_listen_addr id address) t w h = h
  event-AreMaps (on_listener_closed id addresses reason) t w (a, b, c, d, f) =
      (a, b, c, remove-IsMap id _ d, remove-IsMap id _ f)
  event-AreMaps (on_external_addr_confirmed address) t w h = h
  event-AreMaps (on_external_addr_expired address) t w h = h
  event-AreMaps (on_external_addr_of_peer peer address) t w h = h
  event-AreMaps on_other t w h = h

  pub command-AreMaps :
      (cmd : SwarmCommand) (t : Tables) (w : W)
      → AreMaps t
      → AreMaps (process_swarm_command swarm cmd t w).1
  unfolding process_swarm_command disconnect_target
  command-AreMaps (dial_peer opt resp) t w (a, b, c, d, f) =
      elim (Option-cases (swarm.dial opt w).0) [
        | inl dials ↦
            rw (process_swarm_command, dials) (insert-IsMap opt.connection_id resp _ a, b, c, d, f)
        | inr (e, fails) ↦ rw (process_swarm_command, fails) (a, b, c, d, f)
      ]
  command-AreMaps (disconnect (to_peer peer) resp) t w (a, b, c, d, f) =
      elim (Bool-cases (swarm.disconnect_peer_id peer w).0) [
        | inl accepted ↦
            rw (process_swarm_command, accepted) (a, b, insert-IsMap peer resp _ c, d, f)
        | inr refused ↦ rw (process_swarm_command, refused) (a, b, c, d, f)
      ]
  command-AreMaps (disconnect (to_connection id) resp) t w (a, b, c, d, f) =
      elim (Bool-cases (swarm.close_connection id w).0) [
        | inl accepted ↦ rw (process_swarm_command, accepted) (a, insert-IsMap id resp _ b, c, d, f)
        | inr refused ↦ rw (process_swarm_command, refused) (a, b, c, d, f)
      ]
  command-AreMaps (listen_on address resp) t w (a, b, c, d, f) =
      elim (Result-cases (swarm.listen_on address w).0) [
        | inl (id, listens) ↦
            rw (process_swarm_command, listens) (a, b, c, insert-IsMap id resp _ d, f)
        | inr (e, fails) ↦ rw (process_swarm_command, fails) (a, b, c, d, f)
      ]
  command-AreMaps (get_listening_address id resp) t w h =
      elim (Option-cases (lookup id t.listener_addresses)) [
        | inl missing ↦ rw (process_swarm_command, missing) h
        | inr (addrs, found) ↦ rw (process_swarm_command, found) h
      ]
  command-AreMaps (remove_listener id resp) t w (a, b, c, d, f) =
      elim (Bool-cases (swarm.remove_listener id w).0) [
        | inl removed ↦ rw (process_swarm_command, removed) (a, b, c, d, insert-IsMap id resp _ f)
        | inr refused ↦ rw (process_swarm_command, refused) (a, b, c, d, f)
      ]
  command-AreMaps (is_connected peer resp) t w h = h
  command-AreMaps (connected_peers resp) t w h = h
  command-AreMaps (add_external_address address resp) t w h = h
  command-AreMaps (remove_external_address address resp) t w h = h
  command-AreMaps (list_external_addresses resp) t w h = h
  command-AreMaps (list_listening_addresses resp) t w h = h
  command-AreMaps (add_peer_address peer address resp) t w h = h
  command-AreMaps (listen_to_events resp) t w h = h
