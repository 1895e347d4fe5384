-- ===== src/Task/Swarm/Accounted.antt =====
-- One command or event: the channel of a command is answered, waits, or takes the place of another.
use connexa.Prelude.{
  ℕ, ◌+◌, ◌≡◌, Option, none, some, List, ◌++◌, arith, if◌then◌else◌, nat_eq, ◌==◌, err,
  Option-cases, ok, inl, inr, Bool-cases, Result-cases,
}
use connexa.Dict.{lookup}
use connexa.Dict.Values.{one_if, is_channel, times-insert, times-remove}
use connexa.Task.Swarm.{
  Swarm, Tables, Output, SwarmCommand, dial_peer, is_connected, disconnect, connected_peers,
  listen_on, get_listening_address, remove_listener, add_external_address, remove_external_address,
  list_external_addresses, list_listening_addresses, add_peer_address, listen_to_events, to_peer,
  to_connection, process_swarm_command, dialed, connection_established, connection_closed,
  incoming_connection, incoming_connection_error, dial, outgoing_connection_error, listening,
  new_listen_addr, listen_addr_expired, done, listen_addr_closed, new_external_addr,
  external_addr_expired, external_addr_of_peer,
}
use connexa.Task.Swarm.Events.{
  send, notify_all, on_established, on_closed, on_incoming, on_incoming_error, on_outgoing_error,
  on_new_listen_addr, on_expired_listen_addr, on_listener_closed, on_external_addr_confirmed,
  on_external_addr_expired, on_external_addr_of_peer, on_other, process_swarm_event,
  answer_disconnected, SwarmEvent, open_listeners, closing_result, early_error, removal_result,
}
use connexa.Task.Swarm.Channels.{
  told, waits, AreMaps, channel_of, told-append, told-notify_all, told-send,
  told-answer_disconnected, told_besides,
}

module _ {W : Type 0} (swarm : Swarm W) where
  -- The channel that stood under the identifier under which the channel of the command is kept.
  abbrev pub displaced : SwarmCommand → Tables → W → Option ℕ
  displaced (dial_peer opt resp) t w = elim (swarm.dial opt w).0 [
    | some e ↦ none
    | none ↦ lookup opt.connection_id t.pending_connection
  ]
  displaced (disconnect (to_peer peer) resp) t w =
      if (swarm.disconnect_peer_id peer w).0
      then lookup peer t.pending_disconnection_by_peer_id
      else none
  displaced (disconnect (to_connection id) resp) t w =
      if (swarm.close_connection id w).0
      then lookup id t.pending_disconnection_by_connection_id
      else none
  displaced (listen_on address resp) t w = elim (swarm.listen_on address w).0 [
    | err e ↦ none
    | ok id ↦ lookup id t.pending_listen_on
  ]
  displaced (remove_listener id resp) t w =
      if (swarm.remove_listener id w).0 then lookup id t.pending_remove_listener else none
  displaced _ t w = none

  abbrev pub Accounts : ℕ → Option ℕ → ℕ → Tables → List Output × Tables → Type 0
  Accounts c lost asked t (out, t') =
      waits c t' + told c out + is_channel c lost ≡ waits c t + asked

  pub command-Accounts :
      (c : ℕ) (cmd : SwarmCommand) (t : Tables) (w : W)
      → let (out, t', w') = process_swarm_command swarm cmd t w in
        Accounts c (displaced cmd t w) (one_if (channel_of cmd == c)) t (out, t')
  unfolding process_swarm_command
  command-Accounts c (dial_peer opt resp) t w = elim (Option-cases (swarm.dial opt w).0) [
    | inl dials ↦
        rw (process_swarm_command, displaced, dials)
          (omega (arith, times-insert c opt.connection_id resp t.pending_connection))
    | inr (e, fails) ↦ rw (process_swarm_command, displaced, fails) (omega arith)
  ]
  command-Accounts c (is_connected peer resp) t w = omega arith
  command-Accounts c (disconnect (to_peer peer) resp) t w =
      elim (Bool-cases (swarm.disconnect_peer_id peer w).0) [
        | inl accepted ↦
            rw (process_swarm_command, displaced, accepted)
              (omega (arith, times-insert c peer resp t.pending_disconnection_by_peer_id))
        | inr refused ↦ rw (process_swarm_command, displaced, refused) (omega arith)
      ]
  command-Accounts c (disconnect (to_connection id) resp) t w =
      elim (Bool-cases (swarm.close_connection id w).0) [
        | inl accepted ↦
            rw (process_swarm_command, displaced, accepted)
              (omega (arith, times-insert c id resp t.pending_disconnection_by_connection_id))
        | inr refused ↦ rw (process_swarm_command, displaced, refused) (omega arith)
      ]
  command-Accounts c (connected_peers resp) t w = omega arith
  command-Accounts c (listen_on address resp) t w =
      elim (Result-cases (swarm.listen_on address w).0) [
        | inl (id, listens) ↦
            rw (process_swarm_command, displaced, listens)
              (omega (arith, times-insert c id resp t.pending_listen_on))
        | inr (e, fails) ↦ rw (process_swarm_command, displaced, fails) (omega arith)
      ]
  command-Accounts c (get_listening_address id resp) t w =
      elim (Option-cases (lookup id t.listener_addresses)) [
        | inl missing ↦ rw (process_swarm_command, missing) (omega arith)
        | inr (addrs, found) ↦ rw (process_swarm_command, found) (omega arith)
      ]
  command-Accounts c (remove_listener id resp) t w =
      elim (Bool-cases (swarm.remove_listener id w).0) [
        | inl removed ↦
            rw (process_swarm_command, displaced, removed)
              (omega (arith, times-insert c id resp t.pending_remove_listener))
        | inr refused ↦ rw (process_swarm_command, displaced, refused) (omega arith)
      ]
  command-Accounts c (add_external_address address resp) t w = omega arith
  command-Accounts c (remove_external_address address resp) t w = omega arith
  command-Accounts c (list_external_addresses resp) t w = omega arith
  command-Accounts c (list_listening_addresses resp) t w = omega arith
  command-Accounts c (add_peer_address peer address resp) t w = omega arith
  command-Accounts c (listen_to_events resp) t w = omega arith

  pub event-Accounts :
      (c : ℕ) (e : SwarmEvent) (t : Tables) (w : W)
      → AreMaps t
      → let (out, t') = process_swarm_event swarm e t w in waits c t' + told c out ≡ waits c t
  unfolding process_swarm_event
  event-Accounts c (on_established peer id endpoint n) t w (h, _, _, _, _) =
      let ch = lookup id t.pending_connection in
      omega (
        arith,
        told_besides c (send ch (dialed (ok id))) (open_listeners swarm w t.connection_listeners)
            (connection_established peer id endpoint n),
        told-send c ch (dialed (ok id)),
        times-remove c id t.pending_connection h,
      )
  event-Accounts c (on_closed peer id endpoint n cause) t w (_, by_id, by_peer, _, _) =
      let left = lookup id t.pending_disconnection_by_connection_id in
      let right = lookup peer t.pending_disconnection_by_peer_id in
      omega (
        arith,
        told_besides c (answer_disconnected left right (closing_result cause))
            (open_listeners swarm w t.connection_listeners)
            (connection_closed peer id endpoint n cause),
        told-answer_disconnected c left right (closing_result cause),
        times-remove c id t.pending_disconnection_by_connection_id by_id,
        times-remove c peer t.pending_disconnection_by_peer_id by_peer,
      )
  event-Accounts c (on_incoming id local from) t w h =
      omega (arith, told-notify_all c t.connection_listeners (incoming_connection id local from))
  event-Accounts c (on_incoming_error peer id local from error) t w h = omega (
    arith,
    told-notify_all c t.connection_listeners (incoming_connection_error id local from error peer),
  )
  event-Accounts c (on_outgoing_error id peer error) t w (h, _, _, _, _) =
      let ch = lookup id t.pending_connection in
      omega (
        arith,
        told_besides c (send ch (dialed (err (dial error)))) t.connection_listeners
            (outgoing_connection_error id peer error),
        told-send c ch (dialed (err (dial error))),
        times-remove c id t.pending_connection h,
      )
  event-Accounts c (on_new_listen_addr id address) t w (_, _, _, h, _) =
      let ch = lookup id t.pending_listen_on in
      omega (
        arith,
        told_besides c (send ch (listening (ok id))) t.connection_listeners
            (new_listen_addr id address),
        told-send c ch (listening (ok id)),
        times-remove c id t.pending_listen_on h,
      )
  event-Accounts c (on_expired_listen_addr id address) t w h =
      omega (arith, told-notify_all c t.connection_listeners (listen_addr_expired id address))
  event-Accounts c (on_listener_closed id addresses reason) t w (_, _, _, listens, removes) =
      let ch = lookup id t.pending_listen_on in
      let ch' = lookup id t.pending_remove_listener in
      let early = listening (err (early_error reason)) in
      let late = done (removal_result reason) in
      omega (
        arith,
        told-append c (send ch early)
            (send ch' late ++ notify_all t.connection_listeners (listen_addr_closed id addresses)),
        told_besides c (send ch' late) t.connection_listeners (listen_addr_closed id addresses),
        told-send c ch early,
        told-send c ch' late,
        times-remove c id t.pending_listen_on listens,
        times-remove c id t.pending_remove_listener removes,
      )
  event-Accounts c (on_external_addr_confirmed address) t w h =
      omega (arith, told-notify_all c t.connection_listeners (new_external_addr address))
  event-Accounts c (on_external_addr_expired address) t w h =
      omega (arith, told-notify_all c t.connection_listeners (external_addr_expired address))
  event-Accounts c (on_external_addr_of_peer peer address) t w h =
      omega (arith, told-notify_all c t.connection_listeners (external_addr_of_peer peer address))
  event-Accounts c on_other t w h = omega arith
