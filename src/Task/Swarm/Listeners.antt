-- ===== src/Task/Swarm/Listeners.antt =====
-- The addresses of the listeners, against what the swarm has announced.
use connexa.Prelude.{
  ◌≡◌, refl, Option, none, some, List, [], ◌∷◌, ◌++◌, keep, not, arith, if◌then◌else◌, nat_eq, ◌==◌,
  ◌&&◌, Bool-cases, Option-cases, inl, inr, ap, subst, sym, nat_beq_iff,
}
use connexa.Dict.{lookup, lookup-insert, lookup-remove, Dict, insert}
use connexa.Task.Swarm.{
  Swarm, Tables, process_swarm_command, new, ListenerId, Address, SwarmCommand, disconnect_target,
  remove_listener, dial_peer, disconnect, to_peer, to_connection, listen_on, get_listening_address,
  is_connected, connected_peers, add_external_address, remove_external_address,
  list_external_addresses, list_listening_addresses, add_peer_address, listen_to_events,
}
use connexa.Task.Swarm.Events.{
  SwarmEvent, process_swarm_event, on_new_listen_addr, on_expired_listen_addr, on_listener_closed,
  on_established, on_closed, on_incoming, on_incoming_error, on_outgoing_error,
  on_external_addr_confirmed, on_external_addr_expired, on_external_addr_of_peer, on_other,
  put_addresses, addresses_of, expire,
}
use connexa.Task.Swarm.Run.{Input, command, event, run}

-- The addresses of one listener after an event: those that were announced and have not expired since,
-- while the listener is not closed.
abbrev pub after_event : ListenerId → SwarmEvent → List Address → List Address
after_event id (on_new_listen_addr listener address) l =
    if listener == id then l ++ (address ∷ []) else l
after_event id (on_expired_listen_addr listener address) l =
    if listener == id then keep (λ a. not (a == address)) l else l
after_event id (on_listener_closed listener addresses reason) l = if listener == id then [] else l
after_event id _ l = l

-- None is kept as no entry.
abbrev pub entry : List Address → Option (List Address)
entry [] = none
entry (a ∷ l) = some (a ∷ l)

entry-append : (l : List Address) (a : Address) → entry (l ++ (a ∷ [])) ≡ some (l ++ (a ∷ []))
entry-append [] a = refl
entry-append (b ∷ l) a = refl

abbrev Addresses : Type 0
Addresses = Dict ListenerId (List Address)

addresses_of-entry :
    (id : ListenerId) (l : List Address) (m : Addresses)
    → lookup id m ≡ entry l
    → addresses_of id m ≡ l
addresses_of-entry id [] m h = rw (addresses_of, h) refl
addresses_of-entry id (a ∷ l) m h = rw (addresses_of, h) refl

lookup-put_addresses :
    (id j : ListenerId) (list : List Address) (m : Addresses)
    → lookup j (put_addresses id list m) ≡ (if id == j then entry list else lookup j m)
lookup-put_addresses id j [] m = lookup-remove id j m
lookup-put_addresses id j (a ∷ list) m = lookup-insert id j (a ∷ list) m

-- An address that is announced.
lookup-announce :
    (listener id : ListenerId) (address : Address) (l : List Address) (m : Addresses)
    → lookup id m ≡ entry l
    → lookup id (insert listener (addresses_of listener m ++ (address ∷ [])) m)
      ≡ entry (if listener == id then l ++ (address ∷ []) else l)
lookup-announce listener id address l m h =
    let listed = addresses_of listener m ++ (address ∷ []) in
    elim (Bool-cases (listener == id)) [
      | inl same ↦
          rw (lookup-insert listener id listed m, same, entry-append l address)
            (ap (λ l'. some (l' ++ (address ∷ [])))
              (addresses_of-entry listener l m
                (subst (λ j. lookup j m ≡ entry l) (sym ((nat_beq_iff listener id).0 same)) h)))
      | inr other ↦ rw (lookup-insert listener id listed m, other) h
    ]

-- An address that expires.
lookup-expire :
    (listener id : ListenerId) (address : Address) (l : List Address) (m : Addresses)
    → lookup id m ≡ entry l
    → lookup id (expire listener address m)
      ≡ entry (if listener == id then keep (λ a. not (a == address)) l else l)
lookup-expire listener id address l m h = elim (Bool-cases (listener == id)) [
  | inl same ↦
      let at_listener =
        subst (λ j. lookup j m ≡ entry l) (sym ((nat_beq_iff listener id).0 same)) h in
      let same_list = addresses_of-entry listener l m at_listener in
      elim (Option-cases (lookup listener m)) [
        | inl missing ↦
            rw (expire, missing, same, sym same_list, addresses_of, missing)
              (ground (arith, missing, nat_beq_iff listener id, same))
        | inr (list, there) ↦
            rw
              (
                expire,
                there,
                lookup-put_addresses listener id (keep (λ a. not (a == address)) list) m,
                same,
                sym same_list,
                addresses_of,
                there,
              )
              refl
      ]
  | inr other ↦ elim (Option-cases (lookup listener m)) [
    | inl missing ↦ rw (expire, missing, other) h
    | inr (list, there) ↦
        rw
          (
            expire,
            there,
            lookup-put_addresses listener id (keep (λ a. not (a == address)) list) m,
            other,
          )
          h
  ]
]

module _ {W : Type 0} (swarm : Swarm W) where
  -- After a command, a listener that is being removed has none.
  abbrev pub after_command : ListenerId → SwarmCommand → W → List Address → List Address
  after_command id (remove_listener listener resp) w l =
      if (swarm.remove_listener listener w).0 && listener == id then [] else l
  after_command id _ w l = l

  abbrev pub announced : ListenerId → List (Input W) → Tables → W → List Address → List Address
  announced id [] t w l = l
  announced id (command cmd ∷ inputs) t w l =
      let (out, t', w') = process_swarm_command swarm cmd t w in
      announced id inputs t' w' (after_command id cmd w l)
  announced id (event e w1 ∷ inputs) t w l =
      let (out, t') = process_swarm_event swarm e t w1 in
      announced id inputs t' w1 (after_event id e l)

  lookup-command :
      (id : ListenerId) (cmd : SwarmCommand) (t : Tables) (w : W) (l : List Address)
      → lookup id t.listener_addresses ≡ entry l
      → lookup id (process_swarm_command swarm cmd t w).1.listener_addresses
        ≡ entry (after_command id cmd w l)
  unfolding process_swarm_command disconnect_target
  lookup-command id (remove_listener listener resp) t w l h =
      ground (arith, lookup-remove listener id t.listener_addresses, h)
  lookup-command id (dial_peer opt resp) t w l h = ground (arith, h)
  lookup-command id (disconnect (to_peer peer) resp) t w l h = ground (arith, h)
  lookup-command id (disconnect (to_connection c) resp) t w l h = ground (arith, h)
  lookup-command id (listen_on address resp) t w l h = ground (arith, h)
  lookup-command id (get_listening_address listener resp) t w l h = ground (arith, h)
  lookup-command id (is_connected peer resp) t w l h = h
  lookup-command id (connected_peers resp) t w l h = h
  lookup-command id (add_external_address address resp) t w l h = h
  lookup-command id (remove_external_address address resp) t w l h = h
  lookup-command id (list_external_addresses resp) t w l h = h
  lookup-command id (list_listening_addresses resp) t w l h = h
  lookup-command id (add_peer_address peer address resp) t w l h = h
  lookup-command id (listen_to_events resp) t w l h = h

  lookup-event :
      (id : ListenerId) (e : SwarmEvent) (t : Tables) (w : W) (l : List Address)
      → lookup id t.listener_addresses ≡ entry l
      → lookup id (process_swarm_event swarm e t w).1.listener_addresses
        ≡ entry (after_event id e l)
  unfolding process_swarm_event
  lookup-event id (on_new_listen_addr listener address) t w l h =
      lookup-announce listener id address l t.listener_addresses h
  lookup-event id (on_expired_listen_addr listener address) t w l h =
      lookup-expire listener id address l t.listener_addresses h
  lookup-event id (on_listener_closed listener addresses reason) t w l h =
      ground (arith, lookup-remove listener id t.listener_addresses, h)
  lookup-event id (on_established peer c endpoint n) t w l h = h
  lookup-event id (on_closed peer c endpoint n cause) t w l h = h
  lookup-event id (on_incoming c local from) t w l h = h
  lookup-event id (on_incoming_error peer c local from error) t w l h = h
  lookup-event id (on_outgoing_error c peer error) t w l h = h
  lookup-event id (on_external_addr_confirmed address) t w l h = h
  lookup-event id (on_external_addr_expired address) t w l h = h
  lookup-event id (on_external_addr_of_peer peer address) t w l h = h
  lookup-event id on_other t w l h = h

  lookup-announced :
      (id : ListenerId) (inputs : List (Input W)) (t : Tables) (w : W) (l : List Address)
      → lookup id t.listener_addresses ≡ entry l
      → lookup id (run swarm inputs t w).1.listener_addresses ≡ entry (announced id inputs t w l)
  unfolding run
  lookup-announced id [] t w l h = h
  lookup-announced id (command cmd ∷ inputs) t w l h =
      lookup-announced id inputs _ _ _ (lookup-command id cmd t w l h)
  lookup-announced id (event e w1 ∷ inputs) t w l h =
      lookup-announced id inputs _ _ _ (lookup-event id e t w1 l h)

  -- From a new task, through any commands and events, the entry of a listener is the list of the
  -- addresses that the swarm announced for it and that have not expired since it was last closed or
  -- removed, in order; there is no entry if there are none.
  pub lookup-run :
      (id : ListenerId) (inputs : List (Input W)) (w : W)
      → lookup id (run swarm inputs new w).1.listener_addresses
        ≡ entry (announced id inputs new w [])
  unfolding new lookup
  lookup-run id inputs w = lookup-announced id inputs new w [] refl
