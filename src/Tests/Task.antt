-- ===== src/Tests/Task.antt =====
-- Runs of the task on small swarms.
use connexa.Prelude.{
  ℕ, suc, ◌≡◌, refl, true, Option, none, some, List, [], ◌∷◌, ◌++◌, Result, ok, err, if◌then◌else◌,
  ltb, nat_eq, pair_eq, ◌+◌, false,
}
use connexa.Dict.{lookup, insert, remove}
use connexa.Task.{PeerId, Error}
use connexa.Task.Queues.{ask, finish}
use connexa.Task.Queues.Fifo.{answered, waiting}
use connexa.Task.Queues.Run.{Op, asks, finishes, run, answered-run}
use connexa.Task.Rendezvous.{option_eq, Client, Namespace, start_rendezvous_registration, Pending}
use connexa.Task.Swarm.{
  Tables as SwarmTables, Swarm, new, disconnect, to_peer, listen_on, answer, done,
  process_swarm_command,
}
use connexa.Task.Swarm.Events.{
  on_closed, on_new_listen_addr, on_expired_listen_addr, process_swarm_event,
}
use connexa.Task.Swarm.Channels.{told, waits}
use connexa.Task.Swarm.Run.{Input, command, event, run as swarm_run, asked, lost, told-run}
use connexa.Task.Swarm.Listeners.{lookup-run}
use connexa.Task.Dht.{Kademlia, Tables, Record, find_peer, put, success, list_of}
use connexa.Task.Dht.Events.{on_query, closest_peers, on_put_record, process_kademlia_event}
use connexa.Task.Dht.Events.Channels.{told as told_by_table, waits as waits_for_query}
use connexa.Task.Dht.Events.Run.{
  Input as TableInput, command as table_command, event as table_event, run as table_run,
  asked as asked_of_table, lost as lost_by_table, told-run_table,
}
use connexa.Task.Dht.Events.Offers.{notified, offered, requests, offered-put_record}
use connexa.Task.Closing.{process_event, nothing_waits}
use connexa.Task.Queues.Served.{ask-run}

-- A node that takes every registration but those for namespace 9, and counts them.
abbrev client : Client ℕ
client = record {
  is_enabled = λ w. true;
  register = λ namespace peer ttl w. if ltb 8 namespace then (err 4, w) else (ok tt, suc w);
  unregister = λ namespace peer w. w;
  discover = λ namespace cookie ttl peer w. suc w;
  namespace = λ cookie. some cookie;
}

abbrev registering : PeerId × Namespace → Option ℕ → ℕ → Result Error (Unit {0}) × ℕ
registering = start_rendezvous_registration client

-- Two registrations for one namespace, of which the first is answered.
abbrev two_asked : List (Op Namespace (Option ℕ) (Unit {0}))
two_asked = asks (1, 2) none 10 ∷ asks (1, 2) none 11 ∷ finishes (1, 2) (ok tt) ∷ []

two_answered : (run registering two_asked [] 0).0 ≡ ((1, 2), 10, ok tt) ∷ []
unfolding run ask finish lookup insert start_rendezvous_registration
two_answered = refl

answered-run_example :
    let (sent, m, w) = run registering two_asked [] 0 in
    answered (1, 2) sent ++ waiting (1, 2) m ≡ 10 ∷ 11 ∷ []
unfolding lookup
answered-run_example = answered-run registering (1, 2) two_asked [] 0

nothing_for_five : waiting (1, 5) (run registering two_asked [] 0).1 ≡ []
unfolding run ask finish lookup insert remove start_rendezvous_registration
nothing_for_five = refl

-- A swarm that accepts everything and numbers its listeners; no channel of a listener is closed.
abbrev swarm : Swarm ℕ
swarm = record {
  dial = λ opt w. (none, w);
  is_connected = λ peer w. true;
  disconnect_peer_id = λ peer w. (true, w);
  close_connection = λ id w. (true, w);
  connected_peers = λ w. [];
  listen_on = λ address w. (ok w, suc w);
  remove_listener = λ id w. (true, w);
  add_external_address = λ address w. w;
  remove_external_address = λ address w. w;
  external_addresses = λ w. [];
  listeners = λ w. [];
  add_peer_address = λ peer address w. w;
  channel = λ size w. ((suc w, suc w), suc w);
  is_closed = λ ch w. false;
}

-- Two commands disconnect one peer before its connection closes: only the second is answered.
abbrev two_disconnects : List (Input ℕ)
two_disconnects =
    command (disconnect (to_peer 1) 20)
    ∷ command (disconnect (to_peer 1) 21)
    ∷ event (on_closed 1 5 0 0 none) 0
    ∷ []

second_answered : (swarm_run swarm two_disconnects new 0).0 ≡ answer 21 (done (ok tt)) ∷ []
unfolding swarm_run process_swarm_command process_swarm_event lookup new insert
second_answered = refl

told-run_example :
    let (out, t, w) = swarm_run swarm two_disconnects new 0 in
    waits 20 t + told 20 out + lost swarm 20 two_disconnects new 0 ≡ asked swarm 20 two_disconnects
told-run_example = told-run swarm 20 two_disconnects 0

-- A listener with two addresses, one of which expires.
abbrev listening_twice : List (Input ℕ)
listening_twice =
    command (listen_on 7 30)
    ∷ event (on_new_listen_addr 0 7) 1
    ∷ event (on_new_listen_addr 0 8) 1
    ∷ event (on_expired_listen_addr 0 7) 1
    ∷ []

lookup-run_example :
    lookup 0 (swarm_run swarm listening_twice new 0).1.listener_addresses ≡ some (8 ∷ [])
unfolding process_swarm_command process_swarm_event
lookup-run_example = lookup-run swarm 0 listening_twice 0

-- A table that is enabled and numbers its queries and channels.
abbrev table : Kademlia ℕ
table = record {
  is_enabled = λ w. true;
  get_closest_peers = λ peer w. (w, suc w);
  bootstrap = λ w. (ok w, suc w);
  start_providing = λ key w. (ok w, suc w);
  stop_providing = λ key w. w;
  get_providers = λ key w. (w, suc w);
  set_mode = λ mode w. w;
  mode = λ w. 0;
  add_address = λ peer address w. (success, w);
  remove_address = λ peer address w. (true, w);
  remove_peer = λ peer w. (true, w);
  get_record = λ key w. (w, suc w);
  put_record = λ r quorum w. (ok w, suc w);
  put_record_to = λ r target quorum w. (w, suc w);
  records = λ w. [];
  remove_record = λ key w. w;
  store_put = λ r w. w;
  store_add_provider = λ r w. w;
  channel = λ size w. ((suc w, suc w), suc w);
  oneshot = λ w. (suc w, suc w);
}

abbrev empty : Tables
empty = record {
  dht_event_sender = [];
  dht_event_global_sender = 50 ∷ [];
  dht_put_record_receiver = [];
  dht_put_record_global_receiver = [];
  dht_provider_record_receiver = [];
  dht_provider_record_global_receiver = [];
  pending_dht_put_record = [];
  pending_dht_put_provider_record = [];
  pending_dht_get_record = [];
  pending_dht_get_provider_record = [];
  pending_dht_find_closest_peer = [];
  pending_dht_bootstrap = [];
}

abbrev find_and_put : List (TableInput ℕ)
find_and_put =
    table_command (find_peer 3 40)
    ∷ table_command (put 5 6 1 41)
    ∷ table_event (on_query 0 (closest_peers (ok (3 ∷ []))) true) 2
    ∷ []

told-run_table_example :
    let (out, t, w) = table_run table find_and_put empty 0 in
    waits_for_query 41 t + told_by_table 41 out + lost_by_table table 41 find_and_put empty 0
    ≡ waits_for_query 41 empty + asked_of_table table 41 find_and_put
told-run_table_example = told-run_table table 41 find_and_put empty 0 (tt, tt, tt, tt)

abbrev small_record : Record
small_record = record { key = 5; value = 6 }

offered-put_record_example :
    let (out, t', w') =
      process_kademlia_event table (on_put_record 3 (some small_record)) empty 0 in
    (notified out ≡ (50 ∷ []) ++ list_of 5 [])
    × ((global keyed : List ℕ) × (out
          ≡ requests 3 small_record (50 ∷ []) global
            ++ requests 3 small_record (list_of 5 []) keyed)
        × (offered out ≡ global ++ keyed)
        × (t'.dht_put_record_global_receiver ≡ global)
        × (list_of 5 t'.dht_put_record_receiver ≡ list_of 5 [] ++ keyed))
offered-put_record_example = offered-put_record table 3 small_record empty 0

abbrev waiting_for_one : Pending
waiting_for_one = record {
  pending_register = ((1, 2), (none, 60) ∷ []) ∷ [];
  pending_discover = [];
}

abbrev closing_one : SwarmTables
closing_one = record new { pending_disconnection_by_peer_id = (1, 61) ∷ [] }

nothing_waits_example :
    let (out, sent, t, p) =
      process_event swarm (on_closed 1 5 0 0 none) closing_one waiting_for_one 0 in
    (lookup 5 t.pending_disconnection_by_connection_id ≡ none)
    × (lookup 1 t.pending_disconnection_by_peer_id ≡ none)
    × ((namespace : Namespace) → waiting (1, namespace) p.pending_register ≡ [])
    × ((namespace : Option Namespace) → waiting (1, namespace) p.pending_discover ≡ [])
nothing_waits_example = nothing_waits swarm 1 5 0 none closing_one waiting_for_one 0

ask-run_example :
    let (sent, m, w) = run registering two_asked [] 0 in
    ask {V = Unit {0}} registering (1, 5) none 12 m w ≡ elim (registering (1, 5) none w).0 [
      | err error ↦ (((1, 5), 12, err error) ∷ [], m, (registering (1, 5) none w).1)
      | ok _ ↦ ([], insert (1, 5) ((none, 12) ∷ []) m, (registering (1, 5) none w).1)
    ]
ask-run_example = ask-run registering two_asked (1, 5) none 12 0 nothing_for_five
