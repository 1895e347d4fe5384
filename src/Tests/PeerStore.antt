-- ===== src/Tests/PeerStore.antt =====
-- The address store and the address predicates on concrete inputs. The timers are a list of
-- deadlines.
use connexa.Prelude.{
  ℕ, ◌≡◌, ◌↔◌, err, refl, arith, Bool, true, false, not, ◌&&◌, ◌||◌, List, [], ◌∷◌, leb, list_eq,
  nat_eq, pair_eq, ◌==◌, Eq, if◌then◌else◌, some, none,
}
use connexa.Dict.{Dict, lookup, insert, remove, has, contains, lookup-insert, lookup-remove}
use connexa.PeerStore
use connexa.PeerStore.{
  MemoryStore, Timers, already_exists, insert_address, remove_address, on_swarm_event, poll,
  is_connected, new_external_addr_of_peer, connection_established, connection_closed,
}
use connexa.MultiaddrExt.{Protocol, ip4, p2p, p2p_circuit, is_relayed, relay_peer_id}
use connexa.MultiaddrExt.Laws.{relay_peer_id_lem}
use connexa.PeerStore.Addresses.{is_listed}
use connexa.PeerStore.Invariant.{AreTimers, IsConsistent}
use connexa.PeerStore.Expiry.{
  Operation, inserts, observes, polls, run, run-IsConsistent, poll_keeps_connected,
  poll-insert_address, poll-new_external_addr_of_peer,
}

module _ {K : Type 0} ⦃e : Eq K⦄ where
  abbrev due_keys : ℕ → Dict K ℕ → List K
  due_keys now [] = []
  due_keys now ((k, at) ∷ t) = if leb at now then k ∷ due_keys now t else due_keys now t

  abbrev without : List K → Dict K ℕ → Dict K ℕ
  without due [] = []
  without due ((k, at) ∷ t) = if contains k due then without due t else (k, at) ∷ without due t

  has-without :
      (j : K) (due : List K) (t : Dict K ℕ)
      → has j (without due t) ≡ (has j t && not (contains j due))
  unfolding lookup
  has-without j due [] = refl
  has-without j due ((k, at) ∷ t) = ground (arith, e.beq_iff k j, has-without j due t)

  due_has : (j : K) (now : ℕ) (t : Dict K ℕ) → contains j (due_keys now t) ≡ true → has j t ≡ true
  unfolding lookup contains
  due_has j now [] h = absurd (ground arith)
  due_has j now ((k, at) ∷ t) h = ground (arith, e.beq_iff k j, due_has j now t)

  has-insert : (k j : K) (at : ℕ) (t : Dict K ℕ) → has j (insert k at t) ≡ (k == j || has j t)
  has-insert k j at t = ground (arith, lookup-insert k j at t)

  has-remove : (k j : K) (t : Dict K ℕ) → has j (remove k t) ≡ (not (k == j) && has j t)
  has-remove k j t = ground (arith, lookup-remove k j t)

abbrev Deadlines : Type 0
Deadlines = Dict (ℕ × ℕ) ℕ

abbrev deadlines : Timers ℕ Deadlines
deadlines = record {
  start = insert;
  cancel = remove;
  take_due = λ now t. (due_keys now t, without (due_keys now t) t);
}

abbrev is_pending : ℕ × ℕ → Deadlines → Bool
is_pending k t = has k t

deadlines-AreTimers : AreTimers deadlines is_pending
deadlines-AreTimers = record {
  pending-start = has-insert;
  pending-cancel = has-remove;
  pending-take_due = λ j now t. has-without j (due_keys now t) t;
  due_pending = due_has;
}

-- Peer 1 is connected at the address 5; the last connection of peer 2 at 6 has closed.
abbrev store : MemoryStore ℕ Deadlines
store = record {
  peers = (1, 5 ∷ []) ∷ (2, 6 ∷ []) ∷ [];
  connections = ((1, 10), 5) ∷ [];
  persistent = [];
  timer = ((2, 6), 60) ∷ [];
}

store-IsConsistent : IsConsistent is_pending store
unfolding lookup is_connected
store-IsConsistent = record { nonempty = λ p h. ground arith; live = λ p a h. ground arith }

abbrev busy : List (Operation ℕ)
busy =
    observes 30 (connection_closed 1 10 5)
    ∷ inserts 2 6
    ∷ polls 100
    ∷ observes 120 (connection_established 3 11 7)
    ∷ []

run-IsConsistent_example :
    IsConsistent is_pending (run deadlines is_pending deadlines-AreTimers busy store)
run-IsConsistent_example =
    run-IsConsistent deadlines is_pending deadlines-AreTimers busy store store-IsConsistent

poll_keeps_connected_example : is_listed 1 5 (poll deadlines 1000 store) ≡ true
unfolding lookup is_connected contains PeerStore.addresses_of
poll_keeps_connected_example =
    poll_keeps_connected deadlines is_pending deadlines-AreTimers 1000 1 5 store store-IsConsistent
      refl refl

poll-insert_address_example :
    (is_listed 2 6 (poll deadlines 1000 (insert_address deadlines 2 6 store).1) ≡ true)
    × (((insert_address deadlines 2 6 store).0 ≡ err already_exists) ↔ (is_listed 2 6 store ≡ true))
poll-insert_address_example =
    poll-insert_address deadlines is_pending deadlines-AreTimers 1000 2 6 store

abbrev reported : MemoryStore ℕ Deadlines
reported = on_swarm_event deadlines 50 (new_external_addr_of_peer 2 6) store

poll-new_external_addr_of_peer_example :
    (is_listed 2 6 reported ≡ true)
    × (is_listed 2 6 (poll deadlines 60 reported) ≡ false)
    × (contains 2 reported.persistent ≡ true)
unfolding contains
poll-new_external_addr_of_peer_example =
    poll-new_external_addr_of_peer deadlines is_pending deadlines-AreTimers 50 60 2 6 store refl

abbrev link_local : ℕ
link_local = 0xfe80

abbrev host : Protocol
host = ip4 10 0 0 1

-- The relay 3 at 10.0.0.1, then the circuit to the peer 4.
relay_peer_id_lem_example :
    (relay_peer_id (host ∷ p2p 3 ∷ p2p_circuit ∷ p2p 4 ∷ []) ≡ some 3)
    × (relay_peer_id (p2p_circuit ∷ p2p 4 ∷ []) ≡ none)
    × (relay_peer_id (host ∷ []) ≡ none)
unfolding is_relayed
relay_peer_id_lem_example = relay_peer_id_lem (host ∷ []) [] (p2p 4 ∷ []) 3 refl tt
