-- ===== src/PeerStore.antt =====
-- src/behaviour/peer_store/store/memory.rs, `MemoryStore`: the addresses of peers, with a timer that
-- drops an address some time after its last connection closed. A peer and a connection are numbers,
-- an address is any type with an equality test.
pub mod Addresses
pub mod Invariant
pub mod Expiry
pub mod Behaviour
use connexa.Prelude.{
  ℕ, ◌+◌, Bool, true, false, ◌&&◌, ◌||◌, not, Option, none, some, List, [], ◌∷◌, map, Result, ok,
  err, if◌then◌else◌, Eq, ◌==◌, nat_eq, pair_eq, any,
}
use connexa.Dict.{Dict, lookup, insert, remove, contains, add, drop_key}

abbrev pub PeerId : Type 0
PeerId = ℕ

abbrev pub ConnectionId : Type 0
ConnectionId = ℕ

pub data StoreError : Type 0 where
  already_exists peer_not_found address_not_found unsupported : StoreError

-- What the store calls of `pollable_map::FutureMap`, at the keys that it uses: `start` a timer that
-- fires at a time, `cancel` it, and take those that are due.
pub record Timers (A T : Type 0) : Type 0 where
  pub start : PeerId × A → ℕ → T → T
  pub cancel : PeerId × A → T → T
  pub take_due : ℕ → T → List (PeerId × A) × T

pub record MemoryStore (A T : Type 0) : Type 0 where
  pub peers : Dict PeerId (List A)
  pub connections : Dict (PeerId × ConnectionId) A
  pub persistent : List PeerId
  pub timer : T

-- The events of `FromSwarm` that the store reads.
pub data SwarmEvent (A : Type 0) : Type 0 where
  new_external_addr_of_peer : PeerId → A → SwarmEvent A
  connection_established : PeerId → ConnectionId → A → SwarmEvent A
  connection_closed : PeerId → ConnectionId → A → SwarmEvent A
  other_event : SwarmEvent A

-- 60 s
abbrev pub cleanup_delay : ℕ
cleanup_delay = 60

module _ {A : Type 0} ⦃e : Eq A⦄ where
  -- `peers.entry(peer_id).or_default()`
  unfoldable pub addresses_of : PeerId → Dict PeerId (List A) → List A
  addresses_of p peers = elim (lookup p peers) [ none ↦ [] | some list ↦ list ]

  -- `peers.entry(peer_id).or_default().insert(address)`
  pub add_address : PeerId → A → Dict PeerId (List A) → Dict PeerId (List A)
  unfolding addresses_of
  add_address p address peers = insert p (add address (addresses_of p peers)) peers

  -- Whether some connection of the peer uses the address.
  unfoldable pub is_connected : PeerId → A → Dict (PeerId × ConnectionId) A → Bool
  is_connected p a [] = false
  is_connected p a (((q, c), b) ∷ rest) = (q == p && b == a) || is_connected p a rest

module _ {A T : Type 0} ⦃e : Eq A⦄ where
  -- `FromIterator`, from the store so far
  unfoldable pub from_iter : List (PeerId × A) → MemoryStore A T → MemoryStore A T
  unfolding add_address
  from_iter [] s = s
  from_iter ((p, address) ∷ rest) s =
      from_iter rest
        (record s { persistent = add p s.persistent; peers = add_address p address s.peers })

  pub remove_peer : PeerId → MemoryStore A T → Result StoreError (List A) × MemoryStore A T
  remove_peer p s = elim (lookup p s.peers) [
    | some list ↦
        (ok list, record s { peers = remove p s.peers; persistent = drop_key p s.persistent })
    | none ↦ (err peer_not_found, s)
  ]

  -- What `remove_address` leaves when `list` has lost its address.
  pub put_back : PeerId → List A → MemoryStore A T → MemoryStore A T
  put_back p [] s = record s { peers = remove p s.peers; persistent = drop_key p s.persistent }
  put_back p (a ∷ list) s = record s { peers = insert p (a ∷ list) s.peers }

  -- `remove_address`, with what `get_mut` returns
  pub remove_from :
      PeerId
      → A
      → MemoryStore A T
      → Option (List A)
      → Result StoreError (Unit {0}) × MemoryStore A T
  unfolding put_back
  remove_from p address s none = (err peer_not_found, s)
  remove_from p address s (some list) =
      if contains address list
      then (ok tt, put_back p (drop_key address list) s)
      else (err address_not_found, s)

  pub remove_address : PeerId → A → MemoryStore A T → Result StoreError (Unit {0}) × MemoryStore A T
  unfolding remove_from
  remove_address p address s = remove_from p address s (lookup p s.peers)

  unfoldable pub address : PeerId → MemoryStore A T → Result StoreError (List A)
  address p s = elim (lookup p s.peers) [ none ↦ err peer_not_found | some list ↦ ok list ]

  unfoldable pub list_all : MemoryStore A T → List (PeerId × List A)
  list_all s = map (λ kv. (kv.0, kv.1)) s.peers

  unfoldable pub in_memory_address : PeerId → MemoryStore A T → List A
  unfolding addresses_of
  in_memory_address p s = addresses_of p s.peers

module _ {A T : Type 0} ⦃e : Eq A⦄ (timers : Timers A T) where
  -- `MemoryStore::insert`
  pub insert_address : PeerId → A → MemoryStore A T → Result StoreError (Unit {0}) × MemoryStore A T
  unfolding add_address addresses_of
  insert_address p address s =
      let s' = record s {
        persistent = add p s.persistent;
        timer = timers.cancel (p, address) s.timer;
        peers = add_address p address s.peers;
      } in
      if contains address (addresses_of p s.peers) then (err already_exists, s') else (ok tt, s')

  -- The capacity of the map of connections is not modelled.
  pub on_swarm_event : ℕ → SwarmEvent A → MemoryStore A T → MemoryStore A T
  unfolding add_address is_connected
  on_swarm_event now (new_external_addr_of_peer p addr) s = record s {
    peers = add_address p addr s.peers;
    persistent = add p s.persistent;
  }
  on_swarm_event now (connection_established p c remote_addr) s = record s {
    connections = insert (p, c) remote_addr s.connections;
    peers = add_address p remote_addr s.peers;
    timer = timers.cancel (p, remote_addr) s.timer;
  }
  on_swarm_event now (connection_closed p c remote_addr) s =
      let connections = remove (p, c) s.connections in
      let still_connected = is_connected p remote_addr connections in
      record s {
        connections = connections;
        timer =
            if not still_connected && not (contains p s.persistent)
            then timers.start (p, remote_addr) (now + cleanup_delay) s.timer
            else s.timer;
      }
  on_swarm_event now other_event s = s

  -- The loop of `poll` over the timers that are due; a failed removal is only logged.
  pub remove_due : List (PeerId × A) → MemoryStore A T → MemoryStore A T
  unfolding remove_address
  remove_due [] s = s
  remove_due ((p, addr) ∷ due) s = remove_due due (remove_address p addr s).1

  pub poll : ℕ → MemoryStore A T → MemoryStore A T
  unfolding remove_due
  poll now s =
      let (due, timer) = timers.take_due now s.timer in remove_due due (record s { timer = timer })
