-- ===== src/PeerStore/Behaviour.antt =====
-- src/behaviour/peer_store.rs, with `trait Store` of src/behaviour/peer_store/store.rs and the empty
-- stores of
-- src/behaviour/peer_store/store/dummy.rs. What
-- a future of a store will yield is fixed when the store is called, as in these stores.
use connexa.Prelude.{ℕ, Option, none, some, List, [], Result, ok, err, Eq, nat_eq}
use connexa.PeerStore.{
  PeerId, StoreError, unsupported, MemoryStore, Timers, SwarmEvent, insert_address, remove_peer,
  remove_address, address, list_all, in_memory_address, on_swarm_event, poll,
}

-- `trait Store`; `on_swarm_event` and `poll` have the clock in front.
pub record Store (S A : Type 0) : Type 0 where
  pub insert : PeerId → A → S → Result StoreError (Unit {0}) × S
  pub remove : PeerId → S → Result StoreError (List A) × S
  pub remove_address : PeerId → A → S → Result StoreError (Unit {0}) × S
  pub address : PeerId → S → Result StoreError (List A)
  pub list_all : S → Result StoreError (List (PeerId × List A))
  pub in_memory_address : PeerId → S → List A
  pub on_swarm_event : ℕ → SwarmEvent A → S → S
  pub poll : ℕ → S → S

-- `impl Store for MemoryStore`
abbrev pub memory : {A T : Type 0} ⦃e : Eq A⦄ → Timers A T → Store (MemoryStore A T) A
memory timers = record {
  insert = insert_address timers;
  remove = remove_peer;
  remove_address = remove_address;
  address = address;
  list_all = λ s. ok (list_all s);
  in_memory_address = in_memory_address;
  on_swarm_event = on_swarm_event timers;
  poll = poll timers;
}

-- `impl Store for Dummy`, `impl Store for ()`
abbrev pub dummy : {A : Type 0} → Store (Unit {0}) A
dummy = record {
  insert = λ p a s. (err unsupported, s);
  remove = λ p s. (err unsupported, s);
  remove_address = λ p a s. (err unsupported, s);
  address = λ p s. err unsupported;
  list_all = λ s. err unsupported;
  in_memory_address = λ p s. [];
  on_swarm_event = λ now event s. s;
  poll = λ now s. s;
}

module _ {S A : Type 0} (store : Store S A) where
  -- The addresses for a dial.
  unfoldable pub handle_pending_outbound_connection : Option PeerId → S → List A
  handle_pending_outbound_connection none s = []
  handle_pending_outbound_connection (some peer_id) s = store.in_memory_address peer_id s
