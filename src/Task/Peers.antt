-- ===== src/Task/Peers.antt =====
-- The commands for the address store in src/task.rs, and `peerstore_ops`, the futures of the store that
-- have yet to be answered.
use connexa.Prelude.{ℕ, Option, none, some, List, [], ◌∷◌, ◌++◌, Result, ok, err, nat_eq}
use connexa.PeerStore.{PeerId, StoreError}
use connexa.PeerStore.Behaviour.{Store}
use connexa.Task.{Protocol, other_protocol, peerstore}

-- `Error::Disabled` and `Error::Io`
pub data PeerstoreError : Type 0 where
  disabled : Protocol → PeerstoreError
  io : StoreError → PeerstoreError

-- What goes through the channel of a command.
pub data Answer (A : Type 0) : Type 0 where
  done : Result PeerstoreError (Unit {0}) → Answer A
  addresses : Result PeerstoreError (List A) → Answer A
  all_addresses : Result PeerstoreError (List (PeerId × List A)) → Answer A

-- `types::PeerstoreCommand`; the channel for the answer comes last.
pub data PeerstoreCommand (A : Type 0) : Type 0 where
  add : PeerId → A → ℕ → PeerstoreCommand A
  remove_one : PeerId → A → ℕ → PeerstoreCommand A
  remove_all : PeerId → ℕ → PeerstoreCommand A
  list : PeerId → ℕ → PeerstoreCommand A
  list_everything : ℕ → PeerstoreCommand A

-- `map_err(Error::from)`
abbrev pub from_store : {B : Type 0} → Result StoreError B → Result PeerstoreError B
from_store (ok b) = ok b
from_store (err e) = err (io e)

module _ {S A : Type 0} (store : Store S A) where
  -- A command of an enabled store: what its future will send, and the store.
  unfoldable pub process_enabled : PeerstoreCommand A → S → (ℕ × Answer A) × S
  process_enabled (add peer_id addr resp) s =
      let (result, s') = store.insert peer_id addr s in ((resp, done (from_store result)), s')
  process_enabled (remove_one peer_id addr resp) s =
      let (result, s') = store.remove_address peer_id addr s in
      ((resp, done (from_store result)), s')
  process_enabled (remove_all peer_id resp) s =
      let (result, s') = store.remove peer_id s in ((resp, addresses (from_store result)), s')
  process_enabled (list peer_id resp) s =
      ((resp, addresses (from_store (store.address peer_id s))), s)
  process_enabled (list_everything resp) s =
      ((resp, all_addresses (from_store (store.list_all s))), s)

  abbrev pub is_disabled : {B : Type 0} → Result PeerstoreError B
  is_disabled = err (disabled (other_protocol peerstore))

  -- What a command is told when the store is disabled.
  abbrev pub refusal : PeerstoreCommand A → ℕ × Answer A
  refusal (add peer_id addr resp) = (resp, done is_disabled)
  refusal (remove_one peer_id addr resp) = (resp, done is_disabled)
  refusal (remove_all peer_id resp) = (resp, addresses is_disabled)
  refusal (list peer_id resp) = (resp, addresses is_disabled)
  refusal (list_everything resp) = (resp, all_addresses is_disabled)

  -- `Command::Peerstore`: what is sent at once, the store, and `peerstore_ops`.
  unfoldable pub process_peerstore_command :
      PeerstoreCommand A
      → Option S
      → List (ℕ × Answer A)
      → List (ℕ × Answer A) × Option S × List (ℕ × Answer A)
  unfolding process_enabled
  process_peerstore_command command none ops = (refusal command ∷ [], none, ops)
  process_peerstore_command command (some s) ops =
      let (op, s') = process_enabled command s in ([], some s', ops ++ (op ∷ []))

  -- The part of `poll` that waits for the operations, all of which are ready.
  unfoldable pub poll_peerstore_ops :
      List (ℕ × Answer A) → List (ℕ × Answer A) × List (ℕ × Answer A)
  poll_peerstore_ops ops = (ops, [])
