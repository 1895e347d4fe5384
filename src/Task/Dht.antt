-- ===== src/Task/Dht.antt =====
-- src/task/kad.rs: the commands for the distributed hash table. A key, a record and the data of a
-- record are numbers.
pub mod Events
use connexa.Prelude.{
  ℕ, Bool, true, false, ◌||◌, Option, none, some, List, [], ◌∷◌, ◌++◌, Result, ok, err, any,
  if◌then◌else◌, ◌==◌, nat_eq,
}
use connexa.Dict.{Dict, lookup, insert, remove}
use connexa.Task.{
  PeerId, Error, disabled, not_found, dht, routing, kademlia, record_entry, add_address,
  remove_address, remove_peer,
}

abbrev pub QueryId : Type 0
QueryId = ℕ

abbrev pub Key : Type 0
Key = ℕ

-- The value under a key
pub record Record : Type 0 where
  pub key : Key
  pub value : ℕ

-- `kad::RoutingUpdate`
pub data RoutingUpdate : Type 0 where
  success pending failed : RoutingUpdate

-- The channel for the answer comes last.
pub data DhtCommand : Type 0 where
  find_peer : PeerId → ℕ → DhtCommand
  bootstrap : Bool → ℕ → DhtCommand
  provide : Key → ℕ → DhtCommand
  stop_providing : Key → ℕ → DhtCommand
  get_providers : Key → ℕ → DhtCommand
  listener : Option Key → ℕ → DhtCommand
  set_dht_mode : Option ℕ → ℕ → DhtCommand
  dht_mode : ℕ → DhtCommand
  add_peer_address : PeerId → ℕ → ℕ → DhtCommand
  remove_peer_address : PeerId → ℕ → ℕ → DhtCommand
  forget_peer : PeerId → ℕ → DhtCommand
  get : Key → ℕ → DhtCommand
  put : Key → ℕ → ℕ → ℕ → DhtCommand
  put_to : Key → ℕ → List PeerId → ℕ → ℕ → DhtCommand
  remove_record : Key → ℕ → DhtCommand

-- What goes through the channel of a command; `receiver` is the end of a new channel.
pub data Answer : Type 0 where
  done : Result Error (Unit {0}) → Answer
  mode_is : Result Error ℕ → Answer
  found_peers : Result Error (List PeerId) → Answer
  receiver : Result Error ℕ → Answer

-- What goes through a channel of `get` or of `get_providers`.
pub data Item : Type 0 where
  found_record : Record → Item
  found_providers : List PeerId → Item
  query_failed : Error → Item

-- `types::DHTEvent` for a listener: the sender, the record and the channel to confirm it.
pub data DhtEvent : Type 0 where
  put_record : PeerId → Option Record → Option ℕ → DhtEvent
  provide_record : Option Record → Option ℕ → DhtEvent

-- `send`, `try_send` and `close_channel`
pub data Output : Type 0 where
  answer : ℕ → Answer → Output
  item : ℕ → Item → Output
  close : ℕ → Output
  notify : ℕ → DhtEvent → Output

-- What the task calls of libp2p's `kad::Behaviour`, which may be disabled, of its record store, and of
-- the channels of `futures`. A one-shot channel is one number for both ends.
pub record Kademlia (W : Type 0) : Type 0 where
  pub is_enabled : W → Bool
  pub get_closest_peers : PeerId → W → QueryId × W
  pub bootstrap : W → Result ℕ QueryId × W
  pub start_providing : Key → W → Result ℕ QueryId × W
  pub stop_providing : Key → W → W
  pub get_providers : Key → W → QueryId × W
  pub set_mode : Option ℕ → W → W
  pub mode : W → ℕ
  pub add_address : PeerId → ℕ → W → RoutingUpdate × W
  pub remove_address : PeerId → ℕ → W → Bool × W
  pub remove_peer : PeerId → W → Bool × W
  pub get_record : Key → W → QueryId × W
  pub put_record : Record → ℕ → W → Result ℕ QueryId × W
  pub put_record_to : Record → List PeerId → ℕ → W → QueryId × W
  pub records : W → List Record
  pub remove_record : Key → W → W
  pub store_put : Record → W → W
  pub store_add_provider : Record → W → W
  pub channel : ℕ → W → (ℕ × ℕ) × W
  pub oneshot : W → ℕ × W

-- The fields of `ConnexaTask` for the table.
pub record Tables : Type 0 where
  pub dht_event_sender : Dict Key (List ℕ)
  pub dht_event_global_sender : List ℕ
  pub dht_put_record_receiver : Dict Key (List ℕ)
  pub dht_put_record_global_receiver : List ℕ
  pub dht_provider_record_receiver : Dict Key (List ℕ)
  pub dht_provider_record_global_receiver : List ℕ
  pub pending_dht_put_record : Dict QueryId ℕ
  pub pending_dht_put_provider_record : Dict QueryId ℕ
  pub pending_dht_get_record : Dict QueryId ℕ
  pub pending_dht_get_provider_record : Dict QueryId ℕ
  pub pending_dht_find_closest_peer : Dict QueryId ℕ
  pub pending_dht_bootstrap : Dict QueryId ℕ

-- `entry(key).or_default()`, `get_mut_or_default(&key)`
abbrev pub list_of : Key → Dict Key (List ℕ) → List ℕ
list_of key m = elim (lookup key m) [ none ↦ [] | some list ↦ list ]

abbrev pub routing_result : RoutingUpdate → Result Error (Unit {0})
routing_result failed = err (routing add_address)
routing_result _ = ok tt

abbrev is_disabled : {A : Type 0} → Result Error A
is_disabled = err (disabled kademlia)

-- What a command is answered by a disabled behaviour.
abbrev pub refusal : DhtCommand → ℕ × Answer
refusal (find_peer peer resp) = (resp, found_peers is_disabled)
refusal (dht_mode resp) = (resp, mode_is is_disabled)
refusal (get_providers key resp) = (resp, receiver is_disabled)
refusal (listener key resp) = (resp, receiver is_disabled)
refusal (get key resp) = (resp, receiver is_disabled)
refusal (bootstrap lazy resp) = (resp, done is_disabled)
refusal (provide key resp) = (resp, done is_disabled)
refusal (stop_providing key resp) = (resp, done is_disabled)
refusal (set_dht_mode mode resp) = (resp, done is_disabled)
refusal (add_peer_address peer addr resp) = (resp, done is_disabled)
refusal (remove_peer_address peer addr resp) = (resp, done is_disabled)
refusal (forget_peer peer resp) = (resp, done is_disabled)
refusal (put key value quorum resp) = (resp, done is_disabled)
refusal (put_to key value target quorum resp) = (resp, done is_disabled)
refusal (remove_record key resp) = (resp, done is_disabled)

module _ {W : Type 0} (kad : Kademlia W) where
  -- `store.records().any(|r| r.key == key)`
  abbrev pub has_record : Key → W → Bool
  has_record key w = any (λ r. r.key == key) (kad.records w)

  abbrev pub process_get : Key → ℕ → Tables → W → List Output × Tables × W
  process_get key resp t w =
      let (id, w1) = kad.get_record key w in
      let ((tx, rx), w2) = kad.channel 64 w1 in
      (
        answer resp (receiver (ok rx)) ∷ [],
        record t { pending_dht_get_record = insert id tx t.pending_dht_get_record },
        w2,
      )

  abbrev pub process_put : Key → ℕ → ℕ → ℕ → Tables → W → List Output × Tables × W
  process_put key value quorum resp t w =
      let (result, w') = kad.put_record (record { key = key; value = value }) quorum w in
      elim result [
        | err e ↦ (answer resp (done (err (dht e))) ∷ [], t, w')
        | ok id ↦
            ([], record t { pending_dht_put_record = insert id resp t.pending_dht_put_record }, w')
      ]

  abbrev pub process_put_to : Key → ℕ → List PeerId → ℕ → ℕ → Tables → W → List Output × Tables × W
  process_put_to key value target quorum resp t w =
      let (id, w') = kad.put_record_to (record { key = key; value = value }) target quorum w in
      if has_record key w
      then ([], record t { pending_dht_put_record = insert id resp t.pending_dht_put_record }, w')
      else (answer resp (done (err (not_found record_entry))) ∷ [], t, w)

  abbrev pub process_remove : Key → ℕ → Tables → W → List Output × Tables × W
  process_remove key resp t w =
      if has_record key w
      then (answer resp (done (ok tt)) ∷ [], t, kad.remove_record key w)
      else (answer resp (done (err (not_found record_entry))) ∷ [], t, w)

  -- The commands once the behaviour is known to be enabled.
  unfoldable pub process_enabled : DhtCommand → Tables → W → List Output × Tables × W
  process_enabled (find_peer peer_id resp) t w =
      let (id, w') = kad.get_closest_peers peer_id w in
      (
        [],
        record t { pending_dht_find_closest_peer = insert id resp t.pending_dht_find_closest_peer },
        w',
      )
  process_enabled (bootstrap lazy resp) t w =
      let (result, w') = kad.bootstrap w in
      elim result [
        | err e ↦ (answer resp (done (err (dht e))) ∷ [], t, w')
        | ok id ↦ if lazy then (answer resp (done (ok tt)) ∷ [], t, w') else (
          [],
          record t { pending_dht_bootstrap = insert id resp t.pending_dht_bootstrap },
          w',
        )
      ]
  process_enabled (provide key resp) t w =
      let (result, w') = kad.start_providing key w in
      elim result [
        | err e ↦ (answer resp (done (err (dht e))) ∷ [], t, w')
        | ok id ↦ (
          [],
          record t {
            pending_dht_put_provider_record = insert id resp t.pending_dht_put_provider_record;
          },
          w',
        )
      ]
  process_enabled (stop_providing key resp) t w =
      (answer resp (done (ok tt)) ∷ [], t, kad.stop_providing key w)
  process_enabled (get_providers key resp) t w =
      let (id, w1) = kad.get_providers key w in
      let ((tx, rx), w2) = kad.channel 64 w1 in
      (
        answer resp (receiver (ok rx)) ∷ [],
        record t {
          pending_dht_get_provider_record = insert id tx t.pending_dht_get_provider_record;
        },
        w2,
      )
  process_enabled (listener (some key) resp) t w =
      let ((tx, rx), w') = kad.channel 64 w in
      (
        answer resp (receiver (ok rx)) ∷ [],
        record t {
          dht_event_sender =
              insert key (list_of key t.dht_event_sender ++ (tx ∷ [])) t.dht_event_sender;
        },
        w',
      )
  process_enabled (listener none resp) t w =
      let ((tx, rx), w') = kad.channel 64 w in
      (
        answer resp (receiver (ok rx)) ∷ [],
        record t { dht_event_global_sender = t.dht_event_global_sender ++ (tx ∷ []) },
        w',
      )
  process_enabled (set_dht_mode mode resp) t w =
      (answer resp (done (ok tt)) ∷ [], t, kad.set_mode mode w)
  process_enabled (dht_mode resp) t w = (answer resp (mode_is (ok (kad.mode w))) ∷ [], t, w)
  process_enabled (add_peer_address peer_id addr resp) t w =
      let (update, w') = kad.add_address peer_id addr w in
      (answer resp (done (routing_result update)) ∷ [], t, w')
  process_enabled (remove_peer_address peer_id addr resp) t w =
      let (removed, w') = kad.remove_address peer_id addr w in
      (answer resp (done (if removed then ok tt else err (routing remove_address))) ∷ [], t, w')
  process_enabled (forget_peer peer_id resp) t w =
      let (removed, w') = kad.remove_peer peer_id w in
      (answer resp (done (if removed then ok tt else err (routing remove_peer))) ∷ [], t, w')
  process_enabled (get key resp) t w = process_get key resp t w
  process_enabled (put key value quorum resp) t w = process_put key value quorum resp t w
  process_enabled (put_to key value target quorum resp) t w =
      process_put_to key value target quorum resp t w
  process_enabled (remove_record key resp) t w = process_remove key resp t w

  unfoldable pub process_kademlia_command : DhtCommand → Tables → W → List Output × Tables × W
  unfolding process_enabled
  process_kademlia_command command t w =
      let (resp, refused) = refusal command in
      if kad.is_enabled w then process_enabled command t w else (answer resp refused ∷ [], t, w)
