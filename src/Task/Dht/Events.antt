-- ===== src/Task/Dht/Events.antt =====
-- `process_kademlia_event` of src/task/kad.rs, and what src/task.rs does with records that a listener
-- has confirmed.
pub mod Offers
pub mod Channels
pub mod Accounted
pub mod Run
use connexa.Prelude.{
  ℕ, Bool, true, false, Option, none, some, List, [], ◌∷◌, ◌++◌, Result, ok, err, if◌then◌else◌,
  nat_eq,
}
use connexa.Dict.{Dict, lookup, insert, remove}
use connexa.Task.{PeerId, Error, dht, timeout}
use connexa.Task.Dht.{
  Kademlia, Tables, Record, Key, QueryId, Output, answer, item, close, notify, done, found_peers,
  found_record, found_providers, query_failed, Answer, DhtEvent, put_record, provide_record,
  list_of,
}

-- `kad::QueryResult`; a number is an error.
pub data QueryResult : Type 0 where
  bootstrap_step : Bool → QueryResult
  closest_peers : Result ℕ (List PeerId) → QueryResult
  providers_found : List PeerId → QueryResult
  providers_finished : QueryResult
  providers_failed : ℕ → QueryResult
  started_providing : Result ℕ (Unit {0}) → QueryResult
  record_found : Record → QueryResult
  record_finished : QueryResult
  record_failed : ℕ → QueryResult
  record_put : Result ℕ (Unit {0}) → QueryResult
  republished : QueryResult

-- `kad::Event`; a query result comes with whether it is the last. `on_other` is only logged.
pub data KademliaEvent : Type 0 where
  on_add_provider : Option Record → KademliaEvent
  on_put_record : PeerId → Option Record → KademliaEvent
  on_query : QueryId → QueryResult → Bool → KademliaEvent
  on_other : KademliaEvent

abbrev pub send : Option ℕ → Answer → List Output
send none a = []
send (some ch) a = answer ch a ∷ []

abbrev pub result_of : Result ℕ (Unit {0}) → Result Error (Unit {0})
result_of (ok u) = ok u
result_of (err e) = err (dht e)

-- `if let Some(ch) = …`
abbrev pub with_channel : Option ℕ → (ℕ → List Output) → List Output
with_channel none f = []
with_channel (some ch) f = f ch

-- The loop over listeners without a record to confirm.
unfoldable pub notify_all : List ℕ → DhtEvent → List Output
notify_all [] event = []
notify_all (ch ∷ listeners) event = notify ch event ∷ notify_all listeners event

-- The receivers of a key exist from the first one on.
abbrev pub add_receivers : Key → List ℕ → Dict Key (List ℕ) → Dict Key (List ℕ)
add_receivers key [] m = m
add_receivers key (rx ∷ rxs) m = insert key (list_of key m ++ (rx ∷ rxs)) m

-- The results of queries.
unfoldable pub process_query : QueryId → QueryResult → Bool → Tables → List Output × Tables
process_query id (bootstrap_step timed_out) last t =
    let result = if timed_out then err timeout else ok tt in
    if last
    then (
      send (lookup id t.pending_dht_bootstrap) (done result),
      record t { pending_dht_bootstrap = remove id t.pending_dht_bootstrap },
    )
    else ([], t)
process_query id (closest_peers result) last t = (
  send (lookup id t.pending_dht_find_closest_peer)
      (found_peers (elim result [ ok peers ↦ ok peers | err e ↦ err timeout ])),
  record t { pending_dht_find_closest_peer = remove id t.pending_dht_find_closest_peer },
)
process_query id (providers_found providers) last t = (
  with_channel (lookup id t.pending_dht_get_provider_record)
      (λ ch. item ch (found_providers providers) ∷ []),
  t,
)
process_query id providers_finished last t = (
  with_channel (lookup id t.pending_dht_get_provider_record) (λ ch. close ch ∷ []),
  record t { pending_dht_get_provider_record = remove id t.pending_dht_get_provider_record },
)
process_query id (providers_failed e) last t = (
  with_channel (lookup id t.pending_dht_get_provider_record)
      (λ ch. item ch (query_failed (dht e)) ∷ close ch ∷ []),
  record t { pending_dht_get_provider_record = remove id t.pending_dht_get_provider_record },
)
process_query id (started_providing result) last t = (
  send (lookup id t.pending_dht_put_provider_record) (done (result_of result)),
  record t { pending_dht_put_provider_record = remove id t.pending_dht_put_provider_record },
)
process_query id (record_found r) last t =
    (with_channel (lookup id t.pending_dht_get_record) (λ ch. item ch (found_record r) ∷ []), t)
process_query id record_finished last t = (
  with_channel (lookup id t.pending_dht_get_record) (λ ch. close ch ∷ []),
  record t { pending_dht_get_record = remove id t.pending_dht_get_record },
)
process_query id (record_failed e) last t = (
  with_channel (lookup id t.pending_dht_get_record)
      (λ ch. item ch (query_failed (dht e)) ∷ close ch ∷ []),
  record t { pending_dht_get_record = remove id t.pending_dht_get_record },
)
process_query id (record_put result) last t = (
  send (lookup id t.pending_dht_put_record) (done (result_of result)),
  record t { pending_dht_put_record = remove id t.pending_dht_put_record },
)
process_query id republished last t = ([], t)

module _ {W : Type 0} (kad : Kademlia W) where
  -- The loop over listeners with a confirmation for each: what is sent, and the confirmations.
  unfoldable pub offer_all : List ℕ → (Option ℕ → DhtEvent) → W → List Output × List ℕ × W
  offer_all [] event w = ([], [], w)
  offer_all (ch ∷ listeners) event w =
      let (confirm, w1) = kad.oneshot w in
      let (out, confirms, w2) = offer_all listeners event w1 in
      (notify ch (event (some confirm)) ∷ out, confirm ∷ confirms, w2)

  -- `InboundRequest::AddProvider`
  unfoldable pub process_add_provider : Option Record → Tables → W → List Output × Tables × W
  unfolding notify_all offer_all
  process_add_provider none t w =
      (notify_all t.dht_event_global_sender (provide_record none none), t, w)
  process_add_provider (some r) t w =
      let (out, confirms, w1) = offer_all t.dht_event_global_sender (provide_record (some r)) w in
      let (more, keyed, w2) =
        offer_all (list_of r.key t.dht_event_sender) (provide_record (some r)) w1 in
      (
        out ++ more,
        record t {
          dht_provider_record_global_receiver = t.dht_provider_record_global_receiver ++ confirms;
          dht_provider_record_receiver = add_receivers r.key keyed t.dht_provider_record_receiver;
        },
        w2,
      )

  -- `InboundRequest::PutRecord`
  unfoldable pub process_put_record : PeerId → Option Record → Tables → W → List Output × Tables × W
  unfolding notify_all offer_all
  process_put_record source none t w =
      (notify_all t.dht_event_global_sender (put_record source none none), t, w)
  process_put_record source (some r) t w =
      let (out, confirms, w1) =
        offer_all t.dht_event_global_sender (put_record source (some r)) w in
      let (more, keyed, w2) =
        offer_all (list_of r.key t.dht_event_sender) (put_record source (some r)) w1 in
      (
        out ++ more,
        record t {
          dht_put_record_global_receiver = t.dht_put_record_global_receiver ++ confirms;
          dht_put_record_receiver = add_receivers r.key keyed t.dht_put_record_receiver;
        },
        w2,
      )

  unfoldable pub process_kademlia_event : KademliaEvent → Tables → W → List Output × Tables × W
  unfolding process_query process_put_record process_add_provider
  process_kademlia_event (on_add_provider r) t w = process_add_provider r t w
  process_kademlia_event (on_put_record source r) t w = process_put_record source r t w
  process_kademlia_event (on_query id result last) t w =
      let (out, t') = process_query id result last t in (out, t', w)
  process_kademlia_event on_other t w = ([], t, w)

  -- `poll` over the confirmations that are ready: a record that was accepted is stored, one whose
  -- confirmation was dropped is not.
  unfoldable pub store_confirmed : List (Option Record) → W → W
  store_confirmed [] w = w
  store_confirmed (none ∷ results) w = store_confirmed results w
  store_confirmed (some r ∷ results) w = store_confirmed results (kad.store_put r w)

  unfoldable pub store_confirmed_providers : List (Option Record) → W → W
  store_confirmed_providers [] w = w
  store_confirmed_providers (none ∷ results) w = store_confirmed_providers results w
  store_confirmed_providers (some r ∷ results) w =
      store_confirmed_providers results (kad.store_add_provider r w)
