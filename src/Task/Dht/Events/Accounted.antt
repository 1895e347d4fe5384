-- ===== src/Task/Dht/Events/Accounted.antt =====
-- The channels of the commands for the table: each is answered, waits for its query, or is lost to a
-- later query with the same identifier.
use connexa.Prelude.{
  ℕ, ◌+◌, ◌≡◌, refl, Bool, Option, none, some, List, arith, ok, err, if◌then◌else◌, nat_eq, ◌==◌,
  inl, inr, Bool-cases, Result-cases,
}
use connexa.Dict.{lookup}
use connexa.Dict.Values.{one_if, is_channel, times-insert, times-remove, insert-IsMap, remove-IsMap}
use connexa.Task.Dht.{
  Kademlia, Tables, Output, DhtCommand, find_peer, bootstrap, provide, stop_providing,
  get_providers, listener, set_dht_mode, dht_mode, add_peer_address, remove_peer_address,
  forget_peer, get, put, put_to, remove_record, refusal, process_enabled, has_record, process_put,
  process_put_to, process_remove,
}
use connexa.Task.Dht.Events.{
  QueryResult, bootstrap_step, closest_peers, providers_found, providers_finished, providers_failed,
  started_providing, record_found, record_finished, record_failed, record_put, republished,
  process_query,
}
use connexa.Task.Dht.Events.Channels.{told, waits, AreMaps, told-send, told-with_channel, no_answer}

module _ {W : Type 0} (kad : Kademlia W) where
  -- The channel that stood under the identifier of the query that a command starts.
  abbrev pub displaced : DhtCommand → Tables → W → Option ℕ
  displaced (find_peer peer resp) t w =
      lookup (kad.get_closest_peers peer w).0 t.pending_dht_find_closest_peer
  displaced (bootstrap lazy resp) t w = elim (kad.bootstrap w).0 [
    | err e ↦ none
    | ok id ↦ if lazy then none else lookup id t.pending_dht_bootstrap
  ]
  displaced (provide key resp) t w = elim (kad.start_providing key w).0 [
    | err e ↦ none
    | ok id ↦ lookup id t.pending_dht_put_provider_record
  ]
  displaced (put key value quorum resp) t w =
      elim (kad.put_record (record { key = key; value = value }) quorum w).0 [
        | err e ↦ none
        | ok id ↦ lookup id t.pending_dht_put_record
      ]
  displaced (put_to key value target quorum resp) t w =
      if has_record kad key w
      then lookup (kad.put_record_to (record { key = key; value = value }) target quorum w).0
          t.pending_dht_put_record
      else none
  displaced _ t w = none

  abbrev pub channel_of : DhtCommand → ℕ
  channel_of command = (refusal command).0

  -- A command of an enabled behaviour: no channel is forgotten, and the tables stay maps.
  abbrev pub Keeps : ℕ → DhtCommand → Tables → W → List Output × Tables × W → Type 0
  Keeps c command t w (out, t', w') =
      (waits c t' + told c out + is_channel c (displaced command t w)
        ≡ waits c t + one_if (channel_of command == c))
      × AreMaps t'

  pub enabled-Keeps :
      (c : ℕ) (command : DhtCommand) (t : Tables) (w : W)
      → AreMaps t
      → Keeps c command t w (process_enabled kad command t w)
  unfolding process_enabled
  enabled-Keeps c (find_peer peer resp) t w (x, y, z, v) =
      let id = (kad.get_closest_peers peer w).0 in
      (
        omega (arith, times-insert c id resp t.pending_dht_find_closest_peer),
        (x, y, insert-IsMap id resp _ z, v),
      )
  enabled-Keeps c (bootstrap lazy resp) t w (x, y, z, v) = elim (Result-cases (kad.bootstrap w).0) [
    | inl (id, starts) ↦ elim (Bool-cases lazy) [
      | inl at_once ↦ rw (process_enabled, displaced, starts, at_once) (omega arith, (x, y, z, v))
      | inr waiting ↦
          rw (process_enabled, displaced, starts, waiting)
            (
              omega (arith, times-insert c id resp t.pending_dht_bootstrap),
              (x, y, z, insert-IsMap id resp _ v),
            )
    ]
    | inr (e, fails) ↦ rw (process_enabled, displaced, fails) (omega arith, (x, y, z, v))
  ]
  enabled-Keeps c (provide key resp) t w (x, y, z, v) =
      elim (Result-cases (kad.start_providing key w).0) [
        | inl (id, starts) ↦
            rw (process_enabled, displaced, starts)
              (
                omega (arith, times-insert c id resp t.pending_dht_put_provider_record),
                (x, insert-IsMap id resp _ y, z, v),
              )
        | inr (e, fails) ↦ rw (process_enabled, displaced, fails) (omega arith, (x, y, z, v))
      ]
  enabled-Keeps c (put key value quorum resp) t w (x, y, z, v) =
      elim (Result-cases (kad.put_record (record { key = key; value = value }) quorum w).0) [
        | inl (id, starts) ↦
            rw (process_enabled, process_put, displaced, starts)
              (
                omega (arith, times-insert c id resp t.pending_dht_put_record),
                (insert-IsMap id resp _ x, y, z, v),
              )
        | inr (e, fails) ↦
            rw (process_enabled, process_put, displaced, fails) (omega arith, (x, y, z, v))
      ]
  enabled-Keeps c (put_to key value target quorum resp) t w (x, y, z, v) =
      let id = (kad.put_record_to (record { key = key; value = value }) target quorum w).0 in
      elim (Bool-cases (has_record kad key w)) [
        | inl stored ↦
            rw (process_enabled, process_put_to, displaced, stored)
              (
                omega (arith, times-insert c id resp t.pending_dht_put_record),
                (insert-IsMap id resp _ x, y, z, v),
              )
        | inr missing ↦
            rw (process_enabled, process_put_to, displaced, missing) (omega arith, (x, y, z, v))
      ]
  enabled-Keeps c (remove_record key resp) t w h = elim (Bool-cases (has_record kad key w)) [
    | inl stored ↦ rw (process_enabled, process_remove, stored) (omega arith, h)
    | inr missing ↦ rw (process_enabled, process_remove, missing) (omega arith, h)
  ]
  enabled-Keeps c (stop_providing key resp) t w h = (omega arith, h)
  enabled-Keeps c (get_providers key resp) t w h = (omega arith, h)
  enabled-Keeps c (listener (some key) resp) t w h = (omega arith, h)
  enabled-Keeps c (listener none resp) t w h = (omega arith, h)
  enabled-Keeps c (set_dht_mode mode resp) t w h = (omega arith, h)
  enabled-Keeps c (dht_mode resp) t w h = (omega arith, h)
  enabled-Keeps c (add_peer_address peer addr resp) t w h = (omega arith, h)
  enabled-Keeps c (remove_peer_address peer addr resp) t w h = (omega arith, h)
  enabled-Keeps c (forget_peer peer resp) t w h = (omega arith, h)
  enabled-Keeps c (get key resp) t w h = (omega arith, h)

pub query-Keeps :
    (c : ℕ) (id : ℕ) (result : QueryResult) (last : Bool) (t : Tables)
    → AreMaps t
    → let (out, t') = process_query id result last t in
      (waits c t' + told c out ≡ waits c t) × AreMaps t'
unfolding process_query
query-Keeps c id (bootstrap_step timed_out) last t (x, y, z, v) = elim (Bool-cases last) [
  | inl is_last ↦
      rw (process_query, is_last)
        (
          omega (
            arith,
            told-send c (lookup id t.pending_dht_bootstrap) _,
            times-remove c id t.pending_dht_bootstrap v,
          ),
          (x, y, z, remove-IsMap id _ v),
        )
  | inr more ↦ rw (process_query, more) (omega arith, (x, y, z, v))
]
query-Keeps c id (closest_peers result) last t (x, y, z, v) = (
  omega (
    arith,
    told-send c (lookup id t.pending_dht_find_closest_peer) _,
    times-remove c id t.pending_dht_find_closest_peer z,
  ),
  (x, y, remove-IsMap id _ z, v),
)
query-Keeps c id (started_providing result) last t (x, y, z, v) = (
  omega (
    arith,
    told-send c (lookup id t.pending_dht_put_provider_record) _,
    times-remove c id t.pending_dht_put_provider_record y,
  ),
  (x, remove-IsMap id _ y, z, v),
)
query-Keeps c id (record_put result) last t (x, y, z, v) = (
  omega (
    arith,
    told-send c (lookup id t.pending_dht_put_record) _,
    times-remove c id t.pending_dht_put_record x,
  ),
  (remove-IsMap id _ x, y, z, v),
)
query-Keeps c id (providers_found providers) last t h = (
  no_answer (told-with_channel c (lookup id t.pending_dht_get_provider_record) _ (λ ch. refl)),
  h,
)
query-Keeps c id providers_finished last t h = (
  no_answer (told-with_channel c (lookup id t.pending_dht_get_provider_record) _ (λ ch. refl)),
  h,
)
query-Keeps c id (providers_failed e) last t h = (
  no_answer (told-with_channel c (lookup id t.pending_dht_get_provider_record) _ (λ ch. refl)),
  h,
)
query-Keeps c id (record_found r) last t h =
    (no_answer (told-with_channel c (lookup id t.pending_dht_get_record) _ (λ ch. refl)), h)
query-Keeps c id record_finished last t h =
    (no_answer (told-with_channel c (lookup id t.pending_dht_get_record) _ (λ ch. refl)), h)
query-Keeps c id (record_failed e) last t h =
    (no_answer (told-with_channel c (lookup id t.pending_dht_get_record) _ (λ ch. refl)), h)
query-Keeps c id republished last t h = (omega arith, h)
