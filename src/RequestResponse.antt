-- ===== src/RequestResponse.antt =====
-- src/behaviour/request_response.rs: requests to peers, whose answers go through one-shot channels,
-- and requests of peers, which go to every subscriber. A peer, a request and a channel are numbers.
pub mod Config
pub mod Pending
pub mod Once
pub mod Run
pub mod Codec
pub mod Registry
use connexa.Prelude.{
  ℕ, Bool, true, false, not, Option, none, some, List, [], ◌∷◌, ◌++◌, Result, ok, err,
  if◌then◌else◌, ltb, length, nat_eq,
}
use connexa.Dict.{Dict, lookup, insert, remove}

abbrev pub PeerId : Type 0
PeerId = ℕ

abbrev pub RequestId : Type 0
RequestId = ℕ

abbrev pub Bytes : Type 0
Bytes = List ℕ

-- What goes through a one-shot channel.
pub data Answer : Type 0 where
  answered : Bytes → Answer
  outbound_failed : ℕ → Answer

-- `ConnexaResult` of `send_response`
pub data ResponseError : Type 0 where
  not_found broken_pipe : ResponseError

-- What the behaviour calls of libp2p's request-response behaviour, of the channels of `futures` and of
-- `Delay`. A full or closed channel only makes a warning. `poll_timer` gives the timer that is left.
pub record Outside (W : Type 0) : Type 0 where
  pub send_request : PeerId → Bytes → W → RequestId × W
  pub send_response : ℕ → Bytes → W → Bool × W
  pub channel : ℕ → W → ℕ × W
  pub is_closed : ℕ → W → Bool
  pub try_send : ℕ → PeerId × RequestId × Bytes → W → W
  pub oneshot : W → ℕ × W
  pub complete : ℕ → Answer → W → W
  pub delay : ℕ → W → ℕ × W
  pub poll_timer : Option ℕ → W → Bool × Option ℕ × W

pub record Behaviour : Type 0 where
  pub pending_request : Dict PeerId (Dict RequestId ℕ)
  pub pending_response : Dict PeerId (Dict RequestId ℕ)
  pub broadcast_request : List ℕ
  pub gc_timer : Option ℕ
  pub channel_buffer : ℕ

-- The events of libp2p's request-response behaviour; `other_event` is any other `ToSwarm`.
pub data Event : Type 0 where
  response : RequestId → PeerId → Bytes → Event
  request : RequestId → PeerId → Bytes → ℕ → Event
  response_sent : PeerId → RequestId → Event
  outbound_failure : RequestId → PeerId → ℕ → Event
  inbound_failure : RequestId → PeerId → ℕ → Event
  other_event : Event

abbrev channel_limit : ℕ
channel_limit = 256

abbrev timeout : ℕ
timeout = 30

-- `entry(peer_id).or_default()`
abbrev pub list_of : PeerId → Dict PeerId (Dict RequestId ℕ) → Dict RequestId ℕ
list_of peer m = elim (lookup peer m) [ none ↦ [] | some list ↦ list ]

-- `entry(peer_id).or_default().insert(id, ch)`
unfoldable pub add_pending :
    PeerId → RequestId → ℕ → Dict PeerId (Dict RequestId ℕ) → Dict PeerId (Dict RequestId ℕ)
add_pending peer id ch m = insert peer (insert id ch (list_of peer m)) m

abbrev is_empty : {A : Type 0} → List A → Bool
is_empty [] = true
is_empty (a ∷ l) = false

-- A list that has become empty goes, with its peer.
abbrev put_list :
    PeerId → Dict RequestId ℕ → Dict PeerId (Dict RequestId ℕ) → Dict PeerId (Dict RequestId ℕ)
put_list peer list m = if is_empty list then remove peer m else insert peer list m

-- `Behaviour::new`, behind what it makes of libp2p
unfoldable pub new : ℕ → Behaviour
new channel_buffer = record {
  pending_request = [];
  pending_response = [];
  broadcast_request = [];
  gc_timer = none;
  channel_buffer = channel_buffer;
}

module _ {W : Type 0} (out : Outside W) where
  unfoldable pub subscribe : Behaviour → W → ℕ × Behaviour × W
  subscribe b w =
      let (tx, w') = out.channel b.channel_buffer w in
      (tx, record b { broadcast_request = b.broadcast_request ++ (tx ∷ []) }, w')

  -- One turn of the loop in `send_requests`: the request, its channel, and the state.
  unfoldable pub request_one : PeerId → Bytes → Behaviour → W → RequestId × ℕ × Behaviour × W
  unfolding add_pending
  request_one peer bytes b w =
      let (id, w1) = out.send_request peer bytes w in
      let (tx, w2) = out.oneshot w1 in
      (id, tx, record b { pending_response = add_pending peer id tx b.pending_response }, w2)

  -- `send_requests`: the channels on which the returned stream waits, by request.
  unfoldable pub send_requests :
      List PeerId
      → Bytes
      → Dict RequestId (PeerId × ℕ)
      → Behaviour
      → W
      → Dict RequestId (PeerId × ℕ) × Behaviour × W
  send_requests [] bytes oneshots b w = (oneshots, b, w)
  send_requests (peer ∷ peers) bytes oneshots b w =
      let (id, tx, b', w') = request_one peer bytes b w in
      send_requests peers bytes (insert id (peer, tx) oneshots) b' w'

  unfoldable pub send_request :
      PeerId → Bytes → Behaviour → W → Dict RequestId (PeerId × ℕ) × Behaviour × W
  send_request peer bytes b w = send_requests (peer ∷ []) bytes [] b w

  unfoldable pub send_response :
      PeerId → RequestId → Bytes → Behaviour → W → Result ResponseError (Unit {0}) × Behaviour × W
  send_response peer id bytes b w = elim (lookup peer b.pending_request) [
    | none ↦ (err not_found, b, w)
    | some list ↦ elim (lookup id list) [
      | none ↦ (err not_found, b, w)
      | some ch ↦
          let b' = record b { pending_request = insert peer (remove id list) b.pending_request } in
          let (sent, w') = out.send_response ch bytes w in
          (if sent then ok tt else err broken_pipe, b', w')
    ]
  ]

  -- `retain(|ch| !ch.is_closed())`
  unfoldable pub open_only : W → List ℕ → List ℕ
  open_only w [] = []
  open_only w (tx ∷ rest) =
      let kept = open_only w rest in if out.is_closed tx w then kept else tx ∷ kept

  -- The clean-up of the subscribers at a request.
  unfoldable pub clean_subscribers : Behaviour → W → Behaviour × W
  unfolding open_only
  clean_subscribers b w =
      if ltb channel_limit (length b.broadcast_request)
      then (elim b.gc_timer [
        | some timer ↦ (b, w)
        | none ↦ let (timer, w') = out.delay timeout w in (record b { gc_timer = some timer }, w')
      ])
      else (record b { gc_timer = none; broadcast_request = open_only w b.broadcast_request }, w)

  unfoldable pub broadcast : List ℕ → PeerId × RequestId × Bytes → W → W
  broadcast [] item w = w
  broadcast (tx ∷ rest) item w = broadcast rest item (out.try_send tx item w)

  unfoldable pub process_request : RequestId → PeerId → Bytes → ℕ → Behaviour → W → Behaviour × W
  unfolding clean_subscribers broadcast add_pending
  process_request id peer bytes ch b w =
      if is_empty b.broadcast_request
      then (b, w)
      else (let (b', w') = clean_subscribers b w in
          (
            record b' { pending_request = add_pending peer id ch b'.pending_request },
            broadcast b'.broadcast_request (peer, id, bytes) w',
          ))

  unfoldable pub process_response : RequestId → PeerId → Bytes → Behaviour → W → Behaviour × W
  process_response id peer bytes b w = elim (lookup peer b.pending_response) [
    | none ↦ (b, w)
    | some list ↦ elim (lookup id list) [
      | none ↦ (b, w)
      | some ch ↦ (
        record b { pending_response = put_list peer (remove id list) b.pending_response },
        out.complete ch (answered bytes) w,
      )
    ]
  ]

  unfoldable pub process_outbound_failure : RequestId → PeerId → ℕ → Behaviour → W → Behaviour × W
  process_outbound_failure id peer error b w = elim (lookup peer b.pending_response) [
    | none ↦ (b, w)
    | some list ↦ (
      record b { pending_response = put_list peer (remove id list) b.pending_response },
      elim (lookup id list) [ none ↦ w | some tx ↦ out.complete tx (outbound_failed error) w ],
    )
  ]

  unfoldable pub process_inbound_failure : RequestId → PeerId → Behaviour → Behaviour
  process_inbound_failure id peer b = elim (lookup peer b.pending_request) [
    | none ↦ b
    | some list ↦ record b { pending_request = put_list peer (remove id list) b.pending_request }
  ]

  -- The timer in `poll`
  unfoldable pub poll_gc : Behaviour → W → Behaviour × W
  unfolding open_only
  poll_gc b w =
      let (is_ready, timer, w1) = out.poll_timer b.gc_timer w in
      let kept = if is_ready then open_only w1 b.broadcast_request else b.broadcast_request in
      let b' = record b { gc_timer = timer; broadcast_request = kept } in
      if is_ready
      then (if ltb channel_limit (length kept)
          then (let (again, w2) = out.delay timeout w1 in (record b' { gc_timer = some again }, w2))
          else (b', w1))
      else (b', w1)

  -- The handler of one event in `poll`
  unfoldable pub on_event : Event → Behaviour → W → Behaviour × W
  unfolding process_request process_response process_outbound_failure process_inbound_failure
  on_event (response id peer bytes) b w = process_response id peer bytes b w
  on_event (request id peer bytes ch) b w = process_request id peer bytes ch b w
  on_event (response_sent peer id) b w = (b, w)
  on_event (outbound_failure id peer error) b w = process_outbound_failure id peer error b w
  on_event (inbound_failure id peer error) b w = (process_inbound_failure id peer b, w)
  on_event other_event b w = (b, w)

  -- The loop in `poll`, over what the inner behaviour gives until it is pending; whether an event goes
  -- on to the swarm.
  unfoldable pub poll_events : List Event → Behaviour → W → Bool × Behaviour × W
  unfolding on_event
  poll_events [] b w = (false, b, w)
  poll_events (other_event ∷ events) b w = (true, b, w)
  poll_events (event ∷ events) b w = let (b', w') = on_event event b w in poll_events events b' w'

  unfoldable pub poll : List Event → Behaviour → W → Bool × Behaviour × W
  unfolding poll_gc poll_events
  poll events b w = let (b', w') = poll_gc b w in poll_events events b' w'
