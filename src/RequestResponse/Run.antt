-- ===== src/RequestResponse/Run.antt =====
-- The behaviour through any operations and events.
use connexa.RequestResponse.{
  Outside, PeerId, Behaviour, subscribe, Bytes, RequestId, send_requests, Event, send_response,
  poll, clean_subscribers, broadcast, response, outbound_failure, request, inbound_failure,
  response_sent, other_event, new, poll_gc, on_event, poll_events, process_request, open_only,
  answered, outbound_failed, is_empty,
}
use connexa.Prelude.{
  List, ℕ, ◌∷◌, Bool, ◌≡◌, [], arith, ◌∙◌, nat_eq, inl, inr, Bool-cases, refl, Option-cases, ltb,
  length,
}
use connexa.RequestResponse.Pending.{response_lem, failure_lem, request_pending, inbound_pending}
use connexa.RequestResponse.Once.{
  IsOneshot, IsOnce, Unused, sent-IsOnce, IsOnce-Unused, send_requests-IsOnce,
}
use connexa.Dict.{lookup}

pub data Op : Type 0 where
  subscribes : Op
  sends : List PeerId → Bytes → Op
  responds : PeerId → RequestId → Bytes → Op
  polls : List Event → Op

module _ {W : Type 0} (out : Outside W) where
  unfoldable pub step : Op → Behaviour → W → Behaviour × W
  step subscribes b w = let (tx, b', w') = subscribe out b w in (b', w')
  step (sends peers bytes) b w = let (st, b', w') = send_requests out peers bytes [] b w in (b', w')
  step (responds peer id bytes) b w =
      let (r, b', w') = send_response out peer id bytes b w in (b', w')
  step (polls events) b w = let (ready, b', w') = poll out events b w in (b', w')

  unfoldable pub run : List Op → Behaviour → W → Behaviour × W
  unfolding step
  run [] b w = (b, w)
  run (op ∷ ops) b w = let (b', w') = step op b w in run ops b' w'

module _ {W : Type 0} (out : Outside W) (issued : ℕ → W → Bool) (answers : ℕ → W → ℕ)
    (law : IsOneshot out issued answers) where
  broadcast-Unused :
      (senders : List ℕ) (item : PeerId × RequestId × Bytes) (w : W)
      → Unused out issued answers w (broadcast out senders item w)
  unfolding broadcast
  broadcast-Unused [] item w = (λ ch. refl, λ ch. refl)
  broadcast-Unused (tx ∷ rest) item w =
      let (a, b) = law.try_send_lem tx item w in
      let (c, d) = broadcast-Unused rest item (out.try_send tx item w) in
      (λ ch. c ch ∙ a ch, λ ch. d ch ∙ b ch)

  clean_subscribers-Unused :
      (b : Behaviour) (w : W) → Unused out issued answers w (clean_subscribers out b w).1
  unfolding clean_subscribers
  clean_subscribers-Unused b w = elim (Bool-cases (ltb 256 (length b.broadcast_request))) [
    | inl many ↦ elim (Option-cases b.gc_timer) [
      | inl no_timer ↦ rw (clean_subscribers, many, no_timer) (law.delay_lem 30 w)
      | inr (t, timer) ↦ rw (clean_subscribers, many, timer) (λ ch. refl, λ ch. refl)
    ]
    | inr few ↦ rw (clean_subscribers, few) (λ ch. refl, λ ch. refl)
  ]

  Unused-trans :
      {w w' w'' : W}
      → Unused out issued answers w w'
      → Unused out issued answers w' w''
      → Unused out issued answers w w''
  Unused-trans (a, b) (c, d) = (λ ch. c ch ∙ a ch, λ ch. d ch ∙ b ch)

  process_request-Unused :
      (i : RequestId) (p : PeerId) (bytes : Bytes) (ch : ℕ) (b : Behaviour) (w : W)
      → Unused out issued answers w (process_request out i p bytes ch b w).1
  unfolding process_request
  process_request-Unused i p bytes ch b w = elim (Bool-cases (is_empty b.broadcast_request)) [
    | inl nobody ↦ rw (process_request, nobody) (λ ch. refl, λ ch. refl)
    | inr somebody ↦
        let (b', w') = clean_subscribers out b w in
        rw (process_request, somebody)
          (Unused-trans (clean_subscribers-Unused b w) (
            broadcast-Unused (clean_subscribers out b w).0.broadcast_request (p, i, bytes)
              (clean_subscribers out b w).1))
  ]

  on_event-IsOnce :
      (e : Event) (b : Behaviour) (w : W)
      → IsOnce out issued answers b.pending_response w
      → IsOnce out issued answers (on_event out e b w).0.pending_response (on_event out e b w).1
  unfolding on_event
  on_event-IsOnce (response i p bytes) b w v =
      let (gone, told) = response_lem out i p bytes b w in
      rw told
        (sent-IsOnce out issued answers law p i (answered bytes) b.pending_response _ w gone v)
  on_event-IsOnce (outbound_failure i p error) b w v =
      let (gone, told) = failure_lem out i p error b w in
      rw told (
        sent-IsOnce out issued answers law p i (outbound_failed error) b.pending_response _ w gone
          v)
  on_event-IsOnce (request i p bytes ch) b w v =
      rw (request_pending out i p bytes ch b w)
        (IsOnce-Unused out issued answers v (process_request-Unused i p bytes ch b w))
  on_event-IsOnce (inbound_failure i p error) b w v = rw (inbound_pending out i p b) v
  on_event-IsOnce (response_sent p i) b w v = v
  on_event-IsOnce other_event b w v = v

  poll_events-IsOnce :
      (events : List Event) (b : Behaviour) (w : W)
      → IsOnce out issued answers b.pending_response w
      → IsOnce out issued answers
          (poll_events out events b w).1.pending_response
          (poll_events out events b w).2
  unfolding poll_events
  poll_events-IsOnce [] b w v = v
  poll_events-IsOnce (other_event ∷ events) b w v = v
  poll_events-IsOnce (response i p bytes ∷ events) b w v =
      poll_events-IsOnce events _ _ (on_event-IsOnce (response i p bytes) b w v)
  poll_events-IsOnce (outbound_failure i p error ∷ events) b w v =
      poll_events-IsOnce events _ _ (on_event-IsOnce (outbound_failure i p error) b w v)
  poll_events-IsOnce (request i p bytes ch ∷ events) b w v =
      poll_events-IsOnce events _ _ (on_event-IsOnce (request i p bytes ch) b w v)
  poll_events-IsOnce (inbound_failure i p error ∷ events) b w v =
      poll_events-IsOnce events _ _ (on_event-IsOnce (inbound_failure i p error) b w v)
  poll_events-IsOnce (response_sent p i ∷ events) b w v = poll_events-IsOnce events b w v

  poll_gc-IsOnce :
      (b : Behaviour) (w : W)
      → IsOnce out issued answers b.pending_response w
      → IsOnce out issued answers (poll_gc out b w).0.pending_response (poll_gc out b w).1
  unfolding poll_gc
  poll_gc-IsOnce b w v =
      let (is_ready, timer, w1) = out.poll_timer b.gc_timer w in
      let v1 = IsOnce-Unused out issued answers v (law.poll_timer_lem b.gc_timer w) in
      elim (Bool-cases (out.poll_timer b.gc_timer w).0) [
        | inl ready ↦ elim (Bool-cases (ltb 256 (length (open_only out w1 b.broadcast_request)))) [
          | inl many ↦
              rw (poll_gc, ready, many) (IsOnce-Unused out issued answers v1 (law.delay_lem 30 w1))
          | inr few ↦ rw (poll_gc, ready, few) v1
        ]
        | inr not_ready ↦ rw (poll_gc, not_ready) v1
      ]

  send_response_lem :
      (p : PeerId) (i : RequestId) (bytes : Bytes) (b : Behaviour) (w : W)
      → IsOnce out issued answers b.pending_response w
      → IsOnce out issued answers
          (send_response out p i bytes b w).1.pending_response
          (send_response out p i bytes b w).2
  unfolding send_response
  send_response_lem p i bytes b w v = elim (Option-cases (lookup p b.pending_request)) [
    | inl no_list ↦ rw (send_response, no_list) v
    | inr (list, there) ↦ elim (Option-cases (lookup i list)) [
      | inl missing ↦ rw (send_response, there, missing) v
      | inr (ch, found) ↦
          rw (send_response, there, found)
            (IsOnce-Unused out issued answers v (law.send_response_lem ch bytes w))
    ]
  ]

  step-IsOnce :
      (op : Op) (b : Behaviour) (w : W)
      → IsOnce out issued answers b.pending_response w
      → IsOnce out issued answers (step out op b w).0.pending_response (step out op b w).1
  unfolding step subscribe poll
  step-IsOnce subscribes b w v =
      IsOnce-Unused out issued answers v (law.channel_lem b.channel_buffer w)
  step-IsOnce (sends peers bytes) b w v =
      send_requests-IsOnce out issued answers law peers bytes [] b w v
  step-IsOnce (responds p i bytes) b w v = send_response_lem p i bytes b w v
  step-IsOnce (polls events) b w v = poll_events-IsOnce events _ _ (poll_gc-IsOnce b w v)

  run-IsOnce :
      (ops : List Op) (b : Behaviour) (w : W)
      → IsOnce out issued answers b.pending_response w
      → IsOnce out issued answers (run out ops b w).0.pending_response (run out ops b w).1
  unfolding run
  run-IsOnce [] b w v = v
  run-IsOnce (op ∷ ops) b w v = run-IsOnce ops _ _ (step-IsOnce op b w v)

  -- From a new behaviour, through any operations and events: no one-shot channel of a request has
  -- more than one answer, and none of a request that is still pending has any.
  pub run-new :
      (ops : List Op) (buffer : ℕ) (w : W)
      → ((ch : ℕ) → answers ch w ≡ 0)
      → IsOnce out issued answers
          (run out ops (new buffer) w).0.pending_response
          (run out ops (new buffer) w).1
  unfolding new lookup
  run-new ops buffer w none_yet = run-IsOnce ops (new buffer) w (record {
    made = λ p i ch h. cc h;
    own = λ p q i j ch h k. cc h;
    open_channel = λ p i ch h. none_yet ch;
    new_channel = λ ch h. none_yet ch;
    at_most_once = λ ch. ground (arith, none_yet ch);
  })
