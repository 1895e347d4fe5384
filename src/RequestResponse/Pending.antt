-- ===== src/RequestResponse/Pending.antt =====
-- The pending requests as one map, by peer and request.
use connexa.RequestResponse.{
  add_pending, Event, PeerId, RequestId, Answer, response, list_of, answered, outbound_failure,
  outbound_failed, Outside, process_response, Bytes, Behaviour, request, response_sent,
  inbound_failure, other_event, process_inbound_failure, process_request, on_event,
  process_outbound_failure, put_list,
}
use connexa.Dict.{lookup, Dict, remove, lookup-insert, lookup-remove, insert}
use connexa.Prelude.{
  Option, ℕ, ◌≡◌, if◌then◌else◌, some, ◌==◌, ◌&&◌, Bool-cases, inl, none, ◌∙◌, inr, ap, [],
  nat_beq_iff, ◌∷◌, sym, nat_eq, refl, ap₂, Option-cases, Bool, true, arith, false,
}

abbrev pub pending : PeerId → RequestId → Dict PeerId (Dict RequestId ℕ) → Option ℕ
pending peer id m = lookup id (list_of peer m)

-- The answer that an event carries, if any, with its peer and its request.
unfoldable pub answer_of : Event → Option (PeerId × RequestId × Answer)
answer_of (response id peer bytes) = some (peer, id, answered bytes)
answer_of (outbound_failure id peer error) = some (peer, id, outbound_failed error)
answer_of _ = none

-- What a peer's list holds, where there is one.
abbrev held : RequestId → Option (Dict RequestId ℕ) → Option ℕ
held id o = lookup id (elim o [ none ↦ [] | some list ↦ list ])

pub pending-add_pending :
    (p q : PeerId) (i j : RequestId) (ch : ℕ) (m : Dict PeerId (Dict RequestId ℕ))
    → pending q j (add_pending p i ch m) ≡ (if p == q && i == j then some ch else pending q j m)
unfolding add_pending
pending-add_pending p q i j ch m =
    ap (held j) (lookup-insert p q (insert i ch (list_of p m)) m) ∙ elim (Bool-cases (p == q)) [
      | inl same ↦ rw same (
          lookup-insert i j ch (list_of p m)
          ∙ ap (λ x. if i == j then some ch else pending x j m) ((nat_beq_iff p q).0 same))
      | inr other ↦ rw other refl
    ]

lookup-put_list :
    (p q : PeerId) (list : Dict RequestId ℕ) (m : Dict PeerId (Dict RequestId ℕ)) (j : RequestId)
    → pending q j (put_list p list m) ≡ (if p == q then lookup j list else pending q j m)
lookup-put_list p q [] m j =
    ap (held j) (lookup-remove p q m)
    ∙ elim (Bool-cases (p == q)) [ inl same ↦ rw same refl | inr other ↦ rw other refl ]
lookup-put_list p q (x ∷ list) m j =
    ap (held j) (lookup-insert p q (x ∷ list) m)
    ∙ elim (Bool-cases (p == q)) [ inl same ↦ rw same refl | inr other ↦ rw other refl ]

pub pending-put_list :
    (p q : PeerId) (i j : RequestId) (list : Dict RequestId ℕ) (m : Dict PeerId (Dict RequestId ℕ))
    → lookup p m ≡ some list
    → pending q j (put_list p (remove i list) m)
      ≡ (if p == q && i == j then none else pending q j m)
pending-put_list p q i j list m found =
    lookup-put_list p q (remove i list) m j ∙ elim (Bool-cases (p == q)) [
      | inl same ↦
          let there : held j (some list) ≡ pending q j m =
            ap (held j) (sym found ∙ ap (λ x. lookup x m) ((nat_beq_iff p q).0 same)) in
          rw same (lookup-remove i j list ∙ ap (λ o. if i == j then none else o) there)
      | inr other ↦ rw other refl
    ]

-- What is left pending after an answer.
abbrev pub without_answer :
    Option (PeerId × RequestId × Answer) → PeerId → RequestId → Option ℕ → Option ℕ
without_answer none q j o = o
without_answer (some (p, i, a)) q j o = if p == q && i == j then none else o

abbrev pub is_request : Event → Bool
is_request (request _ _ _ _) = true
is_request _ = false

module _ {W : Type 0} (out : Outside W) where
  -- The channel of the request, if it is pending, gets the answer.
  abbrev pub sent : Option ℕ → Answer → W → W
  sent none answer w = w
  sent (some ch) answer w = out.complete ch answer w

  not_pending :
      (p q : PeerId) (i j : RequestId) (m : Dict PeerId (Dict RequestId ℕ))
      → pending p i m ≡ none
      → pending q j m ≡ (if p == q && i == j then none else pending q j m)
  not_pending p q i j m e = elim (Bool-cases (p == q)) [
    | inl same ↦ elim (Bool-cases (i == j)) [
      | inl alike ↦
          rw (same, alike)
            (ap₂ (λ x y. pending x y m) (sym ((nat_beq_iff p q).0 same))
                (sym ((nat_beq_iff i j).0 alike))
              ∙ e)
      | inr other ↦ rw (same, other) refl
    ]
    | inr other ↦ rw other refl
  ]

  no_list : (i : RequestId) → held i none ≡ none
  unfolding lookup
  no_list i = refl

  pub request_pending :
      (i : RequestId) (p : PeerId) (bytes : Bytes) (ch : ℕ) (b : Behaviour) (w : W)
      → (process_request out i p bytes ch b w).0.pending_response ≡ b.pending_response
  unfolding process_request
  request_pending i p bytes ch b w = ground arith

  pub inbound_pending :
      (i : RequestId) (p : PeerId) (b : Behaviour)
      → (process_inbound_failure out i p b).pending_response ≡ b.pending_response
  unfolding process_inbound_failure
  inbound_pending i p b = ground arith

  pub response_lem :
      (i : RequestId) (p : PeerId) (bytes : Bytes) (b : Behaviour) (w : W)
      → ((q : PeerId) (j : RequestId)
          → pending q j (process_response out i p bytes b w).0.pending_response
            ≡ (if p == q && i == j then none else pending q j b.pending_response))
        × ((process_response out i p bytes b w).1
            ≡ sent (pending p i b.pending_response) (answered bytes) w)
  unfolding process_response
  response_lem i p bytes b w = elim (Option-cases (lookup p b.pending_response)) [
    | inl none_there ↦
        let gone = ap (held i) none_there ∙ no_list i in
        rw (process_response, none_there)
          (
            λ q j. not_pending p q i j b.pending_response gone,
            sym (ap (λ o. sent o (answered bytes) w) gone),
          )
    | inr (list, there) ↦ elim (Option-cases (lookup i list)) [
      | inl missing ↦
          let gone = ap (held i) there ∙ missing in
          rw (process_response, there, missing)
            (
              λ q j. not_pending p q i j b.pending_response gone,
              sym (ap (λ o. sent o (answered bytes) w) gone),
            )
      | inr (ch, found) ↦
          let held_there = ap (held i) there ∙ found in
          rw (process_response, there, found)
            (
              λ q j. pending-put_list p q i j list b.pending_response there,
              sym (ap (λ o. sent o (answered bytes) w) held_there),
            )
    ]
  ]

  pub failure_lem :
      (i : RequestId) (p : PeerId) (error : ℕ) (b : Behaviour) (w : W)
      → ((q : PeerId) (j : RequestId)
          → pending q j (process_outbound_failure out i p error b w).0.pending_response
            ≡ (if p == q && i == j then none else pending q j b.pending_response))
        × ((process_outbound_failure out i p error b w).1
            ≡ sent (pending p i b.pending_response) (outbound_failed error) w)
  unfolding process_outbound_failure
  failure_lem i p error b w = elim (Option-cases (lookup p b.pending_response)) [
    | inl none_there ↦
        let gone = ap (held i) none_there ∙ no_list i in
        rw (process_outbound_failure, none_there)
          (
            λ q j. not_pending p q i j b.pending_response gone,
            sym (ap (λ o. sent o (outbound_failed error) w) gone),
          )
    | inr (list, there) ↦ elim (Option-cases (lookup i list)) [
      | inl missing ↦
          let gone = ap (held i) there ∙ missing in
          rw (process_outbound_failure, there, missing)
            (
              λ q j. pending-put_list p q i j list b.pending_response there,
              sym (ap (λ o. sent o (outbound_failed error) w) gone),
            )
      | inr (ch, found) ↦
          let held_there = ap (held i) there ∙ found in
          rw (process_outbound_failure, there, found)
            (
              λ q j. pending-put_list p q i j list b.pending_response there,
              sym (ap (λ o. sent o (outbound_failed error) w) held_there),
            )
    ]
  ]

  abbrev pub sent_answer : Option (PeerId × RequestId × Answer) → Behaviour → W → W
  sent_answer none b w = w
  sent_answer (some (p, i, a)) b w = sent (pending p i b.pending_response) a w

  -- An answer or a failure takes exactly its own request off the pending ones and goes through the
  -- channel of that request, if it was pending. Any other event leaves what is pending, and those that
  -- bring no request of a peer leave the outside as it is.
  pub pending-on_event :
      (e : Event) (b : Behaviour) (w : W)
      → ((q : PeerId) (j : RequestId)
          → pending q j (on_event out e b w).0.pending_response
            ≡ without_answer (answer_of e) q j (pending q j b.pending_response))
        × (if is_request e then w else (on_event out e b w).1) ≡ sent_answer (answer_of e) b w
  unfolding on_event answer_of
  pending-on_event (response i p bytes) b w = response_lem i p bytes b w
  pending-on_event (outbound_failure i p error) b w = failure_lem i p error b w
  pending-on_event (request i p bytes ch) b w =
      (λ q j. ap (pending q j) (request_pending i p bytes ch b w), refl)
  pending-on_event (response_sent p i) b w = (λ q j. refl, refl)
  pending-on_event (inbound_failure i p error) b w =
      (λ q j. ap (pending q j) (inbound_pending i p b), refl)
  pending-on_event other_event b w = (λ q j. refl, refl)
