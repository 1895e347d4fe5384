-- ===== src/Task/Queues.antt =====
-- The queues of requests in src/task/rendezvous.rs, by the key under which libp2p answers them. The
-- front of a queue is the request that libp2p works on. The source has this code twice, for
-- registrations and for discoveries; they differ in what a request holds, the `R`, and in `start`.
pub mod Fifo
pub mod Run
pub mod Served
use connexa.Prelude.{
  ℕ, Bool, Option, none, some, List, [], ◌∷◌, ◌++◌, map, keep, Result, ok, err, Eq, ◌==◌, nat_eq,
  pair_eq,
}
use connexa.Dict.{Dict, lookup, insert, remove}
use connexa.Task.{PeerId, Error, not_connected}

-- A request with the channel for its answer.
abbrev pub Queues : Type 0 → Type 0 → Type 0
Queues K R = Dict K (List (R × ℕ))

-- What is sent through the channels, each with the key of its queue.
abbrev pub Replies : Type 0 → Type 0 → Type 0
Replies K V = List (K × ℕ × Result Error V)

module _ {K R : Type 0} ⦃e : Eq K⦄ where
  -- The queue goes back only when a request of it has started.
  unfoldable pub put_back : K → List (R × ℕ) → Queues K R → Queues K R
  put_back key [] m = m
  put_back key (request ∷ queue) m = insert key (request ∷ queue) m

module _ {K R V : Type 0} where
  -- The answer for the front, `pop_front`
  unfoldable pub answer_front : K → Result Error V → List (R × ℕ) → Replies K V × List (R × ℕ)
  answer_front key result [] = ([], [])
  answer_front key result ((r, resp) ∷ queue) = ((key, resp, result) ∷ [], queue)

module _ {K R V W : Type 0} ⦃e : Eq K⦄ (start : K → R → W → Result Error (Unit {0}) × W) where
  -- A new command: it waits behind the others, or it is started.
  unfoldable pub ask : K → R → ℕ → Queues K R → W → Replies K V × Queues K R × W
  ask key r resp m w = elim (lookup key m) [
    | some queue ↦ ([], insert key (queue ++ ((r, resp) ∷ [])) m, w)
    | none ↦
        let (started, w') = start key r w in
        elim started [
          | err error ↦ ((key, resp, err error) ∷ [], m, w')
          | ok _ ↦ ([], insert key ((r, resp) ∷ []) m, w')
        ]
  ]

  -- The loop over the front of the queue: what is sent, and the queue from the request that started.
  unfoldable pub start_next : K → List (R × ℕ) → W → Replies K V × List (R × ℕ) × W
  start_next key [] w = ([], [], w)
  start_next key ((r, resp) ∷ queue) w =
      let (started, w') = start key r w in
      let (sent, left, w'') = start_next key queue w' in
      elim started [
        | ok _ ↦ ([], (r, resp) ∷ queue, w')
        | err error ↦ ((key, resp, err error) ∷ sent, left, w'')
      ]

  -- libp2p has answered the request at the front.
  unfoldable pub finish : K → Result Error V → Queues K R → W → Replies K V × Queues K R × W
  unfolding start_next put_back answer_front
  finish key result m w = elim (lookup key m) [
    | none ↦ ([], m, w)
    | some queue ↦
        let (first, rest) = answer_front key result queue in
        let (sent, left, w') = start_next key rest w in
        (first ++ sent, put_back key left (remove key m), w')
  ]

module _ {N R : Type 0} where
  -- `keys().filter(|(node, _)| node == peer_id)`
  unfoldable pub stale_keys : PeerId → Queues (PeerId × N) R → List (PeerId × N)
  stale_keys peer m = keep (λ k. k.0 == peer) (map (λ entry. entry.0) m)

module _ {N R V : Type 0} ⦃e : Eq N⦄ where
  -- The answer to every request of a queue.
  unfoldable pub fail_queue : PeerId × N → Error → List (R × ℕ) → Replies (PeerId × N) V
  fail_queue key error [] = []
  fail_queue key error ((r, resp) ∷ queue) = (key, resp, err error) ∷ fail_queue key error queue

  unfoldable pub fail_keys :
      Error
      → List (PeerId × N)
      → Queues (PeerId × N) R
      → Replies (PeerId × N) V × Queues (PeerId × N) R
  unfolding fail_queue
  fail_keys error [] m = ([], m)
  fail_keys error (key ∷ keys) m = elim (lookup key m) [
    | none ↦ fail_keys error keys m
    | some queue ↦
        let (sent, m') = fail_keys error keys (remove key m) in
        (fail_queue key error queue ++ sent, m')
  ]

  -- One half of `fail_pending_rendezvous`, when the last connection to the peer has closed.
  unfoldable pub fail_pending :
      PeerId → Queues (PeerId × N) R → Replies (PeerId × N) V × Queues (PeerId × N) R
  unfolding stale_keys fail_keys
  fail_pending peer m = fail_keys (not_connected peer) (stale_keys peer m) m
