-- ===== src/Task/Queues/Fifo.antt =====
-- The queues are first come, first served.
use connexa.Prelude.{
  ◌≡◌, refl, Eq, List, ℕ, Result, ◌++◌, if◌then◌else◌, ◌==◌, ◌∷◌, [], arith, ap, Option-cases,
  Result-cases, none, some, inl, inr, pair_eq, pair_beq_iff, nat_eq,
}
use connexa.Task.{Error, PeerId}
use connexa.Task.Queues.{Queues, Replies, ask, start_next, finish, put_back, fail_keys, fail_queue}
use connexa.Dict.{lookup-insert, insert, remove, lookup-remove, lookup}
use mathlib.Core.List.{append_assoc, append-nil}

-- `get(&key)` with no queue read as an empty one.
module _ {K R : Type 0} ⦃e : Eq K⦄ where
  abbrev pub queue_of : K → Queues K R → List (R × ℕ)
  queue_of key m = elim (lookup key m) [ none ↦ [] | some queue ↦ queue ]

abbrev pub channels : {R : Type 0} → List (R × ℕ) → List ℕ
channels [] = []
channels ((r, ch) ∷ queue) = ch ∷ channels queue

module _ {K R : Type 0} ⦃e : Eq K⦄ where
  -- What waits at the key j, in order.
  abbrev pub waiting : K → Queues K R → List ℕ
  waiting j m = channels (queue_of j m)

module _ {K V : Type 0} ⦃e : Eq K⦄ where
  -- The channels of a key that were answered, in order.
  abbrev pub answered : K → Replies K V → List ℕ
  answered j [] = []
  answered j ((key, ch, result) ∷ sent) =
      let rest = answered j sent in if key == j then ch ∷ rest else rest

  pub answered-append :
      (j : K) (sent more : Replies K V)
      → answered j (sent ++ more) ≡ answered j sent ++ answered j more
  answered-append j [] more = refl
  answered-append j ((key, ch, result) ∷ sent) more = ground (arith, answered-append j sent more)

module _ {R : Type 0} where
  pub channels-append :
      (queue more : List (R × ℕ)) → channels (queue ++ more) ≡ channels queue ++ channels more
  channels-append [] more = refl
  channels-append ((r, ch) ∷ queue) more = ap (◌∷◌ ch) (channels-append queue more)

module _ {K R : Type 0} ⦃e : Eq K⦄ where
  pub waiting-insert :
      (key j : K) (queue : List (R × ℕ)) (m : Queues K R)
      → waiting j (insert key queue m) ≡ (if key == j then channels queue else waiting j m)
  waiting-insert key j queue m = ground (arith, lookup-insert key j queue m)

  pub waiting-remove :
      (key j : K) (m : Queues K R)
      → waiting j (remove key m) ≡ (if key == j then [] else waiting j m)
  waiting-remove key j m = ground (arith, lookup-remove key j m)

  pub waiting-put_back :
      (key j : K) (queue : List (R × ℕ)) (m : Queues K R)
      → waiting j (put_back key queue (remove key m))
        ≡ (if key == j then channels queue else waiting j m)
  unfolding put_back
  waiting-put_back key j [] m = waiting-remove key j m
  waiting-put_back key j (request ∷ queue) m =
      ground (arith, waiting-insert key j (request ∷ queue) (remove key m), waiting-remove key j m)

module _ {K R W : Type 0} (V : Type 0) ⦃e : Eq K⦄
    (start : K → R → W → Result Error (Unit {0}) × W) where
  -- A command waits behind those before it, or is answered at once when nothing waits.
  pub ask-Fifo :
      (key j : K) (r : R) (resp : ℕ) (m : Queues K R) (w : W)
      → let (sent, m', w') = ask {V = V} start key r resp m w in
        answered j sent ++ waiting j m' ≡ waiting j m ++ (if key == j then resp ∷ [] else [])
  unfolding ask
  ask-Fifo key j r resp m w = elim (Option-cases (lookup key m)) [
    | inl nothing_waits ↦ elim (Result-cases (start key r w).0) [
      | inl (u, started) ↦
          rw (ask, nothing_waits, started, waiting-insert key j ((r, resp) ∷ []) m)
            (ground (arith, nothing_waits, e.beq_iff key j, append-nil (waiting j m)))
      | inr (error, failed) ↦
          rw (ask, nothing_waits, failed)
            (ground (arith, nothing_waits, e.beq_iff key j, append-nil (waiting j m)))
    ]
    | inr (queue, there) ↦
        rw (ask, there, waiting-insert key j (queue ++ ((r, resp) ∷ [])) m)
          (ground (
            arith,
            there,
            e.beq_iff key j,
            append-nil (waiting j m),
            channels-append queue ((r, resp) ∷ []),
          ))
  ]

  start_next-Fifo :
      (key j : K) (queue : List (R × ℕ)) (w : W)
      → let (sent, left, w') = start_next {V = V} start key queue w in
        answered j sent ++ (if key == j then channels left else [])
        ≡ (if key == j then channels queue else [])
  unfolding start_next
  start_next-Fifo key j [] w = ground arith
  start_next-Fifo key j ((r, resp) ∷ queue) w =
      ground (arith, start_next-Fifo key j queue (start key r w).1)

  front-Fifo :
      (key j : K) (resp : ℕ) (r : R) (result : Result Error V) (queue : List (R × ℕ))
      (m : Queues K R) (w : W)
      → lookup key m ≡ some ((r, resp) ∷ queue)
      → let (sent, left, w') = start_next start key queue w in
        answered j ((key, resp, result) ∷ sent) ++ waiting j (put_back key left (remove key m))
        ≡ waiting j m
  front-Fifo key j resp r result queue m w there =
      let (sent, left, w') = start_next {V = V} start key queue w in
      rw (waiting-put_back key j left m) (
        ground (
          arith,
          there,
          start_next-Fifo key j queue w,
          e.beq_iff key j,
          append-nil (answered j sent),
        ))

  pub finish-Fifo :
      (key j : K) (result : Result Error V) (m : Queues K R) (w : W)
      → let (sent, m', w') = finish start key result m w in
        answered j sent ++ waiting j m' ≡ waiting j m
  unfolding finish
  finish-Fifo key j result m w = elim (Option-cases (lookup key m)) [
    | inl nothing_waits ↦ rw (finish, nothing_waits) refl
    | inr ([], there) ↦
        rw (finish, there) (ground (arith, there, waiting-remove key j m, e.beq_iff key j))
    | inr ((r, resp) ∷ queue, there) ↦
        rw (finish, there) (front-Fifo key j resp r result queue m w there)
  ]

module _ {N R : Type 0} ⦃e : Eq N⦄ (V : Type 0) where
  answered-fail_queue :
      (key j : PeerId × N) (error : Error) (queue : List (R × ℕ))
      → answered j (fail_queue {V = V} key error queue) ≡ (if key == j then channels queue else [])
  unfolding fail_queue
  answered-fail_queue key j error [] = ground arith
  answered-fail_queue key j error ((r, resp) ∷ queue) =
      ground (arith, answered-fail_queue key j error queue)

  pub fail_keys-Fifo :
      (j : PeerId × N) (error : Error) (keys : List (PeerId × N)) (m : Queues (PeerId × N) R)
      → let (sent, m') = fail_keys {V = V} error keys m in
        answered j sent ++ waiting j m' ≡ waiting j m
  unfolding fail_keys
  fail_keys-Fifo j error [] m = refl
  fail_keys-Fifo j error (key ∷ keys) m = elim (Option-cases (lookup key m)) [
    | inl nothing_waits ↦ rw (fail_keys, nothing_waits) (fail_keys-Fifo j error keys m)
    | inr (queue, there) ↦
        let (sent, m') = fail_keys {V = V} error keys (remove key m) in
        rw
          (
            fail_keys,
            there,
            answered-append j (fail_queue {V = V} key error queue) sent,
            answered-fail_queue key j error queue,
          )
          (ground (
            arith,
            there,
            fail_keys-Fifo j error keys (remove key m),
            waiting-remove key j m,
            pair_beq_iff key j,
            append_assoc (channels queue) (answered j sent) (waiting j m'),
            append-nil (channels queue),
          ))
  ]
