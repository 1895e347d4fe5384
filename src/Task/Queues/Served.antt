-- ===== src/Task/Queues/Served.antt =====
-- Every queue is served: what starts it, and what ends it.
use connexa.Prelude.{
  ◌≡◌, refl, [], ◌∷◌, none, some, inl, inr, nat_eq, pair_eq, pair_beq_iff, Eq, ℕ, Result, ◌++◌,
  List, if◌then◌else◌, arith, ◌==◌, ◌∙◌, ap, Option-cases, ◌≢◌, Result-cases, ◌&&◌, map, err, ok,
}
use connexa.Task.{PeerId, Error, not_connected}
use connexa.Task.Queues.{Queues, ask, finish, fail_pending, stale_keys, fail_keys, put_back}
use connexa.Task.Queues.Fifo.{waiting}
use connexa.Dict.{
  lookup-remove, lookup-insert, contains, has, contains-keep, contains-keys, lookup, remove, insert,
}
use connexa.Task.Queues.Run.{asks, finishes, disconnects, Op, run, step}

-- No key keeps an empty queue, which a later command would wait behind for ever.
abbrev pub AreServed : {K R : Type 0} ⦃e : Eq K⦄ → Queues K R → Type 0
AreServed {K} m = (j : K) → lookup j m ≢ some []

module _ {K R : Type 0} ⦃e : Eq K⦄ where
  remove-AreServed : (key : K) (m : Queues K R) → AreServed m → AreServed (remove key m)
  remove-AreServed key m h j = ground (arith, h j, lookup-remove key j m)

  insert-AreServed :
      (key : K) (queue : List (R × ℕ)) (m : Queues K R)
      → queue ≢ []
      → AreServed m
      → AreServed (insert key queue m)
  insert-AreServed key queue m ne h j = ground (arith, h j, lookup-insert key j queue m)

  put_back-AreServed :
      (key : K) (queue : List (R × ℕ)) (m : Queues K R)
      → AreServed m
      → AreServed (put_back key queue (remove key m))
  unfolding put_back
  put_back-AreServed key [] m h = remove-AreServed key m h
  put_back-AreServed key (request ∷ queue) m h =
      insert-AreServed key (request ∷ queue) (remove key m) (ground arith)
        (remove-AreServed key m h)

module _ {K R W : Type 0} ⦃e : Eq K⦄ (start : K → R → W → Result Error (Unit {0}) × W) where
  ask-AreServed :
      (V : Type 0) (key : K) (r : R) (resp : ℕ) (m : Queues K R) (w : W)
      → AreServed m
      → AreServed (ask {V = V} start key r resp m w).1
  unfolding ask
  ask-AreServed V key r resp m w h = elim (Option-cases (lookup key m)) [
    | inl nothing_waits ↦ elim (Result-cases (start key r w).0) [
      | inl (u, started) ↦
          rw (ask, nothing_waits, started)
            (insert-AreServed key ((r, resp) ∷ []) m (ground arith) h)
      | inr (error, failed) ↦ rw (ask, nothing_waits, failed) h
    ]
    | inr (queue, there) ↦
        rw (ask, there)
          (insert-AreServed key (queue ++ ((r, resp) ∷ [])) m (not_nil queue (r, resp)) h)
  ]
    where
      not_nil : (queue : List (R × ℕ)) (request : R × ℕ) → queue ++ (request ∷ []) ≢ []
      not_nil [] request = ground arith
      not_nil (a ∷ queue) request = ground arith

  finish-AreServed :
      {V : Type 0} (key : K) (result : Result Error V) (m : Queues K R) (w : W)
      → AreServed m
      → AreServed (finish start key result m w).1
  unfolding finish
  finish-AreServed key result m w h = elim (Option-cases (lookup key m)) [
    | inl nothing_waits ↦ rw (finish, nothing_waits) h
    | inr (queue, there) ↦ rw (finish, there) (put_back-AreServed key _ m h)
  ]

module _ {N R : Type 0} (V : Type 0) ⦃e : Eq N⦄ where
  fail_keys-AreServed :
      (error : Error) (keys : List (PeerId × N)) (m : Queues (PeerId × N) R)
      → AreServed m
      → AreServed (fail_keys {V = V} error keys m).1
  unfolding fail_keys
  fail_keys-AreServed error [] m h = h
  fail_keys-AreServed error (key ∷ keys) m h = elim (Option-cases (lookup key m)) [
    | inl nothing_waits ↦ rw (fail_keys, nothing_waits) (fail_keys-AreServed error keys m h)
    | inr (queue, there) ↦
        rw (fail_keys, there)
          (fail_keys-AreServed error keys (remove key m) (remove-AreServed key m h))
  ]

  lookup-fail_keys :
      (j : PeerId × N) (error : Error) (keys : List (PeerId × N)) (m : Queues (PeerId × N) R)
      → lookup j (fail_keys {V = V} error keys m).1 ≡ (if contains j keys then none else lookup j m)
  unfolding fail_keys contains
  lookup-fail_keys j error [] m = refl
  lookup-fail_keys j error (key ∷ keys) m = elim (Option-cases (lookup key m)) [
    | inl nothing_waits ↦
        rw (fail_keys, nothing_waits)
          (ground (arith, nothing_waits, lookup-fail_keys j error keys m, pair_beq_iff key j))
    | inr (queue, there) ↦
        rw (fail_keys, there, lookup-fail_keys j error keys (remove key m))
          (ground (arith, lookup-remove key j m, pair_beq_iff key j))
  ]

  contains-stale_keys :
      (peer q : PeerId) (n : N) (m : Queues (PeerId × N) R)
      → contains (q, n) (stale_keys peer m) ≡ (q == peer && has (q, n) m)
  unfolding stale_keys
  contains-stale_keys peer q n m =
      contains-keep (λ k. k.0 == peer) (q, n) (map (λ entry. entry.0) m)
      ∙ ap (λ b. q == peer && b) (contains-keys (q, n) m)

  -- When a peer is gone, no request to it waits any more and the others wait as before.
  pub waiting-fail_pending :
      (peer q : PeerId) (n : N) (m : Queues (PeerId × N) R)
      → waiting (q, n) (fail_pending {V = V} peer m).1
        ≡ (if q == peer then [] else waiting (q, n) m)
  unfolding fail_pending
  waiting-fail_pending peer q n m = ground (
    arith,
    lookup-fail_keys (q, n) (not_connected peer) (stale_keys peer m) m,
    contains-stale_keys peer q n m,
  )

module _ {K R : Type 0} ⦃e : Eq K⦄ where
  nil-AreServed : AreServed {K = K} {R = R} []
  unfolding lookup
  nil-AreServed j = ground arith

  idle-none : (key : K) (m : Queues K R) → AreServed m → waiting key m ≡ [] → lookup key m ≡ none
  idle-none key m served idle = elim (Option-cases (lookup key m)) [
    | inl nothing_waits ↦ nothing_waits
    | inr ([], there) ↦ absurd (served key there)
    | inr ((r, resp) ∷ queue, there) ↦ ground (arith, idle, there)
  ]

module _ {N R V W : Type 0} ⦃e : Eq N⦄
    (start : PeerId × N → R → W → Result Error (Unit {0}) × W) where
  run-AreServed :
      (ops : List (Op N R V)) (m : Queues (PeerId × N) R) (w : W)
      → AreServed m
      → AreServed (run start ops m w).1
  unfolding run step fail_pending
  run-AreServed [] m w h = h
  run-AreServed (asks key r resp ∷ ops) m w h =
      run-AreServed ops _ _ (ask-AreServed start V key r resp m w h)
  run-AreServed (finishes key result ∷ ops) m w h =
      run-AreServed ops _ _ (finish-AreServed start key result m w h)
  run-AreServed (disconnects peer ∷ ops) m w h =
      run-AreServed ops _ _ (fail_keys-AreServed V (not_connected peer) (stale_keys peer m) m h)

  -- However the queues came about, a command for a key at which nothing waits is started at once, and
  -- waits for its answer or is told the error of its start.
  pub ask-run :
      (ops : List (Op N R V)) (key : PeerId × N) (r : R) (resp : ℕ) (w0 : W)
      → waiting key (run start ops [] w0).1 ≡ []
      → let (sent, m, w) = run start ops [] w0 in
        ask {V = V} start key r resp m w ≡ elim (start key r w).0 [
          | err error ↦ ((key, resp, err error) ∷ [], m, (start key r w).1)
          | ok _ ↦ ([], insert key ((r, resp) ∷ []) m, (start key r w).1)
        ]
  unfolding ask
  ask-run ops key r resp w0 idle =
      let (sent, m, w) = run start ops [] w0 in
      rw (ask, idle-none key m (run-AreServed ops [] w0 nil-AreServed) idle) refl
