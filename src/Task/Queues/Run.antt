-- ===== src/Task/Queues/Run.antt =====
-- Commands, answers and disconnections in any order.
use connexa.Prelude.{
  ◌≡◌, refl, [], ◌∷◌, nat_eq, pair_eq, pair_beq_iff, Eq, ℕ, Result, ◌++◌, List, if◌then◌else◌, sym,
  arith, ◌==◌, ◌∙◌, ap,
}
use connexa.Task.{PeerId, Error, not_connected}
use connexa.Task.Queues.{Queues, Replies, ask, finish, fail_pending, stale_keys}
use connexa.Task.Queues.Fifo.{
  answered, waiting, ask-Fifo, answered-append, finish-Fifo, fail_keys-Fifo,
}
use mathlib.Core.List.{append_assoc, append-nil}

-- What happens to the queues: a command comes, libp2p answers, or a peer is gone.
pub data Op (N R V : Type 0) : Type 0 where
  asks : PeerId × N → R → ℕ → Op N R V
  finishes : PeerId × N → Result Error V → Op N R V
  disconnects : PeerId → Op N R V

module _ {N R V W : Type 0} ⦃e : Eq N⦄
    (start : PeerId × N → R → W → Result Error (Unit {0}) × W) where
  unfoldable pub step :
      Op N R V → Queues (PeerId × N) R → W → Replies (PeerId × N) V × Queues (PeerId × N) R × W
  step (asks key r resp) m w = ask start key r resp m w
  step (finishes key result) m w = finish start key result m w
  step (disconnects peer) m w = let (sent, m') = fail_pending peer m in (sent, m', w)

  unfoldable pub run :
      List (Op N R V)
      → Queues (PeerId × N) R
      → W
      → Replies (PeerId × N) V × Queues (PeerId × N) R × W
  unfolding step
  run [] m w = ([], m, w)
  run (op ∷ ops) m w =
      let (sent, m', w') = step op m w in
      let (more, m'', w'') = run ops m' w' in (sent ++ more, m'', w'')

  -- The channels of the commands for a key, in order.
  abbrev pub arrivals : PeerId × N → List (Op N R V) → List ℕ
  arrivals j [] = []
  arrivals j (asks key r resp ∷ ops) =
      let rest = arrivals j ops in if key == j then resp ∷ rest else rest
  arrivals j (finishes key result ∷ ops) = arrivals j ops
  arrivals j (disconnects peer ∷ ops) = arrivals j ops

  step-Fifo :
      (j : PeerId × N) (op : Op N R V) (m : Queues (PeerId × N) R) (w : W)
      → let (sent, m', w') = step op m w in
        answered j sent ++ waiting j m' ≡ waiting j m ++ arrivals j (op ∷ [])
  unfolding step fail_pending
  step-Fifo j (asks key r resp) m w = ask-Fifo V start key j r resp m w
  step-Fifo j (finishes key result) m w =
      finish-Fifo V start key j result m w ∙ sym (append-nil (waiting j m))
  step-Fifo j (disconnects peer) m w =
      fail_keys-Fifo V j (not_connected peer) (stale_keys peer m) m ∙ sym (append-nil (waiting j m))

  arrivals-cons :
      (j : PeerId × N) (op : Op N R V) (ops : List (Op N R V))
      → arrivals j (op ∷ []) ++ arrivals j ops ≡ arrivals j (op ∷ ops)
  arrivals-cons j (asks key r resp) ops = ground (arith, pair_beq_iff key j)
  arrivals-cons j (finishes key result) ops = refl
  arrivals-cons j (disconnects peer) ops = refl

  -- At every key, the requests that were answered are the first of those that waited or came, in that
  -- order, each answered once; the others still wait.
  pub answered-run :
      (j : PeerId × N) (ops : List (Op N R V)) (m : Queues (PeerId × N) R) (w : W)
      → let (sent, m', w') = run ops m w in
        answered j sent ++ waiting j m' ≡ waiting j m ++ arrivals j ops
  unfolding run
  answered-run j [] m w = sym (append-nil (waiting j m))
  answered-run j (op ∷ ops) m w =
      let (sent, m1, w1) = step op m w in
      let (more, m2, w2) = run ops m1 w1 in
      rw
        (
          answered-append j sent more,
          append_assoc (answered j sent) (answered j more) (waiting j m2),
          answered-run j ops m1 w1,
        )
        (sym (append_assoc (answered j sent) (waiting j m1) (arrivals j ops))
          ∙ ap (λ l. l ++ arrivals j ops) (step-Fifo j op m w)
          ∙ append_assoc (waiting j m) (arrivals j (op ∷ [])) (arrivals j ops)
          ∙ ap (λ l. waiting j m ++ l) (arrivals-cons j op ops))
