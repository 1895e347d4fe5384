-- ===== src/RequestResponse/Once.antt =====
-- No request is answered twice.
use connexa.RequestResponse.{
  Outside, PeerId, Behaviour, Bytes, RequestId, request_one, send_requests, Answer, add_pending,
}
use connexa.Prelude.{
  List, ℕ, ◌∷◌, Bool, ◌≡◌, [], arith, ◌∙◌, Option, false, sym, nat_beq_iff, ◌==◌, subst, ◌≤◌, some,
  ◌||◌, true, if◌then◌else◌, suc, nat_eq, ◌&&◌, ◌⊎◌, inl, none, inr, Bool-cases, ap, Option-cases,
}
use connexa.RequestResponse.Pending.{pending-add_pending, pending, sent}
use connexa.Dict.{Dict, insert}

module _ {W : Type 0} (out : Outside W) where
  module _ (issued : ℕ → W → Bool) (answers : ℕ → W → ℕ) where
    -- No channel has been made or used.
    abbrev pub Unused : W → W → Type 0
    Unused w w' =
        ((ch : ℕ) → issued ch w' ≡ issued ch w) × ((ch : ℕ) → answers ch w' ≡ answers ch w)

    -- One-shot channels are new when they are made, and only `complete` sends through them.
    pub record IsOneshot : Type 0 where
      pub send_request_lem :
          (p : PeerId) (bytes : Bytes) (w : W) → Unused w (out.send_request p bytes w).1
      pub send_response_lem :
          (ch : ℕ) (bytes : Bytes) (w : W) → Unused w (out.send_response ch bytes w).1
      pub channel_lem : (n : ℕ) (w : W) → Unused w (out.channel n w).1
      pub try_send_lem :
          (tx : ℕ) (item : PeerId × RequestId × Bytes) (w : W) → Unused w (out.try_send tx item w)
      pub delay_lem : (n : ℕ) (w : W) → Unused w (out.delay n w).1
      pub poll_timer_lem : (t : Option ℕ) (w : W) → Unused w (out.poll_timer t w).2
      pub oneshot_lem :
          (w : W)
          → (issued (out.oneshot w).0 w ≡ false)
            × ((ch : ℕ) → issued ch (out.oneshot w).1 ≡ ((out.oneshot w).0 == ch || issued ch w))
            × ((ch : ℕ) → answers ch (out.oneshot w).1 ≡ answers ch w)
      pub complete_lem :
          (ch : ℕ) (a : Answer) (w : W)
          → ((c : ℕ) → issued c (out.complete ch a w) ≡ issued c w)
            × ((c : ℕ)
                → answers c (out.complete ch a w)
                  ≡ (if ch == c then suc (answers c w) else answers c w))

    -- Every pending request has a channel of its own that no answer went through yet.
    pub record IsOnce (m : Dict PeerId (Dict RequestId ℕ)) (w : W) : Type 0 where
      pub made :
          (p : PeerId) (i : RequestId) (ch : ℕ) → pending p i m ≡ some ch → issued ch w ≡ true
      pub own :
          (p q : PeerId) (i j : RequestId) (ch : ℕ)
          → pending p i m ≡ some ch
          → pending q j m ≡ some ch
          → (p ≡ q) × (i ≡ j)
      pub open_channel :
          (p : PeerId) (i : RequestId) (ch : ℕ) → pending p i m ≡ some ch → answers ch w ≡ 0
      pub new_channel : (ch : ℕ) → issued ch w ≡ false → answers ch w ≡ 0
      pub at_most_once : (ch : ℕ) → answers ch w ≤ 1

    pub IsOnce-Unused :
        {m : Dict PeerId (Dict RequestId ℕ)} {w w' : W} → IsOnce m w → Unused w w' → IsOnce m w'
    IsOnce-Unused v u = record {
      made = λ p i ch h. u.0 ch ∙ v.made p i ch h;
      own = v.own;
      open_channel = λ p i ch h. u.1 ch ∙ v.open_channel p i ch h;
      new_channel = λ ch h. u.1 ch ∙ v.new_channel ch (sym (u.0 ch) ∙ h);
      at_most_once = λ ch. subst (λ n. n ≤ 1) (sym (u.1 ch)) (v.at_most_once ch);
    }

    added :
        (p q : PeerId) (id j : RequestId) (tx ch : ℕ) (m : Dict PeerId (Dict RequestId ℕ))
        → pending q j (add_pending p id tx m) ≡ some ch
        → ((p ≡ q) × (id ≡ j) × (tx ≡ ch)) ⊎ (pending q j m ≡ some ch)
    added p q id j tx ch m h = elim (Bool-cases (p == q && id == j)) [
      | inl same ↦ inl (
        ground (arith, same),
        ground (arith, same),
        ground (arith, pending-add_pending p q id j tx m, same, h),
      )
      | inr other ↦ inr (ground (arith, pending-add_pending p q id j tx m, other, h))
    ]

    module _ (law : IsOneshot) where
      -- A request that takes a new channel.
      pub add_pending-IsOnce :
          (p : PeerId) (id : RequestId) (m : Dict PeerId (Dict RequestId ℕ)) (w : W)
          → IsOnce m w
          → IsOnce (add_pending p id (out.oneshot w).0 m) (out.oneshot w).1
      add_pending-IsOnce p id m w v =
          let tx = (out.oneshot w).0 in
          let (fresh, made_lem, kept) = law.oneshot_lem w in
          record {
            made = λ q j ch h. elim (added p q id j tx ch m h) [
              | inl (_, _, same) ↦ made_lem ch ∙ ground (arith, nat_beq_iff tx ch, same)
              | inr old ↦ made_lem ch ∙ ground (arith, v.made q j ch old)
            ];
            own = λ q r i j ch h k. elim (added p q id i tx ch m h) [
              | inl (pq, ii, same) ↦ elim (added p r id j tx ch m k) [
                | inl (pr, ij, _) ↦ (sym pq ∙ pr, sym ii ∙ ij)
                | inr old ↦ absurd (ground (arith, v.made r j ch old, same, fresh))
              ]
              | inr older ↦ elim (added p r id j tx ch m k) [
                | inl (_, _, same) ↦ absurd (ground (arith, v.made q i ch older, same, fresh))
                | inr old ↦ v.own q r i j ch older old
              ]
            ];
            open_channel = λ q j ch h. elim (added p q id j tx ch m h) [
              | inl (_, _, same) ↦
                  kept ch ∙ ap (λ c. answers c w) (sym same) ∙ v.new_channel tx fresh
              | inr old ↦ kept ch ∙ v.open_channel q j ch old
            ];
            new_channel = λ ch h. ground (arith, kept ch, made_lem ch, v.new_channel ch);
            at_most_once = λ ch. ground (arith, kept ch, v.at_most_once ch);
          }

      pub send_requests-IsOnce :
          (peers : List PeerId) (bytes : Bytes) (oneshots : Dict RequestId (PeerId × ℕ))
          (b : Behaviour) (w : W)
          → IsOnce b.pending_response w
          → IsOnce
              (send_requests out peers bytes oneshots b w).1.pending_response
              (send_requests out peers bytes oneshots b w).2
      unfolding send_requests request_one
      send_requests-IsOnce [] bytes oneshots b w v = v
      send_requests-IsOnce (p ∷ peers) bytes oneshots b w v =
          let (id, tx, b1, w1) = request_one out p bytes b w in
          send_requests-IsOnce peers bytes (insert id (p, tx) oneshots) b1 w1 (
            add_pending-IsOnce p (out.send_request p bytes w).0 b.pending_response
              (out.send_request p bytes w).1 (IsOnce-Unused v (law.send_request_lem p bytes w)))

      -- An answer that goes through the channel of its request.
      pub sent-IsOnce :
          (p : PeerId) (i : RequestId) (a : Answer) (m m' : Dict PeerId (Dict RequestId ℕ)) (w : W)
          → ((q : PeerId) (j : RequestId)
              → pending q j m' ≡ (if p == q && i == j then none else pending q j m))
          → IsOnce m w
          → IsOnce m' (sent out (pending p i m) a w)
      sent-IsOnce p i a m m' w gone v = elim (Option-cases (pending p i m)) [
        | inl missing ↦ rw missing (record {
          made = λ q j ch h. v.made q j ch (left q j ch h).1;
          own = λ q r j k ch h h'. v.own q r j k ch (left q j ch h).1 (left r k ch h').1;
          open_channel = λ q j ch h. v.open_channel q j ch (left q j ch h).1;
          new_channel = v.new_channel;
          at_most_once = v.at_most_once;
        })
        | inr (c, found) ↦
            let (same_made, count) = law.complete_lem c a w in
            rw found (record {
              made = λ q j ch h. same_made ch ∙ v.made q j ch (left q j ch h).1;
              own = λ q r j k ch h h'. v.own q r j k ch (left q j ch h).1 (left r k ch h').1;
              open_channel = λ q j ch h. elim (Bool-cases (c == ch)) [
                | inl same ↦
                    let at_c =
                      subst (λ x. pending q j m ≡ some x) (sym ((nat_beq_iff c ch).0 same))
                        (left q j ch h).1 in
                    let (pq, ij) = v.own p q i j c found at_c in
                    absurd (ground (arith, (left q j ch h).0, pq, ij))
                | inr other ↦ count ch ∙ rw other (v.open_channel q j ch (left q j ch h).1)
              ];
              new_channel = λ ch h. elim (Bool-cases (c == ch)) [
                | inl same ↦
                    absurd
                      (ground (arith, same, h, same_made ch, v.made p i c found, nat_beq_iff c ch))
                | inr other ↦ count ch ∙ rw other (v.new_channel ch (sym (same_made ch) ∙ h))
              ];
              at_most_once = λ ch. elim (Bool-cases (c == ch)) [
                | inl same ↦
                    ground (arith, count ch, same, v.open_channel p i c found, nat_beq_iff c ch)
                | inr other ↦ ground (arith, count ch, other, v.at_most_once ch)
              ];
            })
      ]
        where
          left :
              (q : PeerId) (j : RequestId) (ch : ℕ)
              → pending q j m' ≡ some ch
              → ((p == q && i == j) ≡ false) × (pending q j m ≡ some ch)
          left q j ch h = elim (Bool-cases (p == q && i == j)) [
            | inl both ↦ absurd (ground (arith, gone q j, both, h))
            | inr not_both ↦ (not_both, ground (arith, gone q j, not_both, h))
          ]
