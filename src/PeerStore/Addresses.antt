-- ===== src/PeerStore/Addresses.antt =====
-- Which addresses a peer has after each operation of the store.
use connexa.Prelude.{
  ◌≡◌, arith, refl, List, [], ◌∷◌, nat_eq, pair_eq, Bool, ◌&&◌, ◌||◌, not, Eq, ◌==◌, inl, inr,
  if◌then◌else◌, Option-cases, nat_beq_iff, ap, ℕ, ◌∙◌, Bool-cases,
}
use connexa.Dict.{
  lookup, contains, Dict, insert, remove, add, lookup-insert, contains-add, lookup-remove, drop_key,
  contains-drop_key,
}
use connexa.PeerStore.{
  PeerId, Timers, MemoryStore, remove_address, poll, add_address, put_back, addresses_of,
  remove_due, ℕ, remove_from,
}

module _ {A : Type 0} ⦃e : Eq A⦄ where
  -- Whether the store lists the address for the peer.
  abbrev pub is_listed : {T : Type 0} → PeerId → A → MemoryStore A T → Bool
  is_listed p a s = contains a (addresses_of p s.peers)

  addresses-insert :
      (p q : PeerId) (l : List A) (peers : Dict PeerId (List A))
      → addresses_of p (insert q l peers) ≡ (if q == p then l else addresses_of p peers)
  unfolding addresses_of
  addresses-insert p q l peers = ground (arith, lookup-insert q p l peers)

  addresses-remove :
      (p q : PeerId) (peers : Dict PeerId (List A))
      → addresses_of p (remove q peers) ≡ (if q == p then [] else addresses_of p peers)
  unfolding addresses_of
  addresses-remove p q peers = ground (arith, lookup-remove q p peers)

  pub contains-add_address :
      (p q : PeerId) (a b : A) (peers : Dict PeerId (List A))
      → contains a (addresses_of p (add_address q b peers))
        ≡ ((q == p && b == a) || contains a (addresses_of p peers))
  unfolding add_address
  contains-add_address p q a b peers = ground (
    arith,
    addresses-insert p q (add b (addresses_of q peers)) peers,
    contains-add b a (addresses_of q peers),
    nat_beq_iff q p,
  )

module _ {A T : Type 0} ⦃e : Eq A⦄ where
  listed-put_back :
      (p q : PeerId) (a : A) (l : List A) (s : MemoryStore A T)
      → is_listed p a (put_back q l s) ≡ (if q == p then contains a l else is_listed p a s)
  unfolding put_back contains
  listed-put_back p q a [] s = ground (arith, addresses-remove p q s.peers)
  listed-put_back p q a (b ∷ l) s = ground (arith, addresses-insert p q (b ∷ l) s.peers)

  -- `remove_address` takes the one address of the one peer away and no other, whether it reports
  -- success or that there is nothing to remove.
  pub listed-remove_address :
      (p q : PeerId) (a b : A) (s : MemoryStore A T)
      → is_listed p a (remove_address q b s).1 ≡ (not (q == p && b == a) && is_listed p a s)
  unfolding remove_address addresses_of contains
  listed-remove_address p q a b s = elim (Option-cases (lookup q s.peers)) [
    | inl gone ↦
        let step : (remove_address q b s).1 ≡ s = ap (λ o. (remove_from q b s o).1) gone in
        ap (is_listed p a) step ∙ ground (arith, gone, nat_beq_iff q p)
    | inr (l, found) ↦ elim (Bool-cases (contains b l)) [
      | inl there ↦
          let step : (remove_address q b s).1 ≡ put_back q (drop_key b l) s =
            ap (λ o. (remove_from q b s o).1) found ∙ rw there refl in
          ap (is_listed p a) step
          ∙ ground (
            arith,
            listed-put_back p q a (drop_key b l) s,
            contains-drop_key b a l,
            found,
            nat_beq_iff q p,
          )
      | inr missing ↦
          let step : (remove_address q b s).1 ≡ s =
            ap (λ o. (remove_from q b s o).1) found ∙ rw missing refl in
          ap (is_listed p a) step ∙ ground (arith, found, missing, nat_beq_iff q p, e.beq_iff b a)
    ]
  ]

  listed-remove_due :
      (timers : Timers A T) (p : PeerId) (a : A) (due : List (PeerId × A)) (s : MemoryStore A T)
      → is_listed p a (remove_due timers due s) ≡ (not (contains (p, a) due) && is_listed p a s)
  unfolding remove_due contains
  listed-remove_due timers p a [] s = refl
  listed-remove_due timers p a ((q, b) ∷ due) s =
      listed-remove_due timers p a due (remove_address q b s).1
      ∙ ground (arith, listed-remove_address p q a b s)

  -- `poll` drops exactly the addresses whose timers are due.
  pub listed-poll :
      (timers : Timers A T) (now : ℕ) (p : PeerId) (a : A) (s : MemoryStore A T)
      → is_listed p a (poll timers now s)
        ≡ (not (contains (p, a) (timers.take_due now s.timer).0) && is_listed p a s)
  unfolding poll
  listed-poll timers now p a s =
      let (due, timer) = timers.take_due now s.timer in
      listed-remove_due timers p a due (record s { timer = timer })
