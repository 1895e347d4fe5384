-- ===== src/PeerStore/Invariant.antt =====
-- What the store keeps true of itself under every operation.
use connexa.Prelude.{
  ◌≡◌, ◌≢◌, arith, true, false, some, List, [], ◌∷◌, nat_eq, pair_eq, Bool, ◌&&◌, ◌||◌, ℕ, ◌==◌,
  not, ◌⊎◌, ◌+◌, nat_beq_iff, Option-cases, Bool-cases, inl, inr,
}
use connexa.Dict.{
  lookup, contains, add, remove, insert, Dict, lookup-insert, lookup-remove, drop_key,
}
use connexa.PeerStore.{
  PeerId, Timers, MemoryStore, Eq, is_connected, ℕ, not, ConnectionId, add_address, on_swarm_event,
  connection_established, connection_closed, addresses_of, cleanup_delay, new_external_addr_of_peer,
  poll, put_back, remove_address, remove_peer, remove_due, insert_address,
}

-- No timer is pending for the address of an open connection, by `pending`, which tells what the
-- timers hold; and a peer that is listed has an address.
pub record IsConsistent {A T : Type 0} ⦃e : Eq A⦄ (pending : PeerId × A → T → Bool)
    (s : MemoryStore A T) : Type 0 where
  pub nonempty : (p : PeerId) → lookup p s.peers ≢ some []
  pub live :
      (p : PeerId) (a : A) → is_connected p a s.connections ≡ true → pending (p, a) s.timer ≡ false

-- What `FutureMap` documents: `insert` may add its key, `remove` takes its key away, and a timer that
-- was taken was pending and is so no more.
pub record AreTimers {A T : Type 0} ⦃e : Eq A⦄ (timers : Timers A T)
    (pending : PeerId × A → T → Bool) : Type 0 where
  pub pending-start :
      (k j : PeerId × A) (at : ℕ) (t : T)
      → pending j (timers.start k at t) ≡ (k == j || pending j t)
  pub pending-cancel :
      (k j : PeerId × A) (t : T) → pending j (timers.cancel k t) ≡ (not (k == j) && pending j t)
  pub pending-take_due :
      (j : PeerId × A) (now : ℕ) (t : T)
      → pending j (timers.take_due now t).1
        ≡ (pending j t && not (contains j (timers.take_due now t).0))
  pub due_pending :
      (j : PeerId × A) (now : ℕ) (t : T)
      → contains j (timers.take_due now t).0 ≡ true
      → pending j t ≡ true

module _ {A : Type 0} ⦃e : Eq A⦄ where
  add_nonempty : (a : A) (l : List A) → add a l ≢ []
  unfolding add contains
  add_nonempty a [] h = cc
  add_nonempty a (b ∷ l) h = ground (arith)

  is_connected-insert :
      (p q : PeerId) (c : ConnectionId) (a b : A) (m : Dict (PeerId × ConnectionId) A)
      → is_connected p a (insert (q, c) b m) ≡ true
      → ((q == p && b == a) ≡ true) ⊎ (is_connected p a m ≡ true)
  unfolding is_connected insert
  is_connected-insert p q c a b [] h = ground arith
  is_connected-insert p q c a b (((r, d), x) ∷ m) h =
      ground (arith, is_connected-insert p q c a b m)

  is_connected-remove :
      (p q : PeerId) (c : ConnectionId) (a : A) (m : Dict (PeerId × ConnectionId) A)
      → is_connected p a (remove (q, c) m) ≡ true
      → is_connected p a m ≡ true
  unfolding is_connected remove
  is_connected-remove p q c a [] h = ground arith
  is_connected-remove p q c a (((r, d), x) ∷ m) h = ground (arith, is_connected-remove p q c a m)

module _ {A T : Type 0} ⦃e : Eq A⦄ (timers : Timers A T) (pending : PeerId × A → T → Bool)
    (law : AreTimers timers pending) where
  add_address_nonempty :
      (p q : PeerId) (a : A) (peers : Dict PeerId (List A))
      → lookup p peers ≢ some []
      → lookup p (add_address q a peers) ≢ some []
  unfolding add_address
  add_address_nonempty p q a peers h k = ground (
    arith,
    lookup-insert q p (add a (addresses_of q peers)) peers,
    λ (x : add a (addresses_of q peers) ≡ []). add_nonempty a (addresses_of q peers) x,
  )

  pub established-IsConsistent :
      (now : ℕ) (q : PeerId) (c : ConnectionId) (b : A) (s : MemoryStore A T)
      → IsConsistent pending s
      → IsConsistent pending (on_swarm_event timers now (connection_established q c b) s)
  unfolding on_swarm_event
  established-IsConsistent now q c b s v = record {
    nonempty = λ p. add_address_nonempty p q b s.peers (v.nonempty p);
    live = λ p a h. ground (
      arith,
      law.pending-cancel (q, b) (p, a) s.timer,
      v.live p a,
      is_connected-insert p q c a b s.connections h,
    );
  }

  pub closed-IsConsistent :
      (now : ℕ) (q : PeerId) (c : ConnectionId) (b : A) (s : MemoryStore A T)
      → IsConsistent pending s
      → IsConsistent pending (on_swarm_event timers now (connection_closed q c b) s)
  unfolding on_swarm_event
  closed-IsConsistent now q c b s v = record {
    nonempty = v.nonempty;
    live = λ p a h. ground (
      arith,
      law.pending-start (q, b) (p, a) (now + cleanup_delay) s.timer,
      v.live p a,
      is_connected-remove p q c a s.connections h,
      e.beq_iff b a,
      nat_beq_iff q p,
      h,
    );
  }

  pub external-IsConsistent :
      (now : ℕ) (q : PeerId) (b : A) (s : MemoryStore A T)
      → IsConsistent pending s
      → IsConsistent pending (on_swarm_event timers now (new_external_addr_of_peer q b) s)
  unfolding on_swarm_event
  external-IsConsistent now q b s v = record {
    nonempty = λ p. add_address_nonempty p q b s.peers (v.nonempty p);
    live = v.live;
  }

  pub insert_address-IsConsistent :
      (q : PeerId) (b : A) (s : MemoryStore A T)
      → IsConsistent pending s
      → IsConsistent pending (insert_address timers q b s).1
  unfolding insert_address
  insert_address-IsConsistent q b s v = elim (Bool-cases (contains b (addresses_of q s.peers))) [
    | inl old ↦ rw (old, insert_address) (inserted q b s v)
    | inr new ↦ rw (new, insert_address) (inserted q b s v)
  ]
    where
      inserted :
          (q : PeerId) (b : A) (s : MemoryStore A T)
          → IsConsistent pending s
          → IsConsistent pending (record s {
            persistent = add q s.persistent;
            timer = timers.cancel (q, b) s.timer;
            peers = add_address q b s.peers;
          })
      inserted q b s v = record {
        nonempty = λ p. add_address_nonempty p q b s.peers (v.nonempty p);
        live = λ p a h. ground (arith, law.pending-cancel (q, b) (p, a) s.timer, v.live p a);
      }

  pub remove_peer-IsConsistent :
      (q : PeerId) (s : MemoryStore A T)
      → IsConsistent pending s
      → IsConsistent pending (remove_peer q s).1
  unfolding remove_peer
  remove_peer-IsConsistent q s v = record {
    nonempty = λ p h. ground (arith, lookup-remove q p s.peers, v.nonempty p);
    live = λ p a h. ground (arith, v.live p a);
  }

  put_back-IsConsistent :
      (q : PeerId) (l : List A) (s : MemoryStore A T)
      → IsConsistent pending s
      → IsConsistent pending (put_back q l s)
  unfolding put_back
  put_back-IsConsistent q [] s v = record {
    nonempty = λ p h. ground (arith, lookup-remove q p s.peers, v.nonempty p);
    live = v.live;
  }
  put_back-IsConsistent q (b ∷ l) s v = record {
    nonempty = λ p h. ground (arith, lookup-insert q p (b ∷ l) s.peers, v.nonempty p);
    live = v.live;
  }

  pub remove_address-IsConsistent :
      (q : PeerId) (b : A) (s : MemoryStore A T)
      → IsConsistent pending s
      → IsConsistent pending (remove_address q b s).1
  unfolding remove_address
  remove_address-IsConsistent q b s v = elim (Option-cases (lookup q s.peers)) [
    | inl gone ↦ rw (gone, remove_address) v
    | inr (l, found) ↦ elim (Bool-cases (contains b l)) [
      | inl there ↦
          rw (found, remove_address) (rw there (put_back-IsConsistent q (drop_key b l) s v))
      | inr missing ↦ rw (found, remove_address) (rw missing v)
    ]
  ]

  remove_due-IsConsistent :
      (due : List (PeerId × A)) (s : MemoryStore A T)
      → IsConsistent pending s
      → IsConsistent pending (remove_due timers due s)
  unfolding remove_due
  remove_due-IsConsistent [] s v = v
  remove_due-IsConsistent ((q, b) ∷ due) s v =
      remove_due-IsConsistent due (remove_address q b s).1 (remove_address-IsConsistent q b s v)

  pub poll-IsConsistent :
      (now : ℕ) (s : MemoryStore A T)
      → IsConsistent pending s
      → IsConsistent pending (poll timers now s)
  unfolding poll
  poll-IsConsistent now s v = remove_due-IsConsistent (timers.take_due now s.timer).0 _ (record {
    nonempty = v.nonempty;
    live = λ p a h. ground (arith, law.pending-take_due (p, a) now s.timer, v.live p a h);
  })
