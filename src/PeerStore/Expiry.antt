-- ===== src/PeerStore/Expiry.antt =====
-- Which addresses outlive their timers.
use connexa.Prelude.{
  ◌≡◌, arith, true, false, List, [], ◌∷◌, nat_eq, pair_eq, Bool, Eq, ℕ, ◌↔◌, ◌∙◌, beq_refl,
}
use connexa.Dict.{contains, contains-add}
use connexa.PeerStore.{
  PeerId, SwarmEvent, Timers, MemoryStore, remove_peer, remove_address, insert_address,
  on_swarm_event, poll, ℕ, new_external_addr_of_peer, err, is_connected, already_exists,
  connection_established, connection_closed, other_event,
}
use connexa.PeerStore.Invariant.{
  AreTimers, IsConsistent, insert_address-IsConsistent, remove_address-IsConsistent,
  external-IsConsistent, remove_peer-IsConsistent, poll-IsConsistent, established-IsConsistent,
  closed-IsConsistent,
}
use connexa.PeerStore.Addresses.{is_listed, listed-poll, contains-add_address}

-- One use of the store, by a caller, by the swarm or by the executor that polls it.
pub data Operation (A : Type 0) : Type 0 where
  inserts removes_address : PeerId → A → Operation A
  removes : PeerId → Operation A
  observes : ℕ → SwarmEvent A → Operation A
  polls : ℕ → Operation A

module _ {A T : Type 0} ⦃e : Eq A⦄ (timers : Timers A T) (pending : PeerId × A → T → Bool)
    (law : AreTimers timers pending) where
  pub step : Operation A → MemoryStore A T → MemoryStore A T
  step (inserts p a) s = (insert_address timers p a s).1
  step (removes_address p a) s = (remove_address p a s).1
  step (removes p) s = (remove_peer p s).1
  step (observes now event) s = on_swarm_event timers now event s
  step (polls now) s = poll timers now s

  pub run : List (Operation A) → MemoryStore A T → MemoryStore A T
  run [] s = s
  run (o ∷ os) s = run os (step o s)

  event-IsConsistent :
      (now : ℕ) (event : SwarmEvent A) (s : MemoryStore A T)
      → IsConsistent pending s
      → IsConsistent pending (on_swarm_event timers now event s)
  unfolding on_swarm_event
  event-IsConsistent now (new_external_addr_of_peer p a) s v =
      external-IsConsistent timers pending law now p a s v
  event-IsConsistent now (connection_established p c a) s v =
      established-IsConsistent timers pending law now p c a s v
  event-IsConsistent now (connection_closed p c a) s v =
      closed-IsConsistent timers pending law now p c a s v
  event-IsConsistent now other_event s v = v

  step-IsConsistent :
      (o : Operation A) (s : MemoryStore A T)
      → IsConsistent pending s
      → IsConsistent pending (step o s)
  unfolding step
  step-IsConsistent (inserts p a) s v = insert_address-IsConsistent timers pending law p a s v
  step-IsConsistent (removes_address p a) s v =
      remove_address-IsConsistent timers pending law p a s v
  step-IsConsistent (removes p) s v = remove_peer-IsConsistent timers pending law p s v
  step-IsConsistent (observes now event) s v = event-IsConsistent now event s v
  step-IsConsistent (polls now) s v = poll-IsConsistent timers pending law now s v

  -- Whatever calls, swarm events and polls come, in whatever order: from a consistent store (such as
  -- an empty one), no peer is ever listed without an address, and no timer is ever pending for an
  -- address that an open connection uses.
  pub run-IsConsistent :
      (os : List (Operation A)) (s : MemoryStore A T)
      → IsConsistent pending s
      → IsConsistent pending (run os s)
  unfolding run
  run-IsConsistent [] s v = v
  run-IsConsistent (o ∷ os) s v = run-IsConsistent os (step o s) (step-IsConsistent o s v)

  -- In a consistent store a poll, at any time, keeps every listed address of an open connection.
  pub poll_keeps_connected :
      (now : ℕ) (p : PeerId) (a : A) (s : MemoryStore A T)
      → IsConsistent pending s
      → is_connected p a s.connections ≡ true
      → is_listed p a s ≡ true
      → is_listed p a (poll timers now s) ≡ true
  poll_keeps_connected now p a s v open_connection listed =
      listed-poll timers now p a s
      ∙ ground (arith, law.due_pending (p, a) now s.timer, v.live p a open_connection)

  -- An address that is inserted by hand is listed, whether or not it was there before, and outlives
  -- the cleanup that was due for it: the next poll, at any time, keeps it. The call reports
  -- `AlreadyExists` exactly if the address was there.
  pub poll-insert_address :
      (now : ℕ) (p : PeerId) (a : A) (s : MemoryStore A T)
      → (is_listed p a (poll timers now (insert_address timers p a s).1) ≡ true)
        × (((insert_address timers p a s).0 ≡ err already_exists) ↔ (is_listed p a s ≡ true))
  unfolding insert_address
  poll-insert_address now p a s =
      let s' = (insert_address timers p a s).1 in
      (
        listed-poll timers now p a s'
            ∙ ground (
              arith,
              law.due_pending (p, a) now s'.timer,
              law.pending-cancel (p, a) (p, a) s.timer,
              beq_refl p,
              beq_refl a,
              contains-add_address p p a a s.peers,
            ),
        ground arith,
      )

  -- An address that the swarm reports as external while its cleanup is due is lost at the next poll,
  -- although the peer has been marked persistent: unlike `insert`, this event does not cancel the
  -- timer.
  pub poll-new_external_addr_of_peer :
      (now then_due : ℕ) (p : PeerId) (a : A) (s : MemoryStore A T)
      → contains (p, a) (timers.take_due then_due s.timer).0 ≡ true
      → (is_listed p a (on_swarm_event timers now (new_external_addr_of_peer p a) s) ≡ true)
        × (is_listed p a
              (poll timers then_due (on_swarm_event timers now (new_external_addr_of_peer p a) s))
            ≡ false)
        × (contains p (on_swarm_event timers now (new_external_addr_of_peer p a) s).persistent
            ≡ true)
  unfolding on_swarm_event
  poll-new_external_addr_of_peer now then_due p a s due =
      let s' = on_swarm_event timers now (new_external_addr_of_peer p a) s in
      (
        ground (arith, contains-add_address p p a a s.peers, beq_refl p, beq_refl a),
        listed-poll timers then_due p a s' ∙ ground (arith, due),
        ground (arith, contains-add p p s.persistent, beq_refl p),
      )
