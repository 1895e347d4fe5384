-- ===== src/Task/Closing.antt =====
-- `process_swarm_event` of src/task/swarm.rs once more, with what it does to the requests at rendezvous
-- nodes: the close of the last connection to a peer ends them.
use connexa.Prelude.{
  ◌≡◌, ℕ, Option, none, some, List, [], if◌then◌else◌, ◌==◌, nat_eq, pair_eq, arith,
}
use connexa.Dict.{lookup, lookup-remove}
use connexa.Task.{PeerId}
use connexa.Task.Queues.Fifo.{waiting}
use connexa.Task.Queues.Served.{waiting-fail_pending}
use connexa.Task.Rendezvous.{
  Pending, Sent, fail_pending_rendezvous, nothing, option_eq, Namespace, Cookie, Peers,
}
use connexa.Task.Swarm.{Swarm, Tables, Output}
use connexa.Task.Swarm.Events.{SwarmEvent, on_closed, process_swarm_event}

-- The peer of a connection that was the last one.
abbrev pub gone : SwarmEvent → Option PeerId
gone (on_closed peer_id connection_id endpoint num_established cause) =
    if num_established == 0 then some peer_id else none
gone _ = none

unfoldable pub process_closing : Option PeerId → Pending → Sent × Pending
process_closing none p = (nothing, p)
process_closing (some peer_id) p = fail_pending_rendezvous peer_id p

module _ {W : Type 0} (swarm : Swarm W) where
  unfoldable pub process_event :
      SwarmEvent → Tables → Pending → W → List Output × Sent × Tables × Pending
  unfolding process_closing
  process_event e t p w =
      let (out, t') = process_swarm_event swarm e t w in
      let (sent, p') = process_closing (gone e) p in (out, sent, t', p')

  -- Once the last connection to a peer has closed, no command waits any more for this connection or
  -- this peer to close, and no registration or discovery waits for this peer.
  pub nothing_waits :
      (peer : PeerId) (id endpoint : ℕ) (cause : Option ℕ) (t : Tables) (p : Pending) (w : W)
      → let (out, sent, t', p') = process_event (on_closed peer id endpoint 0 cause) t p w in
        (lookup id t'.pending_disconnection_by_connection_id ≡ none)
        × (lookup peer t'.pending_disconnection_by_peer_id ≡ none)
        × ((namespace : Namespace) → waiting (peer, namespace) p'.pending_register ≡ [])
        × ((namespace : Option Namespace) → waiting (peer, namespace) p'.pending_discover ≡ [])
  unfolding process_event process_swarm_event fail_pending_rendezvous process_closing
  nothing_waits peer id endpoint cause t p w = (
    ground (arith, lookup-remove id id t.pending_disconnection_by_connection_id),
    ground (arith, lookup-remove peer peer t.pending_disconnection_by_peer_id),
    λ namespace.
        ground (arith, waiting-fail_pending (Unit {0}) peer peer namespace p.pending_register),
    λ namespace.
        ground
          (arith, waiting-fail_pending (Cookie × Peers) peer peer namespace p.pending_discover),
  )
