-- ===== src/Task/Rendezvous.antt =====
-- src/task/rendezvous.rs: registrations and discoveries at rendezvous nodes. libp2p names the node and
-- the namespace in its answer, so that requests with the same two wait for each other.
use connexa.Prelude.{
  ℕ, Bool, true, false, Option, none, some, List, [], ◌∷◌, Result, ok, err, if◌then◌else◌, Eq, ◌==◌,
  nat_eq, pair_eq, list_eq, ◌≡◌, ◌↔◌, arith,
}
use connexa.Task.{PeerId, Error, disabled, rendezvous, rendezvous_failed, io}
use connexa.Task.Queues.{Queues, Replies, ask, finish, fail_pending}

abbrev pub Namespace : Type 0
Namespace = ℕ

abbrev pub Cookie : Type 0
Cookie = ℕ

-- A peer with its addresses.
abbrev pub Peers : Type 0
Peers = List (PeerId × List ℕ)

-- `rendezvous_client` of the swarm, which may be disabled.
pub record Client (W : Type 0) : Type 0 where
  pub is_enabled : W → Bool
  pub register : Namespace → PeerId → Option ℕ → W → Result ℕ (Unit {0}) × W
  pub unregister : Namespace → PeerId → W → W
  pub discover : Option Namespace → Option Cookie → Option ℕ → PeerId → W → W
  pub namespace : Cookie → Option Namespace

-- The two fields of `ConnexaTask`
pub record Pending : Type 0 where
  pub pending_register : Queues (PeerId × Namespace) (Option ℕ)
  pub pending_discover : Queues (PeerId × Option Namespace) (Option Cookie × Option ℕ)

pub data RendezvousCommand : Type 0 where
  register : Namespace → PeerId → Option ℕ → ℕ → RendezvousCommand
  unregister : Namespace → PeerId → ℕ → RendezvousCommand
  discover : Option Namespace → PeerId → Option Cookie → Option ℕ → ℕ → RendezvousCommand

-- `rendezvous::client::Event`; a registration is the peer and the addresses of its record.
pub data ClientEvent : Type 0 where
  discovered : PeerId → Peers → Cookie → ClientEvent
  discover_failed : PeerId → Option Namespace → ℕ → ClientEvent
  registered : PeerId → ℕ → Namespace → ClientEvent
  register_failed : PeerId → Namespace → ℕ → ClientEvent
  expired : PeerId → ClientEvent

-- What is sent: to registrations, to discoveries, and to one who unregisters.
pub record Sent : Type 0 where
  pub to_register : Replies (PeerId × Namespace) (Unit {0})
  pub to_discover : Replies (PeerId × Option Namespace) (Cookie × Peers)
  pub to_unregister : List (ℕ × Result Error (Unit {0}))

abbrev pub nothing : Sent
nothing = record { to_register = []; to_discover = []; to_unregister = [] }

abbrev pub option_beq : Option ℕ → Option ℕ → Bool
option_beq none none = true
option_beq (some a) (some b) = a == b
option_beq _ _ = false

pub option_beq_iff : (a b : Option ℕ) → (option_beq a b ≡ true) ↔ (a ≡ b)
option_beq_iff none none = ground arith
option_beq_iff (some a) (some b) = ground arith
option_beq_iff none (some b) = ground arith
option_beq_iff (some a) none = ground arith

instance abbrev pub option_eq : Eq (Option ℕ)
option_eq = record { beq = option_beq; beq_iff = option_beq_iff }

module _ {W : Type 0} (client : Client W) where
  unfoldable pub start_rendezvous_discovery :
      PeerId × Option Namespace → Option Cookie × Option ℕ → W → Result Error (Unit {0}) × W
  start_rendezvous_discovery key (cookie, ttl) w =
      if client.is_enabled w
      then (ok tt, client.discover key.1 cookie ttl key.0 w)
      else (err (disabled rendezvous), w)

  unfoldable pub start_rendezvous_registration :
      PeerId × Namespace → Option ℕ → W → Result Error (Unit {0}) × W
  start_rendezvous_registration key ttl w =
      let (result, w') = client.register key.1 key.0 ttl w in
      if client.is_enabled w
      then (elim result [ ok _ ↦ ok tt | err error ↦ err (io error) ], w')
      else (err (disabled rendezvous), w)

  unfoldable pub process_rendezvous_command : RendezvousCommand → Pending → W → Sent × Pending × W
  unfolding start_rendezvous_registration start_rendezvous_discovery
  process_rendezvous_command (register namespace peer_id ttl resp) t w =
      let (sent, m, w') =
        ask start_rendezvous_registration (peer_id, namespace) ttl resp t.pending_register w in
      (record nothing { to_register = sent }, record t { pending_register = m }, w')
  process_rendezvous_command (unregister namespace peer_id resp) t w =
      if client.is_enabled w
      then (
        record nothing { to_unregister = (resp, ok tt) ∷ [] },
        t,
        client.unregister namespace peer_id w,
      )
      else (record nothing { to_unregister = (resp, err (disabled rendezvous)) ∷ [] }, t, w)
  process_rendezvous_command (discover namespace peer_id cookie ttl resp) t w =
      let (sent, m, w') =
        ask start_rendezvous_discovery (peer_id, namespace) (cookie, ttl) resp t.pending_discover
          w in
      (record nothing { to_discover = sent }, record t { pending_discover = m }, w')

  unfoldable pub finish_rendezvous_discovery :
      PeerId × Option Namespace → Result Error (Cookie × Peers) → Pending → W → Sent × Pending × W
  unfolding start_rendezvous_discovery
  finish_rendezvous_discovery key result t w =
      let (sent, m, w') = finish start_rendezvous_discovery key result t.pending_discover w in
      (record nothing { to_discover = sent }, record t { pending_discover = m }, w')

  unfoldable pub finish_rendezvous_registration :
      PeerId × Namespace → Result Error (Unit {0}) → Pending → W → Sent × Pending × W
  unfolding start_rendezvous_registration
  finish_rendezvous_registration key result t w =
      let (sent, m, w') = finish start_rendezvous_registration key result t.pending_register w in
      (record nothing { to_register = sent }, record t { pending_register = m }, w')

  unfoldable pub process_rendezvous_client_event : ClientEvent → Pending → W → Sent × Pending × W
  unfolding finish_rendezvous_discovery finish_rendezvous_registration
  process_rendezvous_client_event (discovered node registrations cookie) t w =
      finish_rendezvous_discovery (node, client.namespace cookie) (ok (cookie, registrations)) t w
  process_rendezvous_client_event (discover_failed node namespace error) t w =
      finish_rendezvous_discovery (node, namespace) (err (rendezvous_failed error)) t w
  process_rendezvous_client_event (registered node ttl namespace) t w =
      finish_rendezvous_registration (node, namespace) (ok tt) t w
  process_rendezvous_client_event (register_failed node namespace error) t w =
      finish_rendezvous_registration (node, namespace) (err (rendezvous_failed error)) t w
  process_rendezvous_client_event (expired peer) t w = (nothing, t, w)

-- `fail_pending_rendezvous` of src/task/swarm.rs
unfoldable pub fail_pending_rendezvous : PeerId → Pending → Sent × Pending
fail_pending_rendezvous peer_id t =
    let (discoveries, to_discover) = fail_pending peer_id t.pending_discover in
    let (registrations, to_register) = fail_pending peer_id t.pending_register in
    (
      record nothing { to_register = registrations; to_discover = discoveries },
      record { pending_register = to_register; pending_discover = to_discover },
    )
