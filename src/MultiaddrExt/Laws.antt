-- ===== src/MultiaddrExt/Laws.antt =====
-- What the questions of src/multiaddr_ext.rs mean.
use connexa.Prelude.{◌≡◌, true, false, Bool, ℕ, refl, Option, none, ◌++◌, some, [], ◌∷◌}
use connexa.MultiaddrExt.{
  p2p_circuit, p2p, is_relayed, relay_peer_after, relay_peer_id, Protocol, Multiaddr, none, ◌∷◌,
  some,
}

-- A part of an address with neither a circuit nor a peer.
abbrev is_plain : Protocol → Bool
is_plain (p2p peer) = false
is_plain p2p_circuit = false
is_plain _ = true

abbrev ArePlain : Multiaddr → Type 0
ArePlain [] = Unit
ArePlain (p ∷ rest) = (is_plain p ≡ true) × ArePlain rest

relay_peer_after-plain :
    (last : Option ℕ) (mid rest : Multiaddr)
    → ArePlain mid
    → relay_peer_after last (mid ++ (p2p_circuit ∷ rest)) ≡ last
unfolding relay_peer_after
relay_peer_after-plain last [] rest h = refl
relay_peer_after-plain last (Protocol.ip4 a b c d ∷ mid) rest h =
    relay_peer_after-plain last mid rest h.1
relay_peer_after-plain last (Protocol.ip6 s ∷ mid) rest h = relay_peer_after-plain last mid rest h.1
relay_peer_after-plain last (Protocol.p2p p ∷ mid) rest h = cc
relay_peer_after-plain last (Protocol.p2p_circuit ∷ mid) rest h = cc
relay_peer_after-plain last (Protocol.other n ∷ mid) rest h =
    relay_peer_after-plain last mid rest h.1

relay_peer_after-found :
    (last : Option ℕ) (front mid rest : Multiaddr) (peer : ℕ)
    → is_relayed front ≡ false
    → ArePlain mid
    → relay_peer_after last (front ++ (p2p peer ∷ (mid ++ (p2p_circuit ∷ rest)))) ≡ some peer
unfolding relay_peer_after is_relayed
relay_peer_after-found last [] mid rest peer h plain =
    relay_peer_after-plain (some peer) mid rest plain
relay_peer_after-found last (Protocol.ip4 a b c d ∷ front) mid rest peer h plain =
    relay_peer_after-found last front mid rest peer h plain
relay_peer_after-found last (Protocol.ip6 s ∷ front) mid rest peer h plain =
    relay_peer_after-found last front mid rest peer h plain
relay_peer_after-found last (Protocol.p2p p ∷ front) mid rest peer h plain =
    relay_peer_after-found (some p) front mid rest peer h plain
relay_peer_after-found last (Protocol.p2p_circuit ∷ front) mid rest peer h plain = cc h
relay_peer_after-found last (Protocol.other n ∷ front) mid rest peer h plain =
    relay_peer_after-found last front mid rest peer h plain

relay_peer_after-direct :
    (last : Option ℕ) (addr : Multiaddr)
    → is_relayed addr ≡ false
    → relay_peer_after last addr ≡ none
unfolding relay_peer_after is_relayed
relay_peer_after-direct last [] h = refl
relay_peer_after-direct last (Protocol.ip4 a b c d ∷ rest) h = relay_peer_after-direct last rest h
relay_peer_after-direct last (Protocol.ip6 s ∷ rest) h = relay_peer_after-direct last rest h
relay_peer_after-direct last (Protocol.p2p p ∷ rest) h = relay_peer_after-direct (some p) rest h
relay_peer_after-direct last (Protocol.p2p_circuit ∷ rest) h = cc h
relay_peer_after-direct last (Protocol.other n ∷ rest) h = relay_peer_after-direct last rest h

-- `relay_peer_id` finds the peer that stands last before the first circuit. With a front that has no
-- circuit and a middle that has neither a circuit nor a peer: of front, peer, middle, circuit it
-- returns that peer, whatever follows; of middle and circuit, and of an address that is the front
-- alone, it returns nothing.
pub relay_peer_id_lem :
    (front mid rest : Multiaddr) (peer : ℕ)
    → is_relayed front ≡ false
    → ArePlain mid
    → (relay_peer_id (front ++ (p2p peer ∷ (mid ++ (p2p_circuit ∷ rest)))) ≡ some peer)
      × (relay_peer_id (mid ++ (p2p_circuit ∷ rest)) ≡ none)
      × (relay_peer_id front ≡ none)
unfolding relay_peer_id
relay_peer_id_lem front mid rest peer direct plain = (
  relay_peer_after-found none front mid rest peer direct plain,
  relay_peer_after-plain none mid rest plain,
  relay_peer_after-direct none front direct,
)
