-- ===== src/MultiaddrExt.antt =====
-- src/multiaddr_ext.rs: what the crate asks of a multiaddress. A multiaddress is the list of its
-- protocols, as libp2p iterates it; the protocols that the crate does not look at are `other`.
pub mod Laws
use Prim.Native.Nat.{bit_and}
use connexa.Prelude.{
  ℕ, Bool, true, false, ◌&&◌, ◌||◌, not, Option, none, some, List, [], ◌∷◌, Eq, ◌==◌, nat_eq,
  list_eq, nat_beq, leb, any, ◌≡◌, ◌↔◌, arith, list_beq_iff, nat_beq_iff, list_beq,
}

pub data Protocol : Type 0 where
  ip4 : ℕ → ℕ → ℕ → ℕ → Protocol
  ip6 : List ℕ → Protocol
  p2p : ℕ → Protocol
  p2p_circuit : Protocol
  other : ℕ → Protocol

abbrev pub Multiaddr : Type 0
Multiaddr = List Protocol

abbrev protocol_beq : Protocol → Protocol → Bool
protocol_beq (ip4 a b c d) (ip4 a' b' c' d') =
    nat_beq a a' && (nat_beq b b' && (nat_beq c c' && nat_beq d d'))
protocol_beq (ip6 s) (ip6 t) = list_beq s t
protocol_beq (p2p p) (p2p q) = nat_beq p q
protocol_beq p2p_circuit p2p_circuit = true
protocol_beq (other n) (other m) = nat_beq n m
protocol_beq _ _ = false

pub protocol_beq_iff : (p q : Protocol) → (protocol_beq p q ≡ true) ↔ (p ≡ q)
protocol_beq_iff (ip4 a b c d) q = ground arith
protocol_beq_iff (ip6 s) (ip6 t) = ground (arith, list_beq_iff s t)
protocol_beq_iff (ip6 s) q = ground arith
protocol_beq_iff (p2p p) q = ground arith
protocol_beq_iff p2p_circuit q = ground arith
protocol_beq_iff (other n) q = ground arith

instance abbrev pub protocol_eq : Eq Protocol
protocol_eq = record { beq = protocol_beq; beq_iff = protocol_beq_iff }

abbrev is_circuit : Protocol → Bool
is_circuit p2p_circuit = true
is_circuit _ = false

unfoldable pub is_relayed : Multiaddr → Bool
is_relayed addr = any is_circuit addr

-- `ip.is_loopback()` of an IPv4 or IPv6 component
abbrev loopback_protocol : Protocol → Bool
loopback_protocol (ip4 a b c d) = nat_beq a 127
loopback_protocol (ip6 segments) = segments == 0 ∷ 0 ∷ 0 ∷ 0 ∷ 0 ∷ 0 ∷ 0 ∷ 1 ∷ []
loopback_protocol _ = false

is_loopback : Multiaddr → Bool
is_loopback addr = any loopback_protocol addr

abbrev first_segment : List ℕ → ℕ
first_segment [] = 0
first_segment (s ∷ segments) = s

pub private_segment : ℕ → Bool
private_segment s = nat_beq (bit_and s 0xffc0) 0xfe80 || nat_beq (bit_and s 0xfe00) 0xfc00

-- `Ipv4Addr::is_private`: 10.0.0.0/8, 172.16.0.0/12 and 192.168.0.0/16
private_protocol : Protocol → Bool
unfolding private_segment
private_protocol (ip4 a b c d) =
    nat_beq a 10 || ((nat_beq a 172 && (leb 16 b && leb b 31)) || (nat_beq a 192 && nat_beq b 168))
private_protocol (ip6 segments) = private_segment (first_segment segments)
private_protocol _ = false

is_private : Multiaddr → Bool
unfolding private_protocol
is_private addr = any private_protocol addr

abbrev unspecified_protocol : Protocol → Bool
unspecified_protocol (ip4 a b c d) = nat_beq a 0 && (nat_beq b 0 && (nat_beq c 0 && nat_beq d 0))
unspecified_protocol (ip6 segments) = segments == 0 ∷ 0 ∷ 0 ∷ 0 ∷ 0 ∷ 0 ∷ 0 ∷ 0 ∷ []
unspecified_protocol _ = false

is_unspecified : Multiaddr → Bool
is_unspecified addr = any unspecified_protocol addr

unfoldable pub is_public : Multiaddr → Bool
unfolding is_private is_loopback is_unspecified
is_public addr = not (is_private addr) && (not (is_loopback addr) && not (is_unspecified addr))

-- The loop of `relay_peer_id`
pub relay_peer_after : Option ℕ → Multiaddr → Option ℕ
relay_peer_after last_p2p [] = none
relay_peer_after last_p2p (p2p peer ∷ rest) = relay_peer_after (some peer) rest
relay_peer_after last_p2p (p2p_circuit ∷ rest) = last_p2p
relay_peer_after last_p2p (_ ∷ rest) = relay_peer_after last_p2p rest

pub relay_peer_id : Multiaddr → Option ℕ
unfolding relay_peer_after
relay_peer_id addr = relay_peer_after none addr
