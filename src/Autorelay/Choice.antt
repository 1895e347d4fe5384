-- ===== src/Autorelay/Choice.antt =====
-- src/behaviour/autorelay.rs: which peers `meet_reservation_target` chooses among.
use connexa.Prelude.{
  ℕ, Bool, true, false, not, none, some, refl, ltb, ◌∙◌, ◌&&◌, ◌||◌, ◌≡◌, arith, ap, Bool-cases,
  inl, inr, List, [], ◌∷◌, any, nat_eq, pair_eq, nat_beq, nat_beq_iff,
}
use connexa.Dict.{Dict, lookup, has, contains}
use connexa.Autorelay.{PeerId, ConnectionId, Connection, Behaviour, is_supported}
use connexa.Autorelay.Relays.{reservation_in_cooldown}
use connexa.Autorelay.Reserve.{add_candidate, is_candidate, candidates}

has-add_candidate :
    (p q : PeerId) (c : ConnectionId) (m : Dict PeerId ConnectionId)
    → has p (add_candidate q c m) ≡ (nat_beq q p || has p m)
unfolding add_candidate lookup
has-add_candidate p q c [] = ground arith
has-add_candidate p q c ((r, d) ∷ m) = ground (arith, has-add_candidate p q c m)

-- Whether some connection of the peer passes the test of the loop.
abbrev is_chosen :
    ℕ → Behaviour → List PeerId → PeerId → Dict (PeerId × ConnectionId) Connection → Bool
is_chosen now b covered p connections =
    any (λ kv. nat_beq kv.0.0 p && is_candidate now b covered kv.0.0 kv.1) connections

choose :
    (now : ℕ) (b : Behaviour) (covered : List PeerId) (p q : PeerId) (c : ConnectionId)
    (info : Connection) (connections : Dict (PeerId × ConnectionId) Connection)
    → (nat_beq q p ≡ true → has q b.static_relays ≡ has p b.static_relays)
    → has p (candidates now b covered connections).0
      ≡ (has p b.static_relays && is_chosen now b covered p connections)
    → has p (candidates now b covered connections).1
      ≡ (not (has p b.static_relays) && is_chosen now b covered p connections)
    → (has p (candidates now b covered (((q, c), info) ∷ connections)).0
        ≡ (has p b.static_relays && is_chosen now b covered p (((q, c), info) ∷ connections)))
      × (has p (candidates now b covered (((q, c), info) ∷ connections)).1 ≡ (
          not (has p b.static_relays) && is_chosen now b covered p (((q, c), info) ∷ connections)))
unfolding candidates
choose now b covered p q c info connections same static others =
    let rest = candidates now b covered connections in
    let s = has-add_candidate p q c rest.0 in
    let o = has-add_candidate p q c rest.1 in
    elim (Bool-cases (is_candidate now b covered q info)) [
      | inr passed ↦ rw passed (ground (arith, static, others))
      | inl wanted ↦ elim (Bool-cases (has q b.static_relays)) [
        | inl chosen ↦ rw (wanted, chosen) (ground (arith, s, static, others, same))
        | inr found ↦ rw (wanted, found) (ground (arith, o, static, others, same))
      ]
    ]

has_chosen :
    (now : ℕ) (b : Behaviour) (covered : List PeerId) (p : PeerId)
    (connections : Dict (PeerId × ConnectionId) Connection)
    → (has p (candidates now b covered connections).0
        ≡ (has p b.static_relays && is_chosen now b covered p connections))
      × (has p (candidates now b covered connections).1
          ≡ (not (has p b.static_relays) && is_chosen now b covered p connections))
unfolding candidates lookup
has_chosen now b covered p [] = ground arith
has_chosen now b covered p (((q, c), info) ∷ connections) =
    let rest = candidates now b covered connections in
    let (static, others) = has_chosen now b covered p connections in
    let same : nat_beq q p ≡ true → has q b.static_relays ≡ has p b.static_relays =
      λ e. ap (λ r. has r b.static_relays) ((nat_beq_iff q p).0 e) in
    choose now b covered p q c info connections same static others

-- Whether a reservation with the peer failed and the peer is to be left alone until later.
abbrev is_cooling : ℕ → PeerId → Dict PeerId ℕ → Bool
is_cooling now p cooldowns = elim (lookup p cooldowns) [
  | none ↦ false
  | some deadline ↦ ltb now deadline
]

-- Whether some connection of the peer is to a relay.
abbrev is_relay : PeerId → Dict (PeerId × ConnectionId) Connection → Bool
is_relay p connections = any (λ kv. nat_beq kv.0.0 p && is_supported kv.1.relay_status) connections

abbrev pub is_available :
    ℕ → Behaviour → List PeerId → PeerId → Dict (PeerId × ConnectionId) Connection → Bool
is_available now b covered p connections =
    is_relay p connections
    && (not (contains p covered) && not (is_cooling now p b.reservation_cooldowns))

is_candidate_lem :
    (now : ℕ) (b : Behaviour) (covered : List PeerId) (p : PeerId) (info : Connection)
    → is_candidate now b covered p info ≡ (
        not (contains p covered)
        && (not (is_cooling now p b.reservation_cooldowns) && is_supported info.relay_status))
unfolding is_candidate reservation_in_cooldown
is_candidate_lem now b covered p info = refl

is_chosen-eq-is_available :
    (now : ℕ) (b : Behaviour) (covered : List PeerId) (p : PeerId)
    (connections : Dict (PeerId × ConnectionId) Connection)
    → is_chosen now b covered p connections ≡ is_available now b covered p connections
is_chosen-eq-is_available now b covered p [] = refl
is_chosen-eq-is_available now b covered p (((q, c), info) ∷ connections) =
    let same : nat_beq q p ≡ true
        → is_candidate now b covered q info ≡ is_candidate now b covered p info =
      λ e. ap (λ r. is_candidate now b covered r info) ((nat_beq_iff q p).0 e) in
    ground (
      arith,
      same,
      is_candidate_lem now b covered p info,
      is_chosen-eq-is_available now b covered p connections,
    )

-- A peer is a candidate exactly if one of its connections is to a relay, the peer is not covered by a
-- reservation, and the deadline of its cooldown, if there is one, has come; it stands among the
-- static candidates if it is a static relay, and among the others if it is not.
pub has-candidates :
    (now : ℕ) (b : Behaviour) (covered : List PeerId) (p : PeerId)
    (connections : Dict (PeerId × ConnectionId) Connection)
    → (has p (candidates now b covered connections).0
        ≡ (has p b.static_relays && is_available now b covered p connections))
      × (has p (candidates now b covered connections).1
          ≡ (not (has p b.static_relays) && is_available now b covered p connections))
has-candidates now b covered p connections =
    let (static, others) = has_chosen now b covered p connections in
    let same = is_chosen-eq-is_available now b covered p connections in
    (
      static ∙ ap (λ a. has p b.static_relays && a) same,
      others ∙ ap (λ a. not (has p b.static_relays) && a) same,
    )
