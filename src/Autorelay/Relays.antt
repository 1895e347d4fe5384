-- ===== src/Autorelay/Relays.antt =====
-- src/behaviour/autorelay.rs: static relays, previous relays and failures.
use connexa.Prelude.{
  ℕ, ◌+◌, ◌-◌, ◌*◌, ◌^◌, min, Bool, true, false, not, ◌&&◌, ◌||◌, none, some, List, [], ◌∷◌, ◌++◌,
  nat_eq, pair_eq, list_eq, if◌then◌else◌, any, nat_beq, ltb, leb, keep, length, drop,
}
use connexa.Dict.{lookup, insert, remove, has}
use connexa.MultiaddrExt.{Multiaddr, protocol_eq}
use connexa.Autorelay.{PeerId, Behaviour, Libp2p, dial, push_event}

unfoldable pub static_dial_in_cooldown : ℕ → PeerId → Behaviour → Bool
static_dial_in_cooldown now p b = elim (lookup p b.static_dial_cooldowns) [
  | none ↦ false
  | some deadline ↦ ltb now deadline
]

unfoldable pub reservation_in_cooldown : ℕ → PeerId → Behaviour → Bool
reservation_in_cooldown now p b = elim (lookup p b.reservation_cooldowns) [
  | none ↦ false
  | some deadline ↦ ltb now deadline
]

unfoldable pub has_direct_connection : PeerId → Behaviour → Bool
has_direct_connection p b =
    any (λ kv. nat_beq kv.0.0 p && not kv.1.endpoint.is_relayed) b.connections

abbrev pub is_empty : List Multiaddr → Bool
is_empty [] = true
is_empty (a ∷ as') = false

unfoldable pub queue_static_dial :
    Libp2p → ℕ → PeerId → List Multiaddr → Behaviour → Bool × Behaviour
unfolding push_event
queue_static_dial lib now p addresses b =
    if not (has p b.static_relays)
      || (is_empty addresses
          || (has_direct_connection p b
              || (static_dial_in_cooldown now p b || has p b.pending_static_dials)))
    then (false, b)
    else (
      true,
      push_event (dial p (lib.connection_id b.dials) addresses) (record b {
        pending_static_dials = insert p (lib.connection_id b.dials) b.pending_static_dials;
        dials = b.dials + 1;
      }),
    )

-- `retain(|(p, _, _)| *p != peer_id)`
unfoldable pub without_peer : PeerId → List (PeerId × Multiaddr × ℕ) → List (PeerId × Multiaddr × ℕ)
without_peer p relays = keep (λ r. not (nat_beq r.0 p)) relays

-- `record_previous_relay` on the list
unfoldable pub push_relay :
    ℕ → PeerId × Multiaddr × ℕ → List (PeerId × Multiaddr × ℕ) → List (PeerId × Multiaddr × ℕ)
unfolding without_peer
push_relay limit relay relays =
    let others = without_peer relay.0 relays in
    (if leb limit (length others) then drop 1 others else others) ++ (relay ∷ [])

unfoldable pub record_previous_relay : ℕ → PeerId → Multiaddr → Behaviour → Behaviour
unfolding push_relay
record_previous_relay time p address b =
    if nat_beq b.config.max_previous_relays 0 then b else record b {
      previous_relays =
          push_relay b.config.max_previous_relays (p, address, time) b.previous_relays;
    }

unfoldable pub forget_previous_relay : PeerId → Behaviour → Behaviour
forget_previous_relay p b = record b { previous_relays = without_peer p b.previous_relays }

-- The largest `u32`, and `Duration::MAX` in nanoseconds.
abbrev pub u32_max : ℕ
u32_max = 4294967295

abbrev duration_max : ℕ
duration_max = 18446744073709551615999999999

-- The cooldown after so many attempts in a row that failed.
unfoldable pub cooldown_after : ℕ → ℕ → ℕ → ℕ
cooldown_after cooldown cooldown_max attempts =
    min (min (cooldown * 2 ^ min (attempts - 1) 20) duration_max) cooldown_max

failures : PeerId → Behaviour → ℕ
failures p b = elim (lookup p b.failure_counts) [ none ↦ 0 | some n ↦ n ]

unfoldable pub record_failure : PeerId → Behaviour → ℕ × Behaviour
unfolding cooldown_after failures
record_failure p b =
    let attempts = min (failures p b + 1) u32_max in
    (
      cooldown_after b.config.failure_cooldown b.config.failure_cooldown_max attempts,
      record b { failure_counts = insert p attempts b.failure_counts },
    )

unfoldable pub clear_failure : PeerId → Behaviour → Behaviour
clear_failure p b = record b {
  failure_counts = remove p b.failure_counts;
  reservation_cooldowns = remove p b.reservation_cooldowns;
}

-- `remove_static_relay`
unfoldable pub remove_static_relay : PeerId → Behaviour → Bool × Behaviour
remove_static_relay p b = (
  has p b.static_relays,
  record b {
    static_dial_cooldowns = remove p b.static_dial_cooldowns;
    static_relays = remove p b.static_relays;
  },
)
