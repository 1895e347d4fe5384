-- ===== src/Autorelay/Handler.antt =====
-- src/behaviour/autorelay/handler.rs: the handler of a connection, which reports whether the remote
-- speaks the hop protocol.
pub mod Truthful
use connexa.Prelude.{
  ℕ, Bool, true, false, not, ◌&&◌, Option, none, some, List, [], ◌∷◌, ◌++◌, any, ◌==◌, list_eq,
  nat_eq, if◌then◌else◌, ◌≡◌, refl, sym, ◌∙◌, ap, arith, Bool-cases, inl, inr,
}

pub data Out : Type 0 where
  supported unsupported : Out

-- libp2p: `SupportedProtocols`, whose `on_protocols_change` says whether the set has changed, and
-- `HOP_PROTOCOL_NAME`.
pub record Protocols (C P : Type 0) : Type 0 where
  pub on_protocols_change : C → P → Bool × P
  pub names : P → List (List ℕ)
  pub hop_name : List ℕ

pub record Handler (P : Type 0) : Type 0 where
  pub events : List Out
  pub is_supported : Bool
  pub supported_protocol : P

-- `Handler::default`
unfoldable pub new : {P : Type 0} → P → Handler P
new p = record { events = []; is_supported = false; supported_protocol = p }

pub data ConnectionEvent (C : Type 0) : Type 0 where
  remote_protocols_change : C → ConnectionEvent C
  other_event : ConnectionEvent C

pub data Op (C : Type 0) : Type 0 where
  event_op : ConnectionEvent C → Op C
  poll_op : Op C

abbrev give : List Out → Option Out → List Out
give reports none = reports
give reports (some event) = reports ++ (event ∷ [])

-- `events.pop_front()`
abbrev pop : {P : Type 0} → Handler P → List Out → Option Out × Handler P
pop h [] = (none, h)
pop h (event ∷ rest) = (some event, record h { events = rest })

module _ {C P : Type 0} (lib : Protocols C P) where
  -- Whether the remote speaks the hop protocol.
  unfoldable pub speaks_hop : P → Bool
  speaks_hop p = any (λ proto. lib.hop_name == proto) (lib.names p)

  unfoldable pub notify : Bool → Handler P → Handler P
  notify valid h =
      if valid && not h.is_supported
      then record h { is_supported = true; events = h.events ++ (supported ∷ []) }
      else if not valid && h.is_supported
      then record h { is_supported = false; events = h.events ++ (unsupported ∷ []) }
      else h

  unfoldable pub on_connection_event : ConnectionEvent C → Handler P → Handler P
  unfolding notify speaks_hop
  on_connection_event other_event h = h
  on_connection_event (remote_protocols_change c) h =
      let (change, p) = lib.on_protocols_change c h.supported_protocol in
      let h' = record h { supported_protocol = p } in
      if change then notify (speaks_hop p) h' else h'

  unfoldable pub poll : Handler P → Option Out × Handler P
  poll h = pop h h.events

  -- Events and polls in any order; what the polls have given so far goes along.
  unfoldable pub step : Op C → List Out × Handler P → List Out × Handler P
  unfolding on_connection_event poll
  step (event_op e) (reports, h) = (reports, on_connection_event e h)
  step poll_op (reports, h) = let (o, h') = poll h in (give reports o, h')

  unfoldable pub run : List (Op C) → List Out × Handler P → List Out × Handler P
  unfolding step
  run [] s = s
  run (op ∷ ops) s = run ops (step op s)
