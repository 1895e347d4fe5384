-- ===== src/Autorelay/Handler/Truthful.antt =====
-- The reports of a connection's handler.
use connexa.Prelude.{
  Bool, true, false, Option, none, some, List, [], ◌∷◌, ◌++◌, any, ◌==◌, list_eq, nat_eq, ◌≡◌, refl,
  sym, ◌∙◌, ap, arith, Bool-cases, inl, inr,
}
use connexa.Autorelay.Handler.{
  Protocols, speaks_hop, Out, on_connection_event, notify, run, new, poll, Handler, supported, Op,
  ConnectionEvent, unsupported, event_op, remote_protocols_change, other_event, poll_op, give, pop,
}

-- What the behaviour believes after these reports, if each of them is news to it.
unfoldable pub follows : Bool → List Out → Option Bool
follows b [] = some b
follows false (supported ∷ reports) = follows true reports
follows true (unsupported ∷ reports) = follows false reports
follows false (unsupported ∷ reports) = none
follows true (supported ∷ reports) = none

follows-supported :
    (b : Bool) (reports : List Out)
    → follows b reports ≡ some false
    → follows b (reports ++ (supported ∷ [])) ≡ some true
unfolding follows
follows-supported b [] h = ground (arith, h)
follows-supported false (supported ∷ reports) h = follows-supported true reports h
follows-supported true (unsupported ∷ reports) h = follows-supported false reports h
follows-supported false (unsupported ∷ reports) h = cc h
follows-supported true (supported ∷ reports) h = cc h

follows-unsupported :
    (b : Bool) (reports : List Out)
    → follows b reports ≡ some true
    → follows b (reports ++ (unsupported ∷ [])) ≡ some false
unfolding follows
follows-unsupported b [] h = ground (arith, h)
follows-unsupported false (supported ∷ reports) h = follows-unsupported true reports h
follows-unsupported true (unsupported ∷ reports) h = follows-unsupported false reports h
follows-unsupported false (unsupported ∷ reports) h = cc h
follows-unsupported true (supported ∷ reports) h = cc h

append_assoc : (a b c : List Out) → (a ++ b) ++ c ≡ a ++ (b ++ c)
append_assoc [] b c = refl
append_assoc (x ∷ a) b c = ap (λ l. x ∷ l) (append_assoc a b c)

module _ {C P : Type 0} (lib : Protocols C P)
    (unchanged : (c : C) (p : P)
      → (lib.on_protocols_change c p).0 ≡ false
      → lib.names (lib.on_protocols_change c p).1 ≡ lib.names p) where
  record IsTruthful (reports : List Out) (h : Handler P) : Type 0 where
    told : follows false (reports ++ h.events) ≡ some h.is_supported
    known : h.is_supported ≡ speaks_hop lib h.supported_protocol

  notify_lem :
      (reports : List Out) (valid : Bool) (h : Handler P)
      → follows false (reports ++ h.events) ≡ some h.is_supported
      → (follows false (reports ++ (notify lib valid h).events)
          ≡ some (notify lib valid h).is_supported)
        × ((notify lib valid h).is_supported ≡ valid)
        × ((notify lib valid h).supported_protocol ≡ h.supported_protocol)
  unfolding notify
  notify_lem reports true h e = elim (Bool-cases h.is_supported) [
    | inl already ↦ rw (notify, already) (e ∙ ap some already, refl, refl)
    | inr news ↦
        rw (notify, news)
          (
            ap (follows false) (sym (append_assoc reports h.events (supported ∷ [])))
                ∙ follows-supported false (reports ++ h.events) (e ∙ ap some news),
            refl,
            refl,
          )
  ]
  notify_lem reports false h e = elim (Bool-cases h.is_supported) [
    | inl news ↦
        rw (notify, news)
          (
            ap (follows false) (sym (append_assoc reports h.events (unsupported ∷ [])))
                ∙ follows-unsupported false (reports ++ h.events) (e ∙ ap some news),
            refl,
            refl,
          )
    | inr already ↦ rw (notify, already) (e ∙ ap some already, refl, refl)
  ]

  on_connection_event-IsTruthful :
      (reports : List Out) (e : ConnectionEvent C) (h : Handler P)
      → IsTruthful reports h
      → IsTruthful reports (on_connection_event lib e h)
  unfolding on_connection_event speaks_hop
  on_connection_event-IsTruthful reports other_event h v = v
  on_connection_event-IsTruthful reports (remote_protocols_change c) h v =
      elim (Bool-cases (lib.on_protocols_change c h.supported_protocol).0) [
        | inl change ↦
            let p = (lib.on_protocols_change c h.supported_protocol).1 in
            let (told, known, same) =
              notify_lem reports (speaks_hop lib p) (record h { supported_protocol = p }) v.told in
            rw (on_connection_event, change)
              (record { told = told; known = known ∙ ap (speaks_hop lib) (sym same) })
        | inr kept ↦
            rw (on_connection_event, kept)
              (record {
                told = v.told;
                known =
                    v.known
                    ∙ ap (any (λ proto. lib.hop_name == proto))
                        (sym (unchanged c h.supported_protocol kept));
              })
      ]

  poll-IsTruthful :
      (reports : List Out) (h : Handler P)
      → IsTruthful reports h
      → IsTruthful (give reports (poll lib h).0) (poll lib h).1
  unfolding poll
  poll-IsTruthful reports h v = by_queue h.events v.told
    where
      by_queue :
          (l : List Out)
          → follows false (reports ++ l) ≡ some h.is_supported
          → IsTruthful (give reports (pop h l).0) (pop h l).1
      by_queue [] e = v
      by_queue (event ∷ rest) e = record {
        told = ap (follows false) (append_assoc reports (event ∷ []) rest) ∙ e;
        known = v.known;
      }

  speaks_nothing : (p : P) → lib.names p ≡ [] → speaks_hop lib p ≡ false
  unfolding speaks_hop
  speaks_nothing p empty = ap (any (λ proto. lib.hop_name == proto)) empty

  run-IsTruthful :
      (ops : List (Op C)) (reports : List Out) (h : Handler P)
      → IsTruthful reports h
      → IsTruthful (run lib ops (reports, h)).0 (run lib ops (reports, h)).1
  unfolding run
  run-IsTruthful [] reports h v = v
  run-IsTruthful (event_op e ∷ ops) reports h v =
      run-IsTruthful ops reports _ (on_connection_event-IsTruthful reports e h v)
  run-IsTruthful (poll_op ∷ ops) reports h v = run-IsTruthful ops _ _ (poll-IsTruthful reports h v)

  -- From a new handler that knows of no protocol, through any events and polls: every report is news,
  -- and after those that are still queued the last one tells whether the remote speaks the hop protocol.
  pub follows-run :
      (ops : List (Op C)) (p : P)
      → lib.names p ≡ []
      → follows false ((run lib ops ([], new p)).0 ++ (run lib ops ([], new p)).1.events)
        ≡ some (speaks_hop lib (run lib ops ([], new p)).1.supported_protocol)
  unfolding new follows
  follows-run ops p empty =
      let v =
        run-IsTruthful ops [] (new p)
          (record { told = refl; known = sym (speaks_nothing p empty) }) in
      v.told ∙ ap some v.known
