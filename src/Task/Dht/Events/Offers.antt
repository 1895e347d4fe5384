-- ===== src/Task/Dht/Events/Offers.antt =====
-- Records that other peers send are offered to the listeners, who confirm them.
use connexa.Prelude.{
  ℕ, ◌≡◌, refl, Option, none, some, List, [], ◌∷◌, ◌++◌, arith, ap, nat_eq, ◌∙◌, sym, ap₂,
}
use connexa.Dict.{Dict, lookup-insert}
use connexa.Task.{PeerId}
use connexa.Task.Dht.{
  Kademlia, Tables, Record, Key, Output, answer, item, close, notify, DhtEvent, put_record,
  provide_record, list_of,
}
use connexa.Task.Dht.Events.{
  add_receivers, offer_all, process_put_record, process_kademlia_event, on_put_record,
}
use mathlib.Core.List.{append-nil}

abbrev pub confirmation : DhtEvent → Option ℕ
confirmation (put_record source r confirm) = confirm
confirmation (provide_record r confirm) = confirm

-- The listeners that are notified, in order.
abbrev pub notified : List Output → List ℕ
notified [] = []
notified (notify ch event ∷ out) = ch ∷ notified out
notified (answer ch a ∷ out) = notified out
notified (item ch a ∷ out) = notified out
notified (close ch ∷ out) = notified out

abbrev cons_option : Option ℕ → List ℕ → List ℕ
cons_option none l = l
cons_option (some c) l = c ∷ l

-- The confirmations that they are given.
abbrev pub offered : List Output → List ℕ
offered [] = []
offered (notify ch event ∷ out) = cons_option (confirmation event) (offered out)
offered (answer ch a ∷ out) = offered out
offered (item ch a ∷ out) = offered out
offered (close ch ∷ out) = offered out

-- The record, put to each listener with a confirmation of its own.
abbrev pub requests : PeerId → Record → List ℕ → List ℕ → List Output
requests source r (ch ∷ listeners) (c ∷ confirms) =
    notify ch (put_record source (some r) (some c)) ∷ requests source r listeners confirms
requests source r _ _ = []

notified-append : (out more : List Output) → notified (out ++ more) ≡ notified out ++ notified more
notified-append [] more = refl
notified-append (notify ch event ∷ out) more = ap (◌∷◌ ch) (notified-append out more)
notified-append (answer ch a ∷ out) more = notified-append out more
notified-append (item ch a ∷ out) more = notified-append out more
notified-append (close ch ∷ out) more = notified-append out more

cons_option-append : (o : Option ℕ) (l m : List ℕ) → cons_option o (l ++ m) ≡ cons_option o l ++ m
cons_option-append none l m = refl
cons_option-append (some c) l m = refl

offered-append : (out more : List Output) → offered (out ++ more) ≡ offered out ++ offered more
offered-append [] more = refl
offered-append (notify ch event ∷ out) more =
    ap (cons_option (confirmation event)) (offered-append out more)
    ∙ cons_option-append (confirmation event) (offered out) (offered more)
offered-append (answer ch a ∷ out) more = offered-append out more
offered-append (item ch a ∷ out) more = offered-append out more
offered-append (close ch ∷ out) more = offered-append out more

list_of-add_receivers :
    (key : Key) (rxs : List ℕ) (m : Dict Key (List ℕ))
    → list_of key (add_receivers key rxs m) ≡ list_of key m ++ rxs
list_of-add_receivers key [] m = sym (append-nil (list_of key m))
list_of-add_receivers key (rx ∷ rxs) m =
    ground (arith, lookup-insert key key (list_of key m ++ (rx ∷ rxs)) m)

module _ {W : Type 0} (kad : Kademlia W) where
  notified-offer_all :
      (listeners : List ℕ) (event : Option ℕ → DhtEvent) (w : W)
      → notified (offer_all kad listeners event w).0 ≡ listeners
  unfolding offer_all
  notified-offer_all [] event w = refl
  notified-offer_all (ch ∷ listeners) event w =
      ap (◌∷◌ ch) (notified-offer_all listeners event (kad.oneshot w).1)

  offered-offer_all :
      (listeners : List ℕ) (event : Option ℕ → DhtEvent) (w : W)
      → ((c : ℕ) → confirmation (event (some c)) ≡ some c)
      → offered (offer_all kad listeners event w).0 ≡ (offer_all kad listeners event w).1
  unfolding offer_all
  offered-offer_all [] event w h = refl
  offered-offer_all (ch ∷ listeners) event w h =
      rw (h (kad.oneshot w).0)
        (ap (◌∷◌ (kad.oneshot w).0) (offered-offer_all listeners event (kad.oneshot w).1 h))

  requests-offer_all :
      (source : PeerId) (r : Record) (listeners : List ℕ) (w : W)
      → let (out, confirms, w') = offer_all kad listeners (put_record source (some r)) w in
        out ≡ requests source r listeners confirms
  unfolding offer_all
  requests-offer_all source r [] w = refl
  requests-offer_all source r (ch ∷ listeners) w =
      ap (◌∷◌ (notify ch (put_record source (some r) (some (kad.oneshot w).0))))
        (requests-offer_all source r listeners (kad.oneshot w).1)

  -- What is sent on an inbound request to store a record is the record, with its source and a
  -- confirmation, to every listener for all keys and then to every listener for its key, once for
  -- each time that it stands there, and nothing else; and the task waits for every confirmation that
  -- it hands out and for no other.
  pub offered-put_record :
      (source : PeerId) (r : Record) (t : Tables) (w : W)
      → let (out, t', w') = process_kademlia_event kad (on_put_record source (some r)) t w in
        (notified out ≡ t.dht_event_global_sender ++ list_of r.key t.dht_event_sender)
        × ((global keyed : List ℕ) × (out
              ≡ requests source r t.dht_event_global_sender global
                ++ requests source r (list_of r.key t.dht_event_sender) keyed)
            × (offered out ≡ global ++ keyed)
            × (t'.dht_put_record_global_receiver ≡ t.dht_put_record_global_receiver ++ global)
            × (list_of r.key t'.dht_put_record_receiver
                ≡ list_of r.key t.dht_put_record_receiver ++ keyed))
  unfolding process_kademlia_event process_put_record
  offered-put_record source r t w =
      let (out, confirms, w1) =
        offer_all kad t.dht_event_global_sender (put_record source (some r)) w in
      let (more, keyed, w2) =
        offer_all kad (list_of r.key t.dht_event_sender) (put_record source (some r)) w1 in
      (
        notified-append out more
            ∙ ap₂ (◌++◌) (notified-offer_all t.dht_event_global_sender _ w)
                (notified-offer_all (list_of r.key t.dht_event_sender) _ w1),
        (
          confirms,
          keyed,
          ap₂ (◌++◌) (requests-offer_all source r t.dht_event_global_sender w)
              (requests-offer_all source r (list_of r.key t.dht_event_sender) w1),
          offered-append out more
              ∙ ap₂ (◌++◌) (offered-offer_all t.dht_event_global_sender _ w (λ c. refl))
                  (offered-offer_all (list_of r.key t.dht_event_sender) _ w1 (λ c. refl)),
          refl,
          list_of-add_receivers r.key keyed t.dht_put_record_receiver,
        ),
      )
