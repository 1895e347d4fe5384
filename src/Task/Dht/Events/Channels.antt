-- ===== src/Task/Dht/Events/Channels.antt =====
-- How often a channel is answered, and how often it waits for a query.
use connexa.Prelude.{
  ℕ, ◌+◌, ◌≡◌, refl, Option, none, some, List, [], ◌∷◌, ◌++◌, arith, nat_eq, ◌==◌,
}
use connexa.Dict.Values.{one_if, is_channel, times, IsMap}
use connexa.Task.Dht.{Kademlia, Tables, Output, answer, item, close, notify, Answer, DhtEvent}
use connexa.Task.Dht.Events.{send, notify_all, offer_all, with_channel}

-- How often the channel is answered.
abbrev pub told : ℕ → List Output → ℕ
told c [] = 0
told c (answer ch a ∷ out) = one_if (ch == c) + told c out
told c (item ch a ∷ out) = told c out
told c (close ch ∷ out) = told c out
told c (notify ch event ∷ out) = told c out

-- How often it waits.
abbrev pub waits : ℕ → Tables → ℕ
waits c t =
    times c t.pending_dht_put_record
    + (times c t.pending_dht_put_provider_record
        + (times c t.pending_dht_find_closest_peer + times c t.pending_dht_bootstrap))

abbrev pub AreMaps : Tables → Type 0
AreMaps t =
    IsMap t.pending_dht_put_record
    × IsMap t.pending_dht_put_provider_record
    × IsMap t.pending_dht_find_closest_peer
    × IsMap t.pending_dht_bootstrap

pub told-send : (c : ℕ) (ch : Option ℕ) (a : Answer) → told c (send ch a) ≡ is_channel c ch
told-send c none a = refl
told-send c (some ch) a = omega arith

pub told-with_channel :
    (c : ℕ) (o : Option ℕ) (f : ℕ → List Output)
    → ((ch : ℕ) → told c (f ch) ≡ 0)
    → told c (with_channel o f) ≡ 0
told-with_channel c none f h = refl
told-with_channel c (some ch) f h = h ch

pub no_answer : {n m : ℕ} → m ≡ 0 → n + m ≡ n
no_answer h = omega (arith, h)

pub told-append : (c : ℕ) (out more : List Output) → told c (out ++ more) ≡ told c out + told c more
told-append c [] more = omega arith
told-append c (answer ch a ∷ out) more = omega (arith, told-append c out more)
told-append c (item ch a ∷ out) more = told-append c out more
told-append c (close ch ∷ out) more = told-append c out more
told-append c (notify ch event ∷ out) more = told-append c out more

pub told-notify_all :
    (c : ℕ) (listeners : List ℕ) (event : DhtEvent) → told c (notify_all listeners event) ≡ 0
unfolding notify_all
told-notify_all c [] event = refl
told-notify_all c (ch ∷ listeners) event = told-notify_all c listeners event

module _ {W : Type 0} (kad : Kademlia W) where
  pub told-offer_all :
      (c : ℕ) (listeners : List ℕ) (event : Option ℕ → DhtEvent) (w : W)
      → told c (offer_all kad listeners event w).0 ≡ 0
  unfolding offer_all
  told-offer_all c [] event w = refl
  told-offer_all c (ch ∷ listeners) event w = told-offer_all c listeners event (kad.oneshot w).1
