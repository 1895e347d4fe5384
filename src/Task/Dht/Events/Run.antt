-- ===== src/Task/Dht/Events/Run.antt =====
-- The table through any commands of the handles and events of libp2p.
use connexa.Prelude.{
  ℕ, ◌+◌, ◌≡◌, List, [], ◌∷◌, ◌++◌, arith, nat_eq, ◌==◌, some, none, inl, inr, Bool-cases, Option,
  if◌then◌else◌,
}
use connexa.Dict.Values.{one_if, is_channel}
use connexa.Task.Dht.{
  Kademlia, Tables, Output, DhtCommand, process_kademlia_command, list_of, provide_record,
  put_record,
}
use connexa.Task.Dht.Events.{
  KademliaEvent, process_kademlia_event, on_add_provider, on_put_record, on_query, on_other,
  process_add_provider, process_put_record, offer_all,
}
use connexa.Task.Dht.Events.Channels.{
  told, waits, AreMaps, told-append, told-offer_all, told-notify_all,
}
use connexa.Task.Dht.Events.Accounted.{displaced, channel_of, enabled-Keeps, query-Keeps}

-- A command, or an event with the behaviour as it is then.
pub data Input (W : Type 0) : Type 0 where
  command : DhtCommand → Input W
  event : KademliaEvent → W → Input W

module _ {W : Type 0} (kad : Kademlia W) where
  unfoldable pub run : List (Input W) → Tables → W → List Output × Tables × W
  run [] t w = ([], t, w)
  run (command cmd ∷ inputs) t w =
      let (out, t', w') = process_kademlia_command kad cmd t w in
      let (more, t'', w'') = run inputs t' w' in (out ++ more, t'', w'')
  run (event e w1 ∷ inputs) t w =
      let (out, t', w') = process_kademlia_event kad e t w1 in
      let (more, t'', w'') = run inputs t' w' in (out ++ more, t'', w'')

  -- How often the channel belongs to a command.
  abbrev pub asked : ℕ → List (Input W) → ℕ
  asked c [] = 0
  asked c (command cmd ∷ inputs) = one_if (channel_of kad cmd == c) + asked c inputs
  asked c (event e w1 ∷ inputs) = asked c inputs

  -- What the command displaces, if it is not refused.
  abbrev pub displaced_by : DhtCommand → Tables → W → Option ℕ
  displaced_by cmd t w = if kad.is_enabled w then displaced kad cmd t w else none

  -- How often a later query with the same identifier takes its place.
  abbrev pub lost : ℕ → List (Input W) → Tables → W → ℕ
  lost c [] t w = 0
  lost c (command cmd ∷ inputs) t w =
      let (out, t', w') = process_kademlia_command kad cmd t w in
      is_channel c (displaced_by cmd t w) + lost c inputs t' w'
  lost c (event e w1 ∷ inputs) t w =
      let (out, t', w') = process_kademlia_event kad e t w1 in lost c inputs t' w'

  command-Keeps :
      (c : ℕ) (cmd : DhtCommand) (t : Tables) (w : W)
      → AreMaps t
      → let (out, t', w') = process_kademlia_command kad cmd t w in
        (waits c t' + told c out + is_channel c (displaced_by cmd t w)
          ≡ waits c t + one_if (channel_of kad cmd == c))
        × AreMaps t'
  unfolding process_kademlia_command
  command-Keeps c cmd t w h = elim (Bool-cases (kad.is_enabled w)) [
    | inl enabled ↦
        rw (process_kademlia_command, displaced_by, enabled) (enabled-Keeps kad c cmd t w h)
    | inr off ↦ rw (process_kademlia_command, displaced_by, off) (omega arith, h)
  ]

  event-Keeps :
      (c : ℕ) (e : KademliaEvent) (t : Tables) (w : W)
      → AreMaps t
      → let (out, t', w') = process_kademlia_event kad e t w in
        (waits c t' + told c out ≡ waits c t) × AreMaps t'
  unfolding process_kademlia_event process_add_provider process_put_record
  event-Keeps c (on_query id result last) t w h = query-Keeps c id result last t h
  event-Keeps c on_other t w h = (omega arith, h)
  event-Keeps c (on_add_provider none) t w h =
      (omega (arith, told-notify_all c t.dht_event_global_sender (provide_record none none)), h)
  event-Keeps c (on_put_record source none) t w h =
      (omega (arith, told-notify_all c t.dht_event_global_sender (put_record source none none)), h)
  event-Keeps c (on_add_provider (some r)) t w h =
      let (out, confirms, w1) =
        offer_all kad t.dht_event_global_sender (provide_record (some r)) w in
      (
        omega (
          arith,
          told-append c out
              (offer_all kad (list_of r.key t.dht_event_sender) (provide_record (some r)) w1).0,
          told-offer_all kad c t.dht_event_global_sender (provide_record (some r)) w,
          told-offer_all kad c (list_of r.key t.dht_event_sender) (provide_record (some r)) w1,
        ),
        h,
      )
  event-Keeps c (on_put_record source (some r)) t w h =
      let (out, confirms, w1) =
        offer_all kad t.dht_event_global_sender (put_record source (some r)) w in
      (
        omega (
          arith,
          told-append c out
              (offer_all kad (list_of r.key t.dht_event_sender) (put_record source (some r)) w1).0,
          told-offer_all kad c t.dht_event_global_sender (put_record source (some r)) w,
          told-offer_all kad c (list_of r.key t.dht_event_sender) (put_record source (some r)) w1,
        ),
        h,
      )

  -- Through any commands for the table and any events of libp2p: a channel of a command is answered,
  -- waits for its query, or has lost its place to a later query that libp2p gave the same identifier,
  -- as often as it belongs to a command or waited before, where no table has an identifier twice.
  pub told-run_table :
      (c : ℕ) (inputs : List (Input W)) (t : Tables) (w : W)
      → AreMaps t
      → let (out, t', w') = run inputs t w in
        waits c t' + told c out + lost c inputs t w ≡ waits c t + asked c inputs
  unfolding run
  told-run_table c [] t w h = omega arith
  told-run_table c (command cmd ∷ inputs) t w h =
      let (out, t', w') = process_kademlia_command kad cmd t w in
      let (now, maps) = command-Keeps c cmd t w h in
      omega (arith, told-append c out (run inputs t' w').0, now, told-run_table c inputs t' w' maps)
  told-run_table c (event e w1 ∷ inputs) t w h =
      let (out, t', w') = process_kademlia_event kad e t w1 in
      let (now, maps) = event-Keeps c e t w1 h in
      omega (arith, told-append c out (run inputs t' w').0, now, told-run_table c inputs t' w' maps)
