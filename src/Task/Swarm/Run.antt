-- ===== src/Task/Swarm/Run.antt =====
-- The task through any commands of the handles and events of the swarm.
use connexa.Prelude.{ℕ, ◌+◌, ◌≡◌, List, [], ◌∷◌, ◌++◌, arith, nat_eq, ◌==◌}
use connexa.Task.Swarm.{Swarm, Tables, Output, SwarmCommand, process_swarm_command, new}
use connexa.Task.Swarm.Events.{SwarmEvent, process_swarm_event}
use connexa.Task.Swarm.Channels.{told, waits, AreMaps, channel_of, told-append}
use connexa.Task.Swarm.Accounted.{displaced, command-Accounts, event-Accounts}
use connexa.Task.Swarm.Maps.{event-AreMaps, command-AreMaps}
use connexa.Dict.Values.{is_channel, one_if}

-- A command, or an event with the swarm as it is then.
pub data Input (W : Type 0) : Type 0 where
  command : SwarmCommand → Input W
  event : SwarmEvent → W → Input W

module _ {W : Type 0} (swarm : Swarm W) where
  unfoldable pub run : List (Input W) → Tables → W → List Output × Tables × W
  run [] t w = ([], t, w)
  run (command cmd ∷ inputs) t w =
      let (out, t', w') = process_swarm_command swarm cmd t w in
      let (more, t'', w'') = run inputs t' w' in (out ++ more, t'', w'')
  run (event e w1 ∷ inputs) t w =
      let (out, t') = process_swarm_event swarm e t w1 in
      let (more, t'', w'') = run inputs t' w1 in (out ++ more, t'', w'')

  -- How often the channel belongs to a command.
  abbrev pub asked : ℕ → List (Input W) → ℕ
  asked c [] = 0
  asked c (command cmd ∷ inputs) = one_if (channel_of cmd == c) + asked c inputs
  asked c (event e w1 ∷ inputs) = asked c inputs

  -- How often a later command with the same identifier takes its place.
  abbrev pub lost : ℕ → List (Input W) → Tables → W → ℕ
  lost c [] t w = 0
  lost c (command cmd ∷ inputs) t w =
      let (out, t', w') = process_swarm_command swarm cmd t w in
      is_channel c (displaced swarm cmd t w) + lost c inputs t' w'
  lost c (event e w1 ∷ inputs) t w =
      let (out, t') = process_swarm_event swarm e t w1 in lost c inputs t' w1

  run-Accounts :
      (c : ℕ) (inputs : List (Input W)) (t : Tables) (w : W)
      → AreMaps t
      → let (out, t', w') = run inputs t w in
        waits c t' + told c out + lost c inputs t w ≡ waits c t + asked c inputs
  unfolding run
  run-Accounts c [] t w h = omega arith
  run-Accounts c (command cmd ∷ inputs) t w h =
      let (out, t', w') = process_swarm_command swarm cmd t w in
      omega (
        arith,
        told-append c out (run inputs t' w').0,
        command-Accounts swarm c cmd t w,
        run-Accounts c inputs t' w' (command-AreMaps swarm cmd t w h),
      )
  run-Accounts c (event e w1 ∷ inputs) t w h =
      let (out, t') = process_swarm_event swarm e t w1 in
      omega (
        arith,
        told-append c out (run inputs t' w1).0,
        event-Accounts swarm c e t w1 h,
        run-Accounts c inputs t' w1 (event-AreMaps swarm e t w1 h),
      )

  -- From a new task, through any commands and events: a channel is answered, waits, or has lost its
  -- place to a later command under the same identifier, as often as it belongs to a command.
  pub told-run :
      (c : ℕ) (inputs : List (Input W)) (w : W)
      → let (out, t', w') = run inputs new w in
        waits c t' + told c out + lost c inputs new w ≡ asked c inputs
  unfolding new
  told-run c inputs w = omega (arith, run-Accounts c inputs new w (tt, tt, tt, tt, tt))
