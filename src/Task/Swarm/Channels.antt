-- ===== src/Task/Swarm/Channels.antt =====
-- How often a channel is answered, and how often it waits.
use connexa.Prelude.{
  ℕ, ◌+◌, ◌≡◌, refl, Option, none, some, List, [], ◌∷◌, ◌++◌, arith, nat_eq, ◌==◌, Result,
}
use connexa.Dict.Values.{one_if, is_channel, times, IsMap}
use connexa.Task.Swarm.{
  Tables, Output, answer, notify, SwarmCommand, dial_peer, is_connected, disconnect,
  connected_peers, listen_on, get_listening_address, remove_listener, add_external_address,
  remove_external_address, list_external_addresses, list_listening_addresses, add_peer_address,
  listen_to_events, ConnexaSwarmEvent, Answer, Error,
}
use connexa.Task.Swarm.Events.{send, notify_all, answer_disconnected}

-- How often the channel is answered.
abbrev pub told : ℕ → List Output → ℕ
told c [] = 0
told c (answer ch a ∷ out) = one_if (ch == c) + told c out
told c (notify ch event ∷ out) = told c out

-- How often it waits.
abbrev pub waits : ℕ → Tables → ℕ
waits c t =
    times c t.pending_connection
    + (times c t.pending_disconnection_by_connection_id
        + (times c t.pending_disconnection_by_peer_id
            + (times c t.pending_listen_on + times c t.pending_remove_listener)))

abbrev pub AreMaps : Tables → Type 0
AreMaps t =
    IsMap t.pending_connection
    × IsMap t.pending_disconnection_by_connection_id
    × IsMap t.pending_disconnection_by_peer_id
    × IsMap t.pending_listen_on
    × IsMap t.pending_remove_listener

-- The channel of a command.
abbrev pub channel_of : SwarmCommand → ℕ
channel_of (dial_peer opt resp) = resp
channel_of (is_connected peer resp) = resp
channel_of (disconnect target resp) = resp
channel_of (connected_peers resp) = resp
channel_of (listen_on address resp) = resp
channel_of (get_listening_address id resp) = resp
channel_of (remove_listener id resp) = resp
channel_of (add_external_address address resp) = resp
channel_of (remove_external_address address resp) = resp
channel_of (list_external_addresses resp) = resp
channel_of (list_listening_addresses resp) = resp
channel_of (add_peer_address peer address resp) = resp
channel_of (listen_to_events resp) = resp

pub told-append : (c : ℕ) (out more : List Output) → told c (out ++ more) ≡ told c out + told c more
told-append c [] more = omega arith
told-append c (answer ch a ∷ out) more = omega (arith, told-append c out more)
told-append c (notify ch event ∷ out) more = told-append c out more

pub told-notify_all :
    (c : ℕ) (listeners : List ℕ) (event : ConnexaSwarmEvent)
    → told c (notify_all listeners event) ≡ 0
unfolding notify_all
told-notify_all c [] event = refl
told-notify_all c (ch ∷ listeners) event = told-notify_all c listeners event

pub told-send : (c : ℕ) (ch : Option ℕ) (a : Answer) → told c (send ch a) ≡ is_channel c ch
told-send c none a = refl
told-send c (some ch) a = omega arith

pub told-answer_disconnected :
    (c : ℕ) (left right : Option ℕ) (ret : Result Error (Unit {0}))
    → told c (answer_disconnected left right ret) ≡ is_channel c left + is_channel c right
unfolding answer_disconnected
told-answer_disconnected c (some a) none ret = omega arith
told-answer_disconnected c none (some b) ret = omega arith
told-answer_disconnected c (some a) (some b) ret = omega arith
told-answer_disconnected c none none ret = omega arith

-- What is sent to the listeners besides.
pub told_besides :
    (c : ℕ) (out : List Output) (listeners : List ℕ) (event : ConnexaSwarmEvent)
    → told c (out ++ notify_all listeners event) ≡ told c out
told_besides c out listeners event =
    omega (arith, told-append c out (notify_all listeners event), told-notify_all c listeners event)
