-- ===== src/Tests/RequestResponse.antt =====
-- Requests over a small world, and messages over a stream in memory.
use connexa.Prelude.{
  ℕ, suc, ◌+◌, ◌≡◌, refl, arith, Bool, true, false, List, [], ◌∷◌, if◌then◌else◌, ltb, nat_beq,
  nat_eq, Exec, err, ok, Post, none, take, ◌++◌, failed, returned, map_ok, some,
}
use connexa.RequestResponse.{
  PeerId, RequestId, Bytes, Answer, answered, outbound_failed, Outside, response, request,
  outbound_failure, new, send_response, poll, send_requests, request_one, subscribe, on_event,
  Event, Behaviour,
}
use connexa.RequestResponse.Once.{IsOneshot, IsOnce}
use connexa.RequestResponse.Run.{Op, subscribes, sends, responds, polls, run, run-new}
use connexa.Dict.{lookup, insert, remove}
use connexa.RequestResponse.Codec.{
  Io, Codec, read_request, read_response, write_request, unexpected_eof,
}
use connexa.RequestResponse.Pending.{
  pending, pending-on_event, without_answer, answer_of, is_request, sent_answer,
}
use connexa.RequestResponse.Codec.Limits.{
  IsStream, Gives, accept, read_lem, read_request-write_request,
}
use connexa.RequestResponse.Registry.{Naming, build, request_response}
use connexa.RequestResponse.Registry.Routes.{request_response-build}

-- The numbers to come, the answers given, and what the subscribers got.
record World : Type 0 where
  next_request : ℕ
  next_oneshot : ℕ
  next_channel : ℕ
  given : List (ℕ × Answer)
  delivered : List (ℕ × (PeerId × RequestId × Bytes))

abbrev count : ℕ → List (ℕ × Answer) → ℕ
count ch [] = 0
count ch ((c, a) ∷ rest) = if nat_beq c ch then suc (count ch rest) else count ch rest

abbrev issued : ℕ → World → Bool
issued ch w = ltb ch w.next_oneshot

abbrev answers : ℕ → World → ℕ
answers ch w = count ch w.given

abbrev world : Outside World
world = record {
  send_request = λ p bytes w. (w.next_request, record w { next_request = w.next_request + 1 });
  send_response = λ ch bytes w. (true, w);
  channel = λ n w. (w.next_channel, record w { next_channel = w.next_channel + 1 });
  is_closed = λ tx w. false;
  try_send = λ tx item w. record w { delivered = (tx, item) ∷ w.delivered };
  oneshot = λ w. (w.next_oneshot, record w { next_oneshot = w.next_oneshot + 1 });
  complete = λ ch a w. record w { given = (ch, a) ∷ w.given };
  delay = λ n w. (n, w);
  poll_timer = λ t w. (false, t, w);
}

world-IsOneshot : IsOneshot world issued answers
world-IsOneshot = record {
  send_request_lem = λ p bytes w. (λ ch. refl, λ ch. refl);
  send_response_lem = λ ch bytes w. (λ c. refl, λ c. refl);
  channel_lem = λ n w. (λ ch. refl, λ ch. refl);
  try_send_lem = λ tx item w. (λ ch. refl, λ ch. refl);
  delay_lem = λ n w. (λ ch. refl, λ ch. refl);
  poll_timer_lem = λ t w. (λ ch. refl, λ ch. refl);
  oneshot_lem = λ w. (ground arith, λ ch. ground arith, λ ch. refl);
  complete_lem = λ ch a w. (λ c. refl, λ c. refl);
}

abbrev start : World
start = record { next_request = 0; next_oneshot = 0; next_channel = 0; given = []; delivered = [] }

-- Two requests, an answer to the first that comes twice, and a failure of the second.
abbrev two_requests : List Op
two_requests =
    subscribes
    ∷ sends (7 ∷ 8 ∷ []) (1 ∷ [])
    ∷ polls (
        response 0 7 (5 ∷ [])
        ∷ response 0 7 (6 ∷ [])
        ∷ request 3 9 (4 ∷ []) 2
        ∷ outbound_failure 1 8 0
        ∷ [])
    ∷ responds 9 3 (2 ∷ [])
    ∷ []

-- The answers, the last first.
given_once :
    (run world two_requests (new 4) start).1.given
    ≡ (1, outbound_failed 0) ∷ (0, answered (5 ∷ [])) ∷ []
unfolding run new send_response lookup poll send_requests request_one insert subscribe remove
given_once = refl

run-new_example :
    IsOnce world issued answers
      (run world two_requests (new 4) start).0.pending_response
      (run world two_requests (new 4) start).1
run-new_example = run-new world issued answers world-IsOneshot two_requests 4 start (λ ch. refl)

-- One request is pending, of peer 7 under the number 0.
abbrev waiting : Behaviour
waiting = record {
  pending_request = [];
  pending_response = (7, (0, 3) ∷ []) ∷ [];
  broadcast_request = [];
  gc_timer = none;
  channel_buffer = 4;
}

abbrev answer : Event
answer = response 0 7 (5 ∷ [])

pending-on_event_example :
    ((q : PeerId) (j : RequestId)
      → pending q j (on_event world answer waiting start).0.pending_response
        ≡ without_answer (answer_of answer) q j (pending q j waiting.pending_response))
    × ((if is_request answer then start else (on_event world answer waiting start).1)
        ≡ sent_answer world (answer_of answer) waiting start)
pending-on_event_example = pending-on_event world answer waiting start

-- What a stream holds, and whether it is broken.
record Pipe : Type 0 where
  held : Bytes
  broken : Bool

abbrev read_pipe : Bool → ℕ → Exec ℕ Pipe Bytes
read_pipe true n s = (err 5, s)
read_pipe false n s = (ok (take n s.held), record s { held = [] })

abbrev write_pipe : Bool → Bytes → Exec ℕ Pipe (Unit {0})
write_pipe true bytes s = (err 5, s)
write_pipe false bytes s = (ok tt, record s { held = s.held ++ bytes })

abbrev pipe : Io Pipe
pipe = record {
  read_to_end = λ n s. read_pipe s.broken n s;
  write_all = λ bytes s. write_pipe s.broken bytes s;
}

abbrev contents : Pipe → Bytes
contents s = s.held

read_pipe_lem :
    (b : Bool) (n : ℕ) (s : Pipe)
    → Post (λ bytes t. bytes ≡ take n s.held) (λ t. Unit {0}) (read_pipe b n s)
read_pipe_lem true n s = failed tt
read_pipe_lem false n s = returned refl

write_pipe_lem :
    (b : Bool) (bytes : Bytes) (s : Pipe)
    → Post (λ u t. contents t ≡ s.held ++ bytes) (λ t. Unit {0}) (write_pipe b bytes s)
write_pipe_lem true bytes s = failed tt
write_pipe_lem false bytes s = returned refl

pipe-IsStream : IsStream pipe contents
pipe-IsStream = record {
  read_lem = λ n s. read_pipe_lem s.broken n s;
  write_lem = λ bytes s. write_pipe_lem s.broken bytes s;
}

abbrev small : Codec
small = record { max_request_size = 4; max_response_size = 8 }

-- The largest limits that there are.
abbrev unlimited : Codec
unlimited = record {
  max_request_size = 18446744073709551615;
  max_response_size = 18446744073709551615;
}

abbrev holding : Bytes → Pipe
holding bytes = record { held = bytes; broken = false }

-- With the largest limit a message that is there is not read.
read_unlimited : (read_request pipe unlimited (holding (1 ∷ 2 ∷ []))).0 ≡ err unexpected_eof
unfolding read_request
read_unlimited = refl

read_lem_example :
    Gives pipe contents pipe-IsStream
      (accept 18446744073709551615 (1 ∷ 2 ∷ []))
      (read_request pipe unlimited (holding (1 ∷ 2 ∷ []))).0
    × Gives pipe contents pipe-IsStream
        (accept 18446744073709551615 (1 ∷ 2 ∷ []))
        (read_response pipe unlimited (holding (1 ∷ 2 ∷ []))).0
read_lem_example =
    read_lem pipe contents pipe-IsStream unlimited (holding (1 ∷ 2 ∷ [])) (omega arith)
      (omega arith)

small_written : write_request pipe small (1 ∷ 2 ∷ []) (holding []) ≡ (ok tt, holding (1 ∷ 2 ∷ []))
unfolding write_request
small_written = refl

read_request-write_request_example :
    Gives pipe contents pipe-IsStream
      (ok (1 ∷ 2 ∷ []))
      (read_request pipe small (holding (1 ∷ 2 ∷ []))).0
read_request-write_request_example =
    read_request-write_request pipe contents pipe-IsStream small small (1 ∷ 2 ∷ []) (holding [])
      (holding (1 ∷ 2 ∷ [])) refl (omega arith) (omega arith) small_written

-- Protocols are numbers, all of them valid, and a configuration is a protocol with a payload.
abbrev naming : Naming (ℕ × ℕ) ℕ
naming = record { protocol = λ config. config.0; is_valid = λ protocol. true }

-- A repeated protocol leads to its first configuration and takes up a place.
abbrev repeated : List (ℕ × ℕ)
repeated = (7, 1) ∷ (7, 2) ∷ (8, 3) ∷ []

request_response-build_example :
    map_ok (request_response (some 8)) (build naming true repeated) ≡ ok (some (8, 3))
request_response-build_example = request_response-build naming true repeated 8 refl
