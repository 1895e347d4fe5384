-- ===== src/RequestResponse/Codec.antt =====
-- src/behaviour/request_response/codec.rs: a message is all that a stream carries, within a size. A
-- `usize` has 64 bits. The addition to the size wraps round, as it does in a release build.
pub mod Limits
use connexa.Prelude.{
  ℕ, ◌+◌, ◌%◌, ◌^◌, Bool, true, false, not, Exec, List, [], ◌∷◌, ensure, map_err, pure, ◌>>=◌, ◌>>◌,
  leb, length,
}
use connexa.RequestResponse.{Bytes}

-- `std::io::Error` as the codec makes it, and as the stream does.
pub data CodecError : Type 0 where
  unexpected_eof invalid_data invalid_input : CodecError
  io : ℕ → CodecError

-- `AsyncRead` and `AsyncWrite`: read a stream to its end or to a number of bytes, and write to it.
pub record Io (S : Type 0) : Type 0 where
  pub read_to_end : ℕ → Exec ℕ S Bytes
  pub write_all : Bytes → Exec ℕ S (Unit {0})

pub record Codec : Type 0 where
  pub max_request_size : ℕ
  pub max_response_size : ℕ

-- `max as u64 + 1`
abbrev pub one_more : ℕ → ℕ
one_more max = (max + 1) % 2 ^ 64

abbrev is_empty : Bytes → Bool
is_empty [] = true
is_empty (b ∷ bytes) = false

module _ {S : Type 0} (stream : Io S) where
  read_message : ℕ → Exec CodecError S Bytes
  read_message max = do
    buffer ← map_err io (stream.read_to_end (one_more max))
    ensure (not (is_empty buffer)) unexpected_eof
    ensure (leb (length buffer) max) invalid_data
    pure buffer

  write_message : ℕ → Bytes → Exec CodecError S (Unit {0})
  write_message max message = do
    ensure (not (is_empty message)) invalid_input
    ensure (leb (length message) max) invalid_input
    map_err io (stream.write_all message)
    pure tt

  unfoldable pub read_request : Codec → Exec CodecError S Bytes
  unfolding read_message
  read_request codec = read_message codec.max_request_size

  unfoldable pub read_response : Codec → Exec CodecError S Bytes
  unfolding read_message
  read_response codec = read_message codec.max_response_size

  unfoldable pub write_request : Codec → Bytes → Exec CodecError S (Unit {0})
  unfolding write_message
  write_request codec message = write_message codec.max_request_size message

  unfoldable pub write_response : Codec → Bytes → Exec CodecError S (Unit {0})
  unfolding write_message
  write_response codec message = write_message codec.max_response_size message
