-- ===== src/RequestResponse/Config.antt =====
-- src/behaviour/request_response.rs, `RequestResponseConfig`. A duration is in seconds.
use connexa.Prelude.{ℕ, ◌*◌, Option, none, some, [], ◌∷◌}
use connexa.RequestResponse.{Bytes}

pub data RequestResponseDirection : Type 0 where
  inbound outbound both : RequestResponseDirection

-- `libp2p::request_response::ProtocolSupport`
pub data ProtocolSupport : Type 0 where
  inbound_only outbound_only full : ProtocolSupport

-- `From<RequestResponseDirection> for ProtocolSupport`
unfoldable pub support : RequestResponseDirection → ProtocolSupport
support inbound = inbound_only
support outbound = outbound_only
support both = full

pub record RequestResponseConfig : Type 0 where
  pub protocol : Bytes
  pub timeout : Option ℕ
  pub max_request_size : ℕ
  pub max_response_size : ℕ
  pub concurrent_streams : Option ℕ
  pub channel_buffer : ℕ
  pub protocol_direction : RequestResponseDirection

-- "/libp2p/request-response"
abbrev default_protocol : Bytes
default_protocol =
    b'/' ∷ b'l' ∷ b'i' ∷ b'b' ∷ b'p' ∷ b'2' ∷ b'p' ∷ b'/' ∷ b'r' ∷ b'e' ∷ b'q' ∷ b'u' ∷ b'e' ∷ b's'
    ∷ b't' ∷ b'-' ∷ b'r' ∷ b'e' ∷ b's' ∷ b'p' ∷ b'o' ∷ b'n' ∷ b's' ∷ b'e' ∷ []

unfoldable pub default : RequestResponseConfig
default = record {
  protocol = default_protocol;
  timeout = none;
  max_request_size = 512 * 1024;
  max_response_size = 2 * 1024 * 1024;
  concurrent_streams = none;
  channel_buffer = 128;
  protocol_direction = both;
}

unfoldable pub new_config : Bytes → RequestResponseConfig
new_config protocol = record default { protocol = protocol }

unfoldable pub set_timeout : ℕ → RequestResponseConfig → RequestResponseConfig
set_timeout timeout config = record config { timeout = some timeout }

unfoldable pub set_max_request_size : ℕ → RequestResponseConfig → RequestResponseConfig
set_max_request_size size config = record config { max_request_size = size }

unfoldable pub set_max_response_size : ℕ → RequestResponseConfig → RequestResponseConfig
set_max_response_size size config = record config { max_response_size = size }

unfoldable pub set_concurrent_streams : ℕ → RequestResponseConfig → RequestResponseConfig
set_concurrent_streams size config = record config { concurrent_streams = some size }

unfoldable pub set_channel_buffer : ℕ → RequestResponseConfig → RequestResponseConfig
set_channel_buffer size config = record config { channel_buffer = size }

unfoldable pub set_protocol_direction :
    RequestResponseDirection → RequestResponseConfig → RequestResponseConfig
set_protocol_direction direction config = record config { protocol_direction = direction }
