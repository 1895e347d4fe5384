-- ===== src/Task.antt =====
-- src/task.rs and src/task/: the task that owns the swarm, answers the commands of the handles and
-- passes on the events of libp2p. This file has what its parts share. A peer, a connection, a
-- listener, an address, a query and a channel are numbers.
pub mod Queues
pub mod Rendezvous
pub mod Swarm
pub mod Dht
pub mod Closing
pub mod Peers
use connexa.Prelude.{ℕ, Option, none, some}

abbrev pub PeerId : Type 0
PeerId = ℕ

-- The texts that the errors carry
pub data Text : Type 0 where
  whitelist blacklist peerstore : Text
  connection listener record_entry peer_in_allow_list peer_in_deny_list : Text
  listener_closed_early limits_not_enabled : Text

-- `error::Protocol`
pub data Protocol : Type 0 where
  gossipsub floodsub kademlia rendezvous request_response autonat relay autorelay stream : Protocol
  other_protocol : Text → Protocol

-- `dht::RoutingOp`
pub data RoutingOp : Type 0 where
  add_address remove_address remove_peer : RoutingOp

-- `error::Error`; a number is an error of another crate, and `Io` has such an error or a text. The
-- errors of the keystore are the backend's, which is an `io::Error`, and the others.
pub data Error : Type 0 where
  channel_closed timeout keychain_not_provided : Error
  disabled : Protocol → Error
  not_found already_exists invalid_config : Text → Error
  not_connected : PeerId → Error
  dht dial gossipsub_failed floodsub_failed rendezvous_failed : ℕ → Error
  request_failed keystore_backend keystore_failed custom io : ℕ → Error
  io_text : Text → Error
  routing : RoutingOp → Error

-- `io::ErrorKind`, as far as the conversion of an `Error` chooses it
pub data ErrorKind : Type 0 where
  kind_not_found kind_already_exists kind_not_connected kind_timed_out : ErrorKind
  kind_invalid_input kind_broken_pipe kind_other : ErrorKind

-- `From<Error> for std::io::Error`: an error that is an `io::Error` stays as it is, another is wrapped
-- under its kind.
unfoldable pub io_error_kind : Error → Option ErrorKind
io_error_kind (io e) = none
io_error_kind (io_text text) = none
io_error_kind (keystore_backend e) = none
io_error_kind (not_found text) = some kind_not_found
io_error_kind (already_exists text) = some kind_already_exists
io_error_kind (not_connected peer) = some kind_not_connected
io_error_kind timeout = some kind_timed_out
io_error_kind (invalid_config text) = some kind_invalid_input
io_error_kind channel_closed = some kind_broken_pipe
io_error_kind (dht e) = some kind_other
io_error_kind (routing op) = some kind_other
io_error_kind (dial e) = some kind_other
io_error_kind (rendezvous_failed e) = some kind_other
io_error_kind (request_failed e) = some kind_other
io_error_kind (gossipsub_failed e) = some kind_other
io_error_kind (floodsub_failed e) = some kind_other
io_error_kind (keystore_failed e) = some kind_other
io_error_kind (disabled protocol) = some kind_other
io_error_kind (custom e) = some kind_other
io_error_kind keychain_not_provided = some kind_other
