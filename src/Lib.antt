-- ===== src/Lib.antt =====
-- A model of the keystore, the address store, the relay reservations, the requests and the swarm
-- task of connexa.
--
-- The keystore (src/keystore.rs, src/keystore/) keeps keypairs under labels, each sealed by a
-- cipher together with its metadata; a `Keychain` joins a cipher with a storage backend. The
-- address store (src/behaviour/peer_store/store/memory.rs) keeps addresses of peers and drops an
-- address some time after its last connection. The relay behaviour (src/behaviour/autorelay.rs)
-- keeps reservations at relays, and asks src/multiaddr_ext.rs about their addresses. The request
-- behaviour (src/behaviour/request_response.rs) matches answers with requests; a node has one for
-- each configured protocol (src/behaviour.rs). The task (src/task.rs, src/task/) owns the swarm: a
-- handle sends it a command with a channel for the answer, and an event of the swarm answers the
-- channels that wait for it. Its commands for peers go to the address store.
--
-- Where things are:
--   Prelude, Dict       shared helpers; maps and sets as lists in the order of iteration, and in
--                       Dict.Values what they hold when the key is forgotten.
--   Keystore.Types      `Error`, `KeyType`, `Expiry`, `KeyMetadata`, `EncryptedEntry` and their methods.
--   Keystore.Time       `SystemTime` to the nanosecond.
--   Keystore.Label      `validate_label`.
--   Keystore.Aad        `metadata_aad` and its helpers.
--   Keystore.Backend    `trait Keystore`, with its contract in Backend.Laws.
--   Keystore.Cipher     `trait Cipher`, with its contract in Cipher.Laws; Cipher.Aead has the ciphers of
--                       src/keystore/cipher/.
--   Keystore.Memory     `MemoryKeystore` of src/keystore/store/memory.rs.
--   Keystore.Filesystem `FilesystemKeystore` of src/keystore/store/fs.rs: Journal has the recovery, Batch
--                       `prepare` and `commit_batch`, Store the operations of the trait; Disk states what
--                       the file system promises.
--   Keystore.Sqlite     `SqliteKeystore` of src/keystore/store/sqlite.rs; Atomic states what SQL promises.
--   Keystore.Keychain   `Keychain`: Entries seals and opens one entry, Ops has the operations on one
--                       label, Bulk those on every entry; Lifetime counts when a key expires, Outcomes
--                       and Stopped follow a write whose task stops.
--   PeerStore           `MemoryStore`; Behaviour has `trait Store`, the `Dummy` store and what
--                       src/behaviour/peer_store.rs asks of a store.
--   MultiaddrExt        the trait of that name.
--   Autorelay           `Behaviour`: Relays has the bookkeeping, Reserve the reservations, Events the
--                       events of the swarm and of the handlers, Cooldowns the poll, Setup the
--                       configuration, Handler src/behaviour/autorelay/handler.rs.
--   RequestResponse     `Behaviour` of src/behaviour/request_response.rs, with Config for its
--                       configuration and Codec for src/behaviour/request_response/codec.rs.
--                       Registry has the protocols of a node, from src/behaviour.rs and
--                       src/behaviour/rr_man.rs.
--   Task                `ConnexaTask` of src/task.rs: Swarm the commands of the swarm, Swarm.Events the
--                       events of src/task/swarm.rs, Closing that of a connection that closes, with
--                       the rendezvous requests that fail then; Queues and Rendezvous are
--                       src/task/rendezvous.rs, Dht is src/task/kad.rs with the confirmations that
--                       `poll` waits for, Peers the commands of the address store.
--   Tests               concrete runs.
--
-- An operation is a function of the state that returns its result and the new state. An operation
-- of a keychain holds the lock over the cipher for its whole time, so that operations follow one
-- another. Its `Call` carries what it takes from outside: one reading of the clock, the numbered
-- random draws, and the `Fate` of the task that it spawns for a write: the task finishes, or it
-- stops and leaves the backend in some state, any state. A label is the bytes of its text.
-- Numbers are natural numbers; the source's bounds that matter are written out: a version stops
-- at the largest `u32`, a time at the last one of the platform, a cooldown at the largest
-- `Duration`; an instant is not bounded. Every loop runs over a list, but for the loop in `poll`
-- of the relay behaviour, which has fuel for its turns and one reading of the clock: two turns
-- are enough. `poll` of the request behaviour runs over the events that libp2p gives until it is
-- pending.
--
-- The task handles one command or event at a time. A step returns the new tables, what it sends
-- on channels in the order of sending, and the parameter's new state; a channel is a number, and a
-- channel that is sent on or leaves every table is closed. An event comes with the swarm as it is
-- then. A future of the address store is fixed when it is called.
--
-- Parameters stand for code of other crates: `Identity` for the keys of libp2p, `Aead` for the
-- encryption algorithms, `FileSystem` for `std::fs`, `Cbor` for `cbor4ii`, `Sql` for `sqlx`,
-- `Timers` for `FutureMap`, `Libp2p` for the identifiers of dials and listeners, `Protocols`
-- for the protocols of a remote, `Outside` for what the request behaviour calls, `Io` for its
-- streams, `Naming` for the names of protocols, and, for the task, `Swarm`, `Client` and
-- `Kademlia` for the calls of the swarm, the rendezvous client and the hash table. What a
-- theorem needs of them is in `IsLawful`, `IsAead`, `IsFileSystem`, `IsCbor`, `IsSql`,
-- `IsInverse`, `IsBinding`, `AreTimers`, `IsOneshot` and `IsStream`; of the swarm, the client
-- and the hash table they need nothing. `ExternalAddresses` of libp2p gives its answer along
-- with the event.
--
-- In the file keystore every call of the file system may fail, in a batch as in the recovery that
-- follows, and what a call has done before stays done. A process that ends in the middle of a
-- call of the keystore is one whose calls all fail from there. A loss of power, which the flushes
-- are for, is not modelled: a call that succeeded is not undone.
--
-- Not modelled: the redb and IndexedDB backends, which repeat these operations on other databases;
-- the handles, the builder and the transports, which pass commands and configuration on; of the
-- task, gossipsub, floodsub, relay, autonat and streams, the white and black lists, the limits of
-- connections, the callbacks and the timer that clears finished receivers; and, in what is
-- modelled, most constructors, logging, wakers, the text of errors, and the file modes and the
-- Windows branches of the file keystore.
pub mod Prelude
pub mod Dict
pub mod Keystore
pub mod PeerStore
pub mod MultiaddrExt
pub mod Autorelay
pub mod RequestResponse
pub mod Task
pub mod Tests
