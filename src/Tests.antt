-- ===== src/Tests.antt =====
-- Runs of the models on concrete inputs, with instances of the interfaces that they take.
mod Codec
mod Disk
mod Filesystem
mod Samples
mod Sealing
mod Keychain
mod Bulk
mod PeerStore
mod RequestResponse
mod Autorelay
mod Task
mod Sqlite
