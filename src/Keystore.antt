-- ===== src/Keystore.antt =====
-- src/keystore.rs and the files under src/keystore/: the encrypted keychain, its ciphers and its
-- storage backends.
pub mod Time
pub mod Types
pub mod Aad
pub mod Label
pub mod Backend
pub mod Cipher
pub mod Memory
pub mod Keychain
pub mod Filesystem
pub mod Sqlite
