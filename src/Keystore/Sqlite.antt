-- ===== src/Keystore/Sqlite.antt =====
-- src/keystore/store/sqlite.rs: `SqliteKeystore` as a backend of a keychain. The database behind the
-- pool has the state `D`, a transaction that has not been committed the state `T`.
pub mod Atomic
use connexa.Prelude.{
  ℕ, Bool, true, false, Option, List, [], ◌∷◌, Result, ok, err, and_then, Exec, pure, lift, ◌>>=◌,
  ◌>>◌, map_err, if◌then◌else◌, ltb, ◌==◌, list_eq, nat_eq, none, some,
}
use connexa.Keystore.Types.{
  Bytes, Label, Error, backend, IoError, io, converted, label_mismatch, KeyMetadata, EncryptedEntry,
}
use connexa.Keystore.Backend.{Keystore}
use connexa.Keystore.Filesystem.{Cbor}
use connexa.Keystore.Filesystem.Journal.{to_io}
use connexa.Keystore.Filesystem.Store.{decode_found}

-- `sqlx`, at the statements of the source; an error is a number, and the last result of `delete` is
-- the number of rows that are gone.
pub record Sql (D T : Type 0) : Type 0 where
  pub connect : Exec ℕ D (Unit {0})
  pub create_table : Exec ℕ D (Unit {0})
  pub insert_or_replace : Label → Bytes → Exec ℕ D (Unit {0})
  pub select : Label → Exec ℕ D (Option Bytes)
  pub select_all : Exec ℕ D (List (Label × Bytes))
  pub delete : Label → Exec ℕ D ℕ
  pub begin : Exec ℕ D T
  pub insert_in : Label → Bytes → T → Result ℕ T
  pub commit : T → Exec ℕ D (Unit {0})

-- Whether the pool has been made, `OnceCell`, and the database.
pub record SqliteKeystore (D : Type 0) : Type 0 where
  pub pool : Bool
  pub db : D

abbrev pub from_sql : ℕ → Error
from_sql e = backend (io e)

abbrev pub keep_db : {A D : Type 0} → Bool → Result ℕ A × D → Result ℕ A × SqliteKeystore D
keep_db pool (result, db) = (result, record { pool = pool; db = db })

-- A statement on the pool.
abbrev pub on_db : {A D : Type 0} → Exec ℕ D A → Exec Error (SqliteKeystore D) A
on_db statement = map_err from_sql (λ s. keep_db s.pool (statement s.db))

abbrev pub encode : Cbor → EncryptedEntry → Result Error Bytes
encode cbor entry = elim (cbor.encode_entry entry) [
  | none ↦ err (backend converted)
  | some bytes ↦ ok bytes
]

abbrev pub set_pool : {D : Type 0} → Exec Error (SqliteKeystore D) (Unit {0})
set_pool s = (ok tt, record s { pool = true })

module _ {D T : Type 0} (sql : Sql D T) (cbor : Cbor) where
  -- `pool`
  unfoldable pub pool : Exec Error (SqliteKeystore D) (Unit {0})
  pool s =
      if s.pool then (ok tt, s) else (on_db sql.connect >> on_db sql.create_table >> set_pool) s

  unfoldable pub put : EncryptedEntry → Exec Error (SqliteKeystore D) (Unit {0})
  put entry = do
    pool
    bytes ← lift (encode cbor entry)
    on_db (sql.insert_or_replace entry.metadata.label bytes)

  -- The loop of `put_many` inside the transaction.
  unfoldable pub insert_each : List EncryptedEntry → T → Result Error T
  insert_each [] tx = ok tx
  insert_each (entry ∷ entries) tx = and_then (encode cbor entry) (λ bytes.
      elim (sql.insert_in entry.metadata.label bytes tx) [
        | ok tx' ↦ insert_each entries tx'
        | err e ↦ err (from_sql e)
      ])

  unfoldable pub put_many : List EncryptedEntry → Exec Error (SqliteKeystore D) (Unit {0})
  unfolding pool insert_each
  put_many entries = do
    pool
    tx ← on_db sql.begin
    tx' ← lift (insert_each entries tx)
    on_db (sql.commit tx')

  unfoldable pub get : Label → Exec Error (SqliteKeystore D) (Option EncryptedEntry)
  unfolding pool
  get label = do pool; row ← on_db (sql.select label); lift (decode_found cbor row)

  -- The loop of `list`
  unfoldable pub read_rows : List (Label × Bytes) → Result Error (List KeyMetadata)
  read_rows [] = ok []
  read_rows ((label, bytes) ∷ rows) =
      let others = read_rows rows in
      elim (cbor.decode_entry bytes) [
        | none ↦ err (backend converted)
        | some entry ↦
            if entry.metadata.label == label
            then and_then others (λ metadata. ok (entry.metadata ∷ metadata))
            else err (backend label_mismatch)
      ]

  unfoldable pub list : Exec Error (SqliteKeystore D) (List KeyMetadata)
  unfolding pool read_rows
  list = do pool; rows ← on_db sql.select_all; lift (read_rows rows)

  unfoldable pub remove : Label → Exec Error (SqliteKeystore D) Bool
  unfolding pool
  remove label = do pool; affected ← on_db (sql.delete label); pure (ltb 0 affected)

  abbrev pub sqlite : Keystore (SqliteKeystore D)
  sqlite = record { put = put; put_many = put_many; get = get; list = list; remove = remove }
