-- ===== src/Keystore/Memory.antt =====
-- src/keystore/store/memory.rs: the backend that keeps its entries in a `HashMap`.
pub mod Laws
use connexa.Prelude.{
  Bool, true, false, Option, none, some, List, [], ◌∷◌, map, Result, ok, list_eq, nat_eq,
  if◌then◌else◌,
}
use connexa.Dict.{Dict, lookup, insert, remove, has}
use connexa.Keystore.Types.{Label, Error, KeyMetadata, EncryptedEntry}
use connexa.Keystore.Backend.{Keystore}

abbrev pub MemoryKeystore : Type 0
MemoryKeystore = Dict Label EncryptedEntry

-- `MemoryKeystore::put`
unfoldable pub put_entry : EncryptedEntry → MemoryKeystore → MemoryKeystore
put_entry entry inner = insert entry.metadata.label entry inner

-- The loop of `MemoryKeystore::put_many`.
unfoldable pub put_entries : List EncryptedEntry → MemoryKeystore → MemoryKeystore
unfolding put_entry
put_entries [] inner = inner
put_entries (entry ∷ entries) inner = put_entries entries (put_entry entry inner)

-- `MemoryKeystore::list`
unfoldable pub list_entries : MemoryKeystore → List KeyMetadata
list_entries inner = map (λ kv. kv.1.metadata) inner

abbrev pub memory : Keystore MemoryKeystore
memory = record {
  put = λ entry inner. (ok tt, put_entry entry inner);
  put_many = λ entries inner. (ok tt, put_entries entries inner);
  get = λ label inner. (ok (lookup label inner), inner);
  list = λ inner. (ok (list_entries inner), inner);
  remove = λ label inner. (ok (has label inner), remove label inner);
}
