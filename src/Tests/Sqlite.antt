-- ===== src/Tests/Sqlite.antt =====
-- The sqlite keystore on a database that is a map and never fails.
use connexa.Prelude.{
  ◌≡◌, refl, [], ◌∷◌, ok, nat_eq, list_eq, Post, returned, if◌then◌else◌, false, ap, List, sym,
  ok-injective, ◌∙◌,
}
use connexa.Dict.{Dict, lookup, insert, remove, has, lookup-insert}
use connexa.Keystore.Types.{Bytes, Label, EncryptedEntry}
use connexa.Keystore.Sqlite.{Sql, SqliteKeystore, put_many, insert_each, pool}
use connexa.Keystore.Sqlite.Atomic.{Contents, IsSql, put_many_lem, Same}
use connexa.Keystore.Filesystem.Encoding.{written}
use connexa.Tests.Samples.{alice_metadata, bob_metadata}
use connexa.Tests.Codec.{small_cbor}

abbrev Database : Type 0
Database = Dict Label Bytes

abbrev held : Database → Contents
held d l = lookup l d

abbrev sql : Sql Database Database
sql = record {
  connect = λ d. (ok tt, d);
  create_table = λ d. (ok tt, d);
  insert_or_replace = λ label bytes d. (ok tt, insert label bytes d);
  select = λ label d. (ok (lookup label d), d);
  select_all = λ d. (ok d, d);
  delete = λ label d. (ok (if has label d then 1 else 0), remove label d);
  begin = λ d. (ok d, d);
  insert_in = λ label bytes tx. ok (insert label bytes tx);
  commit = λ tx d. (ok tt, tx);
}

abbrev sql-IsSql : IsSql held held sql
sql-IsSql = record {
  connect_lem = λ d. returned (λ l. refl);
  create_table_lem = λ d. returned (λ l. refl);
  begin_lem = λ d. returned (λ l. refl, λ l. refl);
  insert_in_lem = λ l b tx tx' h j. ap (lookup j) (sym (ok-injective h)) ∙ lookup-insert l j b tx;
  commit_lem = λ tx d. returned (λ l. refl);
}

abbrev entries : List EncryptedEntry
entries =
    record { metadata = alice_metadata; ciphertext = 1 ∷ [] }
    ∷ record { metadata = bob_metadata; ciphertext = 2 ∷ [] }
    ∷ []

abbrev not_open : SqliteKeystore Database
not_open = record { pool = false; db = [] }

both_stored : (put_many sql small_cbor entries not_open).0 ≡ ok tt
unfolding put_many small_cbor insert_each pool
both_stored = refl

put_many_lem_example :
    Post
      (λ u s. (l : Label) → held s.db l ≡ written small_cbor entries l (held [] l))
      (λ s. Same (held []) (held s.db))
      (put_many sql small_cbor entries not_open)
put_many_lem_example = put_many_lem held held sql sql-IsSql small_cbor entries not_open
