-- ===== src/Keystore/Sqlite/Atomic.antt =====
-- What SQL promises of the statements of src/keystore/store/sqlite.rs, and `put_many` on top of it.
use connexa.Prelude.{
  ℕ, ◌≡◌, refl, sym, ap, ◌∙◌, Bool, true, false, Option, some, List, [], ◌∷◌, Result, ok,
  if◌then◌else◌, ◌==◌, list_eq, nat_eq, Post, returned, failed, Post-bind, Post-weaken, Post-lift,
  Post-map_err, inl, inr, Exec, ok-injective, ◌>>◌, arith, and_then-eq-ok, Result-cases,
}
use connexa.Keystore.Types.{Bytes, Label, EncryptedEntry}
use connexa.Keystore.Filesystem.{Cbor}
use connexa.Keystore.Filesystem.Encoding.{written}
use connexa.Keystore.Sqlite.{
  Sql, SqliteKeystore, keep_db, on_db, encode, pool, set_pool, insert_each, put_many, from_sql,
}

-- What the labels hold, in the database or in a transaction.
abbrev pub Contents : Type 0
Contents = Label → Option Bytes

abbrev pub Same : Contents → Contents → Type 0
Same c d = (l : Label) → d l ≡ c l

abbrev replaced : Label → Bytes → Contents → Contents
replaced label bytes c l = if label == l then some bytes else c l

-- What SQL promises of these statements: one that fails has changed nothing, and a transaction sees
-- what was there and its own rows, which are in place once it has been committed.
pub record IsSql {D T : Type 0} (content : D → Contents) (rows : T → Contents) (sql : Sql D T)
    : Type 0 where
  pub connect_lem :
      (d : D)
      → Post
          (λ u d'. Same (content d) (content d'))
          (λ d'. Same (content d) (content d'))
          (sql.connect d)
  pub create_table_lem :
      (d : D)
      → Post
          (λ u d'. Same (content d) (content d'))
          (λ d'. Same (content d) (content d'))
          (sql.create_table d)
  pub begin_lem :
      (d : D)
      → Post
          (λ tx d'. Same (content d) (rows tx) × Same (content d) (content d'))
          (λ d'. Same (content d) (content d'))
          (sql.begin d)
  pub insert_in_lem :
      (l : Label) (b : Bytes) (tx tx' : T)
      → sql.insert_in l b tx ≡ ok tx'
      → Same (replaced l b (rows tx)) (rows tx')
  pub commit_lem :
      (tx : T) (d : D)
      → Post
          (λ u d'. Same (rows tx) (content d'))
          (λ d'. Same (content d) (content d'))
          (sql.commit tx d)

module _ {D T : Type 0} (content : D → Contents) (rows : T → Contents) (sql : Sql D T)
    (law : IsSql content rows sql) (cbor : Cbor) where
  -- A statement on the pool does to the keystore what it does to the database.
  on_db_lem :
      {A : Type 0} {Q : A → D → Type 0} {X : D → Type 0} (m : Exec ℕ D A) (s : SqliteKeystore D)
      → Post Q X (m s.db)
      → Post (λ a s'. Q a s'.db) (λ s'. X s'.db) (on_db m s)
  on_db_lem m s h = Post-map_err from_sql (λ s. keep_db s.pool (m s.db)) s (kept s.pool h)
    where
      kept :
          {A : Type 0} {Q : A → D → Type 0} {X : D → Type 0} {r : Result ℕ A × D} (p : Bool)
          → Post Q X r
          → Post (λ a s'. Q a s'.db) (λ s'. X s'.db) (keep_db p r)
      kept p (returned h) = returned h
      kept p (failed h) = failed h

  Same-trans : {c d e : Contents} → Same c d → Same d e → Same c e
  Same-trans h k l = k l ∙ h l

  -- The pool is made at the first use, which changes no label.
  chosen_lem :
      (made : Bool) (s : SqliteKeystore D)
      → Post
          (λ u s'. Same (content s.db) (content s'.db))
          (λ s'. Same (content s.db) (content s'.db))
          (if made then (ok tt, s) else (on_db sql.connect >> on_db sql.create_table >> set_pool) s)
  chosen_lem true s = returned (λ l. refl)
  chosen_lem false s =
      Post-bind {R = λ u s'. Same (content s.db) (content s'.db)}
        {Y = λ s'. Same (content s.db) (content s'.db)}
        (Post-bind {R = λ u s'. Same (content s.db) (content s'.db)}
          {Y = λ s'. Same (content s.db) (content s'.db)}
          (on_db_lem sql.connect s (law.connect_lem s.db))
          (λ u s1 h1.
            Post-weaken (on_db_lem sql.create_table s1 (law.create_table_lem s1.db))
              (λ v s2 h2. Same-trans h1 h2) (λ s2 h2. Same-trans h1 h2))
          (λ s1 h. h))
        (λ u s2 h. returned h) (λ s2 h. h)

  pool_lem :
      (s : SqliteKeystore D)
      → Post
          (λ u s'. Same (content s.db) (content s'.db))
          (λ s'. Same (content s.db) (content s'.db))
          (pool sql cbor s)
  unfolding pool
  pool_lem s = chosen_lem s.pool s

  encode_lem :
      (entry : EncryptedEntry) (bytes : Bytes)
      → encode cbor entry ≡ ok bytes
      → cbor.encode_entry entry ≡ some bytes
  encode_lem entry bytes h = ground (arith, h)

  insert_each_lem :
      (entries : List EncryptedEntry) (tx tx' : T)
      → insert_each sql cbor entries tx ≡ ok tx'
      → (l : Label) → rows tx' l ≡ written cbor entries l (rows tx l)
  unfolding insert_each written
  insert_each_lem [] tx tx' h l = ap (λ t. rows t l) (sym (ok-injective h))
  insert_each_lem (entry ∷ entries) tx tx' h l =
      let (bytes, encoded, rest) = and_then-eq-ok (encode cbor entry) _ h in
      elim (Result-cases (sql.insert_in entry.metadata.label bytes tx)) [
        | inl (tx1, inserted) ↦
            insert_each_lem entries tx1 tx' (ground (arith, rest, inserted)) l
            ∙ ap (written cbor entries l) (
                law.insert_in_lem entry.metadata.label bytes tx tx1 inserted l
                ∙ rw (encode_lem entry bytes encoded) refl)
        | inr (e, fails) ↦ absurd (ground (arith, rest, fails))
      ]

  -- On a database that keeps the promises of SQL, a batch that succeeds leaves each of its labels with
  -- the encoding of its last entry there and the others as they were; one that fails, at any statement,
  -- leaves every label as it was.
  pub put_many_lem :
      (entries : List EncryptedEntry) (s : SqliteKeystore D)
      → Post
          (λ u s'. (l : Label) → content s'.db l ≡ written cbor entries l (content s.db l))
          (λ s'. Same (content s.db) (content s'.db))
          (put_many sql cbor entries s)
  unfolding put_many
  put_many_lem entries s =
      Post-bind (pool_lem s)
        (λ u s1 h1.
          Post-bind (on_db_lem sql.begin s1 (law.begin_lem s1.db))
            (λ tx s2 (seen, h2).
              Post-bind
                (Post-lift
                  {Q = λ tx' s3.
                    (insert_each sql cbor entries tx ≡ ok tx')
                    × Same (content s.db) (content s3.db)}
                  {X = λ s3. Same (content s.db) (content s3.db)} (insert_each sql cbor entries tx)
                  s2 (λ tx' e. (e, Same-trans h1 h2)) (Same-trans h1 h2))
                (λ tx' s3 (e, h3).
                  Post-weaken (on_db_lem (sql.commit tx') s3 (law.commit_lem tx' s3.db))
                    (λ v s4 done l.
                      done l
                      ∙ insert_each_lem entries tx tx' e l
                      ∙ ap (written cbor entries l) (seen l ∙ h1 l))
                    (λ s4 h4. Same-trans h3 h4))
                (λ s3 h. h))
            (λ s2 h2. Same-trans h1 h2))
        (λ s1 h. h)
