-- ===== src/Keystore/Filesystem/Staging.antt =====
-- `prepare` writes the new files and the journal, and no key.
use connexa.Prelude.{
  ℕ, suc, ◌<◌, ◌≤◌, true, Option, none, some, List, [], ◌∷◌, map, ok, if◌then◌else◌, ◌≡◌, refl, ◌∙◌,
  ap, arith, Post, returned, Post-bind, Post-weaken, Post-lift, Post-ensure, inl, inr, list_eq,
  nat_eq, Bool-cases,
}
use connexa.Dict.{Dict}
use connexa.Keystore.Types.{Bytes, Label, IoError, converted, exists_already, EncryptedEntry}
use connexa.Keystore.Filesystem.{
  FilePath, key, journal, journal_new, committed, staged, path_beq, Folder, store_dir, work_dir,
  staging_dir, JournalRecord, Cbor, FileSystem,
}
use connexa.Keystore.Filesystem.Disk.{Same, IsFileSystem}
use connexa.Keystore.Filesystem.Journal.{to_io, make_and_sync, create_dir, parent_of}
use connexa.Keystore.Filesystem.Batch.{stage, write_journal, prepare_files}
use connexa.Keystore.Filesystem.Undo.{
  labels_of, AreOriginals, Near, Same-Near, Near-trans, IsSettled-Near, IsClean, IsClean-Near,
  IsUndoing, IsUndoing-Near, IsRecoverable, write-Near,
}

pub to_io-eq-ok : {A : Type 0} (e : IoError) (o : Option A) {a : A} → to_io e o ≡ ok a → o ≡ some a
to_io-eq-ok e none h = cc
to_io-eq-ok e (some b) h = cc

-- What is read back is what was written.
pub record IsCbor (cbor : Cbor) : Type 0 where
  pub decode-encode_entry :
      (e : EncryptedEntry) (b : Bytes) → cbor.encode_entry e ≡ some b → cbor.decode_entry b ≡ some e
  pub decode-encode_journal :
      (j : JournalRecord) (b : Bytes)
      → cbor.encode_journal j ≡ some b
      → cbor.decode_journal b ≡ some j

abbrev pub keys_of : Dict Label Bytes → List Label
keys_of encoded = map (λ kv. kv.0) encoded

module _ {F : Type 0} (fs : FileSystem F) (content : FilePath → F → Option Bytes)
    (law : IsFileSystem content fs) where
  -- The staged files hold the batch, from that number on.
  abbrev pub AreStaged : ℕ → Dict Label Bytes → F → Type 0
  AreStaged i [] s = Unit
  AreStaged i ((l, b) ∷ m) s = (content (staged i) s ≡ some b) × AreStaged (suc i) m s

  pub AreStaged-keep :
      (i : ℕ) (m : Dict Label Bytes) (s t : F)
      → ((j : ℕ) → i ≤ j → content (staged j) t ≡ content (staged j) s)
      → AreStaged i m s
      → AreStaged i m t
  AreStaged-keep i [] s t same h = tt
  AreStaged-keep i ((l, b) ∷ m) s t same h =
      (same i (omega arith) ∙ h.0, AreStaged-keep (suc i) m s t (λ j lt. same j (omega arith)) h.1)

  make_and_sync-Same :
      (d : Folder) (parents : List Folder) (s : F)
      → Post (λ u t. Same content s t) (Same content s) (make_and_sync fs d parents s)
  unfolding make_and_sync
  make_and_sync-Same d parents s =
      Post-bind (law.make_dir_lem d s)
        (λ made t h.
          Post-bind
            (Post-ensure {Q = λ _ u. Same content s u} {X = Same content s}
              (if made then true else fs.is_dir d t) exists_already t h h)
            (λ _ t1 h1.
              Post-bind (law.sync_dir_lem d t1)
                (λ _ t2 h2.
                  Post-weaken (law.sync_dir_lem (parent_of parents) t2)
                    (λ _ t3 h3. λ p. h3 p ∙ h2 p ∙ h1 p) (λ t3 h3. λ p. h3 p ∙ h2 p ∙ h1 p))
                (λ t2 h2. λ p. h2 p ∙ h1 p))
            (λ t1 h1. h1))
        (λ t h. h)

  pub create_dir-Same :
      (folders : List Folder) (s : F)
      → Post (λ u t. Same content s t) (Same content s) (create_dir fs folders s)
  unfolding create_dir
  create_dir-Same [] s = returned (λ p. refl)
  create_dir-Same (d ∷ parents) s = elim (Bool-cases (fs.is_dir d s)) [
    | inl there ↦ rw there (returned (λ p. refl))
    | inr missing ↦ rw missing (
        Post-bind (create_dir-Same parents s)
          (λ _ t h.
            Post-weaken (make_and_sync-Same d parents t) (λ _ u k. λ p. k p ∙ h p)
              (λ u k. λ p. k p ∙ h p))
          (λ t h. h))
  ]

  module _ (old : Label → Option Bytes) (cbor : Cbor) (parents : List Folder) where
    record Staging (i : ℕ) (m : Dict Label Bytes) (originals : List (Label × Option Bytes))
        (s t : F) : Type 0 where
      near : Near content s t
      labels : labels_of originals ≡ keys_of m
      held : AreOriginals old originals
      files : AreStaged i m t
      below : (j : ℕ) → j < i → content (staged j) t ≡ content (staged j) s

    stage_lem :
        (i : ℕ) (m : Dict Label Bytes) (s : F)
        → ((l : Label) → content (key l) s ≡ old l)
        → Post
            (λ originals t. Staging i m originals s t)
            (Near content s)
            (stage fs cbor parents i m s)
    unfolding stage
    stage_lem i [] s keys = returned (record {
      near = Same-Near content (λ p. refl);
      labels = refl;
      held = tt;
      files = tt;
      below = λ j h. refl;
    })
    stage_lem i ((l, b) ∷ m) s keys =
        Post-bind (law.read_lem (key l) s)
          (λ o t h.
            let n = Same-Near content h.1 in
            Post-bind (write-Near fs content law (staged i) b t refl refl (λ j. refl))
              (λ _ t1 w.
                let n1 = Near-trans content n w.0 in
                Post-bind (stage_lem (suc i) m t1 (λ j. n1.same_keys j ∙ keys j))
                  (λ originals t2 st. returned (record {
                    near = Near-trans content n1 st.near;
                    labels = ap (λ ls. l ∷ ls) st.labels;
                    held = (h.0 ∙ keys l, st.held);
                    files = (st.below i (omega arith) ∙ ground (arith, w.1 (staged i)), st.files);
                    below = λ j lt.
                        st.below j (omega arith) ∙ ground (arith, w.1 (staged j), h.1 (staged j));
                  }))
                  (λ t2 n2. Near-trans content n1 n2))
              (λ t1 n1. Near-trans content n n1))
          (λ t h. Same-Near content h)

    -- The journal is in place and the new files lie beside it.
    pub record IsPrepared (m : Dict Label Bytes) (s : F) : Type 0 where
      pub bytes : Bytes
      pub originals : List (Label × Option Bytes)
      pub decoded : cbor.decode_journal bytes ≡ some (record { version = 1; originals = originals })
      pub labels : labels_of originals ≡ keys_of m
      pub held : AreOriginals old originals
      pub undoing : IsUndoing content old bytes (labels_of originals) s
      pub keys : (l : Label) → content (key l) s ≡ old l
      pub files : AreStaged 0 m s

    pub IsPrepared-IsRecoverable :
        {m : Dict Label Bytes} {s : F} → IsPrepared m s → IsRecoverable content cbor old s
    IsPrepared-IsRecoverable v = inr (v.bytes, v.originals, v.decoded, v.held, v.undoing)

    module _ (codec : IsCbor cbor) (m : Dict Label Bytes) (originals : List (Label × Option Bytes))
        (labels : labels_of originals ≡ keys_of m) (held : AreOriginals old originals) where
      journal_in_place :
          (bytes : Bytes) (s t : F)
          → cbor.encode_journal (record { version = 1; originals = originals }) ≡ some bytes
          → IsClean content old s
          → AreStaged 0 m s
          → content journal_new s ≡ some bytes
          → ((r : FilePath)
              → content r t ≡ (
                  if path_beq journal r
                  then content journal_new s
                  else if path_beq journal_new r
                  then none
                  else content r s))
          → IsPrepared m t
      journal_in_place bytes s t encoded v files new moved = record {
        bytes = bytes;
        originals = originals;
        decoded = codec.decode-encode_journal _ bytes encoded;
        labels = labels;
        held = held;
        undoing = record {
          there = moved journal ∙ new;
          uncommitted = moved committed ∙ v.uncommitted;
          untouched = λ l h. moved (key l) ∙ v.settled.keys l;
        };
        keys = λ l. moved (key l) ∙ v.settled.keys l;
        files = AreStaged-keep 0 m s t (λ j lt. moved (staged j)) files;
      }

      IsPrepared-sync : {s t : F} → IsPrepared m s → Same content s t → IsPrepared m t
      IsPrepared-sync {s} {t} v h = record {
        bytes = v.bytes;
        originals = v.originals;
        decoded = v.decoded;
        labels = v.labels;
        held = v.held;
        undoing = IsUndoing-Near content v.undoing (Same-Near content h);
        keys = λ l. h (key l) ∙ v.keys l;
        files = AreStaged-keep 0 m s t (λ j lt. h (staged j)) v.files;
      }

      write_journal_lem :
          (s : F)
          → IsClean content old s
          → AreStaged 0 m s
          → Post
              (λ u t. IsPrepared m t)
              (IsRecoverable content cbor old)
              (write_journal fs cbor parents originals s)
      unfolding write_journal
      write_journal_lem s v files =
          let settled = λ (t : F) (w : IsClean content old t).
            (let r : IsRecoverable content cbor old t = inl w.settled in r) in
          Post-bind (law.sync_dir_lem staging_dir s)
            (λ _ t h.
              let v1 = IsClean-Near content v (Same-Near content h) in
              let files1 = AreStaged-keep 0 m s t (λ j lt. h (staged j)) files in
              Post-bind
                (Post-lift
                  {Q = λ bytes u.
                    (u ≡ t)
                    × (cbor.encode_journal (record { version = 1; originals = originals })
                        ≡ some bytes)}
                  {X = IsRecoverable content cbor old}
                  (to_io converted
                    (cbor.encode_journal (record { version = 1; originals = originals })))
                  t (λ bytes e. (refl, to_io-eq-ok _ _ e)) (settled t v1))
                (λ bytes u e. rw e.0 (
                  Post-bind (write-Near fs content law journal_new bytes t refl refl (λ j. refl))
                    (λ _ t2 w.
                      let v2 = IsClean-Near content v1 w.0 in
                      Post-bind (law.rename_lem journal_new journal t2)
                        (λ _ t3 moved.
                          let prepared =
                            journal_in_place bytes t2 t3 e.1 v2
                              (AreStaged-keep 0 m t t2 (λ j lt. w.1 (staged j)) files1)
                              (w.1 journal_new) moved.1 in
                          Post-weaken (law.sync_dir_lem work_dir t3)
                            (λ _ t4 h4. IsPrepared-sync prepared h4)
                            (λ t4 h4. IsPrepared-IsRecoverable (IsPrepared-sync prepared h4)))
                        (λ t3 h3. settled t3 (IsClean-Near content v2 (Same-Near content h3))))
                    (λ t2 n2. settled t2 (IsClean-Near content v1 n2))))
                (λ u r. r))
            (λ t h. settled t (IsClean-Near content v (Same-Near content h)))

    pub prepare_files_lem :
        (codec : IsCbor cbor) (m : Dict Label Bytes) (s : F)
        → IsClean content old s
        → Post
            (λ u t. IsPrepared m t)
            (IsRecoverable content cbor old)
            (prepare_files fs cbor parents m s)
    unfolding prepare_files
    prepare_files_lem codec m s v =
        Post-bind (create_dir-Same (staging_dir ∷ work_dir ∷ store_dir ∷ parents) s)
          (λ _ t h.
            let v1 = IsClean-Near content v (Same-Near content h) in
            Post-bind (stage_lem 0 m t v1.settled.keys)
              (λ originals t2 st.
                write_journal_lem codec m originals st.labels st.held t2
                  (IsClean-Near content v1 st.near) st.files)
              (λ t2 n2. inl (IsSettled-Near content v1.settled n2)))
          (λ t h. inl (IsSettled-Near content v.settled (Same-Near content h)))
