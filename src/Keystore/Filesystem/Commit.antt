-- ===== src/Keystore/Filesystem/Commit.antt =====
-- src/keystore/store/fs.rs: `commit_batch` replaces the keys of a batch all together or not at all,
-- whichever calls of the file system fail, in the batch and in its undoing.
use connexa.Keystore.Filesystem.{
  FileSystem, FilePath, Cbor, Folder, work_dir, store_dir, journal, committed, key,
}
use connexa.Prelude.{
  Option, List, ℕ, Result, ◌⊎◌, Post, ok, returned, err, failed, Post-bind, Post-map_err, inr, inl,
  subst, sym, Post-weaken, ◌∙◌, ap, [], ◌≡◌, refl,
}
use connexa.Keystore.Filesystem.Disk.{IsFileSystem}
use connexa.Keystore.Filesystem.Batch.{
  conclude, rollback_error, apply, replace_prepared, commit_batch, prepare, prepare_files,
}
use connexa.Dict.{Dict}
use connexa.Keystore.Filesystem.Undo.{
  IsSettled, IsRecoverable, IsClean, IsUndoing, labels_of, sync-Near, IsSettled-Near,
  IsUndoing-Near, Same-Near,
}
use connexa.Keystore.Filesystem.Encoding.{overlay, written, encode_entries_lem}
use connexa.Keystore.Types.{Bytes, Label, EncryptedEntry, IoError, Error, backend, recovery_failed}
use connexa.Keystore.Filesystem.Staging.{IsPrepared, keys_of, IsCbor, prepare_files_lem}
use connexa.Keystore.Filesystem.Recovery.{recover_lem, recover-IsSettled}
use connexa.Keystore.Filesystem.Atomic.{replace_each_lem, AreListed, keys_of-AreListed}

module _ {F : Type 0} (fs : FileSystem F) (content : FilePath → F → Option Bytes)
    (law : IsFileSystem content fs) (cbor : Cbor) (old : Label → Option Bytes)
    (parents : List Folder) where
  abbrev after : Dict Label Bytes → Label → Option Bytes
  after m l = overlay m l (old l)

  -- Once every file is in place, the journal becomes the record of the commit.
  apply_lem :
      (after_replace : ℕ → Result IoError (Unit {0})) (m : Dict Label Bytes) (s : F)
      → IsPrepared fs content law old cbor parents m s
      → Post
          (λ u t. IsSettled content (after m) t)
          (IsRecoverable content cbor old)
          (apply fs cbor parents after_replace (keys_of m) s)
  unfolding apply
  apply_lem after_replace m s v =
      let pending = λ (t : F) (w : IsUndoing content old v.bytes (labels_of v.originals) t).
        (let r : IsRecoverable content cbor old t =
            inr (v.bytes, v.originals, v.decoded, v.held, w) in
          r) in
      Post-bind
        (replace_each_lem fs content law cbor old v.bytes (labels_of v.originals) parents
          after_replace 0 m s
          (subst (λ ls. AreListed fs content law cbor old ls m) (sym v.labels)
            (keys_of-AreListed fs content law cbor old m))
          v.files v.undoing)
        (λ _ t all.
          Post-bind (sync-Near fs content law store_dir t)
            (λ _ t2 n2.
              Post-weaken (law.rename_lem journal committed t2)
                (λ _ t3 h. record {
                  no_journal = h.1 journal;
                  keys = λ l. h.1 (key l) ∙ n2.same_keys l ∙ all.1 l ∙ ap (overlay m l) (v.keys l);
                })
                (λ t3 h.
                  pending t3 (
                    IsUndoing-Near content (IsUndoing-Near content all.0 n2)
                      (Same-Near content h))))
            (λ t2 n2. pending t2 (IsUndoing-Near content all.0 n2)))
        (λ t w. pending t w)

  -- A failed batch is reported, and the store stays recoverable.
  rollback_error_lem :
      (error : Error) (s : F)
      → IsRecoverable content cbor old s
      → Post (λ u t. ⊥) (IsRecoverable content cbor old) (rollback_error fs cbor parents error s)
  unfolding rollback_error
  rollback_error_lem error s v = reported (recover_lem fs content law old cbor s v)
    where
      reported :
          {p : Result IoError (Unit {0}) × F}
          → Post (λ u t. IsClean content old t) (IsRecoverable content cbor old) p
          → Post {E = Error} {A = Unit {0}}
              (λ u t. ⊥)
              (IsRecoverable content cbor old)
              (elim p.0 [ ok _ ↦ (err error, p.1) | err _ ↦ (err (backend recovery_failed), p.1) ])
      reported (returned h) = failed (inl h.settled)
      reported (failed h) = failed h

  conclude_lem :
      (new : Label → Option Bytes) (s : F)
      → IsSettled content new s
      → Post (λ u t. IsSettled content new t) (IsSettled content new) (conclude fs cbor parents s)
  unfolding conclude
  conclude_lem new s v =
      Post-bind
        (Post-map_err backend (fs.sync_dir work_dir) s (sync-Near fs content law work_dir s))
        (λ _ t n. returned (
          after_recovery
            (recover-IsSettled fs content law new cbor t (IsSettled-Near content v n))))
        (λ t n. IsSettled-Near content v n)
    where
      after_recovery :
          {p : Result IoError (Unit {0}) × F}
          → Post (λ u t. IsClean content new t) (IsSettled content new) p
          → IsSettled content new p.1
      after_recovery (returned h) = h.settled
      after_recovery (failed h) = h

  -- Either the store before the batch, or the one after it.
  abbrev pub IsEither : List EncryptedEntry → F → Type 0
  IsEither entries s =
      IsRecoverable content cbor old s ⊎ IsSettled content (λ l. written cbor entries l (old l)) s

  replace_prepared_lem :
      (after_replace : ℕ → Result IoError (Unit {0})) (entries : List EncryptedEntry)
      (p : Result Error (List Label) × F)
      → Post
          (λ labels t.
            (m : Dict Label Bytes) × (labels ≡ keys_of m)
            × ((l : Label) (o : Option Bytes) → overlay m l o ≡ written cbor entries l o)
            × IsPrepared fs content law old cbor parents m t)
          (IsRecoverable content cbor old)
          p
      → Post
          (λ u t. IsSettled content (λ l. written cbor entries l (old l)) t)
          (IsEither entries)
          (replace_prepared fs cbor parents after_replace p.0 p.1)
  unfolding replace_prepared
  replace_prepared_lem after_replace entries _ (failed {e = error} {s} h) =
      Post-weaken (rollback_error_lem error s h) (λ u t x. absurd x) (λ t x. inl x)
  replace_prepared_lem after_replace entries _ (returned {s = s} (m, same, all, v)) =
      rw same (finish (apply_lem after_replace m s v))
    where
      finish :
          {p : Result IoError (Unit {0}) × F}
          → Post {A = Unit {0}}
              (λ u t. IsSettled content (after m) t)
              (IsRecoverable content cbor old)
              p
          → Post {E = Error} {A = Unit {0}}
              (λ u t. IsSettled content (λ l. written cbor entries l (old l)) t)
              (IsEither entries)
              (elim p.0 [
                | ok _ ↦ conclude fs cbor parents p.1
                | err error ↦ rollback_error fs cbor parents (backend error) p.1
              ])
      finish (returned {s = t} h) =
          let in_place : IsSettled content (λ l. written cbor entries l (old l)) t = record {
            no_journal = h.no_journal;
            keys = λ l. h.keys l ∙ all l (old l);
          } in
          Post-weaken (conclude_lem (λ l. written cbor entries l (old l)) t in_place) (λ _ u x. x)
            (λ u x. inr x)
      finish (failed {e = error} {s = t} h) =
          Post-weaken (rollback_error_lem (backend error) t h) (λ u t x. absurd x) (λ t x. inl x)

  pub commit_batch_lem :
      (codec : IsCbor cbor) (after_replace : ℕ → Result IoError (Unit {0}))
      (entries : List EncryptedEntry) (s : F)
      → IsClean content old s
      → Post
          (λ u t. IsSettled content (λ l. written cbor entries l (old l)) t)
          (IsEither entries)
          (commit_batch fs cbor parents after_replace entries s)
  unfolding commit_batch prepare overlay
  commit_batch_lem codec after_replace entries s v =
      replace_prepared_lem after_replace entries (prepare fs cbor parents entries s) (
        Post-bind (encode_entries_lem fs cbor parents entries [] s tt)
          (λ m t h. rw h.0 (
            Post-bind
              (Post-map_err backend (prepare_files fs cbor parents m) s
                (prepare_files_lem fs content law old cbor parents codec m s v))
              (λ _ u w. returned {a = keys_of m} (m, refl, h.1, w)) (λ u w. w)))
          (λ t e. rw e (inl v.settled)))
