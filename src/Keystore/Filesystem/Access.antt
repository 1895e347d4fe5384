-- ===== src/Keystore/Filesystem/Access.antt =====
-- src/keystore/store/fs.rs: the operations of the keystore, on a store that any earlier operation may
-- have left behind.
use connexa.Keystore.Filesystem.{
  FileSystem, FilePath, Cbor, Folder, work_dir, store_dir, key, journal,
}
use connexa.Prelude.{
  [], Exec, Option, List, Post, Bool, Post-bind, Post-map_err, ◌⊎◌, ◌∷◌, inl, Post-weaken, pure,
  returned, ◌∙◌, false, ◌≡◌, refl, true, none, sym, inr, Bool-cases, arith, if◌then◌else◌, ◌==◌, ok,
  list_eq, ap, nat_eq, Post-lift, map_err, ◌>>=◌, lift, ◌>>◌, subst,
}
use connexa.Keystore.Filesystem.Disk.{IsFileSystem, Same, Updated}
use connexa.Keystore.Filesystem.Undo.{
  IsRecoverable, IsClean, Same-Near, IsSettled, IsSettled-Near, sync-Near,
}
use connexa.Keystore.Types.{Error, backend, Bytes, Label, EncryptedEntry}
use connexa.Keystore.Filesystem.Store.{
  locked, access, put_many, lock, after_nothing, get, decode_found, remove,
}
use connexa.Keystore.Filesystem.Encoding.{written}
use connexa.Keystore.Filesystem.Staging.{create_dir-Same, IsCbor}
use connexa.Keystore.Filesystem.Batch.{commit_batch}
use connexa.Keystore.Filesystem.Recovery.{IsRecoverable-Near, recover_lem}
use connexa.Keystore.Filesystem.Commit.{commit_batch_lem}
use connexa.Keystore.Filesystem.Journal.{recover}
use connexa.Keystore.Label.{validate_label}
use connexa.Keystore.Backend.Laws.{is_some}

module _ {F : Type 0} (fs : FileSystem F) (content : FilePath → F → Option Bytes)
    (law : IsFileSystem content fs) (cbor : Cbor) (parents : List Folder) where
  lock_lem : (s : F) → Post (λ u t. Same content s t) (Same content s) (lock fs cbor parents s)
  unfolding lock
  lock_lem s =
      Post-bind (create_dir-Same fs content law (work_dir ∷ store_dir ∷ parents) s)
        (λ _ t h.
          Post-weaken (law.acquire_lock_lem t) (λ _ u k. λ p. k p ∙ h p) (λ u k. λ p. k p ∙ h p))
        (λ t h. h)

  module _ (m : Label → Option Bytes) where
    -- A store that is not there holds no key.
    no_store :
        (s : F)
        → IsRecoverable content cbor m s
        → ((p : FilePath) → content p s ≡ none)
        → (l : Label) → m l ≡ none
    no_store s (inl v) h l = sym (v.keys l) ∙ h (key l)
    no_store s (inr (bytes, originals, decoded, held, v)) h l =
        absurd (ground (arith, h journal, v.there))

    module _ {A : Type 0} (Q : A → F → Type 0) (Y : F → Type 0)
        (keep : (s : F) → IsRecoverable content cbor m s → Y s) (operation : Exec Error F A)
        (runs : (s : F) → IsClean content m s → Post Q Y (operation s)) where
      locked_lem :
          (s : F) → IsRecoverable content cbor m s → Post Q Y (locked fs cbor parents operation s)
      unfolding locked
      locked_lem s v =
          Post-bind (Post-map_err backend (lock fs cbor parents) s (lock_lem s))
            (λ _ t h.
              let w = IsRecoverable-Near fs content law m cbor v (Same-Near content h) in
              Post-bind
                (Post-map_err backend (recover fs cbor) t (recover_lem fs content law m cbor t w))
                (λ _ u clean. runs u clean) keep)
            (λ t h. keep t (IsRecoverable-Near fs content law m cbor v (Same-Near content h)))

      -- An operation runs on a store in order, whatever was interrupted before it.
      pub access_lem :
          (create : Bool) (missing : A)
          → (create ≡ false
              → (s : F) → IsRecoverable content cbor m s
              → ((l : Label) → m l ≡ none)
              → Q missing s)
          → (s : F) → IsRecoverable content cbor m s
          → Post Q Y (access fs cbor parents create missing operation s)
      unfolding access
      access_lem true missing q s v = locked_lem s v
      access_lem false missing q s v =
          Post-bind (Post-map_err backend fs.store_exists s (law.store_exists_lem s))
            (λ b t h.
              let w = IsRecoverable-Near fs content law m cbor v (Same-Near content h.0) in
              elim (Bool-cases b) [
                | inl there ↦ rw there (locked_lem t w)
                | inr missing_store ↦
                    rw missing_store
                      (returned (q refl t w (no_store t w (λ p. h.0 p ∙ h.1 missing_store p))))
              ])
            (λ t h. keep t (IsRecoverable-Near fs content law m cbor v (Same-Near content h)))

    -- A batch that is reported as stored is stored. One that is reported as failed is stored as a
    -- whole or not at all, and an access that follows will find out which.
    pub put_many_lem :
        (codec : IsCbor cbor) (entries : List EncryptedEntry) (s : F)
        → IsRecoverable content cbor m s
        → Post
            (λ u t. IsRecoverable content cbor (λ l. written cbor entries l (m l)) t)
            (λ t.
              IsRecoverable content cbor m t
              ⊎ IsRecoverable content cbor (λ l. written cbor entries l (m l)) t)
            (put_many fs cbor parents entries s)
    unfolding put_many written
    put_many_lem codec [] s v =
        access_lem (λ u t. IsRecoverable content cbor m t)
          (λ t. IsRecoverable content cbor m t ⊎ IsRecoverable content cbor m t) (λ t w. inl w)
          (pure tt) (λ t w. returned (inl w.settled)) false tt (λ _ t w _. w) s v
    put_many_lem codec (entry ∷ entries) s v =
        access_lem
          (λ u t. IsRecoverable content cbor (λ l. written cbor (entry ∷ entries) l (m l)) t)
          (λ t.
            IsRecoverable content cbor m t
            ⊎ IsRecoverable content cbor (λ l. written cbor (entry ∷ entries) l (m l)) t)
          (λ t w. inl w) (commit_batch fs cbor parents after_nothing (entry ∷ entries))
          (λ t w.
            Post-weaken
              (commit_batch_lem fs content law cbor m parents codec after_nothing (entry ∷ entries)
                t w)
              (λ _ u x. inl x)
              (λ u x. elim x [ inl before ↦ inl before | inr done ↦ inr (inl done) ]))
          true tt (λ h. cc h) s v

    -- What is found under a label is what the file of the label holds, decoded.
    pub get_lem :
        (label : Label) (s : F)
        → IsRecoverable content cbor m s
        → Post
            (λ found t. IsRecoverable content cbor m t × (decode_found cbor (m label) ≡ ok found))
            (IsRecoverable content cbor m)
            (get fs cbor parents label s)
    unfolding get decode_found
    get_lem label s v =
        Post-bind
          (Post-lift {Q = λ _ t. IsRecoverable content cbor m t} {X = IsRecoverable content cbor m}
            (validate_label label) s (λ _ _. v) v)
          (λ _ t w.
            access_lem
              (λ found t. IsRecoverable content cbor m t × (decode_found cbor (m label) ≡ ok found))
              (IsRecoverable content cbor m) (λ u x. x)
              (map_err backend (fs.read (key label)) >>= λ found. lift (decode_found cbor found))
              (λ u clean.
                Post-bind
                  (Post-map_err backend (fs.read (key label)) u (law.read_lem (key label) u))
                  (λ o u1 h.
                    let x : IsRecoverable content cbor m u1 =
                      inl (IsSettled-Near content clean.settled (Same-Near content h.1)) in
                    Post-lift (decode_found cbor o) u1
                      (λ found e.
                        (x, ap (decode_found cbor) (sym (h.0 ∙ clean.settled.keys label)) ∙ e))
                      x)
                  (λ u1 h. inl (IsSettled-Near content clean.settled (Same-Near content h))))
              false none (λ _ u x none_there. (x, rw (none_there label) refl)) t w)
          (λ t w. w)

    abbrev without : Label → Label → Option Bytes
    without label l = if label == l then none else m l

    unlinked :
        (label : Label) (s t : F)
        → IsClean content m s
        → Updated content (key label) none s t
        → IsSettled content (without label) t
    unlinked label s t v h = record {
      no_journal = h journal ∙ v.settled.no_journal;
      keys = λ l. h (key l) ∙ ap (λ o. if label == l then none else o) (v.settled.keys l);
    }

    without_nothing :
        (label : Label)
        → ((l : Label) → m l ≡ none)
        → (s : F) → IsRecoverable content cbor m s
        → IsRecoverable content cbor (without label) s
    without_nothing label none_there s v =
        subst (λ f. IsRecoverable content cbor f s) (λ i l. same l i) v
      where
        same : (l : Label) → m l ≡ without label l
        same l = ground (arith, none_there l)

    -- A removal that is reported leaves nothing under the label and all else in place, and tells
    -- whether there was something. One that fails has removed the label's file or nothing.
    pub remove_lem :
        (label : Label) (s : F)
        → IsRecoverable content cbor m s
        → Post
            (λ removed t.
              IsRecoverable content cbor (without label) t × (removed ≡ is_some (m label)))
            (λ t. IsRecoverable content cbor m t ⊎ IsRecoverable content cbor (without label) t)
            (remove fs cbor parents label s)
    unfolding remove
    remove_lem label s v =
        Post-bind
          (Post-lift {Q = λ _ t. IsRecoverable content cbor m t}
            {X = λ t. IsRecoverable content cbor m t ⊎ IsRecoverable content cbor (without label) t}
            (validate_label label) s (λ _ _. v) (inl v))
          (λ _ t w.
            access_lem
              (λ removed t.
                IsRecoverable content cbor (without label) t × (removed ≡ is_some (m label)))
              (λ t. IsRecoverable content cbor m t ⊎ IsRecoverable content cbor (without label) t)
              (λ u x. inl x)
              (do
                removed ← map_err backend (fs.unlink (key label))
                map_err backend (fs.sync_dir store_dir)
                pure removed)
              (λ u clean.
                Post-bind
                  (Post-map_err backend (fs.unlink (key label)) u (law.unlink_lem (key label) u))
                  (λ removed u1 h.
                    let x = unlinked label u u1 clean h.1 in
                    Post-bind
                      (Post-map_err backend (fs.sync_dir store_dir) u1
                        (sync-Near fs content law store_dir u1))
                      (λ _ u2 n. returned (
                        inl (IsSettled-Near content x n),
                        h.0 ∙ ap is_some (clean.settled.keys label),
                      ))
                      (λ u2 n. inr (inl (IsSettled-Near content x n))))
                  (λ u1 h. inl (inl (IsSettled-Near content clean.settled (Same-Near content h)))))
              false false
              (λ _ u x none_there.
                (without_nothing label none_there u x, sym (ap is_some (none_there label))))
              t w)
          (λ t w. w)
