-- ===== src/Keystore/Filesystem/Recovery.antt =====
-- `recover` can be interrupted anywhere and run again.
use connexa.Prelude.{
  Bool, true, false, not, Option, some, List, [], ◌∷◌, pure, if◌then◌else◌, ◌≡◌, refl, sym, ◌∙◌, ap,
  arith, Post, returned, Post-bind, Post-weaken, Post-lift, Post-ensure, inl, inr, list_eq, nat_eq,
  list_beq_iff, Bool-cases,
}
use connexa.Dict.{contains}
use connexa.Keystore.Types.{Bytes, Label, conflicting_journals}
use connexa.Keystore.Backend.Laws.{is_some}
use connexa.Keystore.Filesystem.{
  FilePath, key, journal, journal_new, committed, restore, store_dir, work_dir, Cbor, FileSystem,
}
use connexa.Keystore.Filesystem.Disk.{IsFileSystem}
use connexa.Keystore.Filesystem.Journal.{undo, roll_back, clean_up, conflict, recover, check_labels}
use connexa.Keystore.Filesystem.Undo.{
  labels_of, AreOriginals, Near, Same-Near, Near-trans, IsSettled, IsSettled-Near, IsClean,
  IsClean-Near, IsUndoing, IsUndoing-Near, IsPending, IsRecoverable, unlink-Near, sync-Near,
  AreAmong, restore_all_lem,
}

module _ {F : Type 0} (fs : FileSystem F) (content : FilePath → F → Option Bytes)
    (law : IsFileSystem content fs) (m : Label → Option Bytes) where
  AreAmong-cons :
      (bytes : Bytes) (l : Label) (labels : List Label) (originals : List (Label × Option Bytes))
      → AreAmong fs content law m bytes labels originals
      → AreAmong fs content law m bytes (l ∷ labels) originals
  unfolding contains
  AreAmong-cons bytes l labels [] h = tt
  AreAmong-cons bytes l labels ((j, o) ∷ originals) h =
      (ground (arith, h.0), AreAmong-cons bytes l labels originals h.1)

  all_among :
      (bytes : Bytes) (originals : List (Label × Option Bytes))
      → AreAmong fs content law m bytes (labels_of originals) originals
  unfolding contains
  all_among bytes [] = tt
  all_among bytes ((l, o) ∷ originals) = (
    ground (arith, list_beq_iff l l),
    AreAmong-cons bytes l (labels_of originals) originals (all_among bytes originals),
  )

  remove_staging-Near :
      (s : F) → Post (λ u t. Near content s t) (Near content s) (fs.remove_staging s)
  remove_staging-Near s =
      Post-weaken (law.remove_staging_lem s)
        (λ _ t h. record {
          same_journal = h journal;
          same_commit = h committed;
          same_keys = λ l. h (key l);
        })
        (λ t h. record {
          same_journal = h journal;
          same_commit = h committed;
          same_keys = λ l. h (key l);
        })

  -- The clean-up keeps the keys of a store without a journal, wherever it stops.
  clean_up_lem :
      (s : F)
      → IsSettled content m s
      → Post (λ u t. IsClean content m t) (IsSettled content m) (clean_up fs s)
  unfolding clean_up
  clean_up_lem s v =
      Post-bind (law.unlink_lem committed s)
        (λ _ t h.
          let v1 : IsClean content m t = record {
            settled = record {
              no_journal = h.1 journal ∙ v.no_journal;
              keys = λ l. h.1 (key l) ∙ v.keys l;
            };
            uncommitted = h.1 committed;
          } in
          Post-bind (unlink-Near fs content law journal_new t refl refl (λ l. refl))
            (λ _ t2 n2.
              let v2 = IsClean-Near content v1 n2 in
              Post-bind (unlink-Near fs content law restore t2 refl refl (λ l. refl))
                (λ _ t3 n3.
                  let v3 = IsClean-Near content v2 n3 in
                  Post-bind (remove_staging-Near t3)
                    (λ _ t4 n4.
                      let v4 = IsClean-Near content v3 n4 in
                      Post-weaken (sync-Near fs content law work_dir t4)
                        (λ _ t5 n5. IsClean-Near content v4 n5)
                        (λ t5 n5. IsSettled-Near content v4.settled n5))
                    (λ t4 n4. IsSettled-Near content v3.settled n4))
                (λ t3 n3. IsSettled-Near content v2.settled n3))
            (λ t2 n2. IsSettled-Near content v1.settled n2))
        (λ t h. IsSettled-Near content v (Same-Near content h))

  conflict-Near : (s : F) → Post (λ b t. Near content s t) (Near content s) (conflict fs s)
  unfolding conflict
  conflict-Near s =
      Post-bind (law.exists_lem committed s) (λ b t h. exists_if b t (Same-Near content h.1))
        (λ t h. Same-Near content h)
    where
      exists_if :
          (b : Bool) (t : F)
          → Near content s t
          → Post
              (λ _ u. Near content s u)
              (Near content s)
              ((if b then fs.exists journal else pure false) t)
      exists_if false t n = returned n
      exists_if true t n =
          Post-weaken (law.exists_lem journal t)
            (λ _ u h. Near-trans content n (Same-Near content h.1))
            (λ u h. Near-trans content n (Same-Near content h))

  module _ (cbor : Cbor) where
    undo_lem :
        (bytes : Bytes) (originals : List (Label × Option Bytes)) (s : F)
        → cbor.decode_journal bytes ≡ some (record { version = 1; originals = originals })
        → AreOriginals m originals
        → IsUndoing content m bytes (labels_of originals) s
        → Post
            (λ u t. IsSettled content m t)
            (IsRecoverable content cbor m)
            (undo fs (record { version = 1; originals = originals }) s)
    unfolding undo
    undo_lem bytes originals s decoded held v =
        let pending = λ (t : F) (w : IsUndoing content m bytes (labels_of originals) t).
          (let r : IsRecoverable content cbor m t = inr (bytes, originals, decoded, held, w) in
            r) in
        let in_place =
          λ (before t : F) (w : IsUndoing content m bytes (labels_of originals) t)
              (done : (l : Label)
                → content (key l) t
                  ≡ (if contains l (labels_of originals) then m l else content (key l) before))
              (l : Label).
            (let e : content (key l) t ≡ m l =
                elim (Bool-cases (contains l (labels_of originals))) [
                  | inl among ↦ done l ∙ rw among refl
                  | inr beside ↦ w.untouched l beside
                ] in
              e) in
        Post-bind
          (Post-lift {Q = λ _ t. IsUndoing content m bytes (labels_of originals) t}
            {X = IsRecoverable content cbor m} (check_labels originals) s (λ _ _. v) (pending s v))
          (λ _ t w.
            Post-bind
              (restore_all_lem fs content law m bytes (labels_of originals) originals t
                (all_among bytes originals) held w)
              (λ _ t2 r.
                Post-bind (sync-Near fs content law store_dir t2)
                  (λ _ t3 n3.
                    Post-bind (law.unlink_lem journal t3)
                      (λ _ t4 h4.
                        let v4 : IsSettled content m t4 = record {
                          no_journal = h4.1 journal;
                          keys = λ l. h4.1 (key l) ∙ n3.same_keys l ∙ in_place t t2 r.0 r.1 l;
                        } in
                        Post-weaken (sync-Near fs content law work_dir t4)
                          (λ _ t5 n5. IsSettled-Near content v4 n5)
                          (λ t5 n5. inl (IsSettled-Near content v4 n5)))
                      (λ t4 h4. pending t4 (
                        IsUndoing-Near content (IsUndoing-Near content r.0 n3)
                          (Same-Near content h4))))
                  (λ t3 n3. pending t3 (IsUndoing-Near content r.0 n3)))
              (λ t2 r. pending t2 r))
          (λ t r. r)

    roll_back_lem :
        (s : F)
        → IsPending content cbor m s
        → Post (λ u t. IsSettled content m t) (IsRecoverable content cbor m) (roll_back fs cbor s)
    unfolding roll_back
    roll_back_lem s (bytes, originals, decoded, held, v) =
        let pending = λ (t : F) (n : Near content s t).
          (let r : IsRecoverable content cbor m t =
              inr (bytes, originals, decoded, held, IsUndoing-Near content v n) in
            r) in
        Post-bind (law.read_lem journal s)
          (λ o t h. rw (h.0 ∙ v.there) (
            rw decoded (
              undo_lem bytes originals t decoded held
                (IsUndoing-Near content v (Same-Near content h.1)))))
          (λ t h. pending t (Same-Near content h))

    if_pending :
        (b : Bool) (s : F)
        → b ≡ is_some (content journal s)
        → IsRecoverable content cbor m s
        → Post
            (λ u t. IsSettled content m t)
            (IsRecoverable content cbor m)
            ((if b then roll_back fs cbor else pure tt) s)
    if_pending true s e (inl v) = absurd (ground (arith, e, v.no_journal))
    if_pending false s e (inl v) = returned v
    if_pending true s e (inr p) = roll_back_lem s p
    if_pending false s e (inr (bytes, originals, decoded, held, v)) =
        absurd (ground (arith, e, v.there))

    pub IsRecoverable-Near :
        {s t : F}
        → IsRecoverable content cbor m s
        → Near content s t
        → IsRecoverable content cbor m t
    IsRecoverable-Near (inl v) n = inl (IsSettled-Near content v n)
    IsRecoverable-Near (inr (bytes, originals, decoded, held, v)) n =
        inr (bytes, originals, decoded, held, IsUndoing-Near content v n)

    -- Recovery keeps a store recoverable, wherever it fails, and settles it where it succeeds.
    pub recover_lem :
        (s : F)
        → IsRecoverable content cbor m s
        → Post (λ u t. IsClean content m t) (IsRecoverable content cbor m) (recover fs cbor s)
    unfolding recover
    recover_lem s v =
        Post-bind (conflict-Near s)
          (λ both t n.
            let w = IsRecoverable-Near v n in
            Post-bind
              (Post-ensure {Q = λ _ u. IsRecoverable content cbor m u} (not both)
                conflicting_journals t w w)
              (λ _ t1 w1.
                Post-bind (law.exists_lem journal t1)
                  (λ b t2 h.
                    let w2 = IsRecoverable-Near w1 (Same-Near content h.1) in
                    Post-bind (if_pending b t2 (h.0 ∙ ap is_some (sym (h.1 journal))) w2)
                      (λ _ t3 settled.
                        Post-weaken (clean_up_lem t3 settled) (λ _ u x. x) (λ u x. inl x))
                      (λ t3 r. r))
                  (λ t2 h. IsRecoverable-Near w1 (Same-Near content h)))
              (λ t1 r. r))
          (λ t n. IsRecoverable-Near v n)

    -- Where there is no journal, recovery changes no key, even where it fails.
    pub recover-IsSettled :
        (s : F)
        → IsSettled content m s
        → Post (λ u t. IsClean content m t) (IsSettled content m) (recover fs cbor s)
    unfolding recover
    recover-IsSettled s v =
        Post-bind (conflict-Near s)
          (λ both t n.
            let w = IsSettled-Near content v n in
            Post-bind
              (Post-ensure {Q = λ _ u. IsSettled content m u} (not both) conflicting_journals t w w)
              (λ _ t1 w1.
                Post-bind (law.exists_lem journal t1)
                  (λ b t2 h.
                    rw (h.0 ∙ ap is_some w1.no_journal)
                      (clean_up_lem t2 (IsSettled-Near content w1 (Same-Near content h.1))))
                  (λ t2 h. IsSettled-Near content w1 (Same-Near content h)))
              (λ t1 r. r))
          (λ t n. IsSettled-Near content v n)
