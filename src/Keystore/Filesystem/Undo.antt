-- ===== src/Keystore/Filesystem/Undo.antt =====
-- What a journal says of the store, and how the keys of a journal are put back.
use connexa.Prelude.{
  true, false, Option, none, some, List, [], ◌∷◌, map, if◌then◌else◌, ◌≡◌, refl, ◌∙◌, ap, ap₂,
  arith, Post, returned, Post-bind, Post-weaken, Bool-cases, inl, inr, ◌==◌, list_eq, nat_eq,
  list_beq_iff, ◌⊎◌,
}
use connexa.Dict.{contains}
use connexa.Keystore.Types.{Bytes, Label}
use connexa.Keystore.Filesystem.{
  FilePath, key, journal, committed, restore, path_beq, Folder, Cbor, FileSystem,
}
use connexa.Keystore.Filesystem.Disk.{Same, Updated, IsFileSystem}
use connexa.Keystore.Filesystem.Journal.{restore_one, restore_all}

abbrev pub labels_of : List (Label × Option Bytes) → List Label
labels_of originals = map (λ kv. kv.0) originals

-- Every original is what the label held.
abbrev pub AreOriginals : (Label → Option Bytes) → List (Label × Option Bytes) → Type 0
AreOriginals m [] = Unit
AreOriginals m ((l, o) ∷ originals) = (o ≡ m l) × AreOriginals m originals

module _ {F : Type 0} (content : FilePath → F → Option Bytes) where
  -- Neither the journal, nor the commit record, nor a key has changed.
  pub record Near (s t : F) : Type 0 where
    pub same_journal : content journal t ≡ content journal s
    pub same_commit : content committed t ≡ content committed s
    pub same_keys : (l : Label) → content (key l) t ≡ content (key l) s

  pub Same-Near : {s t : F} → Same content s t → Near s t
  Same-Near h = record {
    same_journal = h journal;
    same_commit = h committed;
    same_keys = λ l. h (key l);
  }

  pub Near-trans : {s t u : F} → Near s t → Near t u → Near s u
  Near-trans a b = record {
    same_journal = b.same_journal ∙ a.same_journal;
    same_commit = b.same_commit ∙ a.same_commit;
    same_keys = λ l. b.same_keys l ∙ a.same_keys l;
  }

  -- There is no journal, and the keys are these.
  pub record IsSettled (m : Label → Option Bytes) (s : F) : Type 0 where
    pub no_journal : content journal s ≡ none
    pub keys : (l : Label) → content (key l) s ≡ m l

  -- There is this journal of these originals, and the keys that are not among them are in place.
  pub record IsUndoing (m : Label → Option Bytes) (bytes : Bytes) (labels : List Label) (s : F)
      : Type 0 where
    pub there : content journal s ≡ some bytes
    pub uncommitted : content committed s ≡ none
    pub untouched : (l : Label) → contains l labels ≡ false → content (key l) s ≡ m l

  pub IsSettled-Near :
      {m : Label → Option Bytes} {s t : F} → IsSettled m s → Near s t → IsSettled m t
  IsSettled-Near v n = record {
    no_journal = n.same_journal ∙ v.no_journal;
    keys = λ l. n.same_keys l ∙ v.keys l;
  }

  -- Nothing is under way: there is neither a journal nor a commit record.
  pub record IsClean (m : Label → Option Bytes) (s : F) : Type 0 where
    pub settled : IsSettled m s
    pub uncommitted : content committed s ≡ none

  pub IsClean-Near : {m : Label → Option Bytes} {s t : F} → IsClean m s → Near s t → IsClean m t
  IsClean-Near v n = record {
    settled = IsSettled-Near v.settled n;
    uncommitted = n.same_commit ∙ v.uncommitted;
  }

  pub IsUndoing-Near :
      {m : Label → Option Bytes} {bytes : Bytes} {labels : List Label} {s t : F}
      → IsUndoing m bytes labels s
      → Near s t
      → IsUndoing m bytes labels t
  IsUndoing-Near v n = record {
    there = n.same_journal ∙ v.there;
    uncommitted = n.same_commit ∙ v.uncommitted;
    untouched = λ l h. n.same_keys l ∙ v.untouched l h;
  }

  -- There is a journal that the library decodes to these originals.
  abbrev pub IsPending : Cbor → (Label → Option Bytes) → F → Type 0
  IsPending cbor m s =
      (bytes : Bytes) × (originals : List (Label × Option Bytes)) × (cbor.decode_journal bytes
        ≡ some (record { version = 1; originals = originals }))
      × AreOriginals m originals
      × IsUndoing m bytes (labels_of originals) s

  -- Recovery will bring these keys back, or leave them.
  abbrev pub IsRecoverable : Cbor → (Label → Option Bytes) → F → Type 0
  IsRecoverable cbor m s = IsSettled m s ⊎ IsPending cbor m s

module _ {F : Type 0} (fs : FileSystem F) (content : FilePath → F → Option Bytes)
    (law : IsFileSystem content fs) where
  pub unlink-Near :
      (p : FilePath) (s : F)
      → path_beq p journal ≡ false
      → path_beq p committed ≡ false
      → ((l : Label) → path_beq p (key l) ≡ false)
      → Post (λ b t. Near content s t) (Near content s) (fs.unlink p s)
  unlink-Near p s hj hc hk =
      Post-weaken (law.unlink_lem p s)
        (λ b t h. record {
          same_journal = h.1 journal ∙ rw hj refl;
          same_commit = h.1 committed ∙ rw hc refl;
          same_keys = λ l. h.1 (key l) ∙ rw (hk l) refl;
        })
        (λ t h. Same-Near content h)

  pub write-Near :
      (p : FilePath) (bytes : Bytes) (s : F)
      → path_beq p journal ≡ false
      → path_beq p committed ≡ false
      → ((l : Label) → path_beq p (key l) ≡ false)
      → Post
          (λ u t. Near content s t × Updated content p (some bytes) s t)
          (Near content s)
          (fs.write_new p bytes s)
  write-Near p bytes s hj hc hk =
      Post-weaken (law.write_new_lem p bytes s)
        (λ b t h. (
          record {
            same_journal = h journal ∙ rw hj refl;
            same_commit = h committed ∙ rw hc refl;
            same_keys = λ l. h (key l) ∙ rw (hk l) refl;
          },
          h,
        ))
        (λ t h. record {
          same_journal = h journal ∙ rw hj refl;
          same_commit = h committed ∙ rw hc refl;
          same_keys = λ l. h (key l) ∙ rw (hk l) refl;
        })

  pub sync-Near :
      (d : Folder) (s : F) → Post (λ u t. Near content s t) (Near content s) (fs.sync_dir d s)
  sync-Near d s =
      Post-weaken (law.sync_dir_lem d s) (λ u t h. Same-Near content h) (λ t h. Same-Near content h)

  module _ (m : Label → Option Bytes) (bytes : Bytes) (labels : List Label) where
    -- The key of a label is set, or removed, and no other key is.
    abbrev pub SetTo : Label → Option Bytes → F → F → Type 0
    SetTo l o s t = (j : Label) → content (key j) t ≡ (if l == j then o else content (key j) s)

    set-IsUndoing :
        (l : Label) (o : Option Bytes) (s t : F)
        → contains l labels ≡ true
        → IsUndoing content m bytes labels s
        → content journal t ≡ content journal s
        → content committed t ≡ content committed s
        → SetTo l o s t
        → IsUndoing content m bytes labels t
    set-IsUndoing l o s t among v hj hc set = record {
      there = hj ∙ v.there;
      uncommitted = hc ∙ v.uncommitted;
      untouched = λ j h. elim (Bool-cases (l == j)) [
        | inl same ↦ absurd (ground (arith, (list_beq_iff l j).0 same, among, h))
        | inr other ↦ set j ∙ rw other (v.untouched j h)
      ];
    }

    restore_one_lem :
        (l : Label) (o : Option Bytes) (s : F)
        → contains l labels ≡ true
        → IsUndoing content m bytes labels s
        → Post
            (λ u t. IsUndoing content m bytes labels t × SetTo l o s t)
            (IsUndoing content m bytes labels)
            (restore_one fs l o s)
    unfolding restore_one
    restore_one_lem l none s among v =
        Post-bind (law.unlink_lem (key l) s)
          (λ b t h. returned (
            set-IsUndoing l none s t among v (h.1 journal) (h.1 committed) (λ j. h.1 (key j)),
            λ j. h.1 (key j),
          ))
          (λ t h. IsUndoing-Near content v (Same-Near content h))
    restore_one_lem l (some b) s among v =
        Post-bind (unlink-Near restore s refl refl (λ j. refl))
          (λ _ t n.
            Post-bind (write-Near restore b t refl refl (λ j. refl))
              (λ _ t' w.
                let near = Near-trans content n w.0 in
                Post-weaken (law.rename_lem restore (key l) t')
                  (λ _ u h.
                    let set : SetTo l (some b) s u = λ j.
                      h.1 (key j)
                      ∙ ap₂ (λ x y. if l == j then x else y) (w.1 restore) (near.same_keys j) in
                    (
                      set-IsUndoing l (some b) s u among v (h.1 journal ∙ near.same_journal)
                          (h.1 committed ∙ near.same_commit) set,
                      set,
                    ))
                  (λ u h. IsUndoing-Near content v (Near-trans content near (Same-Near content h))))
              (λ t' n'. IsUndoing-Near content v (Near-trans content n n')))
          (λ t n. IsUndoing-Near content v n)

    -- The labels of the second list are among those of the first.
    abbrev pub AreAmong : List (Label × Option Bytes) → Type 0
    AreAmong [] = Unit
    AreAmong ((l, o) ∷ originals) = (contains l labels ≡ true) × AreAmong originals

    pub restore_all_lem :
        (originals : List (Label × Option Bytes)) (s : F)
        → AreAmong originals
        → AreOriginals m originals
        → IsUndoing content m bytes labels s
        → Post
            (λ u t.
              IsUndoing content m bytes labels t
              × ((l : Label)
                  → content (key l) t
                    ≡ (if contains l (labels_of originals) then m l else content (key l) s)))
            (IsUndoing content m bytes labels)
            (restore_all fs originals s)
    unfolding restore_all contains
    restore_all_lem [] s among held v = returned (v, λ l. refl)
    restore_all_lem ((l, o) ∷ originals) s among held v =
        Post-bind (restore_one_lem l o s among.0 v)
          (λ _ t one.
            Post-weaken (restore_all_lem originals t among.1 held.1 one.0)
              (λ _ u all. (
                all.0,
                λ j. all.1 j ∙ (elim (Bool-cases (l == j)) [
                  | inl same ↦
                      let alike : m l ≡ m j = ap m ((list_beq_iff l j).0 same) in
                      ground (arith, one.1 j, held.0, alike)
                  | inr other ↦ ground (arith, one.1 j)
                ]),
              ))
              (λ u w. w))
          (λ t w. w)
