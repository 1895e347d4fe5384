-- ===== src/Keystore/Filesystem/Atomic.antt =====
-- src/keystore/store/fs.rs: a batch replaces all its keys or none.
use connexa.Keystore.Filesystem.{
  FileSystem, FilePath, Cbor, key, staged, path_beq, journal, committed, Folder,
}
use connexa.Prelude.{
  Option, List, ℕ, ◌∷◌, arith, Result, Post, ◌≡◌, true, [], refl, returned, nat_eq, list_eq,
  Post-bind, some, if◌then◌else◌, Post-lift, Post-weaken, none, suc, ◌∙◌, ap, ◌==◌, Bool-cases, inl,
  inr, list_beq_iff, nat_beq_iff,
}
use connexa.Keystore.Filesystem.Disk.{IsFileSystem}
use connexa.Dict.{contains, Dict}
use connexa.Keystore.Filesystem.Batch.{replace_each}
use connexa.Keystore.Filesystem.Staging.{keys_of, AreStaged, AreStaged-keep}
use connexa.Keystore.Filesystem.Encoding.{overlay}
use connexa.Keystore.Filesystem.Undo.{IsUndoing, SetTo, IsUndoing-Near, Same-Near}
use connexa.Keystore.Types.{Bytes, Label, IoError}

module _ {F : Type 0} (fs : FileSystem F) (content : FilePath → F → Option Bytes)
    (law : IsFileSystem content fs) (cbor : Cbor) (old : Label → Option Bytes) where
  -- The labels of the batch are among these.
  abbrev pub AreListed : List Label → Dict Label Bytes → Type 0
  AreListed labels [] = Unit
  AreListed labels ((l, b) ∷ m) = (contains l labels ≡ true) × AreListed labels m

  AreListed-cons :
      (l : Label) (labels : List Label) (m : Dict Label Bytes)
      → AreListed labels m
      → AreListed (l ∷ labels) m
  unfolding contains
  AreListed-cons l labels [] h = tt
  AreListed-cons l labels ((j, b) ∷ m) h = (ground (arith, h.0), AreListed-cons l labels m h.1)

  pub keys_of-AreListed : (m : Dict Label Bytes) → AreListed (keys_of m) m
  unfolding contains
  keys_of-AreListed [] = tt
  keys_of-AreListed ((l, b) ∷ m) =
      (ground (arith, list_beq_iff l l), AreListed-cons l (keys_of m) m (keys_of-AreListed m))

  module _ (bytes : Bytes) (labels : List Label) where
    replaced-IsUndoing :
        (i : ℕ) (l : Label) (b : Bytes) (s t : F)
        → contains l labels ≡ true
        → IsUndoing content old bytes labels s
        → content (staged i) s ≡ some b
        → ((r : FilePath)
            → content r t ≡ (
                if path_beq (key l) r
                then content (staged i) s
                else if path_beq (staged i) r
                then none
                else content r s))
        → IsUndoing content old bytes labels t
          × SetTo fs content law old bytes labels l (some b) s t
    replaced-IsUndoing i l b s t among v file moved =
        let set : SetTo fs content law old bytes labels l (some b) s t =
          λ j. moved (key j) ∙ ap (λ x. if l == j then x else content (key j) s) file in
        (
          record {
            there = moved journal ∙ v.there;
            uncommitted = moved committed ∙ v.uncommitted;
            untouched = λ j h. elim (Bool-cases (l == j)) [
              | inl same ↦ absurd (ground (arith, (list_beq_iff l j).0 same, among, h))
              | inr other ↦ set j ∙ rw other (v.untouched j h)
            ];
          },
          set,
        )

    -- The new files replace the keys one by one. Until then they can be undone.
    pub replace_each_lem :
        (parents : List Folder) (after_replace : ℕ → Result IoError (Unit {0})) (i : ℕ)
        (m : Dict Label Bytes) (s : F)
        → AreListed labels m
        → AreStaged fs content law i m s
        → IsUndoing content old bytes labels s
        → Post
            (λ u t.
              IsUndoing content old bytes labels t
              × ((l : Label) → content (key l) t ≡ overlay m l (content (key l) s)))
            (IsUndoing content old bytes labels)
            (replace_each fs cbor parents after_replace i (keys_of m) s)
    unfolding replace_each overlay
    replace_each_lem parents after_replace i [] s listed files v = returned (v, λ l. refl)
    replace_each_lem parents after_replace i ((l, b) ∷ m) s listed files v =
        Post-bind (law.rename_lem (staged i) (key l) s)
          (λ _ t h.
            let (v1, set) = replaced-IsUndoing i l b s t listed.0 v files.0 h.1 in
            Post-bind
              (Post-lift {Q = λ _ u. u ≡ t} {X = IsUndoing content old bytes labels}
                (after_replace i) t (λ _ _. refl) v1)
              (λ _ u same. rw same (
                Post-weaken
                  (replace_each_lem parents after_replace (suc i) m t listed.1
                    (AreStaged-keep fs content law (suc i) m s t
                      (λ j lt. h.1 (staged j) ∙ ground (arith, nat_beq_iff i j)) files.1)
                    v1)
                  (λ _ w all. (all.0, λ j. all.1 j ∙ ap (overlay m j) (set j))) (λ w x. x)))
              (λ u x. x))
          (λ t h. IsUndoing-Near content v (Same-Near content h))
