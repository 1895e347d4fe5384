-- ===== src/Keystore/Filesystem/Encoding.antt =====
-- src/keystore/store/fs.rs: the batch that `prepare` encodes, with the last entry of every label.
use connexa.Prelude.{
  false, Option, none, some, List, [], ◌∷◌, if◌then◌else◌, ◌≡◌, refl, arith, Post, returned,
  Post-bind, Post-weaken, Post-lift, Post-ensure, Post-map_err, nat_eq, list_eq, list_beq_iff, ◌==◌,
  ap, lift, ◌∙◌,
}
use connexa.Dict.{Dict, has, insert, lookup, lookup-insert}
use connexa.Keystore.Types.{Bytes, Label, EncryptedEntry, backend, not_a_file, converted}
use connexa.Keystore.Filesystem.{Folder, Cbor, FileSystem}
use connexa.Keystore.Filesystem.Batch.{place, put_sorted, encode_entries, may_hold_key}
use connexa.Keystore.Label.{validate_label}
use connexa.Keystore.Filesystem.Journal.{to_io}
use connexa.Keystore.Filesystem.Staging.{to_io-eq-ok}

-- What a label holds once the batch is in place, by what it held.
unfoldable pub overlay : Dict Label Bytes → Label → Option Bytes → Option Bytes
overlay [] l o = o
overlay ((j, b) ∷ m) l o = overlay m l (if j == l then some b else o)

-- What a label holds after these entries, each of which replaces the one before it.
unfoldable pub written : Cbor → List EncryptedEntry → Label → Option Bytes → Option Bytes
written cbor [] l o = o
written cbor (entry ∷ entries) l o =
    written cbor entries l (if entry.metadata.label == l then cbor.encode_entry entry else o)

-- No label appears twice.
abbrev Distinct : Dict Label Bytes → Type 0
Distinct [] = Unit
Distinct ((l, b) ∷ m) = (has l m ≡ false) × Distinct m

abbrev or_else : Option Bytes → Option Bytes → Option Bytes
or_else none o = o
or_else (some b) o = some b

overlay-lookup :
    (m : Dict Label Bytes) (l : Label) (o : Option Bytes)
    → Distinct m
    → overlay m l o ≡ or_else (lookup l m) o
unfolding overlay lookup
overlay-lookup [] l o d = refl
overlay-lookup ((j, b) ∷ m) l o d =
    ground (arith, overlay-lookup m l (if j == l then some b else o), list_beq_iff j l)

lookup-place :
    (k l : Label) (v : Bytes) (m : Dict Label Bytes)
    → has k m ≡ false
    → lookup l (place k v m) ≡ (if k == l then some v else lookup l m)
unfolding lookup place
lookup-place k l v [] h = refl
lookup-place k l v ((j, w) ∷ m) h =
    ground (arith, lookup-place k l v m, list_beq_iff k l, list_beq_iff j k, list_beq_iff j l)

lookup-put_sorted :
    (k l : Label) (v : Bytes) (m : Dict Label Bytes)
    → lookup l (put_sorted k v m) ≡ (if k == l then some v else lookup l m)
unfolding put_sorted
lookup-put_sorted k l v m = ground (arith, lookup-place k l v m, lookup-insert k l v m)

insert-Distinct :
    (k : Label) (v : Bytes) (m : Dict Label Bytes) → Distinct m → Distinct (insert k v m)
unfolding insert lookup
insert-Distinct k v [] d = (refl, tt)
insert-Distinct k v ((j, w) ∷ m) d =
    ground (arith, insert-Distinct k v m, lookup-insert k j v m, list_beq_iff j k, list_beq_iff k j)

place-Distinct :
    (k : Label) (v : Bytes) (m : Dict Label Bytes)
    → has k m ≡ false
    → Distinct m
    → Distinct (place k v m)
unfolding place lookup
place-Distinct k v [] h d = (refl, tt)
place-Distinct k v ((j, w) ∷ m) h d =
    ground (arith, place-Distinct k v m, lookup-place k j v m, list_beq_iff j k, list_beq_iff k j)

put_sorted-Distinct :
    (k : Label) (v : Bytes) (m : Dict Label Bytes) → Distinct m → Distinct (put_sorted k v m)
unfolding put_sorted
put_sorted-Distinct k v m d = ground (arith, place-Distinct k v m, insert-Distinct k v m)

overlay-put_sorted :
    (k l : Label) (v : Bytes) (m : Dict Label Bytes) (o : Option Bytes)
    → Distinct m
    → overlay (put_sorted k v m) l o ≡ (if k == l then some v else overlay m l o)
overlay-put_sorted k l v m o d = ground (
  arith,
  overlay-lookup (put_sorted k v m) l o (put_sorted-Distinct k v m d),
  overlay-lookup m l o d,
  lookup-put_sorted k l v m,
)

module _ {F : Type 0} (fs : FileSystem F) (cbor : Cbor) (parents : List Folder) where
  -- What is encoded is, label by label, the last entry of that label.
  pub encode_entries_lem :
      (entries : List EncryptedEntry) (encoded : Dict Label Bytes) (s : F)
      → Distinct encoded
      → Post
          (λ m t.
            (t ≡ s)
            × ((l : Label) (o : Option Bytes)
                → overlay m l o ≡ written cbor entries l (overlay encoded l o)))
          (λ t. t ≡ s)
          (encode_entries fs cbor parents entries encoded s)
  unfolding encode_entries written
  encode_entries_lem [] encoded s d = returned (refl, λ l o. refl)
  encode_entries_lem (entry ∷ entries) encoded s d =
      Post-bind
        (Post-lift {Q = λ _ t. t ≡ s} {X = λ t. t ≡ s} (validate_label entry.metadata.label) s
          (λ _ _. refl) refl)
        (λ _ t e. rw e (
          Post-bind
            (Post-ensure {Q = λ _ t. t ≡ s} {X = λ t. t ≡ s}
              (may_hold_key (fs.kind entry.metadata.label s)) (backend not_a_file) s refl refl)
            (λ _ t e. rw e (
              Post-bind
                (Post-map_err backend (lift (to_io converted (cbor.encode_entry entry))) s (
                  Post-lift {Q = λ bytes t. (t ≡ s) × (cbor.encode_entry entry ≡ some bytes)}
                    {X = λ t. t ≡ s} (to_io converted (cbor.encode_entry entry)) s
                    (λ bytes h. (refl, to_io-eq-ok _ _ h)) refl))
                (λ bytes t h. rw (h.0) (
                  Post-weaken
                    (encode_entries_lem entries (put_sorted entry.metadata.label bytes encoded) s
                      (put_sorted-Distinct entry.metadata.label bytes encoded d))
                    (λ m u all. (
                      all.0,
                      λ l o.
                          all.1 l o
                          ∙ ap (written cbor entries l) (
                              overlay-put_sorted entry.metadata.label l bytes encoded o d
                              ∙ rw h.1 refl),
                    ))
                    (λ u x. x)))
                (λ u x. x)))
            (λ u x. x)))
        (λ u x. x)
