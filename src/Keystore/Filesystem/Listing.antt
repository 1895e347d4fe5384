-- ===== src/Keystore/Filesystem/Listing.antt =====
-- src/keystore/store/fs.rs: `list` against `get`.
use connexa.Keystore.Filesystem.{FileSystem, FilePath, Cbor, Folder, DirEntry, key, is_file}
use connexa.Prelude.{
  ◌≡◌, ◌∷◌, [], none, some, true, false, Option, List, Post, ok, ◌>>=◌, ◌>>◌, lift, err, map_err,
  ensure, ◌==◌, pure, failed, Post-bind, Post-map_err, Post-lift, Bool-cases, inl, inr, ◌∙◌,
  list_eq, nat_eq, refl, map, ap, sym, returned, ap₂, ◌||◌, subst, Bool, arith, Post-weaken,
  list_beq_iff,
}
use connexa.Keystore.Filesystem.Disk.{IsFileSystem, listed}
use connexa.Keystore.Filesystem.Store.{read_entry, decode_found, read_entries, list, is_work}
use connexa.Keystore.Types.{
  KeyMetadata, backend, not_found_file, converted, label_mismatch, Bytes, Label, EncryptedEntry,
}
use connexa.Keystore.Filesystem.Undo.{IsSettled, IsSettled-Near, Same-Near, IsRecoverable}
use connexa.Keystore.Filesystem.Journal.{to_io}
use connexa.Keystore.Filesystem.Staging.{to_io-eq-ok}
use connexa.Dict.{contains}
use connexa.Keystore.Backend.Laws.{is_some}
use connexa.Keystore.Filesystem.Access.{access_lem}

module _ {F : Type 0} (fs : FileSystem F) (content : FilePath → F → Option Bytes)
    (law : IsFileSystem content fs) (cbor : Cbor) (parents : List Folder)
    (m : Label → Option Bytes) where
  -- The metadata of what `get` decodes under the label.
  abbrev pub IsFound : KeyMetadata → Type 0
  IsFound metadata =
      (entry : EncryptedEntry) × (decode_found cbor (m metadata.label) ≡ ok (some entry))
      × (entry.metadata ≡ metadata)

  abbrev pub AreFound : List KeyMetadata → Type 0
  AreFound [] = Unit
  AreFound (metadata ∷ others) = IsFound metadata × AreFound others

  read_entry_lem :
      (entry : DirEntry) (s : F)
      → IsSettled content m s
      → Post
          (λ metadata t.
            IsSettled content m t × IsFound metadata × (metadata.label ≡ entry.file_name))
          (IsSettled content m)
          (read_entry fs cbor parents entry s)
  unfolding read_entry decode_found
  read_entry_lem entry s v =
      Post-bind
        (Post-map_err backend (fs.read (key entry.file_name)) s
          (law.read_lem (key entry.file_name) s))
        (λ o t h.
          decoded o t (h.0 ∙ v.keys entry.file_name)
            (IsSettled-Near content v (Same-Near content h.1)))
        (λ t h. IsSettled-Near content v (Same-Near content h))
    where
      decoded :
          (o : Option Bytes) (t : F)
          → o ≡ m entry.file_name
          → IsSettled content m t
          → Post
              (λ metadata u.
                IsSettled content m u × IsFound metadata × (metadata.label ≡ entry.file_name))
              (IsSettled content m)
              ((do
                found ← lift (elim o [ none ↦ err (backend not_found_file) | some b ↦ ok b ])
                decoded ← map_err backend (lift (to_io converted (cbor.decode_entry found)))
                ensure (entry.file_name == decoded.metadata.label) (backend label_mismatch)
                pure decoded.metadata)
                t)
      decoded none t e w = failed w
      decoded (some b) t e w =
          Post-bind
            (Post-map_err backend (lift (to_io converted (cbor.decode_entry b))) t (
              Post-lift {Q = λ d u. (u ≡ t) × (cbor.decode_entry b ≡ some d)}
                {X = IsSettled content m} (to_io converted (cbor.decode_entry b)) t
                (λ d h. (refl, to_io-eq-ok _ _ h)) w))
            (λ d u h. elim (Bool-cases (entry.file_name == d.metadata.label)) [
              | inl same ↦
                  let named : entry.file_name ≡ d.metadata.label =
                    (list_beq_iff entry.file_name d.metadata.label).0 same in
                  let found : IsFound d.metadata = (
                    d,
                    ap (decode_found cbor) (sym (e ∙ ap m named)) ∙ rw (decode_found, h.1),
                    refl,
                  ) in
                  rw (h.0, same) (returned (w, found, sym named))
              | inr other ↦ rw (h.0, other) (failed w)
            ])
            (λ u x. x)

  abbrev pub names : List KeyMetadata → List Label
  names metadata = map (λ found. found.label) metadata

  read_entries_lem :
      (entries : List DirEntry) (s : F)
      → IsSettled content m s
      → Post
          (λ metadata t.
            IsSettled content m t
            × AreFound metadata
            × ((l : Label) → contains l (names metadata) ≡ listed l entries))
          (IsSettled content m)
          (read_entries fs cbor parents entries s)
  unfolding read_entries listed contains
  read_entries_lem [] s v = returned (v, tt, λ l. refl)
  read_entries_lem (entry ∷ entries) s v = elim (Bool-cases (is_file entry.kind)) [
    | inl file ↦ rw file (
        Post-bind (read_entry_lem entry s v)
          (λ metadata t h.
            Post-bind (read_entries_lem entries t h.0)
              (λ others u all.
                returned (all.0, (h.1, all.1), λ l. ap₂ (λ x y. (x == l) || y) h.2 (all.2 l)))
              (λ u x. x))
          (λ t x. x))
    | inr other ↦ rw other (elim (Bool-cases (is_work entry)) [
      | inl work ↦ rw work (read_entries_lem entries s v)
      | inr unexpected ↦ rw unexpected (failed v)
    ])
  ]

  found-is_some :
      (l : Label) (metadata : List KeyMetadata)
      → AreFound metadata
      → contains l (names metadata) ≡ true
      → is_some (m l) ≡ true
  unfolding contains decode_found
  found-is_some l [] found h = cc h
  found-is_some l (x ∷ others) ((e, decoded, _), rest) h = elim (Bool-cases (x.label == l)) [
    | inl same ↦
        subst (λ j. is_some (m j) ≡ true) ((list_beq_iff x.label l).0 same)
          (is_found (m x.label) decoded)
    | inr other ↦ found-is_some l others rest (ground (arith, other, h))
  ]
    where
      is_found : (o : Option Bytes) → decode_found cbor o ≡ ok (some e) → is_some o ≡ true
      is_found none h = cc h
      is_found (some b) h = refl

  -- The list has the metadata of every key and no other, and each is that of the entry that `get`
  -- would find.
  pub list-get :
      (s : F)
      → IsRecoverable content cbor m s
      → Post
          (λ metadata t.
            IsRecoverable content cbor m t
            × AreFound metadata
            × ((l : Label) → contains l (names metadata) ≡ is_some (m l)))
          (IsRecoverable content cbor m)
          (list fs cbor parents s)
  unfolding list contains
  list-get s v =
      access_lem fs content law cbor parents m
        (λ metadata t.
          IsRecoverable content cbor m t
          × AreFound metadata
          × ((l : Label) → contains l (names metadata) ≡ is_some (m l)))
        (IsRecoverable content cbor m) (λ t w. w)
        (map_err backend fs.read_dir >>= read_entries fs cbor parents)
        (λ t clean.
          Post-bind (Post-map_err backend fs.read_dir t (law.read_dir_lem t))
            (λ entries u h.
              Post-weaken
                (read_entries_lem entries u
                  (IsSettled-Near content clean.settled (Same-Near content h.0)))
                (λ metadata u1 all. (
                  inl all.0,
                  all.1,
                  λ l.
                      both (found-is_some l metadata all.1)
                        (λ there. all.2 l ∙ h.1 l (ap is_some (clean.settled.keys l) ∙ there)),
                ))
                (λ u1 x. inl x))
            (λ u h. inl (IsSettled-Near content clean.settled (Same-Near content h))))
        false [] (λ _ t w none_there. (w, tt, λ l. sym (ap is_some (none_there l)))) s v
    where
      both : {a b : Bool} → (a ≡ true → b ≡ true) → (b ≡ true → a ≡ true) → a ≡ b
      both {a} {b} f g = elim (Bool-cases a) [
        | inl yes_a ↦ yes_a ∙ sym (f yes_a)
        | inr no_a ↦ elim (Bool-cases b) [
          | inl yes_b ↦ g yes_b ∙ sym yes_b
          | inr no_b ↦ no_a ∙ sym no_b
        ]
      ]
