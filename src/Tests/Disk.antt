-- ===== src/Tests/Disk.antt =====
-- A file system in memory, whose calls fail where a script says so.
use connexa.Prelude.{
  Bool, true, false, Option, none, some, List, [], ◌∷◌, Result, ok, err, Exec, Eq, ◌≡◌, ◌↔◌, ◌==◌,
  list_eq, nat_eq, arith, list_beq_iff, nat_beq_iff, if◌then◌else◌, Post, returned, failed, ap, sym,
  ◌∙◌, ap₂, refl,
}
use connexa.Dict.{Dict, lookup, insert, remove, lookup-insert, lookup-remove}
use connexa.Keystore.Types.{Bytes, Label, IoError, io}
use connexa.Keystore.Backend.Laws.{is_some}
use connexa.Keystore.Filesystem.{
  FilePath, key, staged, path_beq, FileKind, regular, directory, DirEntry, FileSystem, journal,
  journal_new, committed, restore,
}
use connexa.Keystore.Filesystem.Journal.{work_name}
use connexa.Keystore.Filesystem.Disk.{Updated, SameBut, is_staged, Same, listed, IsFileSystem}

path_beq_iff : (p q : FilePath) → (path_beq p q ≡ true) ↔ (p ≡ q)
path_beq_iff (key l) (key m) = ground (arith, list_beq_iff l m)
path_beq_iff (staged i) (staged j) = ground (arith, nat_beq_iff i j)
path_beq_iff p q = ground arith

instance abbrev path_eq : Eq FilePath
path_eq = record { beq = path_beq; beq_iff = path_beq_iff }

-- The files, where the store's directory is there, and which of the next calls fail.
pub record Disk : Type 0 where
  pub files : Option (Dict FilePath Bytes)
  pub script : List Bool

abbrev content_of : FilePath → Option (Dict FilePath Bytes) → Option Bytes
content_of p none = none
content_of p (some files) = lookup p files

abbrev pub content : FilePath → Disk → Option Bytes
content p s = content_of p s.files

abbrev is_some_files : Option (Dict FilePath Bytes) → Bool
is_some_files none = false
is_some_files (some _) = true

abbrev Files : Type 0
Files = Option (Dict FilePath Bytes)

abbrev run_call :
    {A : Type 0} → List Bool → Files → (Files → Result IoError A × Files) → Result IoError A × Disk
run_call [] files call = let (r, files') = call files in (r, record { files = files'; script = [] })
run_call (true ∷ script) files call = (err (io 5), record { files = files; script = script })
run_call (false ∷ script) files call =
    let (r, files') = call files in (r, record { files = files'; script = script })

abbrev try : {A : Type 0} → (Files → Result IoError A × Files) → Exec IoError Disk A
try call s = run_call s.script s.files call

abbrev ended : {A : Type 0} → Result IoError A × Files → List Bool → Result IoError A × Disk
ended (r, files) script = (r, record { files = files; script = script })

-- A call that may fail before it has done anything.
try_lem :
    {A : Type 0} (call : Files → Result IoError A × Files) (Q : A → Disk → Type 0)
    (X : Disk → Type 0) (s : Disk)
    → ((script : List Bool) → Post Q X (ended (call s.files) script))
    → ((script : List Bool) → X (record { files = s.files; script = script }))
    → Post Q X (try call s)
try_lem call Q X s h x = by_script s.script s.files h x
  where
    by_script :
        (script : List Bool) (files : Files)
        → ((script : List Bool) → Post Q X (ended (call files) script))
        → ((script : List Bool) → X (record { files = files; script = script }))
        → Post Q X (run_call script files call)
    by_script [] files h x = h []
    by_script (true ∷ script) files h x = failed (x script)
    by_script (false ∷ script) files h x = h script

abbrev do_nothing : Files → Result IoError (Unit {0}) × Files
do_nothing files = (ok tt, files)

abbrev do_exists : FilePath → Files → Result IoError Bool × Files
do_exists p files = (ok (is_some (content_of p files)), files)

abbrev do_store_exists : Files → Result IoError Bool × Files
do_store_exists none = (ok false, none)
do_store_exists (some files) = (ok true, some files)

abbrev do_make_dir : Files → Result IoError Bool × Files
do_make_dir none = (ok true, some [])
do_make_dir (some files) = (ok false, some files)

abbrev do_read : FilePath → Files → Result IoError (Option Bytes) × Files
do_read p files = (ok (content_of p files), files)

-- A file that is there already is an error.
abbrev do_write_new : FilePath → Bytes → Files → Result IoError (Unit {0}) × Files
do_write_new p bytes none = (err (io 2), none)
do_write_new p bytes (some files) = elim (lookup p files) [
  | none ↦ (ok tt, some (insert p bytes files))
  | some _ ↦ (err (io 17), some files)
]

abbrev do_rename : FilePath → FilePath → Files → Result IoError (Unit {0}) × Files
do_rename p q none = (err (io 2), none)
do_rename p q (some files) = elim (lookup p files) [
  | none ↦ (err (io 2), some files)
  | some bytes ↦ (ok tt, some (insert q bytes (remove p files)))
]

abbrev do_unlink : FilePath → Files → Result IoError Bool × Files
do_unlink p none = (ok false, none)
do_unlink p (some files) = (ok (is_some (lookup p files)), some (remove p files))

abbrev unstaged : Dict FilePath Bytes → Dict FilePath Bytes
unstaged [] = []
unstaged ((p, b) ∷ files) = let rest = unstaged files in if is_staged p then rest else (p, b) ∷ rest

abbrev do_remove_staging : Files → Result IoError (Unit {0}) × Files
do_remove_staging none = (ok tt, none)
do_remove_staging (some files) = (ok tt, some (unstaged files))

abbrev entries_of : Dict FilePath Bytes → List DirEntry
entries_of [] = record { file_name = work_name; kind = directory } ∷ []
entries_of ((key l, b) ∷ files) = record { file_name = l; kind = regular } ∷ entries_of files
entries_of ((_, b) ∷ files) = entries_of files

abbrev do_read_dir : Files → Result IoError (List DirEntry) × Files
do_read_dir none = (err (io 2), none)
do_read_dir (some files) = (ok (entries_of files), some files)

abbrev kind_in : Label → Files → Option FileKind
kind_in l none = none
kind_in l (some files) =
    if is_some (lookup (key l) files)
    then some regular
    else if l == work_name
    then some directory
    else none

unfoldable pub disk : FileSystem Disk
unfolding lookup insert remove
disk = record {
  store_exists = try do_store_exists;
  exists = λ p. try (do_exists p);
  is_dir = λ d s. is_some_files s.files;
  make_dir = λ d. try do_make_dir;
  sync_dir = λ d. try do_nothing;
  acquire_lock = try do_nothing;
  kind = λ l s. kind_in l s.files;
  read = λ p. try (do_read p);
  write_new = λ p bytes. try (do_write_new p bytes);
  rename = λ p q. try (do_rename p q);
  unlink = λ p. try (do_unlink p);
  remove_staging = try do_remove_staging;
  read_dir = try do_read_dir;
}

write_lem :
    (p : FilePath) (bytes : Bytes) (files : Files) (script script' : List Bool)
    → Post
        (λ u t. Updated content p (some bytes) (record { files = files; script = script }) t)
        (SameBut content p (record { files = files; script = script }))
        (ended (do_write_new p bytes files) script')
write_lem p bytes none script script' = failed (λ q. ground arith)
write_lem p bytes (some files) script script' = by_old (lookup p files)
  where
    by_old :
        (o : Option Bytes)
        → Post {A = Unit {0}}
            (λ u t.
              Updated content p (some bytes) (record { files = some files; script = script }) t)
            (SameBut content p (record { files = some files; script = script }))
            (ended {A = Unit {0}}
              (elim o [
                | none ↦ (ok tt, some (insert p bytes files))
                | some _ ↦ (err (io 17), some files)
              ])
              script')
    by_old none = returned (λ q. lookup-insert p q bytes files)
    by_old (some _) = failed (λ q. ground arith)

abbrev Renamed : FilePath → FilePath → Disk → Disk → Type 0
Renamed p q s t =
    (is_some (content p s) ≡ true)
    × ((r : FilePath)
        → content r t
          ≡ (if path_beq q r then content p s else if path_beq p r then none else content r s))

rename_lem :
    (p q : FilePath) (files : Files) (script script' : List Bool)
    → Post
        (λ u t. Renamed p q (record { files = files; script = script }) t)
        (Same content (record { files = files; script = script }))
        (ended (do_rename p q files) script')
rename_lem p q none script script' = failed (λ r. refl)
rename_lem p q (some files) script script' = by_old (lookup p files) refl
  where
    by_old :
        (o : Option Bytes)
        → o ≡ lookup p files
        → Post {A = Unit {0}}
            (λ u t. Renamed p q (record { files = some files; script = script }) t)
            (Same content (record { files = some files; script = script }))
            (ended {A = Unit {0}}
              (elim o [
                | none ↦ (err (io 2), some files)
                | some bytes ↦ (ok tt, some (insert q bytes (remove p files)))
              ])
              script')
    by_old none e = failed (λ r. refl)
    by_old (some bytes) e = returned (
      ap is_some (sym e),
      λ r.
          lookup-insert q r bytes (remove p files)
          ∙ ap₂ (λ x y. if path_beq q r then x else y) e (lookup-remove p r files),
    )

unlink_lem :
    (p : FilePath) (files : Files) (script script' : List Bool)
    → Post
        (λ b t.
          (b ≡ is_some (content_of p files))
          × Updated content p none (record { files = files; script = script }) t)
        (Same content (record { files = files; script = script }))
        (ended (do_unlink p files) script')
unlink_lem p none script script' = returned (refl, λ q. ground arith)
unlink_lem p (some files) script script' = returned (refl, λ q. lookup-remove p q files)

lookup-unstaged :
    (p : FilePath) (files : Dict FilePath Bytes)
    → lookup p (unstaged files) ≡ (if is_staged p then none else lookup p files)
unfolding lookup
lookup-unstaged p [] = ground arith
lookup-unstaged p ((q, b) ∷ files) = ground (arith, lookup-unstaged p files, path_beq_iff q p)

remove_staging_lem :
    (files : Files) (script script' : List Bool)
    → Post
        (λ u t. (q : FilePath) → content q t ≡ (if is_staged q then none else content_of q files))
        (λ t.
          (q : FilePath) → content q t ≡ (if is_staged q then content q t else content_of q files))
        (ended (do_remove_staging files) script')
remove_staging_lem none script script' = returned (λ q. ground arith)
remove_staging_lem (some files) script script' = returned (λ q. lookup-unstaged q files)

entries_of-listed :
    (l : Label) (files : Dict FilePath Bytes)
    → is_some (lookup (key l) files) ≡ true
    → listed l (entries_of files) ≡ true
unfolding lookup listed
entries_of-listed l [] h = ground (arith, h)
entries_of-listed l ((key j, b) ∷ files) h =
    ground (arith, h, entries_of-listed l files, path_beq_iff (key j) (key l))
entries_of-listed l ((journal, b) ∷ files) h = entries_of-listed l files h
entries_of-listed l ((journal_new, b) ∷ files) h = entries_of-listed l files h
entries_of-listed l ((committed, b) ∷ files) h = entries_of-listed l files h
entries_of-listed l ((restore, b) ∷ files) h = entries_of-listed l files h
entries_of-listed l ((staged i, b) ∷ files) h = entries_of-listed l files h

read_dir_lem :
    (files : Files) (script script' : List Bool)
    → Post
        (λ entries t.
          Same content (record { files = files; script = script }) t
          × ((l : Label) → is_some (content_of (key l) files) ≡ true → listed l entries ≡ true))
        (Same content (record { files = files; script = script }))
        (ended (do_read_dir files) script')
read_dir_lem none script script' = failed (λ p. refl)
read_dir_lem (some files) script script' = returned (λ p. refl, λ l. entries_of-listed l files)

store_exists_lem :
    (files : Files) (script script' : List Bool)
    → Post
        (λ b t.
          Same content (record { files = files; script = script }) t
          × (b ≡ false → (p : FilePath) → content_of p files ≡ none))
        (Same content (record { files = files; script = script }))
        (ended (do_store_exists files) script')
store_exists_lem none script script' = returned (λ p. refl, λ h p. refl)
store_exists_lem (some files) script script' = returned (λ p. refl, λ h p. cc h)

make_dir_lem :
    (files : Files) (script script' : List Bool)
    → Post
        (λ b t. Same content (record { files = files; script = script }) t)
        (Same content (record { files = files; script = script }))
        (ended (do_make_dir files) script')
unfolding lookup
make_dir_lem none script script' = returned (λ p. refl)
make_dir_lem (some files) script script' = returned (λ p. refl)

pub disk-IsFileSystem : IsFileSystem content disk
unfolding disk
disk-IsFileSystem = record {
  store_exists_lem =
      λ s. try_lem do_store_exists _ _ s (store_exists_lem s.files s.script) (λ k p. refl);
  exists_lem = λ p s. try_lem (do_exists p) _ _ s (λ k. returned (refl, λ q. refl)) (λ k q. refl);
  make_dir_lem = λ d s. try_lem do_make_dir _ _ s (make_dir_lem s.files s.script) (λ k q. refl);
  sync_dir_lem = λ d s. try_lem do_nothing _ _ s (λ k. returned (λ q. refl)) (λ k q. refl);
  acquire_lock_lem = λ s. try_lem do_nothing _ _ s (λ k. returned (λ q. refl)) (λ k q. refl);
  read_lem = λ p s. try_lem (do_read p) _ _ s (λ k. returned (refl, λ q. refl)) (λ k q. refl);
  write_new_lem = λ p bytes s.
      try_lem (do_write_new p bytes) _ _ s (write_lem p bytes s.files s.script)
        (λ k q. ground arith);
  rename_lem =
      λ p q s. try_lem (do_rename p q) _ _ s (rename_lem p q s.files s.script) (λ k r. refl);
  unlink_lem = λ p s. try_lem (do_unlink p) _ _ s (unlink_lem p s.files s.script) (λ k q. refl);
  remove_staging_lem = λ s.
      try_lem do_remove_staging _ _ s (remove_staging_lem s.files s.script) (λ k q. ground arith);
  read_dir_lem = λ s. try_lem do_read_dir _ _ s (read_dir_lem s.files s.script) (λ k q. refl);
}
