-- ===== src/Keystore/Filesystem/Disk.antt =====
-- What `std::fs` documents of the calls that the file keystore makes. Every call may fail. A call
-- that fails changes no file, but for `write_new`, which may leave a part of the file behind, and
-- `remove_staging`, which may have removed some of its files. `content` is what a file holds.
use connexa.Prelude.{
  Bool, true, false, Option, none, some, ◌≡◌, if◌then◌else◌, Post, List, ◌∷◌, ◌&&◌, ◌||◌, ◌==◌, [],
  nat_eq, list_eq,
}
use connexa.Keystore.Types.{Bytes, Label}
use connexa.Keystore.Backend.Laws.{is_some}
use connexa.Keystore.Filesystem.{
  is_file, FilePath, staged, path_beq, Folder, FileSystem, key, DirEntry,
}

abbrev pub is_staged : FilePath → Bool
is_staged (staged i) = true
is_staged _ = false

-- There is a regular file of that name in the directory.
unfoldable pub listed : Label → List DirEntry → Bool
listed l [] = false
listed l (entry ∷ entries) = (is_file entry.kind && entry.file_name == l) || listed l entries

module _ {F : Type 0} (content : FilePath → F → Option Bytes) where
  abbrev pub Same : F → F → Type 0
  Same s t = (p : FilePath) → content p t ≡ content p s

  -- The file holds these bytes now, if any, and no other has changed.
  abbrev pub Updated : FilePath → Option Bytes → F → F → Type 0
  Updated p new s t = (q : FilePath) → content q t ≡ (if path_beq p q then new else content q s)

  -- Nothing but that file may have changed.
  abbrev pub SameBut : FilePath → F → F → Type 0
  SameBut p s t = (q : FilePath) → content q t ≡ (if path_beq p q then content q t else content q s)

  pub record IsFileSystem (fs : FileSystem F) : Type 0 where
    pub store_exists_lem :
        (s : F)
        → Post
            (λ b t. Same s t × (b ≡ false → (p : FilePath) → content p s ≡ none))
            (Same s)
            (fs.store_exists s)
    pub exists_lem :
        (p : FilePath) (s : F)
        → Post (λ b t. (b ≡ is_some (content p s)) × Same s t) (Same s) (fs.exists p s)
    pub make_dir_lem : (d : Folder) (s : F) → Post (λ b t. Same s t) (Same s) (fs.make_dir d s)
    pub sync_dir_lem : (d : Folder) (s : F) → Post (λ u t. Same s t) (Same s) (fs.sync_dir d s)
    pub acquire_lock_lem : (s : F) → Post (λ u t. Same s t) (Same s) (fs.acquire_lock s)
    pub read_lem :
        (p : FilePath) (s : F) → Post (λ o t. (o ≡ content p s) × Same s t) (Same s) (fs.read p s)
    pub write_new_lem :
        (p : FilePath) (bytes : Bytes) (s : F)
        → Post (λ u t. Updated p (some bytes) s t) (SameBut p s) (fs.write_new p bytes s)
    pub rename_lem :
        (p q : FilePath) (s : F)
        → Post
            (λ u t.
              (is_some (content p s) ≡ true)
              × ((r : FilePath)
                  → content r t ≡ (
                      if path_beq q r
                      then content p s
                      else if path_beq p r
                      then none
                      else content r s)))
            (Same s)
            (fs.rename p q s)
    pub unlink_lem :
        (p : FilePath) (s : F)
        → Post (λ b t. (b ≡ is_some (content p s)) × Updated p none s t) (Same s) (fs.unlink p s)
    pub remove_staging_lem :
        (s : F)
        → Post
            (λ u t. (q : FilePath) → content q t ≡ (if is_staged q then none else content q s))
            (λ t. (q : FilePath) → content q t ≡ (if is_staged q then content q t else content q s))
            (fs.remove_staging s)
    pub read_dir_lem :
        (s : F)
        → Post
            (λ entries t.
              Same s t
              × ((l : Label) → is_some (content (key l) s) ≡ true → listed l entries ≡ true))
            (Same s)
            (fs.read_dir s)
