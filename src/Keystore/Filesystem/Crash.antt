-- ===== src/Keystore/Filesystem/Crash.antt =====
-- src/keystore/store/fs.rs: what a caller can rely on across failures.
use connexa.Prelude.{
  ℕ, suc, zero, Bool, Option, none, some, List, [], ◌∷◌, ◌≡◌, refl, ok, Result, Post-Holds, Post,
  subst, returned, inl, failed, ◌⊎◌, if◌then◌else◌, inr, ◌==◌, Bool-cases, sym, ◌∙◌, nat_eq,
  list_eq,
}
use connexa.Keystore.Filesystem.{FileSystem, FilePath, Cbor, Folder, key}
use connexa.Keystore.Filesystem.Journal.{recover}
use connexa.Keystore.Filesystem.Disk.{IsFileSystem}
use connexa.Keystore.Filesystem.Staging.{IsCbor}
use connexa.Keystore.Filesystem.Undo.{IsRecoverable, IsClean}
use connexa.Keystore.Filesystem.Recovery.{recover_lem}
use connexa.Keystore.Filesystem.Store.{put_many, put, get, decode_found, remove}
use connexa.Keystore.Filesystem.Encoding.{written}
use connexa.Keystore.Types.{Error, Bytes, Label, IoError, EncryptedEntry}
use connexa.Keystore.Filesystem.Access.{put_many_lem, get_lem, remove_lem}
use connexa.Keystore.Backend.Laws.{is_some}

module _ {F : Type 0} (fs : FileSystem F) (cbor : Cbor) where
  -- Recovery that runs that often, each time up to its first failure.
  unfoldable pub attempts : ℕ → F → F
  attempts zero s = s
  attempts (suc n) s = attempts n (recover fs cbor s).1

module _ {F : Type 0} (fs : FileSystem F) (content : FilePath → F → Option Bytes)
    (law : IsFileSystem content fs) (cbor : Cbor) (m : Label → Option Bytes) where
  attempts-IsRecoverable :
      (n : ℕ) (s : F)
      → IsRecoverable content cbor m s
      → IsRecoverable content cbor m (attempts fs cbor n s)
  unfolding attempts
  attempts-IsRecoverable zero s v = v
  attempts-IsRecoverable (suc n) s v =
      attempts-IsRecoverable n (recover fs cbor s).1
        (after_attempt (recover_lem fs content law m cbor s v))
    where
      after_attempt :
          {p : Result IoError (Unit {0}) × F}
          → Post (λ u t. IsClean content m t) (IsRecoverable content cbor m) p
          → IsRecoverable content cbor m p.1
      after_attempt (returned h) = inl h.settled
      after_attempt (failed h) = h

  -- Recovery may fail any number of times, wherever it does. Once it succeeds, every key is as it was
  -- before the batch that a journal was written for, and neither a journal nor a commit record is left.
  pub recover-attempts :
      (n : ℕ) (s t : F)
      → IsRecoverable content cbor m s
      → recover fs cbor (attempts fs cbor n s) ≡ (ok tt, t)
      → IsClean content m t
  recover-attempts n s t v e = Post-Holds (
      subst (Post (λ u t. IsClean content m t) (IsRecoverable content cbor m)) e
        (recover_lem fs content law m cbor (attempts fs cbor n s) (attempts-IsRecoverable n s v)))

module _ {F : Type 0} (fs : FileSystem F) (content : FilePath → F → Option Bytes)
    (law : IsFileSystem content fs) (cbor : Cbor) (codec : IsCbor cbor) (parents : List Folder)
    (m : Label → Option Bytes) where
  either_way :
      (entries : List EncryptedEntry) {p : Result Error (Unit {0}) × F}
      → Post
          (λ u t. IsRecoverable content cbor (λ l. written cbor entries l (m l)) t)
          (λ t.
            IsRecoverable content cbor m t
            ⊎ IsRecoverable content cbor (λ l. written cbor entries l (m l)) t)
          p
      → IsRecoverable content cbor m p.1
        ⊎ IsRecoverable content cbor (λ l. written cbor entries l (m l)) p.1
  either_way entries (returned h) = inr h
  either_way entries (failed h) = h

  -- Whatever fails in a batch and in the recoveries that follow, on a store that can be recovered:
  -- once a recovery succeeds, the batch is stored as a whole, with the last entry of every label, or
  -- every key is as it was.
  pub recover-put_many :
      (entries : List EncryptedEntry) (n : ℕ) (s t : F)
      → IsRecoverable content cbor m s
      → recover fs cbor (attempts fs cbor n (put_many fs cbor parents entries s).1) ≡ (ok tt, t)
      → ((l : Label) → content (key l) t ≡ m l)
        ⊎ ((l : Label) → content (key l) t ≡ written cbor entries l (m l))
  recover-put_many entries n s t v e =
      elim (either_way entries (put_many_lem fs content law cbor parents m codec entries s v)) [
        | inl before ↦ inl (recover-attempts fs content law cbor m n _ t before e).settled.keys
        | inr after ↦
            inr
              (recover-attempts fs content law cbor (λ l. written cbor entries l (m l)) n _ t after
                e).settled.keys
      ]

  -- What is found where the store holds these keys.
  found_at :
      (l : Label) {new : Label → Option Bytes} {t u : F} {found : Option EncryptedEntry}
      → IsRecoverable content cbor new t
      → get fs cbor parents l t ≡ (ok found, u)
      → decode_found cbor (new l) ≡ ok found
  found_at l {new} {t} {u} {found} v got =
      (Post-Holds (
        subst
          (Post (λ r w. IsRecoverable content cbor new w × (decode_found cbor (new l) ≡ ok r))
            (IsRecoverable content cbor new))
          got (get_lem fs content law cbor parents new l t v))).1

  found_bytes :
      (bytes : Bytes) (entry : EncryptedEntry)
      → cbor.decode_entry bytes ≡ some entry
      → decode_found cbor (some bytes) ≡ ok (some entry)
  unfolding decode_found
  found_bytes bytes entry h = rw (decode_found, h)

  -- After an entry is stored, `get` finds under its label that entry, where it can read the file, and
  -- under any other label what was there before. The library can encode the entry.
  pub get-put :
      (entry : EncryptedEntry) (bytes : Bytes) (l : Label) (s t u : F)
      (found : Option EncryptedEntry)
      → cbor.encode_entry entry ≡ some bytes
      → IsRecoverable content cbor m s
      → put fs cbor parents entry s ≡ (ok tt, t)
      → get fs cbor parents l t ≡ (ok found, u)
      → ok found ≡ (if entry.metadata.label == l then ok (some entry) else decode_found cbor (m l))
  unfolding put written
  get-put entry bytes l s t u found encoded v stored got =
      let new : Label → Option Bytes = λ j. written cbor (entry ∷ []) j (m j) in
      let in_place : IsRecoverable content cbor new t = Post-Holds (
        subst
          (Post (λ _ w. IsRecoverable content cbor new w)
            (λ w. IsRecoverable content cbor m w ⊎ IsRecoverable content cbor new w))
          stored (put_many_lem fs content law cbor parents m codec (entry ∷ []) s v)) in
      elim (Bool-cases (entry.metadata.label == l)) [
        | inl same ↦
            sym (found_at l in_place got)
            ∙ rw (same, encoded)
                (found_bytes bytes entry (codec.decode-encode_entry entry bytes encoded))
        | inr other ↦ sym (found_at l in_place got) ∙ rw other refl
      ]

  -- After a removal, `get` finds nothing under the label, and under any other label what was there
  -- before. The removal tells whether there was something.
  pub decode_found-remove :
      (label l : Label) (s t u : F) (removed : Bool) (found : Option EncryptedEntry)
      → IsRecoverable content cbor m s
      → remove fs cbor parents label s ≡ (ok removed, t)
      → get fs cbor parents l t ≡ (ok found, u)
      → (removed ≡ is_some (m label))
        × (ok found ≡ (if label == l then ok none else decode_found cbor (m l)))
  unfolding decode_found
  decode_found-remove label l s t u removed found v done got =
      let new : Label → Option Bytes = λ j. if label == j then none else m j in
      let (in_place, told) = Post-Holds (
        subst
          (Post (λ r w. IsRecoverable content cbor new w × (r ≡ is_some (m label)))
            (λ w. IsRecoverable content cbor m w ⊎ IsRecoverable content cbor new w))
          done (remove_lem fs content law cbor parents m label s v)) in
      (
        told,
        elim (Bool-cases (label == l)) [
          | inl same ↦ sym (found_at l in_place got) ∙ rw same refl
          | inr other ↦ sym (found_at l in_place got) ∙ rw other refl
        ],
      )
