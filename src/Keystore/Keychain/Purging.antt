-- ===== src/Keystore/Keychain/Purging.antt =====
-- `purge_expired` removes exactly the expired keys.
use connexa.Prelude.{
  ◌≡◌, ok, ap, sym, ◌∙◌, arith, refl, list_eq, nat_eq, map, List, [], ◌∷◌, none, some, keep,
  ok-injective, and_then-eq-ok, Bool, Option, Bool-cases, true, false, inl, ℕ, inr, ◌+◌, length,
  if◌then◌else◌, list_beq_iff, ◌==◌, continue, Option-cases,
}
use connexa.Keystore.Keychain.Bulk.{remove_all, purge, expired_labels, purge_expired, load_entries}
use connexa.Dict.{contains}
use connexa.Keystore.Types.{EncryptedEntry, Label, Identity, is_expired, KeyMetadata}
use connexa.Keystore.Keychain.Entries.{open_entries, OpenedEntry, open_entry}
use connexa.Keystore.Backend.{Keystore}
use connexa.Keystore.Time.{SystemTime}
use connexa.Keystore.Backend.Laws.{All, AreDistinct, label_of, IsReliable, is_some}
use connexa.Keystore.Keychain.{Call, Cipher, ℕ, Keychain, Result, Error}
use connexa.Keystore.Keychain.Sealing.{open_entry-eq-ok}
use connexa.Keystore.Keychain.Steps.{lock_bind, known_bind, lift_bind, finish_mutation-eq-ok}
use connexa.Keystore.Keychain.Loading.{load_entries_lem, HaveValidLabels}

-- Whether the entry has expired at the time `now`.
abbrev pub has_expired : SystemTime → EncryptedEntry → Bool
has_expired now e = is_expired now e.metadata

contains-keep :
    (p : EncryptedEntry → Bool) (j : Label) (es : List EncryptedEntry)
    → contains j (map label_of es) ≡ false
    → contains j (map label_of (keep p es)) ≡ false
unfolding contains
contains-keep p j [] h = h
contains-keep p j (e ∷ es) h = ground (arith, contains-keep p j es)

keep-AreDistinct :
    (p : EncryptedEntry → Bool) (es : List EncryptedEntry)
    → AreDistinct (map label_of es)
    → AreDistinct (map label_of (keep p es))
keep-AreDistinct p [] d = tt
keep-AreDistinct p (e ∷ es) d =
    ground (arith, keep-AreDistinct p es d.1, contains-keep p (label_of e) es d.0)

keep-All :
    (P : EncryptedEntry → Type 0) (p : EncryptedEntry → Bool) (es : List EncryptedEntry)
    → All P es
    → All P (keep p es)
keep-All P p [] h = tt
keep-All P p (e ∷ es) h = elim (Bool-cases (p e)) [
  | inl kept ↦ rw kept (h.0, keep-All P p es h.1)
  | inr gone ↦ rw gone (keep-All P p es h.1)
]

-- Of the entries with distinct labels, the one at a label decides whether the label is kept.
contains-keep_at :
    (p : EncryptedEntry → Bool) (held : Label → Option EncryptedEntry) (j : Label)
    (es : List EncryptedEntry) (e : EncryptedEntry)
    → All (λ x. held (label_of x) ≡ some x) es
    → held j ≡ some e
    → AreDistinct (map label_of es)
    → contains j (map label_of es) ≡ true
    → contains j (map label_of (keep p es)) ≡ p e
unfolding contains
contains-keep_at p held j [] e all he d c = cc
contains-keep_at p held j (x ∷ es) e all he d c = elim (Bool-cases (label_of x == j)) [
  | inl here ↦
      let at : label_of x ≡ j = (list_beq_iff (label_of x) j).0 here in
      let same : x ≡ e = cc (all.0, ap held at, he) in
      let absent : contains j (map label_of es) ≡ false = rw at at d.0 in
      ground (arith, ap p same, contains-keep p j es absent)
  | inr elsewhere ↦ ground (arith, contains-keep_at p held j es e all.1 he d.1 (ground arith))
]

open_entries-expired_labels :
    (I : Identity) {S : Type 0} (K : Keystore S) (c : Call S) (cipher : Cipher)
    (es : List EncryptedEntry) (opened : List (OpenedEntry I))
    → open_entries I cipher es ≡ ok opened
    → expired_labels I K c opened ≡ map label_of (keep (has_expired c.now) es)
unfolding open_entries expired_labels
open_entries-expired_labels I K c cipher [] opened h =
    ap (expired_labels I K c) (sym (ok-injective h))
open_entries-expired_labels I K c cipher (e ∷ es) opened h =
    let (o, opens, h1) = and_then-eq-ok (open_entry I cipher (label_of e) e) _ h in
    let (rest, opened_rest, h2) = and_then-eq-ok (open_entries I cipher es) _ h1 in
    let (_, _, _, _, kept, _) = open_entry-eq-ok I cipher (label_of e) e opens in
    ap (expired_labels I K c) (sym (ok-injective h2))
    ∙ ground (
      arith,
      ap (is_expired c.now) kept,
      ap (λ (m : KeyMetadata). m.label) kept,
      open_entries-expired_labels I K c cipher es rest opened_rest,
    )

-- What an expired entry leaves behind.
abbrev pub unless_expired : SystemTime → Option EncryptedEntry → Option EncryptedEntry
unless_expired now none = none
unless_expired now (some e) = if has_expired now e then none else some e

module _ {S : Type 0} (K : Keystore S) {IsValid : S → Type 0}
    {view : Label → S → Option EncryptedEntry} {entries : S → List EncryptedEntry}
    (rel : IsReliable K IsValid view entries) where
  still_there :
      (e : EncryptedEntry) (es : List EncryptedEntry) (s : S)
      → All (λ x. view (label_of x) s ≡ some x) es
      → contains (label_of e) (map label_of es) ≡ false
      → All (λ x. view (label_of x) (K.remove (label_of e) s).1 ≡ some x) es
  unfolding contains
  still_there e [] s all h = tt
  still_there e (x ∷ es) s all h = (
    ground (
      arith,
      rel.view-remove (label_of e) (label_of x) s,
      list_beq_iff (label_of x) (label_of e),
      list_beq_iff (label_of e) (label_of x),
    ),
    still_there e es s all.1 (ground arith),
  )

  remove_all_lem :
      (es : List EncryptedEntry) (n : ℕ) (s : S)
      → All (λ e. view (label_of e) s ≡ some e) es
      → AreDistinct (map label_of es)
      → (t : S) × (remove_all K (map label_of es) n s ≡ (ok (n + length es), t))
        × ((j : Label) → view j t ≡ (if contains j (map label_of es) then none else view j s))
  unfolding remove_all contains
  remove_all_lem [] n s held distinct = (s, ap (λ m. (ok m, s)) (omega arith), λ j. refl)
  remove_all_lem (e ∷ es) n s held distinct =
      let s1 = (K.remove (label_of e) s).1 in
      let (t, removed, at) =
        remove_all_lem es (n + 1) s1 (still_there e es s held.1 distinct.0) distinct.1 in
      let first : K.remove (label_of e) s ≡ (ok true, s1) =
        ap (λ r. (r, s1)) (rel.remove_result (label_of e) s ∙ ap (λ o. ok (is_some o)) held.0) in
      (
        t,
        ap
              (λ p.
                continue p
                  (λ existed. remove_all K (map label_of es) (if existed then n + 1 else n)))
              first
            ∙ removed
            ∙ ap (λ m. (ok m, t)) (omega arith),
        λ j. at j ∙ ground (arith, rel.view-remove (label_of e) j s),
      )

  purge_lem :
      (I : Identity) (c : Call S) (es : List EncryptedEntry) (k k' : Keychain S) (n : ℕ)
      → purge I K c (map label_of es) k ≡ (ok n, k')
      → (remove_all K (map label_of es) 0 k.backend ≡ (ok n, k'.backend)) × (k'.cipher ≡ k.cipher)
  unfolding purge remove_all
  purge_lem I c [] k k' n h = (
    ap (λ (p : Result Error ℕ × Keychain S). (p.0, p.1.backend)) h,
    sym (ap (λ (p : Result Error ℕ × Keychain S). p.1.cipher) h),
  )
  purge_lem I c (e ∷ es) k k' n h =
      let (ran, kept, _) =
        finish_mutation-eq-ok c.fate (remove_all K (map label_of (e ∷ es)) 0) k h in
      (ran, kept)

  -- `purge_expired`, where it succeeds over a reliable backend in a valid state with valid labels,
  -- removes exactly the entries that have expired at the time of the call, returns how many these
  -- were, and leaves every other entry, and the cipher, as they are.
  pub view-purge_expired :
      (I : Identity) (c : Call S) (k k' : Keychain S) (n : ℕ)
      → IsValid k.backend
      → HaveValidLabels (entries k.backend)
      → purge_expired I K c k ≡ (ok n, k')
      → (n ≡ length (keep (has_expired c.now) (entries k.backend)))
        × ((j : Label) → view j k'.backend ≡ unless_expired c.now (view j k.backend))
        × (k'.cipher ≡ k.cipher)
  unfolding purge_expired
  view-purge_expired I c k k' n valid labels h =
      let (cipher, held, h1) = lock_bind _ k h in
      let h2 = known_bind (load_entries K) _ k (load_entries_lem K rel k valid labels) h1 in
      let es = entries k.backend in
      let (opened, opens, h3) = lift_bind (open_entries I cipher es) _ k h2 in
      let expired = keep (has_expired c.now) es in
      let h4 : purge I K c (map label_of expired) k ≡ (ok n, k') =
        ap (λ ls. purge I K c ls k) (sym (open_entries-expired_labels I K c cipher es opened opens))
        ∙ h3 in
      let (ran, kept) = purge_lem I c expired k k' n h4 in
      let held_at = rel.entries_view k.backend valid in
      let distinct = rel.entries_distinct k.backend valid in
      let (t, removed, at) =
        remove_all_lem expired 0 k.backend (keep-All _ (has_expired c.now) es held_at)
          (keep-AreDistinct (has_expired c.now) es distinct) in
      let outcome : ◌≡◌ {A = Result Error ℕ × S} (ok (0 + length expired), t) (ok n, k'.backend) =
        sym removed ∙ ran in
      let final : t ≡ k'.backend = ap (λ (p : Result Error ℕ × S). p.1) outcome in
      let complete = λ (j : Label). rel.entries_complete k.backend j valid in
      (
        sym (ok-injective (ap (λ (p : Result Error ℕ × S). p.0) outcome)) ∙ omega arith,
        (λ j. sym (ap (view j) final) ∙ at j ∙ elim (Option-cases (view j k.backend)) [
          | inl gone ↦ ground (arith, gone)
          | inr (e, found) ↦ ground (
            arith,
            found,
            contains-keep_at (has_expired c.now) (λ l. view l k.backend) j es e held_at found
                distinct (complete j ∙ ap is_some found),
          )
        ]),
        kept,
      )
