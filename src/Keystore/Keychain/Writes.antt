-- ===== src/Keystore/Keychain/Writes.antt =====
-- `insert_with_expiry`, `rotate`, `remove` and `get_or_create`, as the reads after them see them.
use connexa.Prelude.{
  ℕ, ◌≡◌, refl, sym, ap, ◌∙◌, false, Option, some, List, Result, ok, beq_refl, list_eq, nat_eq,
  ◌==◌, if◌then◌else◌, Bool-cases, inl, inr,
}
use connexa.Keystore.Types.{Label, Error, Identity, IsLawful, EncryptedEntry, Expiry, expired}
use connexa.Keystore.Backend.{Keystore}
use connexa.Keystore.Backend.Laws.{IsReliable}
use connexa.Keystore.Cipher.{Cipher}
use connexa.Keystore.Cipher.Laws.{IsInverse}
use connexa.Keystore.Keychain.{Keychain, Call, Features, finish_mutation, finishes, err}
use connexa.Keystore.Keychain.Ops.{store, new_metadata, get, unexpired, insert_with_expiry}
use connexa.Keystore.Keychain.Sealing.{open_entry-seal_entry}
use connexa.Keystore.Keychain.Access.{
  store-eq-ok, get_found, matches_new_metadata, label-seal_entry, version-seal_entry, get_lem,
  get_result,
}
use connexa.Keystore.Keychain.Lifetime.{has_expired, is_expired-new_metadata}
use connexa.Keystore.Label.{validate_label}
use connexa.Keystore.Keychain.Entries.{seal_entry}
use connexa.Keystore.Keychain.Steps.{disable_check_off, lock_held}

module _ (I : Identity) (law : IsLawful I) (features : Features) {S : Type 0} (K : Keystore S)
    {IsValid : S → Type 0} {view : Label → S → Option EncryptedEntry}
    {entries : S → List EncryptedEntry} (rel : IsReliable K IsValid view entries) where
  -- After a write the other labels hold what they held.
  abbrev OnlyAt : Label → Keychain S → Keychain S → Type 0
  OnlyAt label k k' = (j : Label) → (label == j) ≡ false → view j k'.backend ≡ view j k.backend

  view_after_put :
      (e : EncryptedEntry) (s s' : S) (j : Label)
      → K.put e s ≡ (ok tt, s')
      → view j s' ≡ (if e.metadata.label == j then some e else view j s)
  view_after_put e s s' j h =
      ap (λ (p : Result Error (Unit {0}) × S). view j p.1) (sym h) ∙ rel.view-put e j s

  store_finishes :
      (c : Call S) (label : Label) (kp : I.Keypair) (expiry : Expiry) (version : ℕ)
      (cipher : Cipher) (k : Keychain S) {e : EncryptedEntry}
      → k.is_disabled ≡ false
      → validate_label label ≡ ok tt
      → seal_entry I (c.random 0) cipher (new_metadata I features K c label kp expiry version) kp
        ≡ ok e
      → c.fate ≡ finishes
      → store I features K c label kp expiry version cipher k
        ≡ (ok tt, record k { backend = (K.put e k.backend).1 })
  unfolding store finish_mutation
  store_finishes c label kp expiry version cipher k {e} enabled valid sealed finished =
      simp (disable_check_off k enabled, valid, sealed, finished)
        (ap (λ r. (r, record k { backend = (K.put e k.backend).1 })) (rel.put_result e k.backend))

  pub store_read_back :
      (c c' : Call S) (label : Label) (kp : I.Keypair) (expiry : Expiry) (version : ℕ)
      (cipher : Cipher) (k k' : Keychain S)
      → IsInverse cipher
      → k.cipher ≡ some cipher
      → store I features K c label kp expiry version cipher k ≡ (ok tt, k')
      → (get I features K c' label k' ≡ (
        (if has_expired c.time_limit c.now expiry c'.now then err (expired label) else ok kp),
        k',
      ))
        × OnlyAt label k k'
        × (k'.cipher ≡ k.cipher)
        × (k'.is_disabled ≡ k.is_disabled)
        × (e : EncryptedEntry) × (view label k'.backend ≡ some e)
        × (e.metadata.version ≡ version)
        × (validate_label label ≡ ok tt)
        × (k.is_disabled ≡ false)
  unfolding new_metadata unexpired
  store_read_back c c' label kp expiry version cipher k k' inv held h =
      let (e, sealed, valid, enabled, put, kept, enabled') =
        store-eq-ok I features K c label kp expiry version cipher k k' h in
      let m = new_metadata I features K c label kp expiry version in
      let at_label : e.metadata.label ≡ label =
        label-seal_entry I features K (c.random 0) cipher m kp e sealed in
      let found : view label k'.backend ≡ some e =
        view_after_put e k.backend k'.backend label put ∙ rw (at_label, beq_refl label) refl in
      let opened =
        open_entry-seal_entry I law (c.random 0) cipher m kp inv
          (matches_new_metadata I features K c label kp expiry version) sealed in
      (
        get_found I features K rel c' label cipher e (record { keypair = kp; metadata = m }) k'
              (kept ∙ held) enabled' valid found opened
            ∙ ap (λ x. ((if x then err (expired label) else ok kp), k'))
                (is_expired-new_metadata I features K c c'.now label kp expiry version),
        (λ j other. view_after_put e k.backend k'.backend j put ∙ rw (at_label, other) refl),
        kept,
        enabled' ∙ sym enabled,
        e,
        found,
        version-seal_entry I features K (c.random 0) cipher m kp e sealed,
        valid,
        enabled,
      )

  pub get_elsewhere :
      (c : Call S) (j : Label) (k k' : Keychain S)
      → k'.cipher ≡ k.cipher
      → k'.is_disabled ≡ k.is_disabled
      → view j k'.backend ≡ view j k.backend
      → (get I features K c j k').0 ≡ (get I features K c j k).0
  get_elsewhere c j k k' same_cipher same_flag same_view =
      ap (λ p. p.0) (get_lem I features K rel c j k')
      ∙ (λ i. get_result I features K rel c j (same_cipher i) (same_flag i) (same_view i))
      ∙ sym (ap (λ p. p.0) (get_lem I features K rel c j k))

  -- What the other labels hold, as `get` reports it.
  abbrev pub SameElsewhere : Label → Keychain S → Keychain S → Type 0
  SameElsewhere label k k' =
      (c : Call S) (j : Label)
      → (get I features K c j k').0
        ≡ (if label == j then (get I features K c j k').0 else (get I features K c j k).0)

  pub SameElsewhere-intro :
      (label : Label) (k k' : Keychain S)
      → ((c : Call S) (j : Label)
          → (label == j) ≡ false
          → (get I features K c j k').0 ≡ (get I features K c j k).0)
      → SameElsewhere label k k'
  SameElsewhere-intro label k k' h c j = elim (Bool-cases (label == j)) [
    | inl same ↦ rw same refl
    | inr other ↦ rw other (h c j other)
  ]

  -- `insert_with_expiry` under `label` on a keychain that is enabled and holds a cipher that reads
  -- back what it writes, with a valid label, a keypair that can be encoded and encrypted and a write
  -- that finishes: it succeeds; a later `get` of the label returns the error `Expired` if the given
  -- time has been reached, or the given duration has passed since the insertion and does not lead out
  -- of the platform's range, and otherwise the keypair; and every other label reads as before.
  pub get-insert_with_expiry :
      (c c' : Call S) (label : Label) (kp : I.Keypair) (expiry : Expiry) (cipher : Cipher)
      (k : Keychain S) {e : EncryptedEntry}
      → IsInverse cipher
      → k.cipher ≡ some cipher
      → k.is_disabled ≡ false
      → validate_label label ≡ ok tt
      → seal_entry I (c.random 0) cipher (new_metadata I features K c label kp expiry 1) kp ≡ ok e
      → c.fate ≡ finishes
      → (k' : Keychain S) × (insert_with_expiry I features K c label kp expiry k ≡ (ok tt, k'))
        × (get I features K c' label k' ≡ (
          (if has_expired c.time_limit c.now expiry c'.now then err (expired label) else ok kp),
          k',
        ))
        × SameElsewhere label k k'
  unfolding insert_with_expiry
  get-insert_with_expiry c c' label kp expiry cipher k {e} inv held enabled valid sealed finished =
      let k' = record k { backend = (K.put e k.backend).1 } in
      let stored = store_finishes c label kp expiry 1 cipher k enabled valid sealed finished in
      let (read, only, kept, flag, _, _, _, _, _) =
        store_read_back c c' label kp expiry 1 cipher k k' inv held stored in
      (
        k',
        simp (lock_held k held, stored),
        read,
        SameElsewhere-intro label k k'
            (λ d j other. get_elsewhere d j k k' kept flag (only j other)),
      )
