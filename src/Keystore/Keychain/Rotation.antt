-- ===== src/Keystore/Keychain/Rotation.antt =====
-- `rotate`, `remove` and `get_or_create`, as the reads after them see them.
use connexa.Prelude.{
  ◌≡◌, ok, err, ap, sym, ◌∙◌, arith, List, min, ◌+◌, Bool, ℕ, false, none, if◌then◌else◌, ◌==◌,
  beq_refl, nat_eq, list_eq, refl, ok-injective, some,
}
use connexa.Keystore.Keychain.Ops.{get, rotate, remove, rotated_keypair, open_found}
use connexa.Keystore.Types.{
  Identity, IsLawful, Label, EncryptedEntry, RotateKey, Expiry, not_found, expired, KeyMetadata,
}
use connexa.Keystore.Keychain.{
  Features, Option, Call, Error, Keychain, Cipher, some, Result, u32_max, to_result,
  saturating_add_one, Bool, ℕ, none,
}
use connexa.Keystore.Backend.{Keystore}
use connexa.Keystore.Backend.Laws.{IsReliable, is_some}
use connexa.Keystore.Cipher.Laws.{IsInverse}
use connexa.Keystore.Keychain.Entries.{OpenedEntry, open_entry}
use connexa.Keystore.Keychain.Writes.{
  SameElsewhere, SameElsewhere-intro, store_read_back, get_elsewhere,
}
use connexa.Keystore.Keychain.Steps.{
  lock_bind, lift_bind, held_bind, to_result-eq-ok, finish_mutation-eq-ok,
}
use connexa.Keystore.Keychain.Lifetime.{has_expired}
use connexa.Keystore.Keychain.Sealing.{open_entry-eq-ok}
use connexa.Keystore.Label.{validate_label}
use connexa.Keystore.Keychain.Access.{get_lem, lookup_bind}

saturating_add_one-eq-min : (n : ℕ) → saturating_add_one n ≡ min u32_max (n + 1)
unfolding saturating_add_one
saturating_add_one-eq-min n = ground arith

module _ (I : Identity) (law : IsLawful I) (features : Features) {S : Type 0} (K : Keystore S)
    {IsValid : S → Type 0} {view : Label → S → Option EncryptedEntry}
    {entries : S → List EncryptedEntry} (rel : IsReliable K IsValid view entries) where
  get_missing :
      (c : Call S) (label : Label) (k : Keychain S) {cipher : Cipher}
      → k.cipher ≡ some cipher
      → k.is_disabled ≡ false
      → validate_label label ≡ ok tt
      → view label k.backend ≡ none
      → get I features K c label k ≡ (err (not_found label), k)
  unfolding open_found
  get_missing c label k held enabled valid gone =
      get_lem I features K rel c label k ∙ ap (λ r. (r, k)) (simp (enabled, valid, held, gone))

  -- A successful `rotate` of a label: the label held an entry that opens, and holds one afterwards
  -- whose version is that of the old one raised by one, up to the largest `u32`, where it stays; a
  -- later `get` returns the keypair that replaces the old one, or the error `Expired` if the new
  -- expiry, counted from the rotation, has passed; the other labels read as before. (The cipher reads
  -- back what it writes.)
  pub get-rotate :
      (c c' : Call S) (label : Label) (key : RotateKey I) (expiry : Expiry) (cipher : Cipher)
      (k k' : Keychain S)
      → IsInverse cipher
      → k.cipher ≡ some cipher
      → rotate I features K c label key expiry k ≡ (ok tt, k')
      → (e : EncryptedEntry) × (old : OpenedEntry I) × (kp : I.Keypair) × (e' : EncryptedEntry)
        × (view label k.backend ≡ some e)
        × (open_entry I cipher label e ≡ ok old)
        × (rotated_keypair I features K c key ≡ ok kp)
        × (get I features K c' label k' ≡ (
          (if has_expired c.time_limit c.now expiry c'.now then err (expired label) else ok kp),
          k',
        ))
        × (view label k'.backend ≡ some e')
        × (e'.metadata.version ≡ min u32_max (e.metadata.version + 1))
        × SameElsewhere I law features K rel label k k'
  unfolding rotate
  get-rotate c c' label key expiry cipher k k' inv held h =
      let h1 = held_bind _ k held h in
      let (_, valid, h2) = lift_bind (validate_label label) _ k h1 in
      let h3 = lookup_bind I features K rel label _ k h2 in
      let (e, found, h4) = lift_bind (to_result (not_found label) (view label k.backend)) _ k h3 in
      let (old, opened, h5) = lift_bind (open_entry I cipher label e) _ k h4 in
      let (kp, replacement, h6) = lift_bind (rotated_keypair I features K c key) _ k h5 in
      let (read, only, kept, flag, e', found', version, _, _) =
        store_read_back I law features K rel c c' label kp expiry
          (saturating_add_one old.metadata.version) cipher k k' inv held h6 in
      let (_, _, _, _, same, _) = open_entry-eq-ok I cipher label e opened in
      (
        e,
        old,
        kp,
        e',
        to_result-eq-ok (not_found label) (view label k.backend) found,
        opened,
        replacement,
        read,
        found',
        version
            ∙ ap (λ (m : KeyMetadata). saturating_add_one m.version) same
            ∙ saturating_add_one-eq-min e.metadata.version,
        SameElsewhere-intro I law features K rel label k k'
            (λ d j other. get_elsewhere I law features K rel d j k k' kept flag (only j other)),
      )

  -- A successful `remove` of a label returns whether the label held an entry; afterwards an enabled
  -- keychain answers `get` of that label with `NotFound`, and the other labels read as before.
  pub get-remove :
      (c c' : Call S) (label : Label) (k : Keychain S) {existed : Bool} {k' : Keychain S}
      → k.is_disabled ≡ false
      → remove I features K c label k ≡ (ok existed, k')
      → (existed ≡ is_some (view label k.backend))
        × (get I features K c' label k' ≡ (err (not_found label), k'))
        × SameElsewhere I law features K rel label k k'
  unfolding remove
  get-remove c c' label k {existed} {k'} enabled h =
      let (cipher, held, h1) = lock_bind _ k h in
      let (_, valid, h2) = lift_bind (validate_label label) _ k h1 in
      let (removed, kept, flag) = finish_mutation-eq-ok c.fate (K.remove label) k h2 in
      let at : (j : Label) → view j k'.backend ≡ (if label == j then none else view j k.backend) =
        λ j.
          ap (λ (p : Result Error Bool × S). view j p.1) (sym removed)
          ∙ rel.view-remove label j k.backend in
      let gone : view label k'.backend ≡ none = at label ∙ rw (beq_refl label) refl in
      (
        ok-injective (
            ap (λ (p : Result Error Bool × S). p.0) (sym removed)
            ∙ rel.remove_result label k.backend),
        get_missing c' label k' (kept ∙ held) (flag ∙ enabled) valid gone,
        SameElsewhere-intro I law features K rel label k k' (λ d j other.
            get_elsewhere I law features K rel d j k k' kept flag (at j ∙ rw other refl)),
      )
