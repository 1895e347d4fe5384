-- ===== src/Keystore/Keychain/Creation.antt =====
-- `get_or_create` makes an identity once.
use connexa.Prelude.{
  ◌≡◌, ok, ap, sym, ◌∙◌, list_eq, nat_eq, Option, List, some, false, Result-cases, bind-eq-ok, inl,
  inr, Option-cases, Bool-cases, ◌⊎◌, true, refl, arith,
}
use connexa.Keystore.Keychain.Ops.{
  get, get_or_create, open_found, create, unexpired, store, open_or_create,
}
use connexa.Keystore.Types.{Identity, IsLawful, Label, EncryptedEntry, is_expired, never, expired}
use connexa.Keystore.Keychain.{
  Features, Option, Call, Keychain, Cipher, some, ed25519, Result, Error, err,
}
use connexa.Keystore.Backend.{Keystore}
use connexa.Keystore.Backend.Laws.{IsReliable}
use connexa.Keystore.Cipher.Laws.{IsInverse}
use connexa.Keystore.Label.{validate_label}
use connexa.Keystore.Keychain.Steps.{
  lock_held, disable_check_off, held_bind, disable_check_bind, lift_bind,
}
use connexa.Keystore.Keychain.Access.{get_lem, get_found, lookup_bind, get_result}
use connexa.Keystore.Keychain.Entries.{OpenedEntry, open_entry}
use connexa.Keystore.Keychain.Sealing.{open_entry-eq-ok}
use connexa.Keystore.Keychain.Writes.{store_read_back, get_elsewhere}

module _ (I : Identity) (law : IsLawful I) (features : Features) {S : Type 0} (K : Keystore S)
    {IsValid : S → Type 0} {view : Label → S → Option EncryptedEntry}
    {entries : S → List EncryptedEntry} (rel : IsReliable K IsValid view entries) where
  get_or_create_found :
      (c : Call S) (label : Label) (k : Keychain S) {cipher : Cipher} {e : EncryptedEntry}
      → k.cipher ≡ some cipher
      → k.is_disabled ≡ false
      → validate_label label ≡ ok tt
      → view label k.backend ≡ some e
      → get_or_create I features K c label k ≡ get I features K c label k
  unfolding get_or_create open_or_create open_found
  get_or_create_found c label k {cipher} {e} held enabled valid found =
      elim (Result-cases (open_entry I cipher label e)) [
        | inl (o, opened) ↦
            (simp
              (lock_held k held, disable_check_off k enabled, valid, rel.get_lem, found, opened))
            ∙ sym (get_found I features K rel c label cipher e o k held enabled valid found opened)
        | inr (x, failed) ↦
            let refused : get_result I features K rel c label k.cipher k.is_disabled
                  (view label k.backend)
                ≡ err x =
              simp (enabled, valid, held, found, failed) in
            (simp
              (lock_held k held, disable_check_off k enabled, valid, rel.get_lem, found, failed))
            ∙ sym (get_lem I features K rel c label k ∙ ap (λ r. (r, k)) refused)
      ]

  -- A later `get` reads what an earlier one read, as long as the label holds the same.
  get_later :
      (c : Call S) (label : Label) (k later : Keychain S) {r : Result Error I.Keypair}
      → later.cipher ≡ k.cipher
      → later.is_disabled ≡ k.is_disabled
      → view label later.backend ≡ view label k.backend
      → get I features K c label k ≡ (r, k)
      → get I features K c label later ≡ (r, later)
  get_later c label k later held flag same h =
      get_lem I features K rel c label later
      ∙ ap (λ r. (r, later))
          (ap (λ p. p.0) (sym (get_lem I features K rel c label later))
            ∙ get_elsewhere I law features K rel c label k later held flag same
            ∙ ap (λ p. p.0) h)

  create_read_back :
      (c c' : Call S) (label : Label) (cipher : Cipher) (k later : Keychain S) {kp : I.Keypair}
      {k' : Keychain S}
      → IsInverse cipher
      → k.cipher ≡ some cipher
      → later.cipher ≡ some cipher
      → later.is_disabled ≡ false
      → view label later.backend ≡ view label k'.backend
      → create I features K c label cipher k ≡ (ok kp, k')
      → (get I features K c' label later ≡ (ok kp, later))
        × (e : EncryptedEntry) × (view label later.backend ≡ some e)
  unfolding create
  create_read_back c c' label cipher k later {kp} {k'} inv held held' enabled' seen h =
      let made = I.generate ed25519 (c.random 1) in
      let (_, k1, stored, rest) =
        bind-eq-ok (store I features K c label made never 1 cipher) _ k h in
      let (read, _, kept, flag, e, found, _, valid, enabled) =
        store_read_back I law features K rel c c' label made never 1 cipher k k1 inv held stored in
      let same : k1 ≡ k' = ap (λ (p : Result Error I.Keypair × Keychain S). p.1) rest in
      let seen1 = seen ∙ ap (λ (q : Keychain S). view label q.backend) (sym same) in
      (
        get_later c' label k1 later (held' ∙ sym (kept ∙ held)) (enabled' ∙ sym (flag ∙ enabled))
              seen1 read
            ∙ ap (λ (p : Result Error I.Keypair × Keychain S). (p.0, later)) rest,
        e,
        seen1 ∙ found,
      )

  unexpired_keypair :
      (c : Call S) (label : Label) (o : OpenedEntry I) {kp : I.Keypair}
      → unexpired I features K c label o ≡ ok kp
      → o.keypair ≡ kp
  unfolding unexpired
  unexpired_keypair c label o h = elim (Bool-cases (is_expired c.now o.metadata)) [
    | inl over ↦ absurd (ground (arith, over, h))
    | inr not_yet ↦ ground (arith, not_yet, h)
  ]

  open_read_back :
      (c c' : Call S) (label : Label) (cipher : Cipher) (k later : Keychain S) {kp : I.Keypair}
      {e : EncryptedEntry} {k' : Keychain S}
      → validate_label label ≡ ok tt
      → view label k.backend ≡ some e
      → later.cipher ≡ some cipher
      → later.is_disabled ≡ false
      → view label later.backend ≡ view label k'.backend
      → open_or_create I features K c label cipher (some e) k ≡ (ok kp, k')
      → (view label later.backend ≡ some e)
        × ((get I features K c' label later ≡ (ok kp, later))
            ⊎ ((is_expired c'.now e.metadata ≡ true)
                × (get I features K c' label later ≡ (err (expired label), later))))
  unfolding open_or_create unexpired
  open_read_back c c' label cipher k later {kp} {e} {k'} valid found held' enabled' seen h =
      let (o, opened, last) = lift_bind (open_entry I cipher label e) _ k h in
      let same : k ≡ k' = ap (λ (p : Result Error I.Keypair × Keychain S). p.1) last in
      let there : view label later.backend ≡ some e =
        seen ∙ ap (λ (q : Keychain S). view label q.backend) (sym same) ∙ found in
      let read =
        get_found I features K rel c' label cipher e o later held' enabled' valid there opened in
      let (_, _, _, _, same_metadata, _) = open_entry-eq-ok I cipher label e opened in
      let returned : o.keypair ≡ kp =
        unexpired_keypair c label o (ap (λ (p : Result Error I.Keypair × Keychain S). p.0) last) in
      (
        there,
        elim (Bool-cases (is_expired c'.now o.metadata)) [
          | inl over ↦ inr (sym (ap (is_expired c'.now) same_metadata) ∙ over, read ∙ rw over refl)
          | inr not_yet ↦ inl (read ∙ rw (not_yet, returned) refl)
        ],
      )

  -- Once `get_or_create` has succeeded, with a cipher that reads back what it writes, there is no
  -- second identity: as long as the keychain is enabled with that cipher and the label holds what it
  -- held after the call, `get_or_create` is the `get` of the label, changes nothing, and returns the
  -- keypair of the first call, or else the error `Expired`, and then the entry was there before the
  -- first call and has expired at the time of the later one.
  pub get_or_create_once :
      (c c' : Call S) (label : Label) (cipher : Cipher) (k later : Keychain S) {kp : I.Keypair}
      {k' : Keychain S}
      → IsInverse cipher
      → k.cipher ≡ some cipher
      → get_or_create I features K c label k ≡ (ok kp, k')
      → later.cipher ≡ some cipher
      → later.is_disabled ≡ false
      → view label later.backend ≡ view label k'.backend
      → (get_or_create I features K c' label later ≡ get I features K c' label later)
        × ((get_or_create I features K c' label later ≡ (ok kp, later))
            ⊎ ((e : EncryptedEntry) × (view label k.backend ≡ some e)
                × (is_expired c'.now e.metadata ≡ true)
                × (get_or_create I features K c' label later ≡ (err (expired label), later))))
  unfolding get_or_create open_or_create
  get_or_create_once c c' label cipher k later inv held h held' enabled' seen =
      let h1 = held_bind _ k held h in
      let (enabled, h2) = disable_check_bind _ k h1 in
      let (_, valid, h3) = lift_bind (validate_label label) _ k h2 in
      let h4 =
        lookup_bind I features K rel label (open_or_create I features K c label cipher) k h3 in
      elim (Option-cases (view label k.backend)) [
        | inl free ↦
            let made = ap (λ o. open_or_create I features K c label cipher o k) (sym free) ∙ h4 in
            let (read, e, there) =
              create_read_back c c' label cipher k later inv held held' enabled' seen made in
            let same = get_or_create_found c' label later held' enabled' valid there in
            (same, inl (same ∙ read))
        | inr (e, found) ↦
            let opened =
              ap (λ o. open_or_create I features K c label cipher o k) (sym found) ∙ h4 in
            let (there, read) =
              open_read_back c c' label cipher k later valid found held' enabled' seen opened in
            let same = get_or_create_found c' label later held' enabled' valid there in
            (
              same,
              elim read [
                | inl kept ↦ inl (same ∙ kept)
                | inr (late, over) ↦ inr (e, found, late, same ∙ over)
              ],
            )
      ]
