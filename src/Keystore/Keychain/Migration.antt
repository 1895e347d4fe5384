-- ===== src/Keystore/Keychain/Migration.antt =====
-- `migrate_cipher` keeps every key.
use mathlib.Core.Path.{subst₂}
use connexa.Prelude.{
  ◌≡◌, ok, ap, sym, ◌∙◌, arith, refl, list_eq, nat_eq, map, List, [], ◌∷◌, Result, ℕ, Option, some,
  true, false, suc, if◌then◌else◌, subst, ◌==◌, Bool-cases, inl, inr, list_beq_iff, Result-cases,
  none, Option-cases, ok-injective, and_then-eq-ok,
}
use connexa.Keystore.Keychain.Bulk.{reseal, replace_all, settle, migrate_cipher, load_entries}
use connexa.Keystore.Types.{Identity, IsLawful, Label, Error, EncryptedEntry, KeyMetadata}
use connexa.Keystore.Cipher.{Cipher}
use connexa.Dict.{contains}
use connexa.Keystore.Keychain.Entries.{OpenedEntry, open_entry, seal_entry, matches_metadata}
use connexa.Keystore.Cipher.Laws.{IsInverse}
use connexa.Keystore.Backend.Laws.{All, label_of, last_put, IsReliable, is_some}
use connexa.Keystore.Keychain.Sealing.{open_entry-eq-ok, seal_entry-eq-ok, open_entry-seal_entry}
use connexa.Keystore.Backend.{Keystore}
use connexa.Keystore.Keychain.{Features, Fate, Keychain, Call, stops, finishes, none}
use connexa.Keystore.Keychain.Ops.{open_found, get}
use connexa.Keystore.Keychain.Loading.{HaveValidLabels, load_entries_lem}
use connexa.Keystore.Keychain.Steps.{held_bind, disable_check_bind, known_bind, lift_bind}
use connexa.Keystore.Keychain.Access.{get_lem, get_result}

-- Either both entries open with their ciphers, to the same keypair and metadata, or this is false.
abbrev OpensAlike :
    (I : Identity) → Cipher → Cipher → Label → EncryptedEntry → EncryptedEntry → Type 0
OpensAlike I old new j e e' =
    (o : OpenedEntry I) × (open_entry I old j e ≡ ok o) × (open_entry I new j e' ≡ ok o)

module _ (I : Identity) (law : IsLawful I) {S : Type 0} (K : Keystore S) where
  -- The sealed entry opens as the original did.
  reseal_one :
      (draw : ℕ) (old new : Cipher) (e e' : EncryptedEntry) (o : OpenedEntry I)
      → IsInverse new
      → open_entry I old (label_of e) e ≡ ok o
      → seal_entry I draw new o.metadata o.keypair ≡ ok e'
      → (label_of e' ≡ label_of e) × (open_entry I new (label_of e) e' ≡ ok o)
  reseal_one draw old new e e' o inv opened sealed =
      let (_, _, _, labelled, kept, matched) = open_entry-eq-ok I old (label_of e) e opened in
      let (_, _, _, same) = seal_entry-eq-ok I draw new o.metadata o.keypair sealed in
      let fits : matches_metadata I o.keypair o.metadata ≡ true = rw kept matched in
      let reopened = open_entry-seal_entry I law draw new o.metadata o.keypair inv fits sealed in
      (
        ap (λ (m : KeyMetadata). m.label) (same ∙ kept),
        subst (λ l. open_entry I new l e' ≡ ok o) (ap (λ (m : KeyMetadata). m.label) kept) reopened,
      )

  reseal-last_put :
      (random : ℕ → ℕ) (i : ℕ) (old new : Cipher) (es sealed : List EncryptedEntry) (j : Label)
      (held : Label → Option EncryptedEntry) (before : Option EncryptedEntry)
      → IsInverse new
      → All (λ x. held (label_of x) ≡ some x) es
      → reseal I K random i old new es ≡ ok sealed
      → ((e : EncryptedEntry)
          → held j ≡ some e
          → contains j (map label_of es) ≡ true
          → (e' : EncryptedEntry) × (last_put j sealed before ≡ some e')
            × OpensAlike I old new j e e')
        × ((contains j (map label_of es) ≡ false) → last_put j sealed before ≡ before)
  unfolding reseal contains
  reseal-last_put random i old new [] sealed j held before inv all h =
      (λ e he c. cc, λ c. ap (λ s. last_put j s before) (sym (ok-injective h)))
  reseal-last_put random i old new (x ∷ es) sealed j held before inv all h =
      let (o, opened, h1) = and_then-eq-ok (open_entry I old (label_of x) x) _ h in
      let (x', resealed, h2) =
        and_then-eq-ok (seal_entry I (random i) new o.metadata o.keypair) _ h1 in
      let (rest, restored, h3) = and_then-eq-ok (reseal I K random (suc i) old new es) _ h2 in
      let one = reseal_one (random i) old new x x' o inv opened resealed in
      let next : Option EncryptedEntry = if label_of x' == j then some x' else before in
      let ih = reseal-last_put random (suc i) old new es rest j held next inv all.1 restored in
      let first : last_put j sealed before ≡ last_put j rest next =
        ap (λ s. last_put j s before) (sym (ok-injective h3)) in
      elim (Bool-cases (contains j (map label_of es))) [
        | inl later ↦ (
          λ e he _. let (e', put, alike) = ih.0 e he later in (e', first ∙ put, alike),
          λ c. absurd (ground arith),
        )
        | inr last ↦ elim (Bool-cases (label_of x == j)) [
          | inl here ↦
              let at : label_of x ≡ j = (list_beq_iff (label_of x) j).0 here in
              let there : next ≡ some x' = rw (one.0, here) refl in
              (
                λ e he _. (
                  x',
                  first ∙ ih.1 last ∙ there,
                  (
                    o,
                    subst₂ (λ l y. open_entry I old l y ≡ ok o) at
                        (let same : x ≡ e = cc (all.0, ap held at, he) in same) opened,
                    subst (λ l. open_entry I new l x' ≡ ok o) at one.1,
                  ),
                ),
                λ c. absurd (ground arith),
              )
          | inr elsewhere ↦
              let there : next ≡ before = rw (one.0, elsewhere) refl in
              (λ e he c. absurd (ground arith), λ _. first ∙ ih.1 last ∙ there)
        ]
      ]

  replace_all-eq-ok :
      (fate : Fate S) (originals sealed : List EncryptedEntry) (old new : Cipher)
      (k k' : Keychain S)
      → replace_all I K fate originals sealed old new k ≡ (ok tt, k')
      → (k'.cipher ≡ some new)
        × (k'.backend ≡ (K.put_many sealed k.backend).1)
        × (k'.is_disabled ≡ k.is_disabled)
  unfolding replace_all settle
  replace_all-eq-ok (stops s) originals sealed old new k k' h =
      cc (ap (λ (p : Result Error (Unit {0}) × Keychain S). p.0) h)
  replace_all-eq-ok finishes originals sealed old new k k' h =
      let taken = record k { cipher = none; backend = (K.put_many sealed k.backend).1 } in
      elim (Result-cases (K.put_many sealed k.backend).0) [
        | inl (_, done) ↦
            let there = ap (λ r. settle I K r originals old new taken) (sym done) ∙ h in
            (
              sym (ap (λ (p : Result Error (Unit {0}) × Keychain S). p.1.cipher) there),
              sym (ap (λ (p : Result Error (Unit {0}) × Keychain S). p.1.backend) there),
              sym (ap (λ (p : Result Error (Unit {0}) × Keychain S). p.1.is_disabled) there),
            )
        | inr (e, failed) ↦
            let there = ap (λ r. settle I K r originals old new taken) (sym failed) ∙ h in
            cc (ap (λ (p : Result Error (Unit {0}) × Keychain S). p.0) there)
      ]

  module _ {IsValid : S → Type 0} {view : Label → S → Option EncryptedEntry}
      {entries : S → List EncryptedEntry} (features : Features)
      (rel : IsReliable K IsValid view entries) where
    read_alike :
        (d : Call S) (j : Label) (old new : Cipher) (k k' : Keychain S) {e e' : EncryptedEntry}
        → k.cipher ≡ some old
        → k'.cipher ≡ some new
        → k'.is_disabled ≡ k.is_disabled
        → view j k.backend ≡ some e
        → view j k'.backend ≡ some e'
        → OpensAlike I old new j e e'
        → (get I features K d j k').0 ≡ (get I features K d j k).0
    unfolding open_found
    read_alike d j old new k k' held held' flag found found' (o, opened, opened') =
        let same : get_result I features K rel d j k'.cipher k'.is_disabled (view j k'.backend)
            ≡ get_result I features K rel d j k.cipher k.is_disabled (view j k.backend) =
          simp (held, held', flag, found, found', opened, opened') in
        ap (λ p. p.0) (get_lem I features K rel d j k')
        ∙ same
        ∙ sym (ap (λ p. p.0) (get_lem I features K rel d j k))

    missing_alike :
        (d : Call S) (j : Label) (old new : Cipher) (k k' : Keychain S)
        → k.cipher ≡ some old
        → k'.cipher ≡ some new
        → k'.is_disabled ≡ k.is_disabled
        → view j k.backend ≡ none
        → view j k'.backend ≡ none
        → (get I features K d j k').0 ≡ (get I features K d j k).0
    unfolding open_found
    missing_alike d j old new k k' held held' flag gone gone' =
        let same : get_result I features K rel d j k'.cipher k'.is_disabled (view j k'.backend)
            ≡ get_result I features K rel d j k.cipher k.is_disabled (view j k.backend) =
          simp (held, held', flag, gone, gone') in
        ap (λ p. p.0) (get_lem I features K rel d j k')
        ∙ same
        ∙ sym (ap (λ p. p.0) (get_lem I features K rel d j k))

    -- A successful `migrate_cipher`, over a reliable backend in a valid state with valid labels and
    -- with a new cipher that reads back what it writes: the new cipher is in place, and `get` of any
    -- label, at any time, returns exactly what it returned before, a keypair or an error.
    pub get-migrate_cipher :
        (c d : Call S) (old new : Cipher) (k k' : Keychain S) (j : Label)
        → IsInverse new
        → IsValid k.backend
        → HaveValidLabels (entries k.backend)
        → k.cipher ≡ some old
        → migrate_cipher I K c new k ≡ (ok tt, k')
        → (k'.cipher ≡ some new) × ((get I features K d j k').0 ≡ (get I features K d j k).0)
    unfolding migrate_cipher
    get-migrate_cipher c d old new k k' j inv valid labels held h =
        let h1 = held_bind _ k held h in
        let (enabled, h2) = disable_check_bind _ k h1 in
        let h3 = known_bind (load_entries K) _ k (load_entries_lem K rel k valid labels) h2 in
        let es = entries k.backend in
        let (sealed, resealed, h4) = lift_bind (reseal I K c.random 0 old new es) _ k h3 in
        let (replaced, written, flag) = replace_all-eq-ok c.fate es sealed old new k k' h4 in
        let at : view j k'.backend ≡ last_put j sealed (view j k.backend) =
          ap (view j) written ∙ rel.view-put_many sealed j k.backend in
        let listed = rel.entries_complete k.backend j valid in
        elim (Option-cases (view j k.backend)) [
          | inl gone ↦
              let kept =
                (reseal-last_put c.random 0 old new es sealed j (λ l. view l k.backend)
                    (view j k.backend) inv (rel.entries_view k.backend valid) resealed).1
                  (listed ∙ ap is_some gone) in
              (replaced, missing_alike d j old new k k' held replaced flag gone (at ∙ kept ∙ gone))
          | inr (e, found) ↦
              let (e', put, alike) =
                (reseal-last_put c.random 0 old new es sealed j (λ l. view l k.backend)
                    (view j k.backend) inv (rel.entries_view k.backend valid) resealed).0
                  e found (listed ∙ ap is_some found) in
              (replaced, read_alike d j old new k k' held replaced flag found (at ∙ put) alike)
        ]
