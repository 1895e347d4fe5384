-- ===== src/Keystore/Keychain/Steps.antt =====
-- Inversion of the steps that the operations of `Keychain` are made of: where the whole succeeds,
-- the step did, and the rest starts from where it ended.
use connexa.Prelude.{
  ◌≡◌, refl, sym, ap, false, some, Result, ok, err, Exec, ◌>>=◌, lift, inl, inr, Option-cases,
  Bool-cases, true, continue, ◌≢◌, ◌∙◌, Option,
}
use connexa.Keystore.Types.{Error}
use connexa.Keystore.Cipher.{Cipher}
use connexa.Keystore.Keychain.{
  Keychain, Fate, finishes, stops, lock, disable_check, finish_mutation, none, disabled, backend,
  write_result_unknown, Option, to_result,
}

pub to_result-eq-ok :
    {A : Type 0} (e : Error) (o : Option A) {a : A} → to_result e o ≡ ok a → o ≡ some a
to_result-eq-ok e none h = cc
to_result-eq-ok e (some a) h = cc

module _ {S A B : Type 0} where
  pub lift_bind :
      (r : Result Error A) (f : A → Exec Error (Keychain S) B) (k : Keychain S) {b : B}
      {k' : Keychain S}
      → (lift r >>= f) k ≡ (ok b, k')
      → (a : A) × (r ≡ ok a) × (f a k ≡ (ok b, k'))
  lift_bind (ok a) f k h = (a, refl, h)
  lift_bind (err e) f k h = cc (ap (λ (p : Result Error B × Keychain S). p.0) h)

module _ {S : Type 0} where
  pub disable_check_off : (k : Keychain S) → k.is_disabled ≡ false → disable_check k ≡ (ok tt, k)
  unfolding disable_check
  disable_check_off k off = simp off

  pub disable_check_on :
      (k : Keychain S) → k.is_disabled ≡ true → disable_check k ≡ (err disabled, k)
  unfolding disable_check
  disable_check_on k on = simp on

  pub lock_held : (k : Keychain S) {c : Cipher} → k.cipher ≡ some c → lock k ≡ (ok c, k)
  unfolding lock
  lock_held k e = λ i. elim (e i) [
    | none ↦ (err (backend write_result_unknown), k)
    | some cipher ↦ (ok cipher, k)
  ]

  pub lock_gone :
      (k : Keychain S) → k.cipher ≡ none → lock k ≡ (err (backend write_result_unknown), k)
  unfolding lock
  lock_gone k e = λ i. elim (e i) [
    | none ↦ (err (backend write_result_unknown), k)
    | some cipher ↦ (ok cipher, k)
  ]

module _ {S B : Type 0} where
  first_failed :
      {A : Type 0} (m : Exec Error (Keychain S) A) (f : A → Exec Error (Keychain S) B)
      (k : Keychain S) {e : Error} {t k' : Keychain S} {b : B}
      → m k ≡ (err e, t)
      → (m >>= f) k ≢ (ok b, k')
  first_failed m f k {e} {t} {k'} {b} failed h =
      let first : continue (err e, t) f ≡ (ok b, k') = sym (ap (λ p. continue p f) failed) ∙ h in
      cc (ap (λ (p : Result Error B × Keychain S). p.0) first)

  pub disable_check_bind :
      (f : Unit {0} → Exec Error (Keychain S) B) (k : Keychain S) {b : B} {k' : Keychain S}
      → (disable_check >>= f) k ≡ (ok b, k')
      → (k.is_disabled ≡ false) × (f tt k ≡ (ok b, k'))
  disable_check_bind f k h = elim (Bool-cases k.is_disabled) [
    | inl on ↦ absurd (first_failed disable_check f k (disable_check_on k on) h)
    | inr off ↦ (off, sym (ap (λ p. continue p f) (disable_check_off k off)) ∙ h)
  ]

  pub lock_bind :
      (f : Cipher → Exec Error (Keychain S) B) (k : Keychain S) {b : B} {k' : Keychain S}
      → (lock >>= f) k ≡ (ok b, k')
      → (c : Cipher) × (k.cipher ≡ some c) × (f c k ≡ (ok b, k'))
  lock_bind f k h = elim (Option-cases k.cipher) [
    | inl gone ↦ absurd (first_failed lock f k (lock_gone k gone) h)
    | inr (c, e) ↦ (c, e, sym (ap (λ p. continue p f) (lock_held k e)) ∙ h)
  ]

  pub held_bind :
      (f : Cipher → Exec Error (Keychain S) B) (k : Keychain S) {c : Cipher} {b : B}
      {k' : Keychain S}
      → k.cipher ≡ some c
      → (lock >>= f) k ≡ (ok b, k')
      → f c k ≡ (ok b, k')
  held_bind f k held h = sym (ap (λ p. continue p f) (lock_held k held)) ∙ h

  pub finish_mutation-eq-ok :
      (fate : Fate S) (work : Exec Error S B) (k : Keychain S) {b : B} {k' : Keychain S}
      → finish_mutation fate work k ≡ (ok b, k')
      → (work k.backend ≡ (ok b, k'.backend))
        × (k'.cipher ≡ k.cipher)
        × (k'.is_disabled ≡ k.is_disabled)
  unfolding finish_mutation
  finish_mutation-eq-ok finishes work k h = (
    ap (λ (p : Result Error B × Keychain S). (p.0, p.1.backend)) h,
    sym (ap (λ (p : Result Error B × Keychain S). p.1.cipher) h),
    sym (ap (λ (p : Result Error B × Keychain S). p.1.is_disabled) h),
  )
  finish_mutation-eq-ok (stops s) work k h = cc (ap (λ (p : Result Error B × Keychain S). p.0) h)

-- A step whose outcome is known, and which leaves the state alone.
pub known_bind :
    {S A B : Type 0} (m : Exec Error (Keychain S) A) (f : A → Exec Error (Keychain S) B)
    (k : Keychain S) {a : A} {b : B} {k' : Keychain S}
    → m k ≡ (ok a, k)
    → (m >>= f) k ≡ (ok b, k')
    → f a k ≡ (ok b, k')
known_bind m f k known h = sym (ap (λ p. continue p f) known) ∙ h
