-- ===== src/Keystore/Keychain/Outcomes.antt =====
-- Steps of the operations of `Keychain` in src/keystore.rs: what a call whose task would stop has in
-- common with the call whose task would finish.
use connexa.Prelude.{
  ◌≡◌, refl, ◌∙◌, Result, ok, err, Exec, continue, none, list_eq, nat_eq, Bool, Option-cases, inl,
  Bool-cases, ap, ensure, inr, returned, Post-bind, Post, subst, sym, failed, Post-weaken, true,
  false,
}
use connexa.Keystore.Types.{Error}
use connexa.Keystore.Keychain.{
  Keychain, lock, disable_check, Bool, finish_mutation, join_error, stops, finishes,
}
use connexa.Keystore.Keychain.Steps.{disable_check_on, lock_gone, lock_held, disable_check_off}

module _ {S : Type 0} where
  -- A step that has left the keychain as it was.
  abbrev pub Keeps : {A : Type 0} → Keychain S → Result Error A × Keychain S → Type 0
  Keeps k p = Post (λ a t. t ≡ k) (λ t. t ≡ k) p

  pub Keeps-bind :
      {A B : Type 0} {k : Keychain S} {p : Result Error A × Keychain S}
      {f : A → Exec Error (Keychain S) B}
      → Keeps k p
      → ((a : A) (t : Keychain S) → Keeps t (f a t))
      → Keeps k (continue p f)
  Keeps-bind first rest =
      Post-bind first (λ a t h. Post-weaken (rest a t) (λ b u same. same ∙ h) (λ u same. same ∙ h))
        (λ t h. h)

  pub lift-Keeps : {A : Type 0} (k : Keychain S) (r : Result Error A) → Keeps k (r, k)
  lift-Keeps k (ok a) = returned refl
  lift-Keeps k (err e) = failed refl

  pub known-Keeps :
      {A : Type 0} {k : Keychain S} {p : Result Error A × Keychain S} {r : Result Error A}
      → p ≡ (r, k)
      → Keeps k p
  known-Keeps {k = k} {r = r} h = subst (Keeps k) (sym h) (lift-Keeps k r)

  pub lock-Keeps : (k : Keychain S) → Keeps k (lock k)
  lock-Keeps k = elim (Option-cases k.cipher) [
    | inl gone ↦ known-Keeps (lock_gone k gone)
    | inr (cipher, held) ↦ known-Keeps (lock_held k held)
  ]

  pub disable_check-Keeps : (k : Keychain S) → Keeps k (disable_check k)
  disable_check-Keeps k = elim (Bool-cases k.is_disabled) [
    | inl on ↦ known-Keeps (disable_check_on k on)
    | inr off ↦ known-Keeps (disable_check_off k off)
  ]

  pub ensure-Keeps : (k : Keychain S) (test : Bool) (e : Error) → Keeps k (ensure test e k)
  ensure-Keeps k true e = returned refl
  ensure-Keeps k false e = failed refl

  -- The keychain whose task has stopped and left the backend in the state `s`.
  abbrev pub halted : S → Keychain S → Keychain S
  halted s k = record k { cipher = none; backend = s }

  -- The outcome of a call whose task would stop, beside that of the call whose task would finish:
  -- they are the same, and nothing has changed; or the task has stopped.
  pub data Stops {A : Type 0} (s : S) (k : Keychain S) (p p' : Result Error A × Keychain S)
      : Type 0 where
    untouched : p ≡ p' → p.1 ≡ k → Stops s k p p'
    over : p ≡ (err join_error, halted s k) → Stops s k p p'

  Keeps-state :
      {A : Type 0} {k : Keychain S} {p : Result Error A × Keychain S} → Keeps k p → p.1 ≡ k
  Keeps-state (returned h) = h
  Keeps-state (failed h) = h

  pub Stops-read :
      {A : Type 0} {s : S} {k : Keychain S} {p : Result Error A × Keychain S}
      → Keeps k p
      → Stops s k p p
  Stops-read h = untouched refl (Keeps-state h)

  moved :
      {A : Type 0} {s : S} {k t : Keychain S} {p p' : Result Error A × Keychain S}
      → t ≡ k
      → Stops s t p p'
      → Stops s k p p'
  moved h (untouched same kept) = untouched same (kept ∙ h)
  moved {s = s} h (over stopped) = over (stopped ∙ ap (λ q. (err join_error, halted s q)) h)

  pub Stops-after :
      {A B : Type 0} {s : S} {k : Keychain S} {p : Result Error A × Keychain S}
      {f f' : A → Exec Error (Keychain S) B}
      → Keeps k p
      → ((a : A) (t : Keychain S) → Stops s t (f a t) (f' a t))
      → Stops s k (continue p f) (continue p f')
  Stops-after (returned h) rest = moved h (rest _ _)
  Stops-after (failed h) rest = untouched refl h

  continue-state :
      {A B : Type 0} (p : Result Error A × Keychain S) (f : A → Exec Error (Keychain S) B)
      {k : Keychain S}
      → p.1 ≡ k
      → ((a : A) (t : Keychain S) → Keeps t (f a t))
      → (continue p f).1 ≡ k
  continue-state (ok a, t) f h reads = Keeps-state (reads a t) ∙ h
  continue-state (err e, t) f h reads = h

  pub Stops-then :
      {A B : Type 0} {s : S} {k : Keychain S} {p p' : Result Error A × Keychain S}
      {f : A → Exec Error (Keychain S) B}
      → Stops s k p p'
      → ((a : A) (t : Keychain S) → Keeps t (f a t))
      → Stops s k (continue p f) (continue p' f)
  Stops-then {p = p} {f = f} (untouched same kept) reads =
      untouched (ap (λ q. continue q f) same) (continue-state p f kept reads)
  Stops-then {f = f} (over h) reads = over (ap (λ q. continue q f) h)

  pub Stops-finish_mutation :
      {A : Type 0} {s : S} {k : Keychain S} (work : Exec Error S A)
      → Stops s k (finish_mutation (stops s) work k) (finish_mutation finishes work k)
  unfolding finish_mutation
  Stops-finish_mutation work = over refl
