-- ===== src/Prelude/Outcome.antt =====
-- Fallible code: Rust's `Result`, and methods that change an object and may fail.
use mathlib.Core.Path.{◌≡◌, refl, ap, ap₂}
use mathlib.Core.Logic.{◌⊎◌, inl, inr}
use mathlib.Core.Bool.{Bool, true, false}

pub data Result {ℓ κ} (E : Type ℓ) (A : Type κ) : Type (ℓ ⊔ κ) where
  ok : A → Result E A
  err : E → Result E A

-- The `?` operator.
abbrev pub and_then : {E A B : Type 0} → Result E A → (A → Result E B) → Result E B
and_then (ok a) f = f a
and_then (err e) f = err e

abbrev pub map_ok : {E A B : Type 0} → (A → B) → Result E A → Result E B
map_ok f (ok a) = ok (f a)
map_ok f (err e) = err e

pub Result-cases :
    {E A : Type 0} (r : Result E A) → ((a : A) × (r ≡ ok a)) ⊎ ((e : E) × (r ≡ err e))
Result-cases (ok a) = inl (a, refl)
Result-cases (err e) = inr (e, refl)

-- What a method wrote before it failed stays written, so the state comes back beside the error.
abbrev pub Exec : Type 0 → Type 0 → Type 0 → Type 0
Exec E S A = S → Result E A × S

module _ {E S A : Type 0} where
  abbrev pub pure : A → Exec E S A
  pure a s = (ok a, s)

  abbrev pub raise : E → Exec E S A
  raise e s = (err e, s)

  abbrev pub lift : Result E A → Exec E S A
  lift r s = (r, s)

  abbrev pub gets : (S → A) → Exec E S A
  gets f s = (ok (f s), s)

module _ {E S A B : Type 0} where
  abbrev pub continue : Result E A × S → (A → Exec E S B) → Result E B × S
  continue (ok a, s) f = f a s
  continue (err e, s) f = (err e, s)

  infixl 5 ◌>>=◌ ◌>>◌
  abbrev pub ◌>>=◌ : Exec E S A → (A → Exec E S B) → Exec E S B
  ◌>>=◌ m f s = continue (m s) f

  abbrev pub ◌>>◌ : Exec E S A → Exec E S B → Exec E S B
  m >> n = m >>= λ _. n

-- An early return with an error, where the test fails.
abbrev pub ensure : {E S : Type 0} → Bool → E → Exec E S (Unit {0})
ensure true e s = (ok tt, s)
ensure false e s = (err e, s)

abbrev pub change_error : {E E' S A : Type 0} → (E → E') → Result E A × S → Result E' A × S
change_error f (ok a, s) = (ok a, s)
change_error f (err e, s) = (err (f e), s)

-- `map_err`
abbrev pub map_err : {E E' S A : Type 0} → (E → E') → Exec E S A → Exec E' S A
map_err f m s = change_error f (m s)

module _ {E S A B : Type 0} where
  continue-eq-ok :
      (r : Result E A) (t : S) (f : A → Exec E S B) {b : B} {u : S}
      → continue (r, t) f ≡ (ok b, u)
      → (a : A) × (r ≡ ok a) × (f a t ≡ (ok b, u))
  continue-eq-ok (ok a) t f h = (a, refl, h)
  continue-eq-ok (err e) t f h = cc (ap (λ (p : Result E B × S). p.0) h)

  -- Inversion of a successful step: it succeeded, and so did the rest from where it ended.
  pub bind-eq-ok :
      (m : Exec E S A) (f : A → Exec E S B) (s : S) {b : B} {u : S}
      → (m >>= f) s ≡ (ok b, u)
      → (a : A) × (t : S) × (m s ≡ (ok a, t)) × (f a t ≡ (ok b, u))
  bind-eq-ok m f s h =
      let (r, t) = m s in
      let (a, e, rest) = continue-eq-ok r t f h in (a, t, ap₂ (λ x y. (x, y)) e refl, rest)

-- Two pure steps after another, in front of a state that they leave alone.
pub lift_chain :
    {E S A B C : Type 0} (r : Result E A) (f : A → Result E B) (g : B → Result E C) (s : S)
    → continue (r, s) (λ a. lift (f a) >>= λ b. lift (g b))
      ≡ (and_then r (λ a. and_then (f a) g), s)
lift_chain (err e) f g s = refl
lift_chain (ok a) f g s = lift_last (f a) g s
  where
    lift_last :
        {E S B C : Type 0} (r : Result E B) (g : B → Result E C) (s : S)
        → continue (r, s) (λ b. lift (g b)) ≡ (and_then r g, s)
    lift_last (err e) g s = refl
    lift_last (ok b) g s = refl

pub ok-injective : {E A : Type 0} {a b : A} → ◌≡◌ {A = Result E A} (ok a) (ok b) → a ≡ b
ok-injective h = cc

pub and_then-eq-ok :
    {E A B : Type 0} (r : Result E A) (f : A → Result E B) {b : B}
    → and_then r f ≡ ok b
    → (a : A) × (r ≡ ok a) × (f a ≡ ok b)
and_then-eq-ok (ok a) f h = (a, refl, h)
and_then-eq-ok (err e) f h = cc

-- What holds of the result and the state where an action succeeds, and of the state where it fails.
pub data Post {E S A : Type 0} (Q : A → S → Type 0) (X : S → Type 0) : Result E A × S → Type 0 where
  returned : {a : A} {s : S} → Q a s → Post Q X (ok a, s)
  failed : {e : E} {s : S} → X s → Post Q X (err e, s)

abbrev pub Holds : {E S A : Type 0} → (A → S → Type 0) → (S → Type 0) → Result E A × S → Type 0
Holds Q X (ok a, s) = Q a s
Holds Q X (err e, s) = X s

pub Post-Holds :
    {E S A : Type 0} {Q : A → S → Type 0} {X : S → Type 0} {p : Result E A × S}
    → Post Q X p
    → Holds Q X p
Post-Holds (returned h) = h
Post-Holds (failed h) = h

pub Post-bind :
    {E S A B : Type 0} {Q : A → S → Type 0} {R : B → S → Type 0} {X Y : S → Type 0}
    {p : Result E A × S} {f : A → Exec E S B}
    → Post Q X p
    → ((a : A) (s : S) → Q a s → Post R Y (f a s))
    → ((s : S) → X s → Y s)
    → Post R Y (continue p f)
Post-bind (returned h) next weaker = next _ _ h
Post-bind (failed h) next weaker = failed (weaker _ h)

pub Post-weaken :
    {E S A : Type 0} {Q R : A → S → Type 0} {X Y : S → Type 0} {p : Result E A × S}
    → Post Q X p
    → ((a : A) (s : S) → Q a s → R a s)
    → ((s : S) → X s → Y s)
    → Post R Y p
Post-weaken (returned h) f g = returned (f _ _ h)
Post-weaken (failed h) f g = failed (g _ h)

Post-change_error :
    {E E' S A : Type 0} {Q : A → S → Type 0} {X : S → Type 0} (f : E → E') {p : Result E A × S}
    → Post Q X p
    → Post Q X (change_error f p)
Post-change_error f (returned h) = returned h
Post-change_error f (failed h) = failed h

pub Post-map_err :
    {E E' S A : Type 0} {Q : A → S → Type 0} {X : S → Type 0} (f : E → E') (m : Exec E S A) (s : S)
    → Post Q X (m s)
    → Post Q X (map_err f m s)
Post-map_err f m s h = Post-change_error f h

pub Post-lift :
    {E S A : Type 0} {Q : A → S → Type 0} {X : S → Type 0} (r : Result E A) (s : S)
    → ((a : A) → r ≡ ok a → Q a s)
    → X s
    → Post Q X (lift r s)
Post-lift (ok a) s q x = returned (q a refl)
Post-lift (err e) s q x = failed x

pub Post-ensure :
    {E S : Type 0} {Q : Unit {0} → S → Type 0} {X : S → Type 0} (b : Bool) (e : E) (s : S)
    → Q tt s
    → X s
    → Post Q X (ensure b e s)
Post-ensure true e s q x = returned q
Post-ensure false e s q x = failed x
