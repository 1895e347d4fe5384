-- ===== src/Keystore/Label.antt =====
-- src/keystore.rs, `validate_label`: a label is also a file name.
use connexa.Prelude.{
  ℕ, ◌≡◌, ◌≢◌, refl, Bool, false, ◌||◌, [], ◌∷◌, arith, if◌then◌else◌, ◌==◌, list_eq, nat_eq,
  nat_beq, any, Result, ok, err, ◌↔◌, Bool-cases, inl, inr, list_beq_iff,
}
use connexa.Keystore.Types.{Label, Error, invalid_label}

-- '/', '\\' and '\0'
abbrev is_forbidden : ℕ → Bool
is_forbidden c = nat_beq c 47 || (nat_beq c 92 || nat_beq c 0)

-- "." and ".."
abbrev dot : Label
dot = b'.' ∷ []

abbrev dot_dot : Label
dot_dot = b'.' ∷ b'.' ∷ []

abbrev is_rejected : Label → Bool
is_rejected label = label == [] || (label == dot || (label == dot_dot || any is_forbidden label))

unfoldable pub validate_label : Label → Result Error (Unit {0})
validate_label label = if is_rejected label then err (invalid_label label) else ok tt

-- A single component of a path: not empty, no reference to a directory, no separator.
abbrev NoSeparator : Label → Type 0
NoSeparator [] = Unit
NoSeparator (c ∷ l) = ((c ≢ 47) × (c ≢ 92) × (c ≢ 0)) × NoSeparator l

pub record IsFileName (l : Label) : Type 0 where
  pub nonempty : l ≢ []
  pub not_dot : l ≢ dot
  pub not_dot_dot : l ≢ dot_dot
  pub no_separator : NoSeparator l

NoSeparator-iff : (l : Label) → (any is_forbidden l ≡ false) ↔ NoSeparator l
NoSeparator-iff [] = (λ _. tt, λ _. refl)
NoSeparator-iff (c ∷ l) = ground (arith, NoSeparator-iff l)

is_rejected_iff : (l : Label) → (is_rejected l ≡ false) ↔ IsFileName l
is_rejected_iff l = (
  λ h. record {
    nonempty = ground (arith, list_beq_iff l []);
    not_dot = ground (arith, list_beq_iff l dot);
    not_dot_dot = ground (arith, list_beq_iff l dot_dot);
    no_separator = (NoSeparator-iff l).0 (ground arith);
  },
  λ v. ground (
    arith,
    list_beq_iff l [],
    list_beq_iff l dot,
    list_beq_iff l dot_dot,
    (NoSeparator-iff l).1 v.no_separator,
    v.nonempty,
    v.not_dot,
    v.not_dot_dot,
  ),
)

-- `validate_label` accepts exactly the labels that name a file inside one directory: those that are
-- not empty, not "." or "..", and hold no slash, backslash or NUL. Any other is refused with the
-- error `InvalidLabel` that carries the label.
pub validate_label_iff :
    (l : Label)
    → ((validate_label l ≡ ok tt) ↔ IsFileName l)
      × ((validate_label l ≡ err (invalid_label l)) ↔ (¬ IsFileName l))
unfolding validate_label
validate_label_iff l = elim (Bool-cases (is_rejected l)) [
  | inl bad ↦ rw bad (
    (λ h. cc, λ v. cc ((is_rejected_iff l).1 v)),
    (λ _ v. cc ((is_rejected_iff l).1 v), λ _. refl),
  )
  | inr good ↦
      let v = (is_rejected_iff l).0 good in
      rw good ((λ _. v, λ _. refl), (λ h. cc, λ n. absurd (n v)))
]
