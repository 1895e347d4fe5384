-- ===== src/Keystore/Keychain/Lifetime.antt =====
-- How long the keys that src/keystore.rs stores live, counted on the axis of time.
use connexa.Prelude.{ℕ, ◌+◌, ◌≡◌, refl, arith, Bool, false, ◌&&◌, leb, Option, none, some, ◌∙◌}
use connexa.Keystore.Time.{SystemTime, since, before, checked_add, time_ge}
use connexa.Keystore.Types.{Label, Identity, Expiry, never, after, at, resolve, is_expired}
use connexa.Keystore.Backend.{Keystore}
use connexa.Keystore.Keychain.{Call, Features}
use connexa.Keystore.Keychain.Ops.{new_metadata}

-- Whether at least `d` nanoseconds have passed from `start` to `now`.
abbrev has_passed : SystemTime → ℕ → SystemTime → Bool
has_passed (since n) d (since m) = leb (n + d) m
has_passed (since n) d (before m) = false
has_passed (before n) d (since m) = leb d (m + n + 1)
has_passed (before n) d (before m) = leb (m + d) n

-- Whether the time `d` nanoseconds after `start` is one that the platform represents.
abbrev is_representable : ℕ → SystemTime → ℕ → Bool
is_representable limit (since n) d = leb (n + d) limit
is_representable limit (before n) d = leb d (n + 1 + limit)

-- Whether a key that was stored at `start` has expired at `now`: never, once the given time is
-- reached, or once the given duration has passed. A duration that leads out of the platform's range
-- never passes.
abbrev pub has_expired : ℕ → SystemTime → Expiry → SystemTime → Bool
has_expired limit start never now = false
has_expired limit start (after ttl) now =
    is_representable limit start ttl && has_passed start ttl now
has_expired limit start (at time) now = has_passed time 0 now

abbrev due : SystemTime → Option SystemTime → Bool
due now none = false
due now (some time) = time_ge now time

time_ge_lem : (now time : SystemTime) → time_ge now time ≡ has_passed time 0 now
unfolding time_ge
time_ge_lem (since n) (since m) = ground arith
time_ge_lem (since n) (before m) = ground arith
time_ge_lem (before n) (since m) = ground arith
time_ge_lem (before n) (before m) = ground arith

due-checked_add :
    (limit : ℕ) (start : SystemTime) (d : ℕ) (now : SystemTime)
    → due now (checked_add limit start d)
      ≡ (is_representable limit start d && has_passed start d now)
unfolding checked_add time_ge
due-checked_add limit (since n) d (since m) = ground arith
due-checked_add limit (since n) d (before m) = ground arith
due-checked_add limit (before n) d (since m) = ground arith
due-checked_add limit (before n) d (before m) = ground arith

due-resolve :
    (limit : ℕ) (expiry : Expiry) (start now : SystemTime)
    → due now (resolve limit expiry start) ≡ has_expired limit start expiry now
unfolding resolve
due-resolve limit never start now = refl
due-resolve limit (after ttl) start now = due-checked_add limit start ttl now
due-resolve limit (at time) start now = time_ge_lem now time

module _ (I : Identity) (features : Features) {S : Type 0} (K : Keystore S) where
  pub is_expired-new_metadata :
      (c : Call S) (now : SystemTime) (label : Label) (kp : I.Keypair) (expiry : Expiry)
      (version : ℕ)
      → is_expired now (new_metadata I features K c label kp expiry version)
        ≡ has_expired c.time_limit c.now expiry now
  unfolding is_expired new_metadata
  is_expired-new_metadata c now label kp expiry version =
      is_due-eq (resolve c.time_limit expiry c.now) ∙ due-resolve c.time_limit expiry c.now now
    where
      is_due-eq :
          (o : Option SystemTime)
          → (elim o [ none ↦ false | some exp ↦ time_ge now exp ]) ≡ due now o
      is_due-eq none = refl
      is_due-eq (some exp) = refl
