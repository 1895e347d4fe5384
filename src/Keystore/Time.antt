-- ===== src/Keystore/Time.antt =====
-- `std::time::SystemTime` and `Duration`, to the nanosecond.
use connexa.Prelude.{
  ℕ, ◌+◌, ◌-◌, ◌/◌, ◌%◌, ◌≡◌, Bool, true, false, Option, none, some, arith, leb, nat_beq,
  if◌then◌else◌, Eq, ◌↔◌,
}

-- `since n` is n ns after the Unix epoch, `before n` is n + 1 ns before it.
pub data SystemTime : Type 0 where
  since : ℕ → SystemTime
  before : ℕ → SystemTime

abbrev nanos_per_sec : ℕ
nanos_per_sec = 1000000000

abbrev pub as_secs : ℕ → ℕ
as_secs d = d / nanos_per_sec

abbrev pub subsec_nanos : ℕ → ℕ
subsec_nanos d = d % nanos_per_sec

-- `time.checked_add(d)`; `limit` is the last nanosecond that the platform represents.
unfoldable pub checked_add : ℕ → SystemTime → ℕ → Option SystemTime
checked_add limit (since n) d = if leb (n + d) limit then some (since (n + d)) else none
checked_add limit (before n) d =
    if leb d n
    then some (before (n - d))
    else if leb (d - n - 1) limit
    then some (since (d - n - 1))
    else none

-- `a >= b`
unfoldable pub time_ge : SystemTime → SystemTime → Bool
time_ge (since n) (since m) = leb m n
time_ge (since n) (before m) = true
time_ge (before n) (since m) = false
time_ge (before n) (before m) = leb n m

abbrev time_beq : SystemTime → SystemTime → Bool
time_beq (since n) (since m) = nat_beq n m
time_beq (before n) (before m) = nat_beq n m
time_beq _ _ = false

pub time_beq_iff : (a b : SystemTime) → (time_beq a b ≡ true) ↔ (a ≡ b)
time_beq_iff (since n) (since m) = ground arith
time_beq_iff (since n) (before m) = ground arith
time_beq_iff (before n) (since m) = ground arith
time_beq_iff (before n) (before m) = ground arith

instance abbrev pub time_eq : Eq SystemTime
time_eq = record { beq = time_beq; beq_iff = time_beq_iff }
