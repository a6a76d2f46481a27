-- ===== src/RateLimit/Bucket.antt =====
-- inference/rate_limit.py: `TokenBucket`.
-- Times are naturals in milliseconds. A level is an integer in units of 1/60000 token, so that a
-- rate of `r` tokens a minute refills exactly `r` units a millisecond, with no rounding.
pub mod Rate
pub mod Refunds
pub mod Crowded
use alpha_swarm.Prelude.{ℕ, ◌+◌, ◌-◌, ◌*◌, Option, none, some, if◌then◌else◌, leb}
use alpha_swarm.Prelude.Int.{ℤ, pos, negsuc, pos_part, neg_part, sub_ℕ, ◌+ℤ◌, ◌-ℤ◌, min_ℤ, leb_ℤ}

pub record Bucket : Type 0 where
  pub rate_per_min : ℕ
  pub level : ℤ
  pub last_refill : ℕ

-- `rate_per_min=None` is an unlimited bucket, which keeps no state.
abbrev pub TokenBucket : Type 0
TokenBucket = Option Bucket

-- the units of one token
abbrev pub unit : ℕ
unit = 60000

abbrev pub capacity : Bucket → ℕ
capacity b = b.rate_per_min * unit

-- `__init__`: a limited bucket starts full
abbrev pub full : Option ℕ → ℕ → TokenBucket
full none now = none
full (some rate) now =
    some (record { rate_per_min = rate; level = pos (rate * unit); last_refill = now })

-- A wait of `owed / per_ms` milliseconds; a wait of nothing owes nothing.
pub record Wait : Type 0 where
  pub owed : ℕ
  pub per_ms : ℕ

abbrev pub no_wait : Wait
no_wait = record { owed = 0; per_ms = 1 }

-- `_refill`
unfoldable pub refill : ℕ → Bucket → Bucket
refill now b = record b {
  level = min_ℤ (pos (capacity b)) (b.level +ℤ pos ((now - b.last_refill) * b.rate_per_min));
  last_refill = now;
}

-- `reserve` on a limited bucket: refill, take `n` tokens even into a deficit, and wait for the
-- deficit to refill.
unfoldable pub take_tokens : ℕ → ℕ → Bucket → Bucket
take_tokens n now b = record (refill now b) { level = (refill now b).level -ℤ pos (n * unit) }

unfoldable pub wait_for : Bucket → Wait
wait_for b =
    if leb_ℤ (pos 0) b.level
    then no_wait
    else record { owed = neg_part b.level; per_ms = b.rate_per_min }

unfoldable pub reserve : ℕ → ℕ → TokenBucket → Wait × TokenBucket
reserve n now none = (no_wait, none)
reserve n now (some b) = let b' = take_tokens n now b in (wait_for b', some b')

-- `refund`; the delta is signed, and the level is not clamped
unfoldable pub give_tokens : ℤ → ℕ → Bucket → Bucket
give_tokens delta now b = record (refill now b) {
  level = (refill now b).level +ℤ sub_ℕ (pos_part delta * unit) (neg_part delta * unit);
}

unfoldable pub refund : ℤ → ℕ → TokenBucket → TokenBucket
refund delta now none = none
refund delta now (some b) = some (give_tokens delta now b)
