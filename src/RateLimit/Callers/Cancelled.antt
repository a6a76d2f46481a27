-- ===== src/RateLimit/Callers/Cancelled.antt =====
-- What a cancelled caller leaves behind.
use alpha_swarm.Prelude.{ℕ, ◌≤◌, ◌≡◌, refl, none, some, arith, true, ap}
use alpha_swarm.Prelude.Int.{pos}
use alpha_swarm.RateLimit.Bucket.{TokenBucket, refill, reserve, refund}
use alpha_swarm.RateLimit.Bucket.Refunds.{refund_restores}
use alpha_swarm.RateLimit.Controller.{Controller, take_slot, pace, refund_both, cancel_pacing}

-- A bucket as its next use at `now` finds it.
abbrev pub settled : ℕ → TokenBucket → TokenBucket
settled now none = none
settled now (some b) = some (refill now b)

abbrev pub last_use : TokenBucket → ℕ
last_use none = 0
last_use (some b) = b.last_refill

refund-reserve :
    (n t1 t2 : ℕ) (b : TokenBucket)
    → last_use b ≤ t1
    → t1 ≤ t2
    → settled t2 (refund (pos n) t2 (reserve n t1 b).1) ≡ settled t2 b
unfolding reserve refund
refund-reserve n t1 t2 none h k = refl
refund-reserve n t1 t2 (some b) h k = ap some (refund_restores n t1 t2 b h k)

-- A caller that takes a slot, reserves and is cancelled in its sleep, with nobody else using the
-- controller or its buckets from its slot to its cancellation, leaves the permits, the calls in flight,
-- the slots aimed at and the pending shrinks as they were, and both buckets as their next use would have
-- found them without it.
pub cancelled_leaves_nothing :
    (t1 t2 : ℕ) (c c1 : Controller)
    → take_slot c ≡ some c1
    → last_use c.rpm_bucket ≤ t1
    → last_use c.tpm_bucket ≤ t1
    → t1 ≤ t2
    → let c2 = cancel_pacing true t2 (pace t1 c1).1 in
      (c2.permits ≡ c.permits)
      × (c2.in_flight ≡ c.in_flight)
      × (c2.target_slots ≡ c.target_slots)
      × (c2.shrink_pending ≡ c.shrink_pending)
      × (settled t2 c2.rpm_bucket ≡ settled t2 c.rpm_bucket)
      × (settled t2 c2.tpm_bucket ≡ settled t2 c.tpm_bucket)
unfolding take_slot pace cancel_pacing refund_both
cancelled_leaves_nothing t1 t2 c c1 taken h k l = ground (
  arith,
  refund-reserve 1 t1 t2 c.rpm_bucket h l,
  refund-reserve c.avg_tokens_per_call t1 t2 c.tpm_bucket k l,
)
