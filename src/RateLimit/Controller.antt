-- ===== src/RateLimit/Controller.antt =====
-- inference/rate_limit.py: the fields of `RateLimitController` and the parts of its methods that
-- run without a wait. `asyncio.Semaphore` is a count of permits. Times are in milliseconds, the
-- failure threshold is in hundredths of a percent.
use alpha_swarm.Prelude.{
  ℕ, ◌+◌, ◌-◌, ◌*◌, Bool, true, false, ◌&&◌, Option, none, some, ltb, leb, ◌==◌, if◌then◌else◌,
}
use alpha_swarm.Prelude.Int.{pos, sub_ℕ}
use alpha_swarm.RateLimit.Bucket.{TokenBucket, Wait, full, reserve, refund}

pub record Controller : Type 0 where
  pub max_in_flight : ℕ
  pub target_slots : ℕ
  pub min_in_flight : ℕ
  pub failure_shrink_threshold : ℕ
  pub avg_tokens_per_call : ℕ
  pub tokens_per_min : Option ℕ
  pub permits : ℕ
  pub rpm_bucket : TokenBucket
  pub tpm_bucket : TokenBucket
  pub shrink_pending : ℕ
  pub in_flight : ℕ
  -- `float("-inf")` before the first 429
  pub cooldown_until : Option ℕ

-- `__init__`
unfoldable pub make : ℕ → Option ℕ → Option ℕ → ℕ → ℕ → ℕ → ℕ → Controller
make max_in_flight rpm tpm avg_tokens threshold min_in_flight now = record {
  max_in_flight = max_in_flight;
  target_slots = max_in_flight;
  min_in_flight = min_in_flight;
  failure_shrink_threshold = threshold;
  avg_tokens_per_call = avg_tokens;
  tokens_per_min = tpm;
  permits = max_in_flight;
  rpm_bucket = full rpm now;
  tpm_bucket = full tpm now;
  shrink_pending = 0;
  in_flight = 0;
  cooldown_until = none;
}

-- The first lines of `acquire`: a pending shrink is claimed before the first wait.
unfoldable pub begin_acquire : Controller → Bool × Controller
begin_acquire c =
    if ltb 0 c.shrink_pending
    then (true, record c { shrink_pending = c.shrink_pending - 1 })
    else (false, c)

-- A caller cancelled while it waits for the token to hold back.
unfoldable pub hand_claim_back : Controller → Controller
hand_claim_back c = record c { shrink_pending = c.shrink_pending + 1 }

-- `await self._semaphore.acquire()`, once a permit is free.
unfoldable pub take_permit : Controller → Option Controller
take_permit c = if ltb 0 c.permits then some (record c { permits = c.permits - 1 }) else none

-- The caller's own slot: a permit, and one more call in flight.
abbrev counted : Option Controller → Option Controller
counted none = none
counted (some c) = some (record c { in_flight = c.in_flight + 1 })

unfoldable pub take_slot : Controller → Option Controller
unfolding take_permit
take_slot c = counted (take_permit c)

-- `self._cooldown_until - self._now() > 0`
abbrev pub cooling_down : Option ℕ → ℕ → Bool
cooling_down none now = false
cooling_down (some deadline) now = ltb now deadline

-- `cooldown_remaining`
unfoldable pub cooldown_remaining : ℕ → Controller → ℕ
cooldown_remaining now c = elim c.cooldown_until [ none ↦ 0 | some deadline ↦ deadline - now ]

-- The longer of two waits: `a.owed / a.per_ms` against `b.owed / b.per_ms`.
abbrev pub longer : Wait → Wait → Wait
longer a b = if ltb (a.owed * b.per_ms) (b.owed * a.per_ms) then b else a

-- The two reservations of `acquire`, and the wait that they ask for.
unfoldable pub pace : ℕ → Controller → Wait × Controller
pace now c =
    let (rpm_wait, rpm) = reserve 1 now c.rpm_bucket in
    let (tpm_wait, tpm) = reserve c.avg_tokens_per_call now c.tpm_bucket in
    (longer rpm_wait tpm_wait, record c { rpm_bucket = rpm; tpm_bucket = tpm })

-- `max(0, in_flight - 1)` and `semaphore.release()`
unfoldable pub free_slot : Controller → Controller
free_slot c = record c { in_flight = c.in_flight - 1; permits = c.permits + 1 }

unfoldable pub refund_both : ℕ → Controller → Controller
refund_both now c = record c {
  rpm_bucket = refund (pos 1) now c.rpm_bucket;
  tpm_bucket = refund (pos c.avg_tokens_per_call) now c.tpm_bucket;
}

-- The `except BaseException` of `acquire`: `reserved` says whether the caller was cancelled after
-- its reservations (while it slept) or before them (while it sat out the cooldown).
unfoldable pub cancel_pacing : Bool → ℕ → Controller → Controller
unfolding free_slot
cancel_pacing true now c = free_slot (refund_both now c)
cancel_pacing false now c = free_slot c

-- The TPM reconciliation of `release`.
abbrev reconcile_known : Option ℕ → Bool → ℕ → Controller → Controller
reconcile_known (some result_tokens) success now c = record c {
  tpm_bucket = refund (sub_ℕ c.avg_tokens_per_call result_tokens) now c.tpm_bucket;
}
reconcile_known none true now c = c
reconcile_known none false now c = record c {
  tpm_bucket = refund (pos c.avg_tokens_per_call) now c.tpm_bucket;
}

abbrev reconcile : Option ℕ → Option ℕ → Bool → ℕ → Controller → Controller
reconcile none result_tokens success now c = c
reconcile (some limit) result_tokens success now c = reconcile_known result_tokens success now c

-- `release`
unfoldable pub release : Bool → Option ℕ → ℕ → Controller → Controller
unfolding free_slot
release success result_tokens now c =
    free_slot (reconcile c.tokens_per_min result_tokens success now c)

-- `report_wave_failures`; `failures / total >= threshold`
unfoldable pub report_wave_failures : ℕ → ℕ → Controller → Controller
report_wave_failures successes failures c =
    let total = successes + failures in
    if total == 0
    then c
    else if leb (c.failure_shrink_threshold * total) (failures * 10000)
        && ltb c.min_in_flight c.target_slots
    then record c { target_slots = c.target_slots - 1; shrink_pending = c.shrink_pending + 1 }
    else c

-- `note_rate_limited`, with `max(0.0, seconds)` already a natural
unfoldable pub note_rate_limited : ℕ → ℕ → Controller → Controller
note_rate_limited delay now c = elim c.cooldown_until [
  | none ↦ record c { cooldown_until = some (now + delay) }
  | some deadline ↦
      if ltb deadline (now + delay) then record c { cooldown_until = some (now + delay) } else c
]

-- `before_retry`, once the cooldown is over: a fresh RPM token, and its wait
unfoldable pub before_retry : ℕ → Controller → Wait × Controller
before_retry now c =
    let (wait, rpm) = reserve 1 now c.rpm_bucket in (wait, record c { rpm_bucket = rpm })

-- A retry that is cancelled while it sleeps gives its token back.
unfoldable pub cancel_retry : ℕ → Controller → Controller
cancel_retry now c = record c { rpm_bucket = refund (pos 1) now c.rpm_bucket }
