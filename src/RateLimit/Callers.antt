-- ===== src/RateLimit/Callers.antt =====
-- The callers of one `RateLimitController`, interleaved at its awaits: how many stand at each of
-- them, and what each step does. A step that no caller can make is `none`.
pub mod Slots
pub mod Cancelled
pub mod Cooldown
use alpha_swarm.Prelude.{
  ℕ, zero, suc, ◌+◌, ◌-◌, ◌≡◌, Bool, true, false, Option, none, some, ltb, if◌then◌else◌,
}
use alpha_swarm.RateLimit.Bucket.{Wait}
use alpha_swarm.RateLimit.Controller.{
  Controller, begin_acquire, hand_claim_back, take_permit, take_slot, cooling_down, pace,
  cancel_pacing, release, report_wave_failures, note_rate_limited, before_retry, cancel_retry,
}

pub record System : Type 0 where
  pub ctl : Controller
  -- waiting for the token that a shrink holds back
  pub draining : ℕ
  -- waiting for a slot of their own
  pub queued : ℕ
  -- with a slot, waiting for the end of the cooldown
  pub cooling : ℕ
  -- with a slot and both reservations, sleeping
  pub pausing : ℕ
  -- `acquire` has returned
  pub holding : ℕ
  -- of these, asleep in `before_retry` on the wait of the token that it has reserved
  pub retrying : ℕ

pub data Action : Type 0 where
  arrive drain take_turn reserve_turn wake : Action
  cancel_draining cancel_queued cancel_cooling cancel_pausing : Action
  finish : Bool → Option ℕ → Action
  wave : ℕ → ℕ → Action
  too_many_requests : ℕ → Action
  retry retry_wake retry_cancelled : Action

-- A caller leaves a place only if somebody stands there.
abbrev from_place : ℕ → Option System → Option System
from_place zero s = none
from_place (suc n) s = s

abbrev arrived : System → Bool × Controller → System
arrived s (true, c) = record s { ctl = c; draining = s.draining + 1 }
arrived s (false, c) = record s { ctl = c; queued = s.queued + 1 }

abbrev drained : System → Option Controller → Option System
drained s none = none
drained s (some c) = some (record s { ctl = c; draining = s.draining - 1; queued = s.queued + 1 })

abbrev seated : System → Option Controller → Option System
seated s none = none
seated s (some c) = some (record s { ctl = c; queued = s.queued - 1; cooling = s.cooling + 1 })

-- No wait owed: `acquire` returns at once; otherwise it sleeps.
abbrev paced : System → Wait × Controller → System
paced s (wait, c) =
    if ltb 0 wait.owed
    then record s { ctl = c; cooling = s.cooling - 1; pausing = s.pausing + 1 }
    else record s { ctl = c; cooling = s.cooling - 1; holding = s.holding + 1 }

-- `before_retry` after its reservation: with no wait owed the retry goes out at once.
abbrev retried : System → Wait × Controller → System
retried s (wait, c) =
    if ltb 0 wait.owed
    then record s { ctl = c; retrying = s.retrying + 1 }
    else record s { ctl = c }

abbrev with_ctl : System → Controller → System
with_ctl s c = record s { ctl = c }

unfoldable pub act : ℕ → Action → System → Option System
act now arrive s = some (arrived s (begin_acquire s.ctl))
act now drain s = from_place s.draining (drained s (take_permit s.ctl))
act now take_turn s = from_place s.queued (seated s (take_slot s.ctl))
act now reserve_turn s =
    from_place s.cooling
      (if cooling_down s.ctl.cooldown_until now then none else some (paced s (pace now s.ctl)))
act now wake s =
    from_place s.pausing (some (record s { pausing = s.pausing - 1; holding = s.holding + 1 }))
act now cancel_draining s =
    from_place s.draining
      (some (record s { ctl = hand_claim_back s.ctl; draining = s.draining - 1 }))
act now cancel_queued s = from_place s.queued (some (record s { queued = s.queued - 1 }))
act now cancel_cooling s =
    from_place s.cooling
      (some (record s { ctl = cancel_pacing false now s.ctl; cooling = s.cooling - 1 }))
act now cancel_pausing s =
    from_place s.pausing
      (some (record s { ctl = cancel_pacing true now s.ctl; pausing = s.pausing - 1 }))
act now (finish success result_tokens) s =
    from_place (s.holding - s.retrying)
      (some (record s { ctl = release success result_tokens now s.ctl; holding = s.holding - 1 }))
act now (wave successes failures) s =
    some (with_ctl s (report_wave_failures successes failures s.ctl))
act now (too_many_requests delay) s = some (with_ctl s (note_rate_limited delay now s.ctl))
act now retry s = from_place (s.holding - s.retrying) (
    if cooling_down s.ctl.cooldown_until now
    then none
    else some (retried s (before_retry now s.ctl)))
act now retry_wake s = from_place s.retrying (some (record s { retrying = s.retrying - 1 }))
act now retry_cancelled s =
    from_place s.retrying
      (some (record s { ctl = cancel_retry now s.ctl; retrying = s.retrying - 1 }))

abbrev pub idle : Controller → System
idle c = record {
  ctl = c;
  draining = 0;
  queued = 0;
  cooling = 0;
  pausing = 0;
  holding = 0;
  retrying = 0;
}

-- The systems that actions lead to; an action that is not possible is not a step.
pub data Reach (s : System) : System → Type 0 where
  here : Reach s s
  next : {t u : System} (now : ℕ) (a : Action) → Reach s t → act now a t ≡ some u → Reach s u
