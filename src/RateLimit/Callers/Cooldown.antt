-- ===== src/RateLimit/Callers/Cooldown.antt =====
-- The cooldown that all callers share.
use alpha_swarm.Prelude.{ℕ, ◌+◌, ◌<◌, ◌≡◌, none, some, true, arith}
use alpha_swarm.RateLimit.Controller.{
  begin_acquire, hand_claim_back, take_slot, cooling_down, pace, refund_both, cancel_pacing,
  release, report_wave_failures, note_rate_limited, before_retry, cancel_retry,
}
use alpha_swarm.RateLimit.Callers.{
  System, Action, arrive, reserve_turn, too_many_requests, retry, act, Reach, here, next,
}

-- Whoever asks before `t` is held back.
abbrev HoldsUntil : ℕ → System → Type 0
HoldsUntil t s = cooling_down s.ctl.cooldown_until t ≡ true

module _ (t : ℕ) where
  act-HoldsUntil :
      (now : ℕ) (a : Action) (s u : System) → HoldsUntil t s → act now a s ≡ some u → HoldsUntil t u
  unfolding act begin_acquire hand_claim_back take_slot cancel_pacing release report_wave_failures
      note_rate_limited before_retry cancel_retry pace refund_both
  act-HoldsUntil now arrive s u b h = ground arith
  act-HoldsUntil now _ s u b h = ground arith

  Reach-HoldsUntil : {s u : System} → HoldsUntil t s → Reach s u → HoldsUntil t u
  Reach-HoldsUntil b here = b
  Reach-HoldsUntil b (next now a r h) = act-HoldsUntil now a _ _ (Reach-HoldsUntil b r) h

starts_holding :
    (t0 delay now : ℕ) (s u : System)
    → act t0 (too_many_requests delay) s ≡ some u
    → now < t0 + delay
    → HoldsUntil now u
unfolding act note_rate_limited
starts_holding t0 delay now s u h before = ground arith

held_back :
    (now : ℕ) (s : System)
    → HoldsUntil now s
    → (act now reserve_turn s ≡ none) × (act now retry s ≡ none)
unfolding act
held_back now s h = ground arith

-- A 429 seen by any caller is seen by all: until its delay has passed, whatever happens in between (other
-- 429s included), no caller takes its reservation and no retry takes its token. Those that have
-- theirs already, and sleep on the wait that it owes, are not held back.
pub cooldown_is_shared :
    (t0 delay now : ℕ) (s s1 : System) {s2 : System}
    → act t0 (too_many_requests delay) s ≡ some s1
    → Reach s1 s2
    → now < t0 + delay
    → (act now reserve_turn s2 ≡ none) × (act now retry s2 ≡ none)
cooldown_is_shared t0 delay now s s1 h r before =
    held_back now _ (Reach-HoldsUntil now (starts_holding t0 delay now s s1 h before) r)
