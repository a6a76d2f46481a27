-- ===== src/RateLimit/Callers/Slots.antt =====
-- Permits are conserved over every interleaving.
use alpha_swarm.Prelude.{ℕ, ◌+◌, ◌≤◌, ◌≡◌, some, Option, arith}
use alpha_swarm.RateLimit.Controller.{
  make, begin_acquire, hand_claim_back, take_slot, pace, refund_both, cancel_pacing, release,
  report_wave_failures, note_rate_limited, before_retry, cancel_retry,
}
use alpha_swarm.RateLimit.Callers.{System, Action, arrive, act, idle, Reach, here, next}

-- The permits that are free, or with callers in flight, are the slots aimed at and those that a
-- shrink still has to take; the controller's count of calls in flight is the callers' own.
record IsBalanced (most least : ℕ) (s : System) : Type 0 where
  permits : s.ctl.permits + s.ctl.in_flight ≡ s.ctl.target_slots + s.ctl.shrink_pending + s.draining
  callers : s.ctl.in_flight ≡ s.cooling + s.pausing + s.holding
  shrunk : s.ctl.target_slots + s.ctl.shrink_pending + s.draining ≤ most
  floor : least ≤ s.ctl.target_slots
  same_floor : s.ctl.min_in_flight ≡ least

module _ (most least : ℕ) where
  act-IsBalanced :
      (now : ℕ) (a : Action) (s t : System)
      → IsBalanced most least s
      → act now a s ≡ some t
      → IsBalanced most least t
  unfolding act begin_acquire hand_claim_back take_slot cancel_pacing release report_wave_failures
      note_rate_limited before_retry cancel_retry pace refund_both
  act-IsBalanced now arrive s t b h = ground arith
  act-IsBalanced now _ s t b h = ground arith

  Reach-IsBalanced : {s t : System} → IsBalanced most least s → Reach s t → IsBalanced most least t
  Reach-IsBalanced b here = b
  Reach-IsBalanced b (next now a r h) = act-IsBalanced now a _ _ (Reach-IsBalanced b r) h

make-IsBalanced :
    (max_in_flight : ℕ) (rpm tpm : Option ℕ) (avg threshold min_in_flight now : ℕ)
    → min_in_flight ≤ max_in_flight
    → IsBalanced max_in_flight min_in_flight
        (idle (make max_in_flight rpm tpm avg threshold min_in_flight now))
unfolding make
make-IsBalanced most rpm tpm avg threshold least now h = ground arith

-- However callers arrive, wait, are cancelled, finish and retry, and whatever waves shrink the
-- controller: the callers that hold a slot and the free permits together are the slots aimed at,
-- plus the permits that pending shrinks have not taken yet. So no permit is lost or made up, never
-- more than `max_in_flight` calls are in flight, the shrink stops at `min_in_flight`, and with no
-- shrink outstanding the calls in flight are within the slots aimed at.
pub slots_conserved :
    (max_in_flight : ℕ) (rpm tpm : Option ℕ) (avg threshold min_in_flight t0 : ℕ) {s : System}
    → min_in_flight ≤ max_in_flight
    → Reach (idle (make max_in_flight rpm tpm avg threshold min_in_flight t0)) s
    → let busy = s.cooling + s.pausing + s.holding in
      (busy + s.ctl.permits ≡ s.ctl.target_slots + s.ctl.shrink_pending + s.draining)
      × (busy ≡ s.ctl.in_flight)
      × (busy ≤ max_in_flight)
      × (min_in_flight ≤ s.ctl.target_slots)
      × (busy ≤ s.ctl.target_slots + s.ctl.shrink_pending + s.draining)
slots_conserved most rpm tpm avg threshold least t0 h r =
    let b = Reach-IsBalanced most least (make-IsBalanced most rpm tpm avg threshold least t0 h) r in
    omega (arith, b.permits, b.callers, b.shrunk, b.floor)
