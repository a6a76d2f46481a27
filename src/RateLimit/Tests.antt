-- ===== src/RateLimit/Tests.antt =====
-- The token bucket and the controller at concrete inputs.
use alpha_swarm.Prelude.{ℕ, ◌+◌, ◌-◌, ◌*◌, ◌≤◌, ◌≡◌, refl, true, none, some, List, [], ◌∷◌, arith}
use alpha_swarm.Prelude.Int.{pos, neg_part, ◌+ℤ◌, ◌≤ℤ◌, min_ℤ, ◌-ℤ◌}
use alpha_swarm.RateLimit.Bucket.{
  Bucket, capacity, unit, refill, take_tokens, give_tokens, wait_for,
}
use alpha_swarm.RateLimit.Bucket.Rate.{
  reserve_all, tokens, last_time, reserved_within_rate, wait_covers_deficit,
}
use alpha_swarm.RateLimit.Bucket.Refunds.{refund_restores, late_refund_over_grants}
use alpha_swarm.RateLimit.Bucket.Crowded.{refund_stays_close}
use alpha_swarm.RateLimit.Controller.{
  Controller, make, take_slot, take_permit, pace, cancel_pacing, begin_acquire, note_rate_limited,
}
use alpha_swarm.RateLimit.Callers.{
  System, arrive, take_turn, reserve_turn, too_many_requests, retry, act, idle, Reach, here, next,
}
use alpha_swarm.RateLimit.Callers.Slots.{slots_conserved}
use alpha_swarm.RateLimit.Callers.Cancelled.{settled, cancelled_leaves_nothing}
use alpha_swarm.RateLimit.Callers.Cooldown.{cooldown_is_shared}

-- 60 tokens a minute, full.
abbrev bucket : Bucket
bucket = record { rate_per_min = 60; level = pos 3600000; last_refill = 100 }

abbrev calls : List (ℕ × ℕ)
calls = (200, 50) ∷ (1200, 20) ∷ []

reserved_within_rate_example :
    tokens calls * unit
    ≤ capacity bucket
      + (last_time 200 ((1200, 20) ∷ []) - 200) * 60
      + neg_part (reserve_all calls bucket).level
reserved_within_rate_example = reserved_within_rate 200 50 ((1200, 20) ∷ []) bucket (omega arith)

-- 70 tokens at once leave a deficit of 10, which takes 10 seconds.
wait_covers_deficit_example : pos 0 ≤ℤ (refill (100 + 10000) (take_tokens 70 100 bucket)).level
unfolding wait_for take_tokens refill min_ℤ ◌+ℤ◌ ◌-ℤ◌
wait_covers_deficit_example = wait_covers_deficit 70 100 10000 bucket (omega arith)

refund_restores_example :
    refill 9000 (give_tokens (pos 5) 9000 (take_tokens 5 200 bucket)) ≡ refill 9000 bucket
refund_restores_example = refund_restores 5 200 9000 bucket (omega arith) (omega arith)

refund_stays_close_example :
    let without = refill 9000 (reserve_all calls (refill 150 bucket)) in
    let refunded = give_tokens (pos 5) 9000 (reserve_all calls (take_tokens 5 150 bucket)) in
    (without.level ≤ℤ refunded.level) × (refunded.level ≤ℤ without.level +ℤ pos (5 * unit))
refund_stays_close_example = refund_stays_close 5 150 9000 calls bucket

late_refund_over_grants_example :
    (give_tokens (pos 5) 9000 (take_tokens 7 9000 (take_tokens 5 100 bucket))).level
    ≡ (take_tokens 7 9000 bucket).level +ℤ pos (5 * unit)
late_refund_over_grants_example =
    late_refund_over_grants 5 7 100 9000 bucket refl refl (omega arith) (omega arith)

abbrev start : System
start = idle (make 2 (some 60) none 1500 2000 1 0)

abbrev one_queued : System
one_queued = record start { queued = 1 }

after_arrival : Reach start one_queued
unfolding act begin_acquire make
after_arrival = next 5 arrive here refl

slots_conserved_example :
    let busy = one_queued.cooling + one_queued.pausing + one_queued.holding in
    (busy + one_queued.ctl.permits
      ≡ one_queued.ctl.target_slots + one_queued.ctl.shrink_pending + one_queued.draining)
    × (busy ≡ one_queued.ctl.in_flight)
    × (busy ≤ 2)
    × (1 ≤ one_queued.ctl.target_slots)
    × (busy ≤ one_queued.ctl.target_slots + one_queued.ctl.shrink_pending + one_queued.draining)
slots_conserved_example = slots_conserved 2 (some 60) none 1500 2000 1 0 (omega arith) after_arrival

abbrev cooled : System
cooled = record one_queued { ctl = record one_queued.ctl { cooldown_until = some 3005 } }

seen_429 : act 5 (too_many_requests 3000) one_queued ≡ some cooled
unfolding act note_rate_limited make
seen_429 = refl

abbrev cooled_seat : System
cooled_seat = record cooled {
  ctl = record cooled.ctl { permits = 1; in_flight = 1 };
  queued = 0;
  cooling = 1;
}

seated : Reach cooled cooled_seat
unfolding act take_slot take_permit make
seated = next 6 take_turn here refl

cooldown_is_shared_example :
    (act 3004 reserve_turn cooled_seat ≡ none) × (act 3004 retry cooled_seat ≡ none)
cooldown_is_shared_example =
    cooldown_is_shared 5 3000 3004 one_queued cooled seen_429 seated (omega arith)

abbrev ctl : Controller
ctl = make 2 (some 60) (some 9000) 1500 2000 1 0

abbrev taken : Controller
taken = record ctl { permits = 1; in_flight = 1 }

took_slot : take_slot ctl ≡ some taken
unfolding take_slot take_permit make
took_slot = refl

cancelled_leaves_nothing_example :
    let c2 = cancel_pacing true 700 (pace 30 taken).1 in
    (c2.permits ≡ ctl.permits)
    × (c2.in_flight ≡ ctl.in_flight)
    × (c2.target_slots ≡ ctl.target_slots)
    × (c2.shrink_pending ≡ ctl.shrink_pending)
    × (settled 700 c2.rpm_bucket ≡ settled 700 ctl.rpm_bucket)
    × (settled 700 c2.tpm_bucket ≡ settled 700 ctl.tpm_bucket)
unfolding make
cancelled_leaves_nothing_example =
    cancelled_leaves_nothing 30 700 ctl taken took_slot (omega arith) (omega arith) (omega arith)
