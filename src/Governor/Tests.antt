-- ===== src/Governor/Tests.antt =====
-- Concrete runs of the governor, and its theorems at inputs that meet their hypotheses.
use alpha_swarm.Prelude.{
  ℕ, ◌+◌, ◌-◌, ◌<◌, ◌≤◌, max, ◌≡◌, refl, ◌↔◌, true, false, none, some, List, [], ◌∷◌, take, length,
  if◌then◌else◌, arith,
}
use alpha_swarm.Settings.{defaults, defaults-IsOrdered}
use alpha_swarm.Memory.{MemoryReading, PressureLevel, is_crisis, is_pause_zone}
use alpha_swarm.Governor.State.{
  Governor, GovernorState, CrisisError, MonitorFailure, MonitorTask, init,
}
use alpha_swarm.Governor.Limiter.{
  closes_gate, is_crisis_state, granted, raised, acquire_pass, release,
}
use alpha_swarm.Governor.Machine.{apply_state_transition, read_time_in_state}
use alpha_swarm.Governor.Session.{
  Event, monitor_done, pass, give_back, check, start, reading_ok, step, run, stop_monitoring,
}
use alpha_swarm.Governor.Session.Keeps.{slots_stay_bounded}
use alpha_swarm.Governor.Session.Fatal.{
  Late, late_pass, late_done, late_give_back, late_events, has_pass, dead_monitor_reaches_all,
  stop_surfaces_unseen,
}
use alpha_swarm.Governor.Session.Times.{left, transition_keeps_time}
use alpha_swarm.Governor.Invariant.{IsValid}
use alpha_swarm.Governor.Admission.{has_failed, pass_admits, taken}
use alpha_swarm.Governor.Failures.{releases_balance}
use alpha_swarm.Governor.Recovery.{Readings, checks, recovery_ends, stuck_pause_aborts}

abbrev reading : PressureLevel → ℕ → MemoryReading
reading level used = record {
  used_percent = used;
  pressure_level = level;
  timestamp = 0;
  throttle_threshold = 8000;
  pause_threshold = 9000;
  scale_up_threshold = 6000;
}

abbrev calm : MemoryReading
calm = reading PressureLevel.green 5000

abbrev nearly_full : MemoryReading
nearly_full = reading PressureLevel.green 9500

abbrev red_alert : MemoryReading
red_alert = reading PressureLevel.red 5000

abbrev session : List (ℕ × Event)
session =
    (0, start)
    ∷ (10, pass)
    ∷ (2000, check (reading_ok red_alert))
    ∷ (2500, give_back true)
    ∷ (4000, check (reading_ok calm))
    ∷ (6000, check (reading_ok calm))
    ∷ []

abbrev fresh : Governor
fresh = record {
  limit = 8;
  in_use = 2;
  gate_closed = false;
  fatal = none;
  fatal_delivered = false;
  wakeups = 0;
  state = GovernorState.running;
  last_successful_inference = 0;
  crisis_start = none;
  paused_since = none;
  consecutive_green_checks = 0;
  monitor_task = MonitorTask.alive;
  outcomes = [];
  consecutive_successes = 9;
  failure_debt = 3;
  time_in_state = record { in_throttled = 0; in_paused = 0; in_crisis = 0 };
  peak_memory_percent = 0;
  state_entered_at = 0;
  has_store = true;
  published = none;
}

fresh-IsValid : IsValid defaults fresh
fresh-IsValid = ground arith

slots_stay_bounded_example :
    let g = run defaults session (init defaults true 0) in
    (1 ≤ g.limit)
    × (g.limit ≤ defaults.max_parallel)
    × (g.in_use ≤ defaults.max_parallel)
    × ((if is_crisis_state g.state then g.limit else 1) ≡ 1)
    × (g.gate_closed ≡ closes_gate g.state)
slots_stay_bounded_example = slots_stay_bounded defaults defaults-IsOrdered true 0 session

pass_admits_example :
    let (r, g') = acquire_pass 5 fresh in
    (((acquire_pass 5 fresh).0 ≡ granted) ↔ (
      (fresh.fatal ≡ none)
      × (has_failed fresh.monitor_task ≡ false)
      × (closes_gate fresh.state ≡ false)
      × (fresh.in_use < fresh.limit)))
    × ((g'.in_use ≡ fresh.in_use + taken r)
        × (taken r + fresh.in_use ≤ max fresh.in_use fresh.limit)
        × (g'.limit ≡ fresh.limit)
        × (g'.state ≡ fresh.state)
        × (g'.gate_closed ≡ closes_gate fresh.state))
pass_admits_example = pass_admits defaults 5 fresh fresh-IsValid

releases_balance_example :
    let g' = release defaults true 7 fresh in
    let f = release defaults false 7 fresh in
    ((fresh.limit ≤ g'.limit)
      × (g'.limit + g'.failure_debt ≤ fresh.limit + fresh.failure_debt)
      × (g'.limit ≤ fresh.limit + defaults.slot_adjustment_step)
      × (g'.in_use ≡ fresh.in_use - 1)
      × (g'.last_successful_inference ≡ 7))
    × ((1 ≤ f.limit)
        × (f.limit + f.failure_debt ≡ fresh.limit + fresh.failure_debt)
        × (fresh.failure_debt ≤ f.failure_debt)
        × (fresh.limit ≤ f.limit + defaults.slot_adjustment_step)
        × (f.last_successful_inference ≡ fresh.last_successful_inference))
releases_balance_example = releases_balance defaults defaults-IsOrdered 7 fresh fresh-IsValid

abbrev recovering : Governor
recovering = record fresh { state = GovernorState.recovering; limit = 3; consecutive_successes = 0 }

abbrev three_calm : Readings
three_calm = (2000, calm) ∷ (4000, calm) ∷ (6000, calm) ∷ []

recovery_ends_example :
    (k : ℕ) × (k ≤ length three_calm)
    × ((run defaults (checks (take k three_calm)) recovering).state ≡ GovernorState.running)
    × (8 ≤ (run defaults (checks (take k three_calm)) recovering).limit)
unfolding is_crisis
recovery_ends_example =
    recovery_ends defaults defaults-IsOrdered three_calm recovering refl refl
      (refl, (refl, (refl, tt))) (omega arith) (omega arith)

abbrev stuck : Governor
stuck = record fresh { state = GovernorState.paused; gate_closed = true; paused_since = some 1000 }

stuck_pause_aborts_example :
    let g1 = step defaults 400000 (check (reading_ok nearly_full)) stuck in
    let g2 = step defaults 402000 (check (reading_ok nearly_full)) g1 in
    (g1.state ≡ GovernorState.crisis)
    × (g1.limit ≡ 1)
    × ((acquire_pass 402001 g2).0
        ≡ raised (record { duration_seconds = 402000 - 1000; from_other = false }))
unfolding is_pause_zone
stuck_pause_aborts_example =
    stuck_pause_aborts defaults defaults-IsOrdered 400000 402000 402001 1000 nearly_full nearly_full
      stuck refl refl refl refl refl (omega arith) (omega arith) (omega arith)

abbrev crisis_error : CrisisError
crisis_error = record { duration_seconds = 300001; from_other = false }

abbrev dead : Governor
dead = record fresh {
  monitor_task = MonitorTask.failed (MonitorFailure.governor_crisis crisis_error);
}

abbrev late : List (ℕ × Late)
late = (1, late_done) ∷ (2, late_give_back false) ∷ (3, late_pass) ∷ []

dead_monitor_reaches_all_example :
    (acquire_pass 9 (run defaults (late_events crisis_error late) dead)).0 ≡ raised crisis_error
dead_monitor_reaches_all_example =
    dead_monitor_reaches_all defaults crisis_error late 9 dead refl refl

stop_surfaces_unseen_example :
    let (surfaced, g') =
      stop_monitoring defaults true 9 (run defaults (late_events crisis_error late) dead) in
    (surfaced ≡ (if has_pass late then none else if true then none else some crisis_error))
    × (g'.state ≡ GovernorState.running)
    × (g'.limit ≡ 8)
    × (g'.in_use ≡ 0)
    × (g'.gate_closed ≡ false)
    × (g'.fatal ≡ none)
    × (g'.monitor_task ≡ MonitorTask.absent)
stop_surfaces_unseen_example =
    stop_surfaces_unseen defaults crisis_error late true 9 dead refl refl refl

-- The callback of a task that died in an earlier session makes the present one fail.
stale_callback_fails :
    (step defaults 5
      (monitor_done (MonitorTask.failed (MonitorFailure.governor_crisis crisis_error)))
      fresh).fatal
    ≡ some crisis_error
unfolding step alpha_swarm.Governor.Limiter.absorb_task
stale_callback_fails = refl

transition_keeps_time_example :
    read_time_in_state 402000 (left (apply_state_transition defaults red_alert 402000 stuck))
    ≡ read_time_in_state 402000 stuck
transition_keeps_time_example = transition_keeps_time defaults red_alert 402000 stuck
