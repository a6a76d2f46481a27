-- ===== src/Governor/Machine.antt =====
-- The state machine of `ResourceGovernor`: one handler for each state, and the transition.
pub mod Keeps
use alpha_swarm.Prelude.{
  ℕ, ◌+◌, ◌-◌, max, min, Bool, true, false, ◌&&◌, ◌||◌, not, Option, none, some, ltb, leb,
  if◌then◌else◌,
}
use alpha_swarm.Settings.{GovernorSettings}
use alpha_swarm.Memory.{
  MemoryReading, is_crisis, is_pause_zone, is_throttle_zone, is_scale_up_eligible,
}
use alpha_swarm.Governor.State.{Governor, GovernorState, CrisisError, TimeInState}
use alpha_swarm.Governor.Limiter.{set_limit, sync_gate}

-- A handler ends normally, or it raises `GovernorCrisisError`; what it wrote stays written.
pub data Handled : Type 0 where
  next : Governor → Handled
  abort : CrisisError → Governor → Handled

-- `_enter_crisis`; `since` is the start that it is given, or the present.
unfoldable pub enter_crisis : ℕ → Governor → Governor
enter_crisis since g = sync_gate (record (set_limit 1 (record g { state = GovernorState.crisis })) {
  failure_debt = 0;
  crisis_start = some since;
  paused_since = none;
  consecutive_green_checks = 0;
})

-- The grow step that RUNNING makes once enough green checks have passed in a row.
unfoldable pub count_green_check : GovernorSettings → Governor → Governor
count_green_check cfg g =
    let checks = g.consecutive_green_checks + 1 in
    if leb cfg.scale_up_consecutive_checks checks && ltb g.limit cfg.max_parallel
    then (let amount = min cfg.slot_adjustment_step (cfg.max_parallel - g.limit) in
        record (if ltb 0 amount then set_limit (g.limit + amount) g else g) {
          consecutive_green_checks = 0;
        })
    else record g { consecutive_green_checks = checks }

unfoldable pub handle_running : GovernorSettings → MemoryReading → ℕ → Governor → Governor
handle_running cfg reading now g =
    if is_crisis reading
    then enter_crisis now g
    else if is_pause_zone reading
    then sync_gate (record g {
      state = GovernorState.paused;
      paused_since = some now;
      consecutive_green_checks = 0;
    })
    else if is_throttle_zone reading
    then sync_gate (record g { state = GovernorState.throttled; consecutive_green_checks = 0 })
    else if is_scale_up_eligible reading
    then count_green_check cfg g
    else record g { consecutive_green_checks = 0 }

unfoldable pub handle_throttled : MemoryReading → ℕ → Governor → Governor
handle_throttled reading now g =
    if is_crisis reading
    then enter_crisis now g
    else if is_pause_zone reading
    then sync_gate (record g { state = GovernorState.paused; paused_since = some now })
    else if not (is_throttle_zone reading)
    then sync_gate (record g { state = GovernorState.running; consecutive_green_checks = 0 })
    else g

-- `start is not None and now - start > timeout`
abbrev pub timed_out : GovernorSettings → ℕ → Option ℕ → Bool
timed_out cfg now none = false
timed_out cfg now (some start) = ltb cfg.crisis_timeout_seconds (now - start)

-- `now - _last_successful_inference > timeout`
abbrev pub starved : GovernorSettings → ℕ → Governor → Bool
starved cfg now g = ltb cfg.crisis_timeout_seconds (now - g.last_successful_inference)

-- The pause counts from when the queue stopped; `escalate` is only reached with a start.
abbrev pub escalate : Option ℕ → Governor → Governor
escalate none g = g
escalate (some since) g = enter_crisis since g

unfoldable pub handle_paused : GovernorSettings → MemoryReading → ℕ → Governor → Governor
handle_paused cfg reading now g =
    if is_crisis reading
    then enter_crisis now g
    else if not (is_pause_zone reading)
    then sync_gate (record g {
      state = if is_throttle_zone reading then GovernorState.throttled else GovernorState.running;
      paused_since = none;
    })
    else if timed_out cfg now g.paused_since && starved cfg now g
    then escalate g.paused_since g
    else g

abbrev pub since_crisis : Option ℕ → ℕ → ℕ
since_crisis none now = 0
since_crisis (some start) now = now - start

-- The first step out of a crisis toward the baseline.
unfoldable pub leave_crisis : GovernorSettings → Governor → Governor
leave_crisis cfg g =
    let g' = record g { state = GovernorState.recovering; crisis_start = none } in
    let target = min cfg.baseline_parallel (g.limit + cfg.slot_adjustment_step) in
    sync_gate (if ltb g.limit target then set_limit target g' else g')

unfoldable pub handle_crisis : GovernorSettings → MemoryReading → ℕ → Governor → Handled
handle_crisis cfg reading now g =
    if timed_out cfg now g.crisis_start && starved cfg now g
    then abort (record { duration_seconds = since_crisis g.crisis_start now; from_other = false }) g
    else if is_crisis reading || is_pause_zone reading
    then next g
    else next (leave_crisis cfg g)

-- RECOVERING back to RUNNING.
unfoldable pub recovered : Governor → Governor
recovered g = sync_gate (record g { state = GovernorState.running; consecutive_green_checks = 0 })

-- The grow step of RECOVERING.
unfoldable pub recovery_step : GovernorSettings → Governor → Governor
recovery_step cfg g =
    let amount = min cfg.slot_adjustment_step (cfg.baseline_parallel - g.limit) in
    if ltb 0 amount then set_limit (g.limit + amount) g else g

abbrev pub finish_recovery : GovernorSettings → Governor → Governor
finish_recovery cfg g = if leb cfg.baseline_parallel g.limit then recovered g else g

unfoldable pub handle_recovering : GovernorSettings → MemoryReading → ℕ → Governor → Governor
handle_recovering cfg reading now g =
    if is_crisis reading
    then enter_crisis now g
    else if leb cfg.baseline_parallel g.limit
    then recovered g
    else finish_recovery cfg (recovery_step cfg g)

-- The `if`/`elif` chain of `_apply_state_transition`.
abbrev dispatch : GovernorState → GovernorSettings → MemoryReading → ℕ → Governor → Handled
dispatch GovernorState.running cfg reading now g = next (handle_running cfg reading now g)
dispatch GovernorState.throttled cfg reading now g = next (handle_throttled reading now g)
dispatch GovernorState.paused cfg reading now g = next (handle_paused cfg reading now g)
dispatch GovernorState.crisis cfg reading now g = handle_crisis cfg reading now g
dispatch GovernorState.recovering cfg reading now g = next (handle_recovering cfg reading now g)

unfoldable pub handle : GovernorSettings → MemoryReading → ℕ → Governor → Handled
handle cfg reading now g = dispatch g.state cfg reading now g

-- `_close_state_interval`
abbrev pub add_interval : GovernorState → ℕ → TimeInState → TimeInState
add_interval GovernorState.running d t = t
add_interval GovernorState.throttled d t = record t { in_throttled = t.in_throttled + d }
add_interval GovernorState.paused d t = record t { in_paused = t.in_paused + d }
add_interval GovernorState.crisis d t = record t { in_crisis = t.in_crisis + d }
add_interval GovernorState.recovering d t = t

unfoldable pub close_state_interval : GovernorState → ℕ → Governor → Governor
close_state_interval state now g = record g {
  time_in_state = add_interval state (now - g.state_entered_at) g.time_in_state;
  state_entered_at = now;
}

-- `time_in_state`, which reads the open interval too
unfoldable pub read_time_in_state : ℕ → Governor → TimeInState
read_time_in_state now g = add_interval g.state (now - g.state_entered_at) g.time_in_state

-- `_emit_metrics`
unfoldable pub emit_metrics : MemoryReading → ℕ → Governor → Governor
emit_metrics reading now g =
    if g.has_store
    then record g {
      published = some (record {
        current_slots = g.limit;
        active_count = g.in_use;
        pressure_level = reading.pressure_level;
        memory_percent = reading.used_percent;
        governor_state = g.state;
        timestamp = now;
      });
    }
    else g

abbrev same_state : GovernorState → GovernorState → Bool
same_state GovernorState.running GovernorState.running = true
same_state GovernorState.throttled GovernorState.throttled = true
same_state GovernorState.paused GovernorState.paused = true
same_state GovernorState.crisis GovernorState.crisis = true
same_state GovernorState.recovering GovernorState.recovering = true
same_state _ _ = false

-- What follows the handler: a change of state closes the interval and is published. The probe
-- only gathers log context, and its failures are swallowed.
unfoldable pub after_handler : GovernorState → MemoryReading → ℕ → Handled → Handled
after_handler old reading now (abort e g) = abort e g
after_handler old reading now (next g) =
    if same_state old g.state
    then next g
    else next (emit_metrics reading now (close_state_interval old now g))

-- `_apply_state_transition`
unfoldable pub apply_state_transition : GovernorSettings → MemoryReading → ℕ → Governor → Handled
apply_state_transition cfg reading now g = after_handler g.state reading now (
    handle cfg reading now
      (record g { peak_memory_percent = max g.peak_memory_percent reading.used_percent }))
