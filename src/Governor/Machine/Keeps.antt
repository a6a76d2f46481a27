-- ===== src/Governor/Machine/Keeps.antt =====
-- The handlers of the state machine keep the invariant of the governor.
use alpha_swarm.Prelude.{ℕ, ◌≡◌, refl, arith}
use alpha_swarm.Settings.{GovernorSettings, IsOrdered}
use alpha_swarm.Memory.{MemoryReading}
use alpha_swarm.Governor.State.{Governor, GovernorState}
use alpha_swarm.Governor.Limiter.{set_limit, sync_gate}
use alpha_swarm.Governor.Invariant.{IsValid}
use alpha_swarm.Governor.Machine.{
  Handled, next, abort, enter_crisis, count_green_check, handle_running, handle_throttled,
  handle_paused, handle_crisis, leave_crisis, recovered, recovery_step, handle_recovering, dispatch,
  handle, close_state_interval, emit_metrics, after_handler, apply_state_transition,
}

-- The invariant of the governor that a handler leaves behind.
abbrev pub HandledIsValid : GovernorSettings → Handled → Type 0
HandledIsValid cfg (next g) = IsValid cfg g
HandledIsValid cfg (abort e g) = IsValid cfg g

module _ (cfg : GovernorSettings) (o : IsOrdered cfg) where
  enter_crisis-IsValid :
      (since : ℕ) (g : Governor) → IsValid cfg g → IsValid cfg (enter_crisis since g)
  unfolding enter_crisis set_limit sync_gate
  enter_crisis-IsValid since g v = ground arith

  count_green_check-IsValid :
      (g : Governor)
      → IsValid cfg g
      → g.state ≡ GovernorState.running
      → IsValid cfg (count_green_check cfg g)
  unfolding count_green_check set_limit
  count_green_check-IsValid g v h = ground arith

  handle_running-IsValid :
      (reading : MemoryReading) (now : ℕ) (g : Governor)
      → IsValid cfg g
      → g.state ≡ GovernorState.running
      → IsValid cfg (handle_running cfg reading now g)
  unfolding handle_running sync_gate
  handle_running-IsValid reading now g v h =
      ground (arith, enter_crisis-IsValid now g v, count_green_check-IsValid g v h)

  handle_throttled-IsValid :
      (reading : MemoryReading) (now : ℕ) (g : Governor)
      → IsValid cfg g
      → g.state ≡ GovernorState.throttled
      → IsValid cfg (handle_throttled reading now g)
  unfolding handle_throttled sync_gate
  handle_throttled-IsValid reading now g v h = ground (arith, enter_crisis-IsValid now g v)

  handle_paused-IsValid :
      (reading : MemoryReading) (now : ℕ) (g : Governor)
      → IsValid cfg g
      → g.state ≡ GovernorState.paused
      → IsValid cfg (handle_paused cfg reading now g)
  unfolding handle_paused sync_gate
  handle_paused-IsValid reading now g v h = grind (arith, enter_crisis-IsValid)

  leave_crisis-IsValid :
      (g : Governor)
      → IsValid cfg g
      → g.state ≡ GovernorState.crisis
      → IsValid cfg (leave_crisis cfg g)
  unfolding leave_crisis sync_gate set_limit
  leave_crisis-IsValid g v h = ground arith

  handle_crisis-IsValid :
      (reading : MemoryReading) (now : ℕ) (g : Governor)
      → IsValid cfg g
      → g.state ≡ GovernorState.crisis
      → HandledIsValid cfg (handle_crisis cfg reading now g)
  unfolding handle_crisis
  handle_crisis-IsValid reading now g v h = ground (arith, leave_crisis-IsValid g v h)

  recovered-IsValid :
      (g : Governor)
      → IsValid cfg g
      → g.state ≡ GovernorState.recovering
      → IsValid cfg (recovered g)
  unfolding recovered sync_gate
  recovered-IsValid g v h = ground arith

  recovery_step-IsValid :
      (g : Governor)
      → IsValid cfg g
      → g.state ≡ GovernorState.recovering
      → IsValid cfg (recovery_step cfg g) × ((recovery_step cfg g).state ≡ GovernorState.recovering)
  unfolding recovery_step set_limit
  recovery_step-IsValid g v h = ground arith

  handle_recovering-IsValid :
      (reading : MemoryReading) (now : ℕ) (g : Governor)
      → IsValid cfg g
      → g.state ≡ GovernorState.recovering
      → IsValid cfg (handle_recovering cfg reading now g)
  unfolding handle_recovering
  handle_recovering-IsValid reading now g v h = ground (
    arith,
    enter_crisis-IsValid now g v,
    recovered-IsValid g v h,
    recovery_step-IsValid g v h,
    recovered-IsValid (recovery_step cfg g),
  )

  dispatch-IsValid :
      (s : GovernorState) (reading : MemoryReading) (now : ℕ) (g : Governor)
      → IsValid cfg g
      → g.state ≡ s
      → HandledIsValid cfg (dispatch s cfg reading now g)
  dispatch-IsValid GovernorState.running = handle_running-IsValid
  dispatch-IsValid GovernorState.throttled = handle_throttled-IsValid
  dispatch-IsValid GovernorState.paused = handle_paused-IsValid
  dispatch-IsValid GovernorState.crisis = handle_crisis-IsValid
  dispatch-IsValid GovernorState.recovering = handle_recovering-IsValid

  handle-IsValid :
      (reading : MemoryReading) (now : ℕ) (g : Governor)
      → IsValid cfg g
      → HandledIsValid cfg (handle cfg reading now g)
  unfolding handle
  handle-IsValid reading now g v = dispatch-IsValid g.state reading now g v refl

  pub close_state_interval-IsValid :
      (s : GovernorState) (now : ℕ) (g : Governor)
      → IsValid cfg g
      → IsValid cfg (close_state_interval s now g)
  unfolding close_state_interval
  close_state_interval-IsValid s now g v = ground arith

  pub emit_metrics-IsValid :
      (reading : MemoryReading) (now : ℕ) (g : Governor)
      → IsValid cfg g
      → IsValid cfg (emit_metrics reading now g)
  unfolding emit_metrics
  emit_metrics-IsValid reading now g v = ground arith

  after_handler-IsValid :
      (old : GovernorState) (reading : MemoryReading) (now : ℕ) (h : Handled)
      → HandledIsValid cfg h
      → HandledIsValid cfg (after_handler old reading now h)
  unfolding after_handler
  after_handler-IsValid old reading now (abort e g) v = v
  after_handler-IsValid old reading now (next g) v =
      grind (arith, emit_metrics-IsValid, close_state_interval-IsValid)

  -- A check keeps the invariant, whether it ends normally or aborts.
  pub apply_state_transition-IsValid :
      (reading : MemoryReading) (now : ℕ) (g : Governor)
      → IsValid cfg g
      → HandledIsValid cfg (apply_state_transition cfg reading now g)
  unfolding apply_state_transition
  apply_state_transition-IsValid reading now g v =
      after_handler-IsValid g.state reading now _ (handle-IsValid reading now _ (ground arith))
