-- ===== src/Governor/Session/Times.antt =====
-- The time-in-state telemetry of a session.
use alpha_swarm.Prelude.{ℕ, max, ◌-◌, ◌≡◌, arith}
use alpha_swarm.Settings.{GovernorSettings}
use alpha_swarm.Memory.{MemoryReading}
use alpha_swarm.Governor.State.{Governor, GovernorState}
use alpha_swarm.Governor.Machine.{
  Handled, add_interval, next, abort, read_time_in_state, close_state_interval, emit_metrics,
  after_handler, apply_state_transition, handle, handle_running, handle_throttled, handle_paused,
  handle_crisis, handle_recovering, enter_crisis, count_green_check, leave_crisis, recovered,
  recovery_step,
}
use alpha_swarm.Governor.Limiter.{set_limit, sync_gate}

-- The governor that a handler leaves behind.
abbrev pub left : Handled → Governor
left (next g) = g
left (abort e g) = g

-- A handler that raises does so in the state `old`.
abbrev AbortsIn : GovernorState → Handled → Type 0
AbortsIn old (next g) = Unit
AbortsIn old (abort e g) = g.state ≡ old

-- The governor that the handler is given, with the peak already recorded.
abbrev seen : MemoryReading → Governor → Governor
seen reading g = record g { peak_memory_percent = max g.peak_memory_percent reading.used_percent }

-- A handler writes no telemetry.
record SameTimes (g h : Governor) : Type 0 where
  times : h.time_in_state ≡ g.time_in_state
  entered : h.state_entered_at ≡ g.state_entered_at

module _ (cfg : GovernorSettings) where
  handle-SameTimes :
      (reading : MemoryReading) (now : ℕ) (g : Governor)
      → SameTimes g (left (handle cfg reading now g))
  unfolding handle handle_running handle_throttled handle_paused handle_crisis handle_recovering
      enter_crisis count_green_check leave_crisis recovered recovery_step set_limit sync_gate
  handle-SameTimes reading now g = ground arith

  -- A handler that raises has not changed the state.
  abort_keeps_state :
      (reading : MemoryReading) (now : ℕ) (g : Governor)
      → AbortsIn g.state (handle cfg reading now g)
  unfolding handle handle_crisis
  abort_keeps_state reading now g = ground arith

  after_handler_keeps_time :
      (old : GovernorState) (reading : MemoryReading) (now : ℕ) (g : Governor) (h : Handled)
      → SameTimes g (left h)
      → AbortsIn old h
      → read_time_in_state now (left (after_handler old reading now h))
        ≡ add_interval old (now - g.state_entered_at) g.time_in_state
  unfolding after_handler read_time_in_state close_state_interval emit_metrics
  after_handler_keeps_time old reading now g (abort e g') same kept = ground arith
  after_handler_keeps_time old reading now g (next g') same kept = ground arith

  -- A check that changes the state neither loses time nor counts it twice: read at the moment of
  -- the check, the totals are the same before and after it.
  pub transition_keeps_time :
      (reading : MemoryReading) (now : ℕ) (g : Governor)
      → read_time_in_state now (left (apply_state_transition cfg reading now g))
        ≡ read_time_in_state now g
  unfolding apply_state_transition read_time_in_state
  transition_keeps_time reading now g =
      after_handler_keeps_time g.state reading now (seen reading g) _
        (handle-SameTimes reading now (seen reading g))
        (abort_keeps_state reading now (seen reading g))
