-- ===== src/Governor/Session.antt =====
-- The monitor task and the session of `ResourceGovernor`, and the events that reach a governor.
pub mod Keeps
pub mod Fatal
pub mod Times
use alpha_swarm.Prelude.{ℕ, Bool, true, false, Option, none, some, List, [], ◌∷◌, if◌then◌else◌}
use alpha_swarm.Settings.{GovernorSettings}
use alpha_swarm.Memory.{MemoryReading}
use alpha_swarm.Governor.State.{
  Governor, GovernorState, CrisisError, MonitorFailure, MonitorTask, zero_time_in_state,
}
use alpha_swarm.Governor.Limiter.{
  notify, absorb_task, absorb_monitor_failure, acquire_pass, release,
}
use alpha_swarm.Governor.Machine.{
  Handled, next, abort, apply_state_transition, emit_metrics, close_state_interval,
}

-- What one read of the memory gives the monitor loop: a reading, or an exception.
pub data ReadResult : Type 0 where
  reading_ok : MemoryReading → ReadResult
  read_raised : ReadResult

-- The task ends with the exception; `except Exception` turns any other than the crisis error into
-- a crisis error of duration 0.
abbrev pub die : CrisisError → Governor → Governor
die e g = record g { monitor_task = MonitorTask.failed (MonitorFailure.governor_crisis e) }

abbrev pub loop_failure : CrisisError
loop_failure = record { duration_seconds = 0; from_other = true }

-- One round of `_monitor_loop`; an exception inside `_emit_metrics` is swallowed there.
abbrev finish_check : MemoryReading → ℕ → Handled → Governor
finish_check reading now (next g) = emit_metrics reading now g
finish_check reading now (abort e g) = die e g

unfoldable pub monitor_check : GovernorSettings → ReadResult → ℕ → Governor → Governor
monitor_check cfg (reading_ok reading) now g =
    finish_check reading now (apply_state_transition cfg reading now g)
monitor_check cfg read_raised now g = die loop_failure g

-- The loop only runs while its task does.
abbrev while_alive : MonitorTask → Governor → Governor → Governor
while_alive MonitorTask.alive g g' = g'
while_alive MonitorTask.absent g g' = g
while_alive MonitorTask.cancelled g g' = g
while_alive MonitorTask.returned g g' = g
while_alive (MonitorTask.failed _) g g' = g

-- `_reset_telemetry`
unfoldable pub reset_telemetry : ℕ → Governor → Governor
reset_telemetry now g = record g {
  time_in_state = zero_time_in_state;
  peak_memory_percent = 0;
  state_entered_at = now;
}

-- `start_monitoring`: a new task unless one is running
unfoldable pub start_monitoring : ℕ → Governor → Governor
unfolding reset_telemetry
start_monitoring now g = elim g.monitor_task [
  | MonitorTask.alive ↦ g
  | _ ↦ record (reset_telemetry now g) { monitor_task = MonitorTask.alive }
]

-- `_reset_session`
unfoldable pub reset_session : GovernorSettings → Governor → Governor
unfolding notify
reset_session cfg g = notify (record g {
  state = GovernorState.running;
  crisis_start = none;
  paused_since = none;
  consecutive_green_checks = 0;
  limit = cfg.baseline_parallel;
  in_use = 0;
  gate_closed = false;
  fatal = none;
  fatal_delivered = false;
  outcomes = [];
  consecutive_successes = 0;
  failure_debt = 0;
})

-- The task after `task.cancel()` and the await: `_monitor_loop` catches the cancellation and
-- returns, so a running task ends without an exception.
abbrev cancel_task : MonitorTask → MonitorTask
cancel_task MonitorTask.alive = MonitorTask.returned
cancel_task MonitorTask.absent = MonitorTask.absent
cancel_task MonitorTask.cancelled = MonitorTask.cancelled
cancel_task MonitorTask.returned = MonitorTask.returned
cancel_task (MonitorTask.failed exc) = MonitorTask.failed exc

-- What `stop_monitoring` raises: a fatal error that nobody has seen, unless another exception is
-- already propagating.
abbrev pub unseen : Bool → Bool → Option CrisisError → Option CrisisError
unseen delivered propagating none = none
unseen delivered propagating (some e) =
    if delivered then none else if propagating then none else some e

-- `stop_monitoring`; `propagating` is `sys.exception() is not None`
unfoldable pub stop_monitoring :
    GovernorSettings → Bool → ℕ → Governor → Option CrisisError × Governor
stop_monitoring cfg propagating now g =
    let g' = absorb_monitor_failure now (record g { monitor_task = cancel_task g.monitor_task }) in
    (
      unseen g'.fatal_delivered propagating g'.fatal,
      reset_session cfg
          (close_state_interval g'.state now (record g' { monitor_task = MonitorTask.absent })),
    )

-- What can happen to a governor. `pass` is one pass of an `acquire`: a new caller's, or a woken
-- waiter's; `monitor_done` is the done callback of a task that has ended so, which may come after the
-- session that started the task.
pub data Event : Type 0 where
  pass : Event
  give_back : Bool → Event
  check : ReadResult → Event
  monitor_done : MonitorTask → Event
  start : Event
  stop : Bool → Event

unfoldable pub step : GovernorSettings → ℕ → Event → Governor → Governor
step cfg now pass g = (acquire_pass now g).1
step cfg now (give_back success) g = release cfg success now g
step cfg now (check result) g = while_alive g.monitor_task g (monitor_check cfg result now g)
step cfg now (monitor_done task) g = absorb_task task now g
step cfg now start g = start_monitoring now g
step cfg now (stop propagating) g = (stop_monitoring cfg propagating now g).1

-- Events with the times at which they come.
unfoldable pub run : GovernorSettings → List (ℕ × Event) → Governor → Governor
run cfg [] g = g
run cfg ((now, e) ∷ rest) g = run cfg rest (step cfg now e g)
