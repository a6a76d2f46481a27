-- ===== src/Governor/Session/Keeps.antt =====
-- Every run of events keeps the invariant of the governor.
use alpha_swarm.Prelude.{ℕ, ◌≤◌, ◌≡◌, Bool, List, [], ◌∷◌, if◌then◌else◌, arith}
use alpha_swarm.Settings.{GovernorSettings, IsOrdered}
use alpha_swarm.Governor.State.{Governor, MonitorTask, init}
use alpha_swarm.Governor.Limiter.{closes_gate, is_crisis_state}
use alpha_swarm.Governor.Machine.{Handled, apply_state_transition}
use alpha_swarm.Governor.Machine.Keeps.{
  HandledIsValid, apply_state_transition-IsValid, emit_metrics-IsValid,
}
use alpha_swarm.Governor.Invariant.{
  IsValid, init-IsValid, limit_cap_le, absorb_task-IsValid, acquire_pass-IsValid, release-IsValid,
}
use alpha_swarm.Governor.Session.{
  ReadResult, reading_ok, read_raised, monitor_check, finish_check, while_alive, start_monitoring,
  reset_session, stop_monitoring, Event, pass, give_back, check, monitor_done, start, stop, step,
  run,
}

module _ (cfg : GovernorSettings) (o : IsOrdered cfg) where
  finish_check-IsValid :
      (now : ℕ) (r : ReadResult) (g : Governor)
      → IsValid cfg g
      → IsValid cfg (monitor_check cfg r now g)
  unfolding monitor_check
  finish_check-IsValid now (reading_ok reading) g v =
      finished (apply_state_transition cfg reading now g)
        (apply_state_transition-IsValid cfg o reading now g v)
    where
      finished : (h : Handled) → HandledIsValid cfg h → IsValid cfg (finish_check reading now h)
      finished (Handled.next g') v' = emit_metrics-IsValid cfg o reading now g' v'
      finished (Handled.abort e g') v' = ground arith
  finish_check-IsValid now read_raised g v = ground arith

  while_alive-IsValid :
      (t : MonitorTask) (g g' : Governor)
      → IsValid cfg g
      → IsValid cfg g'
      → IsValid cfg (while_alive t g g')
  while_alive-IsValid MonitorTask.alive g g' v v' = v'
  while_alive-IsValid MonitorTask.absent g g' v v' = v
  while_alive-IsValid MonitorTask.cancelled g g' v v' = v
  while_alive-IsValid MonitorTask.returned g g' v v' = v
  while_alive-IsValid (MonitorTask.failed _) g g' v v' = v

  start_monitoring-IsValid :
      (now : ℕ) (g : Governor) → IsValid cfg g → IsValid cfg (start_monitoring now g)
  unfolding start_monitoring
  start_monitoring-IsValid now g v = ground arith

  reset_session-IsValid : (g : Governor) → IsValid cfg (reset_session cfg g)
  unfolding reset_session
  reset_session-IsValid g = ground arith

  step-IsValid :
      (now : ℕ) (e : Event) (g : Governor) → IsValid cfg g → IsValid cfg (step cfg now e g)
  unfolding step
  step-IsValid now pass g v = acquire_pass-IsValid cfg o now g v
  step-IsValid now (give_back success) g v = release-IsValid cfg o success now g v
  step-IsValid now (check r) g v =
      while_alive-IsValid g.monitor_task g _ v (finish_check-IsValid now r g v)
  step-IsValid now (monitor_done task) g v = absorb_task-IsValid cfg o task now g v
  step-IsValid now start g v = start_monitoring-IsValid now g v
  step-IsValid now (stop propagating) g v = unfold stop_monitoring in reset_session-IsValid _

  pub run-IsValid :
      (events : List (ℕ × Event)) (g : Governor) → IsValid cfg g → IsValid cfg (run cfg events g)
  unfolding run
  run-IsValid [] g v = v
  run-IsValid ((now, e) ∷ rest) g v = run-IsValid rest (step cfg now e g) (step-IsValid now e g v)

  bounds :
      (g : Governor)
      → IsValid cfg g
      → (1 ≤ g.limit)
        × (g.limit ≤ cfg.max_parallel)
        × (g.in_use ≤ cfg.max_parallel)
        × ((if is_crisis_state g.state then g.limit else 1) ≡ 1)
        × (g.gate_closed ≡ closes_gate g.state)
  bounds g v = ground (arith, limit_cap_le cfg o g.state)

  -- From the constructor on, whatever the events (acquires, releases, memory readings, failed
  -- reads, a dead monitor, starts and stops) and their times: the limit stays between one slot and
  -- `max_parallel`, no more than `max_parallel` slots are in use, one slot is the limit in CRISIS,
  -- and the gate is closed exactly in PAUSED and CRISIS.
  pub slots_stay_bounded :
      (has_store : Bool) (t0 : ℕ) (events : List (ℕ × Event))
      → let g = run cfg events (init cfg has_store t0) in
        (1 ≤ g.limit)
        × (g.limit ≤ cfg.max_parallel)
        × (g.in_use ≤ cfg.max_parallel)
        × ((if is_crisis_state g.state then g.limit else 1) ≡ 1)
        × (g.gate_closed ≡ closes_gate g.state)
  slots_stay_bounded has_store t0 events =
      bounds _ (run-IsValid events _ (init-IsValid cfg o has_store t0))
