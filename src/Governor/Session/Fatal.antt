-- ===== src/Governor/Session/Fatal.antt =====
-- A dead monitor: what its callers, and what the stop of the session, get to see of it.
use alpha_swarm.Prelude.{
  ℕ, ◌≡◌, refl, subst, ◌⊎◌, inl, Bool, true, false, ◌||◌, none, some, List, [], ◌∷◌, if◌then◌else◌,
  arith,
}
use alpha_swarm.Settings.{GovernorSettings}
use alpha_swarm.Governor.State.{Governor, GovernorState, CrisisError, MonitorFailure, MonitorTask}
use alpha_swarm.Governor.Limiter.{
  raised, acquire_pass, absorb_task, absorb_monitor_failure, release, record_outcome, maybe_regrow,
  regrow, weigh_failures, shrink,
}
use alpha_swarm.Governor.Machine.{close_state_interval}
use alpha_swarm.Governor.Session.{
  stop_monitoring, reset_session, Event, pass, give_back, monitor_done, step, run,
}

-- What happens inside a session after its monitor has died: callers come and return their slots,
-- and the task's done callback may run. The dead task makes no more checks.
pub data Late : Type 0 where
  late_pass late_done : Late
  late_give_back : Bool → Late

abbrev pub event_of : CrisisError → Late → Event
event_of e late_pass = pass
event_of e late_done = monitor_done (MonitorTask.failed (MonitorFailure.governor_crisis e))
event_of e (late_give_back success) = give_back success

abbrev pub late_events : CrisisError → List (ℕ × Late) → List (ℕ × Event)
late_events e [] = []
late_events e ((now, late) ∷ rest) = (now, event_of e late) ∷ late_events e rest

abbrev pub has_pass : List (ℕ × Late) → Bool
has_pass [] = false
has_pass ((now, late_pass) ∷ rest) = true
has_pass ((now, late_done) ∷ rest) = has_pass rest
has_pass ((now, late_give_back _) ∷ rest) = has_pass rest

-- The monitor has died of the crisis error `e`, whether or not that has been absorbed, and
-- `delivered` says whether a caller has seen it.
record IsDead (e : CrisisError) (delivered : Bool) (g : Governor) : Type 0 where
  died : g.monitor_task ≡ MonitorTask.failed (MonitorFailure.governor_crisis e)
  recorded : (g.fatal ≡ none) ⊎ (g.fatal ≡ some e)
  seen : g.fatal_delivered ≡ delivered

module _ (cfg : GovernorSettings) (e : CrisisError) where
  pass-IsDead :
      (now : ℕ) (d : Bool) (g : Governor)
      → IsDead e d g
      → ((acquire_pass now g).0 ≡ raised e) × IsDead e true (acquire_pass now g).1
  unfolding acquire_pass absorb_monitor_failure
  pass-IsDead now d g h = ground arith

  done-IsDead :
      (now : ℕ) (d : Bool) (g : Governor)
      → IsDead e d g
      → IsDead e d (absorb_task (MonitorTask.failed (MonitorFailure.governor_crisis e)) now g)
  unfolding absorb_task
  done-IsDead now d g h = ground arith

  -- A release leaves the monitor and the fatal error alone.
  release_keeps_fatal :
      (success : Bool) (now : ℕ) (g : Governor)
      → ((release cfg success now g).monitor_task ≡ g.monitor_task)
        × ((release cfg success now g).fatal ≡ g.fatal)
        × ((release cfg success now g).fatal_delivered ≡ g.fatal_delivered)
  unfolding release record_outcome maybe_regrow regrow weigh_failures shrink
  release_keeps_fatal true now g = ground arith
  release_keeps_fatal false now g = ground arith

  release-IsDead :
      (success : Bool) (now : ℕ) (d : Bool) (g : Governor)
      → IsDead e d g
      → IsDead e d (release cfg success now g)
  release-IsDead success now d g h = ground (arith, release_keeps_fatal success now g)

  run-IsDead :
      (late : List (ℕ × Late)) (d : Bool) (g : Governor)
      → IsDead e d g
      → IsDead e (d || has_pass late) (run cfg (late_events e late) g)
  unfolding run step
  run-IsDead [] d g h = ground arith
  run-IsDead ((now, late_pass) ∷ rest) d g h =
      subst (λ b. IsDead e b (run cfg (late_events e rest) (acquire_pass now g).1)) (ground arith)
        (run-IsDead rest true (acquire_pass now g).1 (pass-IsDead now d g h).1)
  run-IsDead ((now, late_done) ∷ rest) d g h =
      run-IsDead rest d (step cfg now (event_of e late_done) g) (done-IsDead now d g h)
  run-IsDead ((now, late_give_back success) ∷ rest) d g h =
      run-IsDead rest d (release cfg success now g) (release-IsDead success now d g h)

  -- Once the monitor has died of a crisis error, every `acquire` of the session raises that error,
  -- whatever acquires, releases and callbacks have come in between.
  pub dead_monitor_reaches_all :
      (late : List (ℕ × Late)) (now : ℕ) (g : Governor)
      → g.monitor_task ≡ MonitorTask.failed (MonitorFailure.governor_crisis e)
      → g.fatal ≡ none
      → (acquire_pass now (run cfg (late_events e late) g)).0 ≡ raised e
  dead_monitor_reaches_all late now g died fresh =
      (pass-IsDead now _ _ (
        run-IsDead late g.fatal_delivered g
          (record { died = died; recorded = inl fresh; seen = refl }))).0

  stopped :
      (now : ℕ) (d propagating : Bool) (g : Governor)
      → IsDead e d g
      → let (surfaced, g') = stop_monitoring cfg propagating now g in
        (surfaced ≡ (if d then none else if propagating then none else some e))
        × (g'.state ≡ GovernorState.running)
        × (g'.limit ≡ cfg.baseline_parallel)
        × (g'.in_use ≡ 0)
        × (g'.gate_closed ≡ false)
        × (g'.fatal ≡ none)
        × (g'.monitor_task ≡ MonitorTask.absent)
  unfolding stop_monitoring reset_session close_state_interval absorb_monitor_failure
  stopped now d propagating g h = ground arith

  -- After the monitor has died of a crisis error, and after any acquires, releases and runs of its done
  -- callback, `stop_monitoring` raises that error exactly when no `acquire` of the session has delivered
  -- it and no other exception is propagating; while one is, an error that nobody has seen is only logged.
  -- In all cases the session ends with the limit at the baseline, an open gate, no slot in use, no
  -- fatal error and no monitor.
  pub stop_surfaces_unseen :
      (late : List (ℕ × Late)) (propagating : Bool) (now : ℕ) (g : Governor)
      → g.monitor_task ≡ MonitorTask.failed (MonitorFailure.governor_crisis e)
      → g.fatal ≡ none
      → g.fatal_delivered ≡ false
      → let (surfaced, g') = stop_monitoring cfg propagating now (run cfg (late_events e late) g) in
        (surfaced ≡ (if has_pass late then none else if propagating then none else some e))
        × (g'.state ≡ GovernorState.running)
        × (g'.limit ≡ cfg.baseline_parallel)
        × (g'.in_use ≡ 0)
        × (g'.gate_closed ≡ false)
        × (g'.fatal ≡ none)
        × (g'.monitor_task ≡ MonitorTask.absent)
  stop_surfaces_unseen late propagating now g died fresh unseen =
      stopped now (has_pass late) propagating _
        (run-IsDead late false g (record { died = died; recorded = inl fresh; seen = unseen }))
