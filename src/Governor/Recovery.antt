-- ===== src/Governor/Recovery.antt =====
-- The way out of a crisis to the baseline, and the way from a stuck pause to the abort.
use alpha_swarm.Prelude.{
  ℕ, zero, suc, ◌+◌, ◌-◌, ◌*◌, ◌<◌, ◌≤◌, ◌≡◌, ◌⊎◌, inl, inr, true, false, none, some, List, [], ◌∷◌,
  length, take, arith,
}
use alpha_swarm.Settings.{GovernorSettings, IsOrdered}
use alpha_swarm.Memory.{MemoryReading, is_crisis, is_pause_zone}
use alpha_swarm.Governor.State.{Governor, GovernorState, MonitorTask}
use alpha_swarm.Governor.Limiter.{
  raised, acquire_pass, absorb_monitor_failure, set_limit, sync_gate,
}
use alpha_swarm.Governor.Machine.{
  handle, handle_recovering, recovered, recovery_step, apply_state_transition, after_handler,
  emit_metrics, close_state_interval, handle_paused, handle_crisis, enter_crisis,
}
use alpha_swarm.Governor.Session.{Event, check, reading_ok, monitor_check, step, run}

-- Memory readings with their times, and the events that they are.
abbrev pub Readings : Type 0
Readings = List (ℕ × MemoryReading)

abbrev pub checks : Readings → List (ℕ × Event)
checks [] = []
checks ((now, reading) ∷ rest) = (now, check (reading_ok reading)) ∷ checks rest

-- No reading of the list is a crisis.
abbrev pub AllCalm : Readings → Type 0
AllCalm [] = Unit
AllCalm ((now, reading) ∷ rest) = (is_crisis reading ≡ false) × AllCalm rest

-- What is missing after one whole step still wants a check.
more_checks :
    (n limit limit' size base : ℕ)
    → base ≤ limit + size * suc n
    → limit' ≡ limit + size
    → limit' < base
    → 1 ≤ n
more_checks zero limit limit' size base enough up below = absurd (omega arith)
more_checks (suc n) limit limit' size base enough up below = omega arith

module _ (cfg : GovernorSettings) (o : IsOrdered cfg) where
  -- One calm check in RECOVERING: back to RUNNING, or one whole adjustment step up.
  calm_check :
      (now : ℕ) (reading : MemoryReading) (g : Governor)
      → g.state ≡ GovernorState.recovering
      → g.monitor_task ≡ MonitorTask.alive
      → is_crisis reading ≡ false
      → let g' = step cfg now (check (reading_ok reading)) g in
        (g'.monitor_task ≡ MonitorTask.alive)
        × (((g'.state ≡ GovernorState.running) × (cfg.baseline_parallel ≤ g'.limit))
            ⊎ ((g'.state ≡ GovernorState.recovering)
                × (g'.limit ≡ g.limit + cfg.slot_adjustment_step)
                × (g'.limit < cfg.baseline_parallel)))
  unfolding step monitor_check apply_state_transition after_handler handle handle_recovering
      recovered recovery_step emit_metrics close_state_interval set_limit sync_gate
  calm_check now reading g h a c = ground arith

  -- From RECOVERING, a sequence of monitor checks whose readings are all calm, with nothing else in
  -- between (no release, which could shrink the limit), reaches RUNNING at the baseline or above, within
  -- as many checks as adjustment steps are missing, and one at least.
  pub recovery_ends :
      (readings : Readings) (g : Governor)
      → g.state ≡ GovernorState.recovering
      → g.monitor_task ≡ MonitorTask.alive
      → AllCalm readings
      → 1 ≤ length readings
      → cfg.baseline_parallel ≤ g.limit + cfg.slot_adjustment_step * length readings
      → (k : ℕ) × (k ≤ length readings)
        × ((run cfg (checks (take k readings)) g).state ≡ GovernorState.running)
        × (cfg.baseline_parallel ≤ (run cfg (checks (take k readings)) g).limit)
  unfolding run
  recovery_ends [] g h a c some_check enough = absurd (omega arith)
  recovery_ends ((now, reading) ∷ rest) g h a c some_check enough =
      let (alive, ends) = calm_check now reading g h a c.0 in
      elim ends [
        | inl (running, full) ↦ (1, omega arith, running, full)
        | inr (still, up, below) ↦
            let (k, fits, running, full) =
              recovery_ends rest (step cfg now (check (reading_ok reading)) g) still alive c.1
                (more_checks (length rest) g.limit _ cfg.slot_adjustment_step _ enough up below)
                (omega (arith, up, enough)) in
            (suc k, omega arith, running, full)
      ]

  -- A queue that has been paused for longer than the timeout, with no success in that time, becomes
  -- a crisis at the next check and an abort at the one after it: the error counts from when the
  -- queue stopped, and an `acquire` right after that check raises it.
  pub stuck_pause_aborts :
      (t1 t2 t3 since : ℕ) (r1 r2 : MemoryReading) (g : Governor)
      → g.state ≡ GovernorState.paused
      → g.paused_since ≡ some since
      → g.monitor_task ≡ MonitorTask.alive
      → g.fatal ≡ none
      → is_pause_zone r1 ≡ true
      → since + cfg.crisis_timeout_seconds < t1
      → g.last_successful_inference + cfg.crisis_timeout_seconds < t1
      → t1 ≤ t2
      → let g1 = step cfg t1 (check (reading_ok r1)) g in
        let g2 = step cfg t2 (check (reading_ok r2)) g1 in
        (g1.state ≡ GovernorState.crisis)
        × (g1.limit ≡ 1)
        × ((acquire_pass t3 g2).0
            ≡ raised (record { duration_seconds = t2 - since; from_other = false }))
  unfolding step monitor_check apply_state_transition after_handler handle handle_paused
      handle_crisis enter_crisis emit_metrics close_state_interval set_limit sync_gate acquire_pass
      absorb_monitor_failure is_pause_zone
  stuck_pause_aborts t1 t2 t3 since r1 r2 g h p a f z pause_over starving later = ground arith
