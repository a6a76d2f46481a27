-- ===== src/Governor/Admission.antt =====
-- What one pass of `acquire` decides.
use alpha_swarm.Prelude.{ℕ, ◌+◌, ◌<◌, ◌≤◌, max, ◌≡◌, ◌↔◌, Bool, true, false, none, arith}
use alpha_swarm.Settings.{GovernorSettings}
use alpha_swarm.Governor.State.{Governor, MonitorTask}
use alpha_swarm.Governor.Limiter.{
  closes_gate, absorb_monitor_failure, Acquired, granted, waiting, raised, acquire_pass,
}
use alpha_swarm.Governor.Invariant.{IsValid}

-- What a pass does to the slots in use: one more exactly when it grants a slot.
abbrev pub taken : Acquired → ℕ
taken granted = 1
taken waiting = 0
taken (raised _) = 0

abbrev pub has_failed : MonitorTask → Bool
has_failed MonitorTask.absent = false
has_failed MonitorTask.alive = false
has_failed MonitorTask.cancelled = false
has_failed MonitorTask.returned = false
has_failed (MonitorTask.failed _) = true

module _ (cfg : GovernorSettings) (now : ℕ) (g : Governor) (v : IsValid cfg g) where
  grants_iff : ((acquire_pass now g).0 ≡ granted) ↔ (
      (g.fatal ≡ none)
      × (has_failed g.monitor_task ≡ false)
      × (closes_gate g.state ≡ false)
      × (g.in_use < g.limit))
  unfolding acquire_pass absorb_monitor_failure
  grants_iff = (λ h. ground arith, λ h. ground arith)

  pass_changes :
      let (r, g') = acquire_pass now g in
      (g'.in_use ≡ g.in_use + taken r)
      × (taken r + g.in_use ≤ max g.in_use g.limit)
      × (g'.limit ≡ g.limit)
      × (g'.state ≡ g.state)
      × (g'.gate_closed ≡ closes_gate g.state)
  unfolding acquire_pass absorb_monitor_failure
  pass_changes = ground arith

  -- A pass grants a slot exactly when no fatal error is recorded, the monitor has not died of an
  -- exception, the governor is in neither PAUSED nor CRISIS, and fewer slots are in use than the
  -- limit. Whatever it decides, the limit, the state and the gate are the same after it, and the
  -- slots in use grow by one exactly when it grants a slot, to at most the limit. (What it may also
  -- record is the fatal error of a dead monitor, and that it was delivered.)
  pub pass_admits :
      let (r, g') = acquire_pass now g in
      (((acquire_pass now g).0 ≡ granted) ↔ (
        (g.fatal ≡ none)
        × (has_failed g.monitor_task ≡ false)
        × (closes_gate g.state ≡ false)
        × (g.in_use < g.limit)))
      × ((g'.in_use ≡ g.in_use + taken r)
          × (taken r + g.in_use ≤ max g.in_use g.limit)
          × (g'.limit ≡ g.limit)
          × (g'.state ≡ g.state)
          × (g'.gate_closed ≡ closes_gate g.state))
  pass_admits = (grants_iff, pass_changes)
