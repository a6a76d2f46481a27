-- ===== src/Governor/Invariant.antt =====
-- What holds of a governor at every moment, and that the limiter and the handlers keep it.
use alpha_swarm.Prelude.{
  ℕ, ◌≤◌, ◌≡◌, Bool, true, false, is_some, [], ◌∷◌, length, length-take_le, if◌then◌else◌, arith,
}
use alpha_swarm.Settings.{GovernorSettings, IsOrdered}
use alpha_swarm.Governor.State.{MonitorTask, Governor, GovernorState, init}
use alpha_swarm.Governor.Limiter.{
  closes_gate, is_crisis_state, may_regrow, notify, absorb_task, absorb_monitor_failure,
  acquire_pass, regrow, maybe_regrow, shrink, weigh_failures, record_outcome, return_slot, release,
}

abbrev pub is_paused_state : GovernorState → Bool
is_paused_state GovernorState.running = false
is_paused_state GovernorState.throttled = false
is_paused_state GovernorState.paused = true
is_paused_state GovernorState.crisis = false
is_paused_state GovernorState.recovering = false

-- The most slots that a state allows.
abbrev pub limit_cap : GovernorSettings → GovernorState → ℕ
limit_cap cfg GovernorState.running = cfg.max_parallel
limit_cap cfg GovernorState.throttled = cfg.max_parallel
limit_cap cfg GovernorState.paused = cfg.max_parallel
limit_cap cfg GovernorState.crisis = 1
limit_cap cfg GovernorState.recovering = cfg.baseline_parallel

-- Between one slot and the cap of the state; the gate and the two clocks follow the state; a
-- crisis owes no regrowth; the window holds at most its size.
pub record IsValid (cfg : GovernorSettings) (g : Governor) : Type 0 where
  pub limit_pos : 1 ≤ g.limit
  pub limit_le : g.limit ≤ limit_cap cfg g.state
  pub in_use_le : g.in_use ≤ cfg.max_parallel
  pub gate : g.gate_closed ≡ closes_gate g.state
  pub crisis_clock : is_some g.crisis_start ≡ is_crisis_state g.state
  pub pause_clock : is_some g.paused_since ≡ is_paused_state g.state
  pub crisis_debt : (if is_crisis_state g.state then g.failure_debt else 0) ≡ 0
  pub window : length g.outcomes ≤ cfg.failure_window_size

module _ (cfg : GovernorSettings) (o : IsOrdered cfg) where
  pub limit_cap_le : (s : GovernorState) → limit_cap cfg s ≤ cfg.max_parallel
  limit_cap_le GovernorState.running = omega arith
  limit_cap_le GovernorState.throttled = omega arith
  limit_cap_le GovernorState.paused = omega arith
  limit_cap_le GovernorState.crisis = omega arith
  limit_cap_le GovernorState.recovering = omega arith

  pub init-IsValid : (b : Bool) (now : ℕ) → IsValid cfg (init cfg b now)
  unfolding init
  init-IsValid b now = ground arith

  pub absorb_monitor_failure-IsValid :
      (now : ℕ) (g : Governor) → IsValid cfg g → IsValid cfg (absorb_monitor_failure now g)
  unfolding absorb_monitor_failure
  absorb_monitor_failure-IsValid now g v = ground arith

  pub absorb_task-IsValid :
      (task : MonitorTask) (now : ℕ) (g : Governor)
      → IsValid cfg g
      → IsValid cfg (absorb_task task now g)
  unfolding absorb_task
  absorb_task-IsValid task now g v = ground arith

  pub acquire_pass-IsValid :
      (now : ℕ) (g : Governor) → IsValid cfg g → IsValid cfg (acquire_pass now g).1
  unfolding acquire_pass
  acquire_pass-IsValid now g v = ground (
    arith,
    absorb_monitor_failure-IsValid now g v,
    limit_cap_le (absorb_monitor_failure now g).state,
  )

  regrow-IsValid :
      (g : Governor) → IsValid cfg g → may_regrow g.state ≡ true → IsValid cfg (regrow cfg g)
  unfolding regrow
  regrow-IsValid g v h = ground arith

  maybe_regrow-IsValid : (g : Governor) → IsValid cfg g → IsValid cfg (maybe_regrow cfg g)
  unfolding maybe_regrow
  maybe_regrow-IsValid g v = ground (arith, regrow-IsValid g v)

  shrink-IsValid : (g : Governor) → IsValid cfg g → IsValid cfg (shrink cfg g)
  unfolding shrink
  shrink-IsValid g v = ground arith

  weigh_failures-IsValid : (g : Governor) → IsValid cfg g → IsValid cfg (weigh_failures cfg g)
  unfolding weigh_failures
  weigh_failures-IsValid g v = ground (arith, shrink-IsValid (record g { outcomes = [] }))

  record_outcome-IsValid :
      (success : Bool) (g : Governor) → IsValid cfg g → IsValid cfg (record_outcome cfg success g)
  unfolding record_outcome
  record_outcome-IsValid true g v =
      maybe_regrow-IsValid _
        (ground (arith, length-take_le cfg.failure_window_size (true ∷ g.outcomes)))
  record_outcome-IsValid false g v =
      weigh_failures-IsValid _
        (ground (arith, length-take_le cfg.failure_window_size (false ∷ g.outcomes)))

  return_slot-IsValid :
      (success : Bool) (now : ℕ) (g : Governor)
      → IsValid cfg g
      → IsValid cfg (return_slot success now g)
  unfolding return_slot
  return_slot-IsValid success now g v = ground arith

  pub notify-IsValid : (g : Governor) → IsValid cfg g → IsValid cfg (notify g)
  unfolding notify
  notify-IsValid g v = ground arith

  pub release-IsValid :
      (success : Bool) (now : ℕ) (g : Governor)
      → IsValid cfg g
      → IsValid cfg (release cfg success now g)
  unfolding release
  release-IsValid success now g v =
      notify-IsValid _ (record_outcome-IsValid success _ (return_slot-IsValid success now g v))
