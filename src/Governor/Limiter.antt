-- ===== src/Governor/Limiter.antt =====
-- The limiter of `ResourceGovernor`: acquire, release, the failure window, the gate.
use alpha_swarm.Prelude.{
  ℕ, ◌+◌, ◌-◌, ◌*◌, max, min, Bool, true, false, ◌&&◌, ◌||◌, not, Option, none, some, List, [], ◌∷◌,
  ltb, ◌==◌, if◌then◌else◌, length, take,
}
use alpha_swarm.Settings.{GovernorSettings}
use alpha_swarm.Governor.State.{Governor, GovernorState, CrisisError, MonitorFailure, MonitorTask}

-- `_notify`
unfoldable pub notify : Governor → Governor
notify g = record g { wakeups = g.wakeups + 1 }

-- `_set_limit`
unfoldable pub set_limit : ℕ → Governor → Governor
unfolding notify
set_limit new_limit g = notify (record g { limit = max 1 new_limit })

-- `state in (PAUSED, CRISIS)`; also the property `is_paused`
abbrev pub closes_gate : GovernorState → Bool
closes_gate GovernorState.running = false
closes_gate GovernorState.throttled = false
closes_gate GovernorState.paused = true
closes_gate GovernorState.crisis = true
closes_gate GovernorState.recovering = false

abbrev pub is_crisis_state : GovernorState → Bool
is_crisis_state GovernorState.running = false
is_crisis_state GovernorState.throttled = false
is_crisis_state GovernorState.paused = false
is_crisis_state GovernorState.crisis = true
is_crisis_state GovernorState.recovering = false

-- `state in (RUNNING, THROTTLED)`
abbrev pub may_regrow : GovernorState → Bool
may_regrow GovernorState.running = true
may_regrow GovernorState.throttled = true
may_regrow GovernorState.paused = false
may_regrow GovernorState.crisis = false
may_regrow GovernorState.recovering = false

-- `_sync_gate`
unfoldable pub sync_gate : Governor → Governor
unfolding notify
sync_gate g = notify (record g { gate_closed = closes_gate g.state })

-- The fatal error that a dead monitor's exception becomes.
abbrev duration_since : Option ℕ → ℕ → ℕ
duration_since none now = 0
duration_since (some start) now = now - start

unfoldable pub fatal_of : MonitorFailure → Option ℕ → ℕ → CrisisError
fatal_of (MonitorFailure.governor_crisis e) crisis_start now = e
fatal_of MonitorFailure.other_failure crisis_start now = record {
  duration_seconds = duration_since crisis_start now;
  from_other = true;
}

-- `_absorb_monitor_failure`, by whether a fatal error is recorded and by the state of the task that it
-- is about
abbrev absorb : Option CrisisError → MonitorTask → ℕ → Governor → Governor
absorb none (MonitorTask.failed exc) now g =
    notify (record g { fatal = some (fatal_of exc g.crisis_start now) })
absorb none MonitorTask.absent now g = g
absorb none MonitorTask.alive now g = g
absorb none MonitorTask.cancelled now g = g
absorb none MonitorTask.returned now g = g
absorb (some _) _ now g = g

-- `_on_monitor_done`: the callback is about the task that it was added to, which need not be the present
-- one any more
unfoldable pub absorb_task : MonitorTask → ℕ → Governor → Governor
unfolding notify fatal_of
absorb_task task now g = absorb g.fatal task now g

-- about the present task
unfoldable pub absorb_monitor_failure : ℕ → Governor → Governor
unfolding notify fatal_of
absorb_monitor_failure now g = absorb g.fatal g.monitor_task now g

-- One pass of the loop in `acquire`: a slot, a fatal error, or a wait for the next wake-up.
pub data Acquired : Type 0 where
  granted waiting : Acquired
  raised : CrisisError → Acquired

-- The pass, by the fatal error that is recorded.
abbrev claim : Option CrisisError → Governor → Acquired × Governor
claim (some e) g = (raised e, record g { fatal_delivered = true })
claim none g =
    if not g.gate_closed && ltb g.in_use g.limit
    then (granted, record g { in_use = g.in_use + 1 })
    else (waiting, g)

unfoldable pub acquire_pass : ℕ → Governor → Acquired × Governor
acquire_pass now g = let g' = absorb_monitor_failure now g in claim g'.fatal g'

-- `self._outcomes.count(False)`
abbrev pub failures : List Bool → ℕ
failures [] = 0
failures (true ∷ rest) = failures rest
failures (false ∷ rest) = failures rest + 1

-- The deque has `maxlen=failure_window_size`: an append drops the oldest outcome of a full one.
abbrev push_outcome : GovernorSettings → Bool → List Bool → List Bool
push_outcome cfg success outcomes = take cfg.failure_window_size (success ∷ outcomes)

-- The growth that `_maybe_regrow` makes once its guard has passed.
unfoldable pub regrow : GovernorSettings → Governor → Governor
unfolding set_limit
regrow cfg g =
    let grow = min cfg.slot_adjustment_step (min g.failure_debt (cfg.max_parallel - g.limit)) in
    if grow == 0
    then record g { consecutive_successes = 0; failure_debt = 0 }
    else set_limit (g.limit + grow)
        (record g { consecutive_successes = 0; failure_debt = g.failure_debt - grow })

-- `_maybe_regrow`
unfoldable pub maybe_regrow : GovernorSettings → Governor → Governor
maybe_regrow cfg g =
    if g.failure_debt == 0
      || ltb g.consecutive_successes cfg.failure_regrow_successes
      || not (may_regrow g.state)
    then g
    else regrow cfg g

-- What a full window with too many failures does. `limit - 1` is at least 0, since no limit is 0.
unfoldable pub shrink : GovernorSettings → Governor → Governor
unfolding set_limit
shrink cfg g =
    let amount = min cfg.slot_adjustment_step (g.limit - 1) in
    if is_crisis_state g.state || amount == 0
    then g
    else set_limit (g.limit - amount) (record g { failure_debt = g.failure_debt + amount })

-- `failures * 100 < batch_failure_threshold_percent * len`, with the threshold in hundredths.
unfoldable pub below_threshold : GovernorSettings → List Bool → Bool
below_threshold cfg outcomes =
    ltb (failures outcomes * 10000) (cfg.batch_failure_threshold_percent * length outcomes)

-- The part of `_record_outcome` that follows an append of a failure.
unfoldable pub weigh_failures : GovernorSettings → Governor → Governor
weigh_failures cfg g =
    if ltb (length g.outcomes) cfg.failure_window_size || below_threshold cfg g.outcomes
    then g
    else shrink cfg (record g { outcomes = [] })

-- `_record_outcome`
unfoldable pub record_outcome : GovernorSettings → Bool → Governor → Governor
record_outcome cfg true g = maybe_regrow cfg (record g {
  outcomes = push_outcome cfg true g.outcomes;
  consecutive_successes = g.consecutive_successes + 1;
})
record_outcome cfg false g =
    weigh_failures cfg
      (record g { outcomes = push_outcome cfg false g.outcomes; consecutive_successes = 0 })

-- The first half of `release`: `max(0, in_use - 1)`, and a success restarts the crisis clock.
unfoldable pub return_slot : Bool → ℕ → Governor → Governor
return_slot success now g = record g {
  in_use = g.in_use - 1;
  last_successful_inference = if success then now else g.last_successful_inference;
}

-- `release`; `__aexit__` calls it with `success` when no exception came out of the block.
unfoldable pub release : GovernorSettings → Bool → ℕ → Governor → Governor
unfolding notify return_slot
release cfg success now g = notify (record_outcome cfg success (return_slot success now g))
