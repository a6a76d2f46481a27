-- ===== src/Governor/State.antt =====
-- The fields of `ResourceGovernor`, and the values that its methods pass round.
-- Times are naturals in milliseconds on one clock that never goes back: `time.monotonic` and
-- `_clock` are the same clock outside the tests.
use alpha_swarm.Prelude.{ℕ, Bool, false, Option, none, List, []}
use alpha_swarm.Settings.{GovernorSettings}
use alpha_swarm.Memory.{PressureLevel}

pub data GovernorState : Type 0 where
  running throttled paused crisis recovering : GovernorState

-- `GovernorCrisisError`: its duration, and whether it stands for another exception (its cause).
pub record CrisisError : Type 0 where
  pub duration_seconds : ℕ
  pub from_other : Bool

-- The exception that a dead monitor task holds.
pub data MonitorFailure : Type 0 where
  governor_crisis : CrisisError → MonitorFailure
  other_failure : MonitorFailure

-- `_monitor_task`: absent, still running, cancelled, or done with or without an exception.
pub data MonitorTask : Type 0 where
  absent alive cancelled returned : MonitorTask
  failed : MonitorFailure → MonitorTask

pub record GovernorMetrics : Type 0 where
  pub current_slots : ℕ
  pub active_count : ℕ
  pub pressure_level : PressureLevel
  pub memory_percent : ℕ
  pub governor_state : GovernorState
  pub timestamp : ℕ

-- `_time_in_state`: the total of each tracked state.
pub record TimeInState : Type 0 where
  pub in_throttled : ℕ
  pub in_paused : ℕ
  pub in_crisis : ℕ

abbrev pub zero_time_in_state : TimeInState
zero_time_in_state = record { in_throttled = 0; in_paused = 0; in_crisis = 0 }

pub record Governor : Type 0 where
  -- the limiter
  pub limit : ℕ
  pub in_use : ℕ
  pub gate_closed : Bool
  pub fatal : Option CrisisError
  pub fatal_delivered : Bool
  -- how often `_notify` has replaced the event that the waiters wait on
  pub wakeups : ℕ
  -- the state machine
  pub state : GovernorState
  pub last_successful_inference : ℕ
  pub crisis_start : Option ℕ
  pub paused_since : Option ℕ
  pub consecutive_green_checks : ℕ
  pub monitor_task : MonitorTask
  -- failure accounting; the newest outcome stands first
  pub outcomes : List Bool
  pub consecutive_successes : ℕ
  pub failure_debt : ℕ
  -- telemetry
  pub time_in_state : TimeInState
  pub peak_memory_percent : ℕ
  pub state_entered_at : ℕ
  -- `_state_store`: whether there is one, and what it last received
  pub has_store : Bool
  pub published : Option GovernorMetrics

-- `__init__`
unfoldable pub init : GovernorSettings → Bool → ℕ → Governor
init cfg has_store now = record {
  limit = cfg.baseline_parallel;
  in_use = 0;
  gate_closed = false;
  fatal = none;
  fatal_delivered = false;
  wakeups = 0;
  state = GovernorState.running;
  last_successful_inference = now;
  crisis_start = none;
  paused_since = none;
  consecutive_green_checks = 0;
  monitor_task = MonitorTask.absent;
  outcomes = [];
  consecutive_successes = 0;
  failure_debt = 0;
  time_in_state = zero_time_in_state;
  peak_memory_percent = 0;
  state_entered_at = now;
  has_store = has_store;
  published = none;
}
