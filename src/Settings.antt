-- ===== src/Settings.antt =====
-- settings.py: `GovernorSettings`, its field bounds and its model validator.
-- Percentages are naturals in hundredths of a percent, times are naturals in milliseconds.
mod Tests
use alpha_swarm.Prelude.{ℕ, ◌≡◌, ◌≤◌, ◌<◌, Bool, true, ◌&&◌, not, ltb, leb, if◌then◌else◌, arith}

pub record GovernorSettings : Type 0 where
  pub baseline_parallel : ℕ
  pub max_parallel : ℕ
  pub memory_throttle_percent : ℕ
  pub memory_pause_percent : ℕ
  pub check_interval_seconds : ℕ
  pub scale_up_threshold_percent : ℕ
  pub scale_up_consecutive_checks : ℕ
  pub crisis_timeout_seconds : ℕ
  pub slot_adjustment_step : ℕ
  pub batch_failure_threshold_percent : ℕ
  pub failure_window_size : ℕ
  pub failure_regrow_successes : ℕ
  pub jitter_min_seconds : ℕ
  pub jitter_max_seconds : ℕ
  pub round_abort_failure_percent : ℕ

abbrev between : ℕ → ℕ → ℕ → Bool
between lo hi x = leb lo x && leb x hi

-- What can be wrong with the values that a construction is given.
pub data SettingsError : Type 0 where
  field_bounds threshold_order jitter_order slot_order : SettingsError

pub data Checked : Type 0 where
  accepted : GovernorSettings → Checked
  rejected : SettingsError → Checked

-- the `Field(ge=…, le=…)` bounds of the slots
slot_bounds : GovernorSettings → Bool
slot_bounds s =
    between 1 32 s.baseline_parallel
    && between 1 32 s.max_parallel
    && between 1 10 s.scale_up_consecutive_checks
    && between 1 4 s.slot_adjustment_step
    && between 4 200 s.failure_window_size
    && between 1 100 s.failure_regrow_successes

-- the `Field(ge=…, le=…)` bounds of the percentages and of the times
percent_bounds : GovernorSettings → Bool
percent_bounds s =
    between 5000 9500 s.memory_throttle_percent
    && between 6000 9900 s.memory_pause_percent
    && between 3000 8000 s.scale_up_threshold_percent
    && between 500 5000 s.batch_failure_threshold_percent
    && between 100 10000 s.round_abort_failure_percent

time_bounds : GovernorSettings → Bool
time_bounds s =
    between 500 10000 s.check_interval_seconds
    && between 30000 600000 s.crisis_timeout_seconds
    && leb s.jitter_min_seconds 2000
    && leb s.jitter_max_seconds 5000

-- `_check_threshold_ordering`
check_threshold_ordering : GovernorSettings → Checked
check_threshold_ordering s =
    if not (
      ltb s.scale_up_threshold_percent s.memory_throttle_percent
      && ltb s.memory_throttle_percent s.memory_pause_percent)
    then rejected threshold_order
    else if ltb s.jitter_max_seconds s.jitter_min_seconds
    then rejected jitter_order
    else if ltb s.max_parallel s.baseline_parallel
    then rejected slot_order
    else accepted s

-- Pydantic checks every field first, and runs the `mode="after"` validator on what passes.
pub construct : GovernorSettings → Checked
construct s =
    if slot_bounds s && percent_bounds s && time_bounds s
    then check_threshold_ordering s
    else rejected field_bounds

-- What the governor relies on.
pub record IsOrdered (s : GovernorSettings) : Type 0 where
  pub one_slot : 1 ≤ s.baseline_parallel
  pub slots : s.baseline_parallel ≤ s.max_parallel
  pub one_step : 1 ≤ s.slot_adjustment_step
  pub window : 4 ≤ s.failure_window_size
  pub checks : 1 ≤ s.scale_up_consecutive_checks
  pub regrow : 1 ≤ s.failure_regrow_successes
  pub scale_below_throttle : s.scale_up_threshold_percent < s.memory_throttle_percent
  pub throttle_below_pause : s.memory_throttle_percent < s.memory_pause_percent

ordering_accepted :
    (s t : GovernorSettings)
    → check_threshold_ordering s ≡ accepted t
    → (s.scale_up_threshold_percent < s.memory_throttle_percent)
      × (s.memory_throttle_percent < s.memory_pause_percent)
      × (s.baseline_parallel ≤ s.max_parallel)
      × (t ≡ s)
unfolding check_threshold_ordering
ordering_accepted s t h = ground arith

slots_in_range :
    (s : GovernorSettings)
    → slot_bounds s ≡ true
    → (1 ≤ s.baseline_parallel)
      × (1 ≤ s.slot_adjustment_step)
      × (4 ≤ s.failure_window_size)
      × (1 ≤ s.scale_up_consecutive_checks)
      × (1 ≤ s.failure_regrow_successes)
unfolding slot_bounds
slots_in_range s h = ground arith

construct_parts :
    (s t : GovernorSettings)
    → construct s ≡ accepted t
    → (slot_bounds s ≡ true) × (check_threshold_ordering s ≡ accepted t)
unfolding construct
construct_parts s t h = ground arith

-- Accepted settings are the ones given, and they are in the order that the governor relies on.
pub construct-IsOrdered :
    (s t : GovernorSettings) → construct s ≡ accepted t → (t ≡ s) × IsOrdered s
construct-IsOrdered s t h =
    let (bounds, order) = construct_parts s t h in
    let (one_slot, one_step, window, checks, regrow) = slots_in_range s bounds in
    let (below_throttle, below_pause, slots, same) = ordering_accepted s t order in
    (
      same,
      record {
        one_slot = one_slot;
        slots = slots;
        one_step = one_step;
        window = window;
        checks = checks;
        regrow = regrow;
        scale_below_throttle = below_throttle;
        throttle_below_pause = below_pause;
      },
    )

-- The defaults of the fields.
abbrev pub defaults : GovernorSettings
defaults = record {
  baseline_parallel = 8;
  max_parallel = 16;
  memory_throttle_percent = 8000;
  memory_pause_percent = 9000;
  check_interval_seconds = 2000;
  scale_up_threshold_percent = 6000;
  scale_up_consecutive_checks = 3;
  crisis_timeout_seconds = 300000;
  slot_adjustment_step = 2;
  batch_failure_threshold_percent = 2000;
  failure_window_size = 20;
  failure_regrow_successes = 10;
  jitter_min_seconds = 500;
  jitter_max_seconds = 1500;
  round_abort_failure_percent = 5000;
}

pub defaults-IsOrdered : IsOrdered defaults
defaults-IsOrdered = omega arith
