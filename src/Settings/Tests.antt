-- ===== src/Settings/Tests.antt =====
-- The validator of `GovernorSettings` at the defaults.
use alpha_swarm.Prelude.{◌≡◌, refl}
use alpha_swarm.Settings.{
  IsOrdered, construct, construct-IsOrdered, defaults, slot_bounds, percent_bounds, time_bounds,
  check_threshold_ordering,
}

defaults_accepted : (defaults ≡ defaults) × IsOrdered defaults
unfolding construct slot_bounds percent_bounds time_bounds check_threshold_ordering
defaults_accepted = construct-IsOrdered defaults defaults refl
