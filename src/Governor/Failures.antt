-- ===== src/Governor/Failures.antt =====
-- The failure window: what a release does to the limit.
use alpha_swarm.Prelude.{ℕ, ◌+◌, ◌-◌, ◌≤◌, ◌≡◌, true, false, arith}
use alpha_swarm.Settings.{GovernorSettings, IsOrdered}
use alpha_swarm.Governor.State.{Governor}
use alpha_swarm.Governor.Limiter.{
  record_outcome, maybe_regrow, regrow, weigh_failures, shrink, release,
}
use alpha_swarm.Governor.Invariant.{IsValid}

module _ (cfg : GovernorSettings) (o : IsOrdered cfg) (now : ℕ) (g : Governor)
    (v : IsValid cfg g) where
  release_success :
      let g' = release cfg true now g in
      (g.limit ≤ g'.limit)
      × (g'.limit + g'.failure_debt ≤ g.limit + g.failure_debt)
      × (g'.limit ≤ g.limit + cfg.slot_adjustment_step)
      × (g'.in_use ≡ g.in_use - 1)
      × (g'.last_successful_inference ≡ now)
  unfolding release record_outcome maybe_regrow regrow
  release_success = ground arith

  release_failure :
      let g' = release cfg false now g in
      (1 ≤ g'.limit)
      × (g'.limit + g'.failure_debt ≡ g.limit + g.failure_debt)
      × (g.failure_debt ≤ g'.failure_debt)
      × (g.limit ≤ g'.limit + cfg.slot_adjustment_step)
      × (g'.last_successful_inference ≡ g.last_successful_inference)
  unfolding release record_outcome weigh_failures shrink
  release_failure = ground arith

  -- A successful release never lowers the limit, and what it adds was owed: it comes off the debt, and is
  -- one adjustment step at most. A failed release never raises the limit and leaves at least one
  -- slot; what it takes off is owed as debt, so that later successes can grow it back, and it leaves
  -- the crisis clock alone.
  pub releases_balance :
      let g' = release cfg true now g in
      let f = release cfg false now g in
      ((g.limit ≤ g'.limit)
        × (g'.limit + g'.failure_debt ≤ g.limit + g.failure_debt)
        × (g'.limit ≤ g.limit + cfg.slot_adjustment_step)
        × (g'.in_use ≡ g.in_use - 1)
        × (g'.last_successful_inference ≡ now))
      × ((1 ≤ f.limit)
          × (f.limit + f.failure_debt ≡ g.limit + g.failure_debt)
          × (g.failure_debt ≤ f.failure_debt)
          × (g.limit ≤ f.limit + cfg.slot_adjustment_step)
          × (f.last_successful_inference ≡ g.last_successful_inference))
  releases_balance = (release_success, release_failure)
