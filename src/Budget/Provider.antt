-- ===== src/Budget/Provider.antt =====
-- inference/budget.py: `BudgetTrackingProvider.chat`, as its two halves round the await of the inner
-- provider, and the calls of several tasks interleaved there.
pub mod Overshoot
use alpha_swarm.Prelude.{
  ℕ, ◌+◌, ◌-◌, Bool, true, false, ◌||◌, Option, none, some, is_some, [], ◌∷◌, if◌then◌else◌,
}
use alpha_swarm.Budget.Pricing.{ModelId}
use alpha_swarm.Budget.Meter.{BudgetMeter, record_cost, exceeded}

-- How the inner call ends: a result, an `InferenceError` that may carry a model and billed tokens, or
-- another exception (a cancellation, say).
pub data InnerEnd : Type 0 where
  answered : ModelId → Option ℕ → Option ℕ → InnerEnd
  inference_error : Option ModelId → Option ℕ → Option ℕ → InnerEnd
  other_error : InnerEnd

-- `exc.model or self.model`: an empty string counts as none
abbrev or_model : Option ModelId → ModelId → ModelId
or_model none own = own
or_model (some []) own = own
or_model (some (c ∷ m)) own = c ∷ m

-- A meter and the calls that the inner provider is working on.
pub record Metered : Type 0 where
  pub meter : BudgetMeter
  pub in_flight : ℕ

-- The first half of `chat`: the guard, then the call goes out.
unfoldable pub begin_chat : Metered → Option Metered
begin_chat s = if exceeded s.meter then none else some (record s { in_flight = s.in_flight + 1 })

module _ (is_digit is_word is_blank : ℕ → Bool) (own_model : ModelId) where
  -- The second half of `chat`: what was billed is recorded, also when the call failed.
  unfoldable pub settle : InnerEnd → BudgetMeter → BudgetMeter
  settle (answered model i o) m = record_cost is_digit is_word is_blank m model i o
  settle (inference_error model i o) m =
      if is_some i || is_some o
      then record_cost is_digit is_word is_blank m (or_model model own_model) i o
      else m
  settle other_error m = m

  unfoldable pub end_chat : InnerEnd → Metered → Metered
  end_chat end s = record s { meter = settle end s.meter; in_flight = s.in_flight - 1 }
