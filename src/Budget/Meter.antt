-- ===== src/Budget/Meter.antt =====
-- inference/budget.py: `BudgetMeter`. Prices and the cap are whole numbers of one unit of money, and a
-- cost is tokens times price, so it is in millionths of that unit; the cap is kept in those too. The
-- `Decimal` sums are exact as long as they have 28 digits or fewer.
use alpha_swarm.Prelude.{ℕ, ◌+◌, ◌*◌, max, Bool, false, Option, none, some, [], ◌∷◌, ltb, leb}
use alpha_swarm.Budget.Pricing.{ModelId, ModelPrice, PricingTable, resolve_price}

pub record BudgetMeter : Type 0 where
  pub cap : Option ℕ
  pub pricing : PricingTable
  pub total : ℕ
  pub unknown_price : ModelPrice

-- `_FALLBACK_UNKNOWN_PRICE`, in cents
abbrev pub fallback_unknown_price : ModelPrice
fallback_unknown_price = record { input_per_mtok = 1500; output_per_mtok = 7500 }

abbrev pub join_prices : ModelPrice → ModelPrice → ModelPrice
join_prices p q = record {
  input_per_mtok = max p.input_per_mtok q.input_per_mtok;
  output_per_mtok = max p.output_per_mtok q.output_per_mtok;
}

-- The two `max` of `__init__`, which start from the fallback.
abbrev pub ceiling : ModelPrice → PricingTable → ModelPrice
ceiling top [] = top
ceiling top ((key, p) ∷ rest) = ceiling (join_prices top p) rest

-- `__init__`; `fallback` is `_FALLBACK_UNKNOWN_PRICE` in the unit of the prices
unfoldable pub new_meter : ModelPrice → Option ℕ → PricingTable → BudgetMeter
new_meter fallback cap pricing = record {
  cap = cap;
  pricing = pricing;
  total = 0;
  unknown_price = ceiling fallback pricing;
}

abbrev pub price_of_tokens : ModelPrice → ℕ → ℕ → ℕ
price_of_tokens p in_tokens out_tokens =
    in_tokens * p.input_per_mtok + out_tokens * p.output_per_mtok

abbrev cost_at : Option (ModelId × ModelPrice) → Option ℕ → ModelPrice → ℕ → ℕ → ℕ
cost_at (some (key, p)) cap unknown i o = price_of_tokens p i o
cost_at none none unknown i o = 0
cost_at none (some limit) unknown i o = price_of_tokens unknown i o

abbrev or_zero : Option ℕ → ℕ
or_zero none = 0
or_zero (some n) = n

module _ (is_digit is_word is_blank : ℕ → Bool) where
  -- `_cost_of`; the log lines and the set that keeps them single are left out
  unfoldable pub cost_of : BudgetMeter → ModelId → ℕ → ℕ → ℕ
  cost_of m model in_tokens out_tokens =
      cost_at (resolve_price is_digit is_word is_blank m.pricing model) m.cap m.unknown_price
        in_tokens out_tokens

  -- `record`
  unfoldable pub record_cost : BudgetMeter → ModelId → Option ℕ → Option ℕ → BudgetMeter
  record_cost m model input_tokens output_tokens = record m {
    total = m.total + cost_of m model (or_zero input_tokens) (or_zero output_tokens);
  }

  abbrev over : Option ℕ → ℕ → Bool
  over none projected = false
  over (some limit) projected = ltb limit projected

  unfoldable pub would_exceed : BudgetMeter → ModelId → ℕ → ℕ → Bool
  would_exceed m model est_in est_out = over m.cap (m.total + cost_of m model est_in est_out)

-- `check`: whether it raises `BudgetExceededError`
abbrev reached : Option ℕ → ℕ → Bool
reached none total = false
reached (some limit) total = leb limit total

unfoldable pub exceeded : BudgetMeter → Bool
exceeded m = reached m.cap m.total
