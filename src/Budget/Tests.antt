-- ===== src/Budget/Tests.antt =====
-- The budget at concrete inputs.
use alpha_swarm.Prelude.{
  is_some, ltb, ℕ, ◌+◌, ◌*◌, ◌≤◌, ◌≡◌, ◌⊎◌, refl, Bool, ◌&&◌, ◌||◌, none, some, [], ◌∷◌, leb, List,
  ◌==◌, arith,
}
use alpha_swarm.Budget.Pricing.{
  ModelId, ModelPrice, PricingTable, lookup, normalize_model_id, resolve_price, cut_date,
  date_suffix, longest, extends, version_suffix,
}
use alpha_swarm.Budget.Pricing.Longest.{IsLongest, resolve_price_finds}
use alpha_swarm.Budget.Meter.{BudgetMeter, record_cost, cost_of, fallback_unknown_price}
use alpha_swarm.Budget.Provider.{InnerEnd, settle, begin_chat}
use alpha_swarm.Budget.Provider.Overshoot.{Event, begins, ends, run, spend_stays_near_cap}

abbrev digit : ℕ → Bool
digit c = leb 48 c && leb c 57

abbrev word : ℕ → Bool
word c = digit c || (leb 97 c && leb c 122)

abbrev blank : ℕ → Bool
blank c = c == 32

-- "m", "m-2" and "m-2-9"
abbrev model_m : ModelId
model_m = 109 ∷ []

abbrev model_m2 : ModelId
model_m2 = 109 ∷ 45 ∷ 50 ∷ []

abbrev model_m29 : ModelId
model_m29 = 109 ∷ 45 ∷ 50 ∷ 45 ∷ 57 ∷ []

abbrev cheap_price : ModelPrice
cheap_price = record { input_per_mtok = 3; output_per_mtok = 15 }

abbrev dear_price : ModelPrice
dear_price = record { input_per_mtok = 5; output_per_mtok = 25 }

abbrev table : PricingTable
table = (model_m, cheap_price) ∷ (model_m2, dear_price) ∷ []

longest_key_wins : resolve_price digit word blank table model_m29 ≡ some (model_m2, dear_price)
unfolding resolve_price normalize_model_id cut_date date_suffix longest extends version_suffix
longest_key_wins = refl

resolve_price_finds_example :
    let normalized = normalize_model_id digit word blank model_m29 in
    let result = resolve_price digit word blank table model_m29 in
    ((p : ModelPrice) × (lookup model_m29 table ≡ some p) × (result ≡ some (model_m29, p)))
    ⊎ ((lookup model_m29 table ≡ none)
        × (((p : ModelPrice) × (lookup normalized table ≡ some p) × (result ≡ some (normalized, p)))
            ⊎ ((lookup normalized table ≡ none)
                × IsLongest digit word blank normalized result table)))
resolve_price_finds_example = resolve_price_finds digit word blank table model_m29

-- A cap of 100: two calls are out when the first, of 10 * 3 + 2 * 15, comes back.
abbrev meter : BudgetMeter
meter = record {
  cap = some 100;
  pricing = table;
  total = 50;
  unknown_price = fallback_unknown_price;
}

abbrev calls : List Event
calls =
    begins
    ∷ begins
    ∷ ends (InnerEnd.answered model_m (some 10) (some 2))
    ∷ begins
    ∷ ends (InnerEnd.inference_error none (some 4) none)
    ∷ []

spend_stays_near_cap_example :
    let s = run digit word blank model_m 2 calls (record { meter = meter; in_flight = 0 }) in
    (s.meter.total + 60 * s.in_flight ≤ 100 + 60 * 2)
    × (is_some (begin_chat s) ≡ ltb s.meter.total 100)
unfolding settle record_cost cost_of resolve_price normalize_model_id cut_date date_suffix longest
    extends version_suffix
spend_stays_near_cap_example =
    spend_stays_near_cap digit word blank model_m 100 60 2 calls meter refl (omega arith)
      (omega arith, (omega arith, tt))
