-- ===== src/Budget/Provider/Overshoot.antt =====
-- How far the calls in flight can take a meter over its cap.
use alpha_swarm.Prelude.{
  is_some, ℕ, ◌+◌, ◌-◌, ◌*◌, ◌≤◌, ◌<◌, ◌≡◌, Bool, Option, none, some, List, [], ◌∷◌, ltb, arith,
  refl, zero, suc, ◌∙◌, sym, subst, ap, ◌⊎◌, inl, inr, if◌then◌else◌, ◌==◌,
}
use native.Mathlib.Nat.{mul-le-mul_left, mul-suc}
use alpha_swarm.Budget.Pricing.{ModelId}
use alpha_swarm.Budget.Meter.{BudgetMeter, record_cost, exceeded, cost_of}
use alpha_swarm.Budget.Provider.{
  InnerEnd, answered, inference_error, other_error, Metered, begin_chat, settle, end_chat,
}

-- A task's call goes out, when the guard lets it and fewer than `limit` are out (the callers' limit on
-- calls at a time), or one of those that are out ends.
pub data Event : Type 0 where
  begins : Event
  ends : InnerEnd → Event

abbrev went_out : Option Metered → Metered → Metered
went_out none s = s
went_out (some t) s = t

zero-cases : (k : ℕ) → (k ≡ 0) ⊎ ((n : ℕ) × (k ≡ suc n))
zero-cases zero = inl refl
zero-cases (suc n) = inr (n, refl)

module _ (is_digit is_word is_blank : ℕ → Bool) (own_model : ModelId) where
  abbrev pub step : ℕ → Event → Metered → Metered
  step limit begins s = if ltb s.in_flight limit then went_out (begin_chat s) s else s
  step limit (ends end) s =
      if s.in_flight == 0 then s else end_chat is_digit is_word is_blank own_model end s

  abbrev pub run : ℕ → List Event → Metered → Metered
  run limit [] s = s
  run limit (e ∷ rest) s = run limit rest (step limit e s)

  -- No call of the list costs more than `c` at the meter's prices.
  abbrev pub WithinCost : ℕ → BudgetMeter → List Event → Type 0
  WithinCost c m [] = Unit
  WithinCost c m (begins ∷ rest) = WithinCost c m rest
  WithinCost c m (ends end ∷ rest) =
      ((settle is_digit is_word is_blank own_model end (record m { total = 0 })).total ≤ c)
      × WithinCost c m rest

  -- `settle` adds an amount that the total has no part in.
  settle_adds :
      (end : InnerEnd) (m : BudgetMeter)
      → (settle is_digit is_word is_blank own_model end m).total
        ≡ m.total + (settle is_digit is_word is_blank own_model end (record m { total = 0 })).total
  unfolding settle record_cost cost_of
  settle_adds (answered model i o) m = omega arith
  settle_adds (inference_error model i o) m = ground arith
  settle_adds other_error m = omega arith

  -- The prices and the cap are the meter's for good.
  settle_prices :
      (end : InnerEnd) (m : BudgetMeter)
      → record (settle is_digit is_word is_blank own_model end m) { total = 0 }
        ≡ record m { total = 0 }
  unfolding settle record_cost
  settle_prices (answered model i o) m = refl
  settle_prices (inference_error model i o) m = ground arith
  settle_prices other_error m = refl

  WithinCost-settle :
      (c : ℕ) (end : InnerEnd) (m : BudgetMeter) (events : List Event)
      → WithinCost c m events
      → WithinCost c (settle is_digit is_word is_blank own_model end m) events
  WithinCost-settle c end m [] h = tt
  WithinCost-settle c end m (begins ∷ rest) h = WithinCost-settle c end m rest h
  WithinCost-settle c end m (ends e ∷ rest) h = (
    subst (λ fresh. (settle is_digit is_word is_blank own_model e fresh).total ≤ c)
        (sym (settle_prices end m)) h.0,
    WithinCost-settle c end m rest h.1,
  )

  ends_one :
      (limit : ℕ) (end : InnerEnd) (s : Metered) (n : ℕ)
      → s.in_flight ≡ suc n
      → step limit (ends end) s
        ≡ record { meter = settle is_digit is_word is_blank own_model end s.meter; in_flight = n }
  unfolding end_chat
  ends_one limit end s n e =
      let left : ℕ → Metered = λ (k : ℕ). record {
        meter = settle is_digit is_word is_blank own_model end s.meter;
        in_flight = k;
      } in
      let goes : step limit (ends end) s ≡ left (s.in_flight - 1) = ground (arith, e) in
      goes ∙ ap left (omega (arith, e))

  ends_or_not :
      (limit : ℕ) (end : InnerEnd) (s : Metered)
      → (step limit (ends end) s ≡ s)
        ⊎ ((n : ℕ) × (s.in_flight ≡ suc n)
            × (step limit (ends end) s ≡ record {
              meter = settle is_digit is_word is_blank own_model end s.meter;
              in_flight = n;
            }))
  unfolding end_chat
  ends_or_not limit end s = elim (zero-cases s.in_flight) [
    | inl e ↦ inl (ground (arith, e))
    | inr (n, e) ↦ inr (n, e, ends_one limit end s n e)
  ]

  begins_meter : (limit : ℕ) (s : Metered) → s.meter ≡ (step limit begins s).meter
  unfolding begin_chat
  begins_meter limit s = ground arith

  WithinCost-begins :
      (c limit : ℕ) (s : Metered) (events : List Event)
      → WithinCost c s.meter events
      → WithinCost c (step limit begins s).meter events
  unfolding begin_chat
  WithinCost-begins c limit s events w = subst (λ m. WithinCost c m events) (begins_meter limit s) w

  WithinCost-ends :
      (c limit : ℕ) (end : InnerEnd) (s : Metered) (events : List Event)
      → WithinCost c s.meter events
      → WithinCost c (step limit (ends end) s).meter events
  WithinCost-ends c limit end s events w = elim (ends_or_not limit end s) [
    | inl e ↦ subst (λ x. WithinCost c (Metered.meter x) events) (sym e) w
    | inr (n, f, e) ↦
        subst (λ x. WithinCost c (Metered.meter x) events) (sym e)
          (WithinCost-settle c end s.meter events w)
  ]

  record Bounded (top c limit : ℕ) (s : Metered) : Type 0 where
    capped : s.meter.cap ≡ some top
    few : s.in_flight ≤ limit
    spent : s.meter.total + c * s.in_flight ≤ top + c * limit

  settle-cap :
      (end : InnerEnd) (m : BudgetMeter)
      → (settle is_digit is_word is_blank own_model end m).cap ≡ m.cap
  settle-cap end m = ap (λ (x : BudgetMeter). x.cap) (settle_prices end m)

  begins_or_not :
      (top limit : ℕ) (s : Metered)
      → s.meter.cap ≡ some top
      → (step limit begins s ≡ s)
        ⊎ ((step limit begins s ≡ record s { in_flight = s.in_flight + 1 })
            × (s.in_flight < limit)
            × (s.meter.total < top))
  unfolding begin_chat exceeded
  begins_or_not top limit s h = ground arith

  begins-Bounded :
      (top c limit : ℕ) (s : Metered)
      → Bounded top c limit s
      → Bounded top c limit (step limit begins s)
  begins-Bounded top c limit s h = elim (begins_or_not top limit s h.capped) [
    | inl e ↦ subst (Bounded top c limit) (sym e) h
    | inr (e, room, under) ↦ subst (Bounded top c limit) (sym e) (record {
      capped = h.capped;
      few = omega (arith, room);
      spent = omega (arith, under, mul-le-mul_left c room, mul-suc c s.in_flight);
    })
  ]

  ends-Bounded :
      (top c limit : ℕ) (end : InnerEnd) (s : Metered)
      → (settle is_digit is_word is_blank own_model end (record s.meter { total = 0 })).total ≤ c
      → Bounded top c limit s
      → Bounded top c limit (step limit (ends end) s)
  ends-Bounded top c limit end s cheap h = elim (ends_or_not limit end s) [
    | inl e ↦ subst (Bounded top c limit) (sym e) h
    | inr (n, f, e) ↦ subst (Bounded top c limit) (sym e) (record {
      capped = settle-cap end s.meter ∙ h.capped;
      few = omega (arith, f, h.few);
      spent =
          omega (arith, h.spent, cheap, settle_adds end s.meter, mul-suc c n, ap (λ x. c * x) f);
    })
  ]

  run-Bounded :
      (top c limit : ℕ) (events : List Event) (s : Metered)
      → WithinCost c s.meter events
      → Bounded top c limit s
      → Bounded top c limit (run limit events s)
  run-Bounded top c limit [] s w h = h
  run-Bounded top c limit (begins ∷ rest) s w h =
      run-Bounded top c limit rest _ (WithinCost-begins c limit s rest w)
        (begins-Bounded top c limit s h)
  run-Bounded top c limit (ends end ∷ rest) s w h =
      run-Bounded top c limit rest _ (WithinCost-ends c limit end s rest w.1)
        (ends-Bounded top c limit end s w.0 h)

  goes_out_below :
      (top : ℕ) (s : Metered)
      → s.meter.cap ≡ some top
      → is_some (begin_chat s) ≡ ltb s.meter.total top
  unfolding begin_chat exceeded
  goes_out_below top s h = ground arith

  -- The cap holds to within the calls in flight. When no call costs more than `c` and callers keep at
  -- most `limit` calls out at a time, then, however the calls of several tasks begin and end (with an
  -- answer, a billed error or another one), what is spent stays at most `limit` times `c` above the
  -- cap, with `c` kept back for each call that is still out. The next call goes out exactly if the
  -- spend is below the cap.
  pub spend_stays_near_cap :
      (top c limit : ℕ) (events : List Event) (m : BudgetMeter)
      → m.cap ≡ some top
      → m.total ≤ top
      → WithinCost c m events
      → let s = run limit events (record { meter = m; in_flight = 0 }) in
        (s.meter.total + c * s.in_flight ≤ top + c * limit)
        × (is_some (begin_chat s) ≡ ltb s.meter.total top)
  spend_stays_near_cap top c limit events m h t w =
      let b =
        run-Bounded top c limit events (record { meter = m; in_flight = 0 }) w
          (record { capped = h; few = omega arith; spent = grind (arith, t) }) in
      (b.spent, goes_out_below top _ b.capped)
