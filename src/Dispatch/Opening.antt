-- ===== src/Dispatch/Opening.antt =====
-- The checks of a wave and what each of its calls is made of.
use alpha_swarm.Prelude.{
  ℕ, zero, suc, ◌≡◌, ◌≢◌, refl, ap, subst, ◌∙◌, ◌⊎◌, inl, inr, Bool, true, false, Option, none,
  some, List, [], ◌∷◌, length, arith,
}
use alpha_swarm.Settings.{GovernorSettings}
use alpha_swarm.Dispatch.{
  WorkerPersona, WaveArgs, Call, ArgName, wrong, elem_or, own, opened, bad_length, jitter, call_of,
  calls_from, open_wave,
}

module _ {A : Type 0} where
  abbrev pub field_of : (Call → A) → List Call → List A
  field_of f [] = []
  field_of f (c ∷ cs) = f c ∷ field_of f cs

  -- The list that was given, or the same value for all.
  abbrev pub Spread : Option (List A) → A → ℕ → List A → Type 0
  Spread (some values) a n xs = xs ≡ values
  Spread none a zero xs = xs ≡ []
  Spread none a (suc n) [] = ⊥
  Spread none a (suc n) (x ∷ xs) = (x ≡ a) × Spread none a n xs

  abbrev pub IsWrong : ℕ → Option (List A) → Type 0
  IsWrong n none = ⊥
  IsWrong n (some values) = length values ≢ n

  abbrev tabulate : (ℕ → A) → ℕ → ℕ → List A
  tabulate g i zero = []
  tabulate g i (suc n) = g i ∷ tabulate g (suc i) n

  tabulate-suc : (g : ℕ → A) (i n : ℕ) → tabulate g (suc i) n ≡ tabulate (λ j. g (suc j)) i n
  tabulate-suc g i zero = refl
  tabulate-suc g i (suc n) = ap (λ xs. g (suc i) ∷ xs) (tabulate-suc g (suc i) n)

  tabulate-elem_or :
      (values : List A) (a : A) → tabulate (λ j. elem_or values j a) 0 (length values) ≡ values
  tabulate-elem_or [] a = refl
  tabulate-elem_or (x ∷ xs) a =
      ap (λ ys. x ∷ ys)
        (tabulate-suc (λ j. elem_or (x ∷ xs) j a) 0 (length xs) ∙ tabulate-elem_or xs a)

  constant_spreads : (a : A) (i n : ℕ) → Spread none a n (tabulate (λ j. a) i n)
  constant_spreads a i zero = refl
  constant_spreads a i (suc n) = (refl, constant_spreads a (suc i) n)

  own_spreads :
      (values : Option (List A)) (a : A) (n : ℕ)
      → wrong n values ≡ false
      → Spread values a n (tabulate (own values a) 0 n)
  own_spreads none a n h = constant_spreads a 0 n
  own_spreads (some values) a n h =
      let same : length values ≡ n = ground (arith, h) in
      subst (λ m. tabulate (λ j. elem_or values j a) 0 m ≡ values) same (tabulate-elem_or values a)

  field_of-calls_from :
      (f : Call → A) (g : ℕ → A) (args : WaveArgs) (bounds : ℕ × ℕ) (i : ℕ)
      (ps : List WorkerPersona)
      → ((j : ℕ) (p : WorkerPersona) → f (call_of args bounds j p) ≡ g j)
      → field_of f (calls_from args bounds i ps) ≡ tabulate g i (length ps)
  field_of-calls_from f g args bounds i [] h = refl
  field_of-calls_from f g args bounds i (p ∷ ps) h =
      ap (λ x. x ∷ field_of f (calls_from args bounds (suc i) ps)) (h i p)
      ∙ ap (λ xs. g i ∷ xs) (field_of-calls_from f g args bounds (suc i) ps h)

  -- A field that is taken from an optional list, over the calls.
  field_spreads :
      (f : Call → A) (values : Option (List A)) (a : A) (args : WaveArgs) (bounds : ℕ × ℕ)
      → ((j : ℕ) (p : WorkerPersona) → f (call_of args bounds j p) ≡ own values a j)
      → wrong (length args.personas) values ≡ false
      → Spread values a (length args.personas) (field_of f (calls_from args bounds 0 args.personas))
  field_spreads f values a args bounds h ok =
      rw (field_of-calls_from f (own values a) args bounds 0 args.personas h)
        (own_spreads values a (length args.personas) ok)

  wrong_is : (n : ℕ) (values : Option (List A)) → wrong n values ≡ true → IsWrong n values
  wrong_is n none h = ground (arith, h)
  wrong_is n (some values) h = ground (arith, h)

personas_of-calls_from :
    (args : WaveArgs) (bounds : ℕ × ℕ) (i : ℕ) (ps : List WorkerPersona)
    → field_of (λ c. c.persona) (calls_from args bounds i ps) ≡ ps
personas_of-calls_from args bounds i [] = refl
personas_of-calls_from args bounds i (p ∷ ps) =
    ap (λ xs. p ∷ xs) (personas_of-calls_from args bounds (suc i) ps)

-- The list that a ValueError names.
abbrev pub Names : WaveArgs → ArgName → Type 0
Names args ArgName.peer_contexts = IsWrong (length args.personas) args.peer_contexts
Names args ArgName.own_priors = IsWrong (length args.personas) args.own_priors
Names args ArgName.call_seeds = IsWrong (length args.personas) args.call_seeds
Names args ArgName.user_messages = IsWrong (length args.personas) args.user_messages
Names args ArgName.market_contexts = IsWrong (length args.personas) args.market_contexts

abbrev pub AllSpread : WaveArgs → List Call → Type 0
AllSpread args calls =
    let n = length args.personas in
    Spread args.user_messages args.user_message n (field_of (λ c. c.user_message) calls)
    × Spread args.peer_contexts args.peer_context n (field_of (λ c. c.peer_context) calls)
    × Spread args.market_contexts args.market_context n (field_of (λ c. c.market_context) calls)
    × Spread args.own_priors none n (field_of (λ c. c.own_prior) calls)
    × Spread args.call_seeds none n (field_of (λ c. c.seed) calls)

abbrev pub OpensAs : WaveArgs → ArgName ⊎ List Call → Type 0
OpensAs args (inl name) = Names args name
OpensAs args (inr calls) = (field_of (λ c. c.persona) calls ≡ args.personas) × AllSpread args calls

calls_open :
    (args : WaveArgs) (bounds : ℕ × ℕ)
    → bad_length args ≡ none
    → OpensAs args (inr (calls_from args bounds 0 args.personas))
unfolding bad_length
calls_open args bounds h = (
  personas_of-calls_from args bounds 0 args.personas,
  (
    field_spreads (λ c. c.user_message) args.user_messages args.user_message args bounds
        (λ j p. refl) (ground (arith, h)),
    field_spreads (λ c. c.peer_context) args.peer_contexts args.peer_context args bounds
        (λ j p. refl) (ground (arith, h)),
    field_spreads (λ c. c.market_context) args.market_contexts args.market_context args bounds
        (λ j p. refl) (ground (arith, h)),
    field_spreads (λ c. c.own_prior) args.own_priors none args bounds (λ j p. refl)
        (ground (arith, h)),
    field_spreads (λ c. c.seed) args.call_seeds none args bounds (λ j p. refl) (ground (arith, h)),
  ),
)

refusal-Names : (args : WaveArgs) (name : ArgName) → bad_length args ≡ some name → Names args name
unfolding bad_length
refusal-Names args ArgName.peer_contexts h =
    wrong_is (length args.personas) args.peer_contexts (ground (arith, h))
refusal-Names args ArgName.own_priors h =
    wrong_is (length args.personas) args.own_priors (ground (arith, h))
refusal-Names args ArgName.call_seeds h =
    wrong_is (length args.personas) args.call_seeds (ground (arith, h))
refusal-Names args ArgName.user_messages h =
    wrong_is (length args.personas) args.user_messages (ground (arith, h))
refusal-Names args ArgName.market_contexts h =
    wrong_is (length args.personas) args.market_contexts (ground (arith, h))

opened_as :
    (args : WaveArgs) (bounds : ℕ × ℕ) (o : Option ArgName)
    → bad_length args ≡ o
    → OpensAs args (opened o (calls_from args bounds 0 args.personas))
opened_as args bounds none e = calls_open args bounds e
opened_as args bounds (some name) e = refusal-Names args name e

-- `dispatch_wave` refuses only because of a list whose length is not the number of the personas, and
-- names such a list. Otherwise there is one call for each persona, in order, and each of the five lists
-- is handed out entry by entry: the calls hold exactly that list, or all hold the one value
-- (nothing, for priors and seeds) where none was given.
pub wave_opens :
    (local : Bool) (settings : GovernorSettings) (args : WaveArgs)
    → OpensAs args (open_wave local settings args)
unfolding open_wave
wave_opens local settings args = opened_as args (jitter local settings) (bad_length args) refl
