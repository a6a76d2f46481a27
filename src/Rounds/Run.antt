-- ===== src/Rounds/Run.antt =====
-- simulation.py: `run_simulation`, and rounds.py: `run_round`, as programs over their effects.
use Prim.Native.String.{String}
use alpha_swarm.Prelude.{
  ℕ, zero, suc, ◌+◌, Bool, true, false, not, ◌&&◌, Option, none, some, List, [], ◌∷◌, ◌++◌, ltb,
  ◌==◌, length, count,
}
use alpha_swarm.Prelude.Texts.{Text}
use alpha_swarm.State.Types.{SimulationPhase}
use alpha_swarm.Dispatch.{AgentDecision}
use alpha_swarm.Rounds.{
  Decisions, has_failed, round_failed, CycleStatus, Effect, Stop, error, cancel, Step, did,
  RoundOutcome,
}

-- The faults that are still to come, one for each effect (after the last, none), and what was done,
-- the newest first.
pub record World : Type 0 where
  pub faults : List (Option Stop)
  pub trace : List Step

pub data Result (A : Type 0) : Type 0 where
  done : A → Result A
  stopped : Stop → Result A

abbrev pub Run : Type 0 → Type 0
Run A = World → Result A × World

abbrev pub pure : {A : Type 0} → A → Run A
pure a w = (done a, w)

abbrev pub raise : {A : Type 0} → Stop → Run A
raise x w = (stopped x, w)

abbrev pub after : {A B : Type 0} → Result A × World → (A → Run B) → Result B × World
after (done a, w) f = f a w
after (stopped x, w) f = (stopped x, w)

infixl 5 ◌>>=◌ ◌>>◌
abbrev pub ◌>>=◌ : {A B : Type 0} → Run A → (A → Run B) → Run B
◌>>=◌ m f w = after (m w) f

abbrev pub ◌>>◌ : {A B : Type 0} → Run A → Run B → Run B
m >> k = m >>= λ _. k

abbrev pub record_step : Option Stop → Effect → List (Option Stop) → List Step → Result Unit × World
record_step none e faults trace = (done tt, record { faults = faults; trace = did e ∷ trace })
record_step (some x) e faults trace =
    (stopped x, record { faults = faults; trace = Step.failed e ∷ trace })

abbrev pub next_fault : Effect → List (Option Stop) → List Step → Result Unit × World
next_fault e [] trace = record_step none e [] trace
next_fault e (fault ∷ faults) trace = record_step fault e faults trace

-- One effect.
abbrev pub perform : Effect → Run Unit
perform e w = next_fault e w.faults w.trace

-- `try: m finally: close`; what `close` raises replaces the rest
abbrev pub closing : {A : Type 0} → Result A → Run Unit → World → Result A × World
closing r close w = after (close w) (λ _ w'. (r, w'))

abbrev pub try_finally : {A : Type 0} → Run A → Run Unit → Run A
try_finally m close w = let r = m w in closing r.0 close r.1

-- `except Exception: log`: an error is swallowed, a cancellation is not
abbrev pub swallowed : Result Unit × World → Result Unit × World
swallowed (done a, w) = (done a, w)
swallowed (stopped error, w) = (done tt, w)
swallowed (stopped cancel, w) = (stopped cancel, w)

abbrev pub best_effort : Run Unit → Run Unit
best_effort m w = swallowed (m w)

abbrev pub when : Bool → Run Unit → Run Unit
when true m = m
when false m = pure tt

abbrev pub drop : ℕ → List Text → List Text
drop zero xs = xs
drop (suc n) [] = []
drop (suc n) (x ∷ xs) = drop n xs

abbrev pub zip : List String → List AgentDecision → Decisions
zip [] ds = []
zip (i ∷ is) [] = []
zip (i ∷ is) (d ∷ ds) = (i, d) ∷ zip is ds

-- A run's settings and surroundings.
pub record Setup : Type 0 where
  pub num_rounds : ℕ
  pub abort_percent : ℕ
  pub retest_round1 : Bool
  pub agent_ids : List String
  pub has_state : Bool
  pub has_callback : Bool
  -- the shock that waits when a round consumes, and what its wave returns
  pub shock : ℕ → Option Text
  pub wave : ℕ → List AgentDecision
  pub filter_citations : ℕ → Decisions → Decisions

-- `SimulationPhase(f"round_{n}")`; none where that raises a ValueError
abbrev pub phase_of_round : ℕ → Option SimulationPhase
phase_of_round zero = none
phase_of_round (suc zero) = some SimulationPhase.round_1
phase_of_round (suc (suc zero)) = some SimulationPhase.round_2
phase_of_round (suc (suc (suc zero))) = some SimulationPhase.round_3
phase_of_round (suc (suc (suc (suc n)))) = none

abbrev pub already_active : Option RoundOutcome → ℕ
already_active none = 0
already_active (some prev) = length prev.applied_shocks

abbrev pub is_active : String × AgentDecision → Bool
is_active d = not (has_failed d)

abbrev pub outcome : ℕ → Decisions → List Text → RoundOutcome
outcome n ds shocks = record { round_num = n; decisions = ds; applied_shocks = shocks }

abbrev pub with_shock : List Text → Option Text → List Text
with_shock shocks none = shocks
with_shock shocks (some []) = shocks
with_shock shocks (some (c ∷ text)) = shocks ++ (c ∷ text) ∷ []

abbrev pub status_of : Stop → CycleStatus
status_of error = CycleStatus.failed
status_of cancel = CycleStatus.cancelled

module _ (ctx : Setup) where
  -- `if state is not None`
  abbrev pub sink : Effect → Run Unit
  sink e = when ctx.has_state (perform e)

  abbrev pub enter_as : ℕ → Option SimulationPhase → Run Unit
  enter_as n none = raise error
  enter_as n (some phase) = do sink (Effect.set_phase phase); sink (Effect.set_round n)

  -- `_enter_round`
  abbrev pub enter_round : ℕ → Run Unit
  enter_round n = enter_as n (phase_of_round n)

  -- The shocks that are new in this round.
  abbrev pub write_shocks : ℕ → List Text → Run Unit
  write_shocks n [] = pure tt
  write_shocks n (text ∷ rest) = do
    perform (Effect.write_shock_event text n)
    sink (Effect.record_applied_shock text n)
    write_shocks n rest

  abbrev pub decisions_of_round : ℕ → Decisions
  decisions_of_round n = ctx.filter_citations n (zip ctx.agent_ids (ctx.wave n))

  -- The influence edges of every round but the first.
  abbrev pub influence : ℕ → Decisions → Option RoundOutcome → Run Unit
  influence n ds none = pure tt
  influence n ds (some prev) = do
    when (ltb 0 (count is_active ds)) (perform (Effect.compute_influence_edges n))
    sink (Effect.bump_edges_version n)

  -- After the checks of the decisions.
  abbrev pub finish_round : ℕ → Option RoundOutcome → List Text → Decisions → Run RoundOutcome
  finish_round n prev shocks ds = do
    perform (Effect.persist_round n ds)
    influence n ds prev
    sink (Effect.set_bracket_summaries n)
    when ctx.has_callback (perform (Effect.on_round_complete n))
    when ((n == 1) && ctx.retest_round1) (perform (Effect.retest_round1 n))
    pure (outcome n ds shocks)

  abbrev pub checked : ℕ → Option RoundOutcome → List Text → Bool → Bool → Run RoundOutcome
  checked n prev shocks false abort = raise error
  checked n prev shocks true true = raise error
  checked n prev shocks true false = finish_round n prev shocks (decisions_of_round n)

  unfoldable pub run_round : ℕ → Option RoundOutcome → List Text → Run RoundOutcome
  run_round n prev shocks = do
    write_shocks n (drop (already_active prev) shocks)
    perform (Effect.dispatch_wave n)
    checked n prev shocks (length (ctx.wave n) == length ctx.agent_ids)
        (round_failed ctx.abort_percent (decisions_of_round n))

  abbrev pub consume : ℕ → List Text → Run (List Text)
  consume zero shocks = pure shocks
  consume (suc zero) shocks = pure shocks
  consume (suc (suc n)) shocks = do
    perform (Effect.consume_shock (n + 2) (ctx.shock (n + 2)))
    pure (with_shock shocks (ctx.shock (n + 2)))

  -- The loop over the rounds; `left` of them from round `n` on.
  unfoldable pub run_rounds : ℕ → ℕ → Option RoundOutcome → List Text → Run Unit
  run_rounds zero n prev shocks = sink (Effect.set_phase SimulationPhase.finalizing)
  run_rounds (suc left) n prev shocks = do
    enter_round n
    shocks ← consume n shocks
    o ← run_round n prev shocks
    run_rounds left (suc n) (some o) shocks

  -- Up to the session of the governor; the cycle exists once the seed is injected.
  unfoldable pub seeding : Run Unit
  seeding = do
    sink (Effect.set_phase SimulationPhase.idle)
    sink Effect.set_num_rounds
    sink (Effect.set_phase SimulationPhase.seeding)
    sink Effect.begin_run
    perform Effect.inject_seed

  unfoldable pub describe : Run Unit
  describe = do
    sink Effect.set_cycle
    perform Effect.market_context
    perform Effect.write_manifest
    perform Effect.read_entities

  unfoldable pub session : Run Unit
  session = do
    perform Effect.start_monitoring
    try_finally
        (do
          perform Effect.prepare
          try_finally (run_rounds ctx.num_rounds 1 none []) (perform Effect.teardown))
        (perform Effect.stop_monitoring)

  unfoldable pub completing : Run Unit
  completing = do
    best_effort (perform Effect.write_cycle_metrics)
    perform (Effect.set_cycle_status CycleStatus.complete)
    sink (Effect.set_phase SimulationPhase.complete)

  -- `_run_simulation` once the cycle exists
  unfoldable pub cycle : Run Unit
  cycle = do describe; session; completing

  -- `_record_terminal_status`, then the exception goes on, unless the write is cancelled
  abbrev pub terminal : Result Unit × World → Result Unit × World
  terminal (done a, w) = (done a, w)
  terminal (stopped x, w) =
      after (best_effort (perform (Effect.set_cycle_status (status_of x))) w)
        (λ _ w'. (stopped x, w'))

  -- A run that fails before the cycle exists writes no status.
  unfoldable pub run_simulation : Run Unit
  run_simulation = do seeding; λ w. terminal (cycle w)
