-- ===== src/Rounds/Tests.antt =====
-- A run of two rounds and two agents, with a shock before the second one.
use Prim.Native.String.{String}
use alpha_swarm.Prelude.{◌≡◌, refl, arith, true, false, Option, none, some, List, [], ◌∷◌}
use alpha_swarm.Prelude.Int.{pos}
use alpha_swarm.Prelude.Texts.{codes}
use alpha_swarm.State.Types.{SignalType}
use alpha_swarm.Dispatch.{AgentDecision, failure_decision}
use alpha_swarm.Rounds.{
  Decisions, round_failed, Stop, error, cancel, CycleStatus, Effect, Step, did, failed,
}
use alpha_swarm.Rounds.Run.{World, Result, done, stopped, Setup, run_simulation}
use alpha_swarm.Rounds.Summaries.{Bracket, compute_bracket_summaries}
use alpha_swarm.Rounds.Summaries.Counts.{each_summary, summaries_count_members}
use alpha_swarm.Rounds.Calm.{IsCompleted, Healthy, healthy_run-IsCompleted}
use alpha_swarm.Rounds.Refines.{EndsInOrder, run_keeps_protocol}

abbrev holds : AgentDecision
holds = record {
  signal = SignalType.hold;
  confidence = 500;
  sentiment = pos 0;
  rationale = [];
  cited_agents = [];
  error_kind = none;
  parse_tier = some 1;
}

abbrev setup : Setup
setup = record {
  num_rounds = 2;
  abort_percent = 5000;
  retest_round1 = false;
  agent_ids = "q1" ∷ "q2" ∷ [];
  has_state = false;
  has_callback = false;
  shock = λ n. some (codes "war");
  wave = λ n. holds ∷ failure_decision "q2" [] ∷ [];
  filter_citations = λ n ds. ds;
}

half_passes : round_failed 5000 (("q1", holds) ∷ ("q2", failure_decision "q2" []) ∷ []) ≡ false
unfolding round_failed failure_decision
half_passes = refl

empty_fails : round_failed 5000 [] ≡ true
unfolding round_failed
empty_fails = refl

-- The wave of the first round fails for good: the worker and the session are closed, then the status is
-- written.
abbrev faults : List (Option Stop)
faults = none ∷ none ∷ none ∷ none ∷ none ∷ none ∷ some error ∷ []

stops_in_order :
    (run_simulation setup (record { faults = faults; trace = [] })).1.trace
    ≡ did (Effect.set_cycle_status CycleStatus.failed)
      ∷ did Effect.stop_monitoring
      ∷ did Effect.teardown
      ∷ failed (Effect.dispatch_wave 1)
      ∷ did Effect.prepare
      ∷ did Effect.start_monitoring
      ∷ did Effect.read_entities
      ∷ did Effect.write_manifest
      ∷ did Effect.market_context
      ∷ did Effect.inject_seed
      ∷ []
unfolding run_simulation alpha_swarm.Rounds.Run.seeding alpha_swarm.Rounds.Run.cycle
    alpha_swarm.Rounds.Run.describe alpha_swarm.Rounds.Run.session alpha_swarm.Rounds.Run.run_rounds
    alpha_swarm.Rounds.Run.run_round
stops_in_order = refl

run_keeps_protocol_example :
    EndsInOrder setup (run_simulation setup (record { faults = faults; trace = [] }))
run_keeps_protocol_example = run_keeps_protocol setup faults

abbrev round_of_two : Decisions
round_of_two = ("q1", holds) ∷ ("q2", failure_decision "q2" []) ∷ []

abbrev homes : List (String × String)
homes = ("q1", "quants") ∷ ("q2", "quants") ∷ []

abbrev quants : List Bracket
quants = record { bracket_type = "quants"; display_name = "Quants" } ∷ []

summaries_count_members_example :
    compute_bracket_summaries round_of_two homes quants ≡ each_summary round_of_two homes quants
summaries_count_members_example = summaries_count_members round_of_two homes quants

setup-Healthy : Healthy setup
unfolding round_failed failure_decision
setup-Healthy n = (refl, refl)

healthy_run-IsCompleted_example :
    IsCompleted setup (run_simulation setup (record { faults = []; trace = [] }))
healthy_run-IsCompleted_example = healthy_run-IsCompleted setup setup-Healthy (omega arith)

-- A fourth round has no phase: the run fails before its wave, with the status written.
fourth_round_fails :
    (run_simulation (record setup { num_rounds = 4 }) (record { faults = []; trace = [] })).0
    ≡ stopped error
unfolding run_simulation alpha_swarm.Rounds.Run.seeding alpha_swarm.Rounds.Run.cycle
    alpha_swarm.Rounds.Run.describe alpha_swarm.Rounds.Run.session alpha_swarm.Rounds.Run.run_rounds
    alpha_swarm.Rounds.Run.run_round round_failed failure_decision
fourth_round_fails = refl
