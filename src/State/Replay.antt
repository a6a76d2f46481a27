-- ===== src/State/Replay.antt =====
-- state.py: `ReplayStore`, and the snapshots of both stores.
use Prim.Native.String.{String}
use alpha_swarm.Prelude.{
  ℕ, ◌-◌, Bool, false, Option, none, some, List, [], ◌∷◌, ◌++◌, ◌==◌, if◌then◌else◌, length,
}
use alpha_swarm.Governor.State.{GovernorMetrics}
use alpha_swarm.State.Types.{
  SimulationPhase, BracketSummary, RationaleEntry, AgentState, no_job, JobsSnapshot, AppliedShock,
  DataSourceAuditEntry, RunError, AgentStates,
}
use alpha_swarm.State.Store.{StateStore, window_tokens, shock_window_open}

-- The signals of a cycle, by agent and round, in the order of the dict.
abbrev pub Signals : Type 0
Signals = List ((String × ℕ) × AgentState)

pub record ReplayStore : Type 0 where
  pub cycle_id : String
  pub num_rounds : ℕ
  pub signals : Signals
  pub current_round : ℕ
  pub bracket_summaries : List BracketSummary
  pub rationale_entries : List RationaleEntry
  pub version : ℕ

-- `__init__`; `fresh` is the next value of the process-wide counter, as in the live store
unfoldable pub open_replay : String → Signals → ℕ → ℕ → ReplayStore
open_replay cycle_id signals num_rounds fresh = record {
  cycle_id = cycle_id;
  num_rounds = num_rounds;
  signals = signals;
  current_round = 0;
  bracket_summaries = [];
  rationale_entries = [];
  version = fresh;
}

unfoldable pub set_replay_round : ℕ → ℕ → ReplayStore → ReplayStore
set_replay_round round_num fresh s = record s { current_round = round_num; version = fresh }

unfoldable pub set_replay_summaries : List BracketSummary → ℕ → ReplayStore → ReplayStore
set_replay_summaries summaries fresh s = record s { bracket_summaries = summaries; version = fresh }

unfoldable pub set_rationale_entries : List RationaleEntry → ℕ → ReplayStore → ReplayStore
set_rationale_entries entries fresh s = record s { rationale_entries = entries; version = fresh }

pub record StateSnapshot : Type 0 where
  pub phase : SimulationPhase
  pub round_num : ℕ
  pub agent_count : ℕ
  pub agent_states : AgentStates
  pub elapsed_seconds : ℕ
  pub governor_metrics : Option GovernorMetrics
  -- the tokens of the window; the wire value divides them by the window
  pub tps : ℕ
  pub rationale_entries : List RationaleEntry
  pub bracket_summaries : List BracketSummary
  pub data_source_audit : List DataSourceAuditEntry
  pub last_error : Option RunError
  pub pending_shock : Option String
  pub applied_shocks : List AppliedShock
  pub shock_window_open : Bool
  pub cycle_id : Option String
  pub num_rounds : ℕ
  pub edges_version : ℕ
  pub jobs : JobsSnapshot

-- the dict comprehension of `ReplayStore.snapshot`
unfoldable pub agents_of_round : ℕ → Signals → AgentStates
agents_of_round r [] = []
agents_of_round r (((agent_id, rnd), state) ∷ rest) =
    let others = agents_of_round r rest in if rnd == r then (agent_id, state) ∷ others else others

unfoldable pub replay_snapshot : ReplayStore → StateSnapshot
replay_snapshot s = record {
  phase = SimulationPhase.replay;
  round_num = s.current_round;
  agent_count = length (agents_of_round s.current_round s.signals);
  agent_states = agents_of_round s.current_round s.signals;
  elapsed_seconds = 0;
  governor_metrics = none;
  tps = 0;
  rationale_entries = s.rationale_entries;
  bracket_summaries = s.bracket_summaries;
  data_source_audit = [];
  last_error = none;
  pending_shock = none;
  applied_shocks = [];
  shock_window_open = false;
  cycle_id = some s.cycle_id;
  num_rounds = s.num_rounds;
  edges_version = s.current_round - 1;
  jobs = record { advisory = no_job; report = no_job };
}

-- `elapsed_seconds` of the live store: a start time of 0.0 counts as none
abbrev pub elapsed : ℕ → Option ℕ → Option ℕ → ℕ
elapsed now (some final) start = final
elapsed now none none = 0
elapsed now none (some start) = if start == 0 then 0 else now - start

-- `tuple(deque)`: the items from the oldest to the newest, which stands first in the store
abbrev pub newest_last : {A : Type 0} → List A → List A
newest_last [] = []
newest_last (x ∷ xs) = newest_last xs ++ x ∷ []

-- `StateStore.snapshot`. Computing the TPS prunes the token window, so the store comes back too.
unfoldable pub snapshot : ℕ → StateStore → StateSnapshot × StateStore
snapshot now s =
    let (tokens, s') = window_tokens now s in
    (
      record {
        phase = s.phase;
        round_num = s.round_num;
        agent_count = length s.agent_states;
        agent_states = s.agent_states;
        elapsed_seconds = elapsed now s.final_elapsed s.start_time;
        governor_metrics = s.governor_metrics;
        tps = tokens;
        rationale_entries = newest_last s.rationale_window;
        bracket_summaries = s.bracket_summaries;
        data_source_audit = newest_last s.data_source_audit;
        last_error = s.last_error;
        pending_shock = s.pending_shock;
        applied_shocks = s.applied_shocks;
        shock_window_open = shock_window_open s;
        cycle_id = s.cycle_id;
        num_rounds = s.num_rounds;
        edges_version = s.edges_version;
        jobs = s.jobs;
      },
      s',
    )
