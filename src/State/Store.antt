-- ===== src/State/Store.antt =====
-- state.py: `StateStore`. Every method writes in one step: what stands under `self._lock` awaits
-- nothing, so no other task runs in between. `_VERSIONS` is one counter of the process, which other
-- stores advance too; a store keeps the last value that it took, and each bump takes the value that
-- the counter has next. Of a deque with `maxlen` the newest item stands first.
pub mod Phases
pub mod Windows
pub mod Feed
pub mod Shown
use Prim.Native.String.{String}
use text.Mathlib.Text.{◌==◌ as str_eq}
use alpha_swarm.Prelude.{
  ℕ, ◌+◌, ◌-◌, Bool, true, false, Option, none, some, List, [], ◌∷◌, ◌++◌, ltb, leb, ◌==◌,
  if◌then◌else◌, take,
}
use alpha_swarm.Prelude.Texts.{Text, codes, contains_any}
use alpha_swarm.Governor.State.{GovernorMetrics}
use alpha_swarm.State.Types.{
  SignalType, SimulationPhase, BracketSummary, RationaleEntry, AgentState, thinking, JobKind,
  JobStatus, no_job, JobsSnapshot, AppliedShock, DataSourceAuditEntry, RunError, AgentStates,
}

pub record StateStore : Type 0 where
  pub agent_states : AgentStates
  pub phase : SimulationPhase
  pub round_num : ℕ
  pub start_time : Option ℕ
  pub final_elapsed : Option ℕ
  pub governor_metrics : Option GovernorMetrics
  pub rationale_window : List RationaleEntry
  pub data_source_audit : List DataSourceAuditEntry
  -- finished calls, the oldest first: time and completion tokens
  pub token_window : List (ℕ × ℕ)
  pub bracket_summaries : List BracketSummary
  pub last_error : Option RunError
  pub jobs : JobsSnapshot
  pub num_rounds : ℕ
  pub pending_shock : Option String
  pub applied_shocks : List AppliedShock
  pub cycle_id : Option String
  pub edges_version : ℕ
  pub rationale_seq : ℕ
  pub version : ℕ

-- `__init__`; `fresh` is the counter's next value
unfoldable pub empty : ℕ → StateStore
empty fresh = record {
  agent_states = [];
  phase = SimulationPhase.idle;
  round_num = 0;
  start_time = none;
  final_elapsed = none;
  governor_metrics = none;
  rationale_window = [];
  data_source_audit = [];
  token_window = [];
  bracket_summaries = [];
  last_error = none;
  jobs = record { advisory = no_job; report = no_job };
  num_rounds = 3;
  pending_shock = none;
  applied_shocks = [];
  cycle_id = none;
  edges_version = 0;
  rationale_seq = 0;
  version = fresh;
}

-- `_agent_states[agent_id] = state`: a known id keeps its place, a new one comes last
unfoldable pub put_agent : String → AgentState → AgentStates → AgentStates
put_agent k v [] = (k, v) ∷ []
put_agent k v ((j, w) ∷ rest) = if str_eq j k then (k, v) ∷ rest else (j, w) ∷ put_agent k v rest

unfoldable pub update_agent_state : String → SignalType → ℕ → ℕ → StateStore → StateStore
update_agent_state agent_id signal confidence fresh s = record s {
  agent_states =
      put_agent agent_id (record { signal = some signal; confidence = confidence }) s.agent_states;
  version = fresh;
}

-- whether an id is among the keys
abbrev pub has_agent : String → AgentStates → Bool
has_agent k [] = false
has_agent k ((j, w) ∷ rest) = if str_eq j k then true else has_agent k rest

-- The comprehension over `dict.fromkeys(agent_ids)`: a duplicate keeps its first position.
unfoldable pub roster_onto : AgentStates → List String → AgentStates
roster_onto acc [] = acc
roster_onto acc (k ∷ rest) = roster_onto (put_agent k thinking acc) rest

unfoldable pub begin_run : List String → ℕ → StateStore → StateStore
begin_run agent_ids fresh s = record s { agent_states = roster_onto [] agent_ids; version = fresh }

-- Every id keeps its place and goes back to the placeholder.
unfoldable pub reset_agents : AgentStates → AgentStates
reset_agents [] = []
reset_agents ((k, v) ∷ rest) = (k, thinking) ∷ reset_agents rest

-- The run-scoped state that SEEDING clears.
unfoldable pub clear_run : ℕ → StateStore → StateStore
clear_run now s = record s {
  start_time = some now;
  final_elapsed = none;
  token_window = [];
  bracket_summaries = [];
  rationale_window = [];
  data_source_audit = [];
  cycle_id = none;
  edges_version = 0;
  applied_shocks = [];
  agent_states = reset_agents s.agent_states;
}

abbrev start_clock : ℕ → Option ℕ → Option ℕ
start_clock now none = some now
start_clock now (some t) = some t

abbrev elapsed_since : ℕ → Option ℕ → Option ℕ → Option ℕ
elapsed_since now none final = final
elapsed_since now (some t) final = some (now - t)

-- What `set_phase` does beside storing the phase, by the phase.
unfoldable pub enter_phase : SimulationPhase → ℕ → StateStore → StateStore
enter_phase SimulationPhase.idle now s = s
enter_phase SimulationPhase.seeding now s = clear_run now s
enter_phase SimulationPhase.round_1 now s = record s {
  agent_states = reset_agents s.agent_states;
  start_time = start_clock now s.start_time;
}
enter_phase SimulationPhase.round_2 now s = record s {
  agent_states = reset_agents s.agent_states;
  start_time = start_clock now s.start_time;
}
enter_phase SimulationPhase.round_3 now s = record s {
  agent_states = reset_agents s.agent_states;
  start_time = start_clock now s.start_time;
}
enter_phase SimulationPhase.finalizing now s = record s {
  start_time = start_clock now s.start_time;
}
enter_phase SimulationPhase.complete now s = record s {
  start_time = start_clock now s.start_time;
  final_elapsed = elapsed_since now (start_clock now s.start_time) s.final_elapsed;
}
enter_phase SimulationPhase.replay now s = s

unfoldable pub set_phase : SimulationPhase → ℕ → ℕ → StateStore → StateStore
set_phase phase now fresh s = record (enter_phase phase now (record s { phase = phase })) {
  version = fresh;
}

unfoldable pub set_round : ℕ → ℕ → StateStore → StateStore
set_round round_num fresh s = record s { round_num = round_num; version = fresh }

unfoldable pub set_cycle : Option String → ℕ → StateStore → StateStore
set_cycle cycle_id fresh s = record s { cycle_id = cycle_id; version = fresh }

unfoldable pub bump_edges_version : ℕ → StateStore → StateStore
bump_edges_version fresh s = record s { edges_version = s.edges_version + 1; version = fresh }

-- `push_rationale`: stamped, and the oldest of a full window drops out
unfoldable pub push_rationale : RationaleEntry → ℕ → ℕ → StateStore → StateStore
push_rationale entry wall fresh s = record s {
  rationale_seq = s.rationale_seq + 1;
  rationale_window =
      take 50 (record entry { seq = s.rationale_seq + 1; ts = wall } ∷ s.rationale_window);
  version = fresh;
}

abbrev pub tps_window : ℕ
tps_window = 10000

-- `_prune_token_window`: `stamp <= now - TPS_WINDOW_SECONDS` drops from the old end
unfoldable pub prune : ℕ → List (ℕ × ℕ) → List (ℕ × ℕ)
prune now [] = []
prune now ((stamp, n) ∷ rest) =
    let pruned = prune now rest in
    if leb (stamp + tps_window) now then pruned else (stamp, n) ∷ rest

unfoldable pub record_tokens : ℕ → ℕ → ℕ → StateStore → StateStore
record_tokens completion_tokens now fresh s = if completion_tokens == 0 then s else record s {
  token_window = prune now (s.token_window ++ (now, completion_tokens) ∷ []);
  version = fresh;
}

abbrev pub sum_tokens : List (ℕ × ℕ) → ℕ
sum_tokens [] = 0
sum_tokens ((stamp, n) ∷ rest) = n + sum_tokens rest

-- `_compute_tps` before the division by the window and the rounding: it prunes too
unfoldable pub window_tokens : ℕ → StateStore → ℕ × StateStore
window_tokens now s =
    let kept = prune now s.token_window in (sum_tokens kept, record s { token_window = kept })

unfoldable pub set_bracket_summaries : List BracketSummary → ℕ → StateStore → StateStore
set_bracket_summaries summaries fresh s = record s {
  bracket_summaries = summaries;
  version = fresh;
}

unfoldable pub set_last_error : Option RunError → ℕ → StateStore → StateStore
set_last_error err fresh s = record s { last_error = err; version = fresh }

unfoldable pub update_governor_metrics : GovernorMetrics → ℕ → StateStore → StateStore
update_governor_metrics metrics fresh s = record s {
  governor_metrics = some metrics;
  version = fresh;
}

abbrev pub put_job : JobKind → JobStatus → JobsSnapshot → JobsSnapshot
put_job JobKind.advisory status jobs = record jobs { advisory = status }
put_job JobKind.report status jobs = record jobs { report = status }

unfoldable pub set_job_status : JobKind → JobStatus → ℕ → StateStore → StateStore
set_job_status kind status fresh s = record s { jobs = put_job kind status s.jobs; version = fresh }

unfoldable pub set_num_rounds : ℕ → ℕ → StateStore → StateStore
set_num_rounds n fresh s = record s { num_rounds = n; version = fresh }

unfoldable pub set_pending_shock : Option String → ℕ → StateStore → StateStore
set_pending_shock text fresh s = record s { pending_shock = text; version = fresh }

unfoldable pub record_applied_shock : String → ℕ → ℕ → StateStore → StateStore
record_applied_shock text round_num fresh s = record s {
  applied_shocks = s.applied_shocks ++ record { text = text; round_num = round_num } ∷ [];
  version = fresh;
}

-- `_ROUND_OF_PHASE`
abbrev pub round_of_phase : SimulationPhase → Option ℕ
round_of_phase SimulationPhase.idle = none
round_of_phase SimulationPhase.seeding = none
round_of_phase SimulationPhase.round_1 = some 1
round_of_phase SimulationPhase.round_2 = some 2
round_of_phase SimulationPhase.round_3 = some 3
round_of_phase SimulationPhase.finalizing = none
round_of_phase SimulationPhase.complete = none
round_of_phase SimulationPhase.replay = none

abbrev is_seeding : SimulationPhase → Bool
is_seeding SimulationPhase.seeding = true
is_seeding SimulationPhase.idle = false
is_seeding SimulationPhase.round_1 = false
is_seeding SimulationPhase.round_2 = false
is_seeding SimulationPhase.round_3 = false
is_seeding SimulationPhase.finalizing = false
is_seeding SimulationPhase.complete = false
is_seeding SimulationPhase.replay = false

abbrev before_last : Option ℕ → ℕ → Bool
before_last none num_rounds = false
before_last (some current) num_rounds = ltb current num_rounds

unfoldable pub shock_window_open : StateStore → Bool
shock_window_open s =
    if is_seeding s.phase then true else before_last (round_of_phase s.phase) s.num_rounds

abbrev pub secret_markers : List Text
secret_markers = codes "sk-" ∷ codes "api_key=" ∷ codes "bearer " ∷ []

-- `record_data_source`, with the audit buffer's `maxlen=100`; none is the ValueError for a result that
-- looks like a secret. `lowered` gives the characters of `str.lower`.
unfoldable pub record_data_source :
    (String → Text) → DataSourceAuditEntry → ℕ → StateStore → Option StateStore
record_data_source lowered entry fresh s =
    if contains_any secret_markers (lowered entry.result)
    then none
    else some
        (record s { data_source_audit = take 100 (entry ∷ s.data_source_audit); version = fresh })
