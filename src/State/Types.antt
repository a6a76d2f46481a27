-- ===== src/State/Types.antt =====
-- The values that the stores of state.py hold. Confidences and shares are naturals in thousandths,
-- a mean sentiment is an integer in thousandths, times are naturals in milliseconds.
use alpha_swarm.Prelude.{ℕ, Bool, Option, none, List}
use Prim.Native.String.{String}
use alpha_swarm.Prelude.Int.{ℤ}

pub data SignalType : Type 0 where
  buy sell hold parse_error : SignalType

pub data SimulationPhase : Type 0 where
  idle seeding round_1 round_2 round_3 finalizing complete replay : SimulationPhase

pub record BracketSummary : Type 0 where
  pub bracket : String
  pub display_name : String
  pub buy_count : ℕ
  pub sell_count : ℕ
  pub hold_count : ℕ
  pub total : ℕ
  pub avg_confidence : ℕ
  pub avg_sentiment : ℤ

pub record RationaleEntry : Type 0 where
  pub agent_id : String
  pub signal : SignalType
  pub rationale : String
  pub round_num : ℕ
  pub seq : ℕ
  pub ts : ℕ

pub record AgentState : Type 0 where
  pub signal : Option SignalType
  pub confidence : ℕ

-- `AgentState(signal=None, confidence=0.0)`
abbrev pub thinking : AgentState
thinking = record { signal = none; confidence = 0 }

pub data JobKind : Type 0 where
  advisory report : JobKind

pub data JobState : Type 0 where
  job_idle job_running job_failed : JobState

pub record JobStatus : Type 0 where
  pub state : JobState
  pub cycle_id : Option String
  pub error_code : Option String

abbrev pub no_job : JobStatus
no_job = record { state = JobState.job_idle; cycle_id = none; error_code = none }

pub record JobsSnapshot : Type 0 where
  pub advisory : JobStatus
  pub report : JobStatus

pub record AppliedShock : Type 0 where
  pub text : String
  pub round_num : ℕ

-- data_audit.py
pub record DataSourceAuditEntry : Type 0 where
  pub ts : ℕ
  pub source : String
  pub query : String
  pub result : String
  pub used : Bool

-- errors.py: a `RunError` without its message
pub record RunError : Type 0 where
  pub code : String
  pub round_num : Option ℕ
  pub ts : ℕ

-- The agents on screen, in order, each with its state.
abbrev pub AgentStates : Type 0
AgentStates = List (String × AgentState)
