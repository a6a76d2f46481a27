-- ===== src/Dispatch.antt =====
-- batch_dispatcher.py: the decisions of a wave and its calls, one for each persona; Dispatch/Wave has the
-- tasks. Confidences, sentiments and temperatures are in thousandths, the jitter in milliseconds.
pub mod Wave
mod Opening
mod Tests
use Prim.Native.String.{String}
use alpha_swarm.Prelude.{
  ℕ, zero, suc, ◌+◌, Bool, true, false, not, Option, none, some, List, [], ◌∷◌, ◌++◌, ◌⊎◌, inl, inr,
  ◌==◌, if◌then◌else◌, length,
}
use alpha_swarm.Prelude.Int.{ℤ, pos}
use alpha_swarm.Prelude.Texts.{Text, codes}
use alpha_swarm.State.Types.{SignalType}
use alpha_swarm.Settings.{GovernorSettings}

pub data ErrorKind : Type 0 where
  inference parse truncated : ErrorKind

-- `AgentDecision`
pub record AgentDecision : Type 0 where
  pub signal : SignalType
  pub confidence : ℕ
  pub sentiment : ℤ
  pub rationale : Text
  pub cited_agents : List String
  pub error_kind : Option ErrorKind
  pub parse_tier : Option ℕ

-- `WorkerPersonaConfig`
pub record WorkerPersona : Type 0 where
  pub agent_id : String
  pub bracket : String
  pub influence_weight : ℕ
  pub temperature : ℕ
  pub system_prompt : Text
  pub risk_profile : ℕ
  pub shared_prompt_chars : Option ℕ

-- The decision that stands for an inference that raised `e`.
unfoldable pub failure_decision : String → Text → AgentDecision
failure_decision agent_id e = record {
  signal = SignalType.parse_error;
  confidence = 0;
  sentiment = pos 0;
  rationale = codes "Inference failed for " ++ codes agent_id ++ codes ": " ++ e;
  cited_agents = [];
  error_kind = some inference;
  parse_tier = none;
}

-- The errors that stop a run, HARD_STOP_ERRORS.
pub data HardStop : Type 0 where
  budget_exceeded auth_failed governor_crisis provider_config : HardStop

-- The arguments of `dispatch_wave` that its calls are made of.
pub record WaveArgs : Type 0 where
  pub personas : List WorkerPersona
  pub user_message : Text
  pub peer_context : Option Text
  pub peer_contexts : Option (List (Option Text))
  pub market_context : Option Text
  pub own_priors : Option (List (Option Text))
  pub call_seeds : Option (List (Option ℕ))
  pub user_messages : Option (List Text)
  pub market_contexts : Option (List (Option Text))

-- The arguments of one `_safe_agent_inference`.
pub record Call : Type 0 where
  pub persona : WorkerPersona
  pub user_message : Text
  pub peer_context : Option Text
  pub market_context : Option Text
  pub jitter_min : ℕ
  pub jitter_max : ℕ
  pub own_prior : Option Text
  pub seed : Option ℕ

-- The list whose length is not that of the personas, in the ValueError.
pub data ArgName : Type 0 where
  peer_contexts own_priors call_seeds user_messages market_contexts : ArgName

module _ {ℓ} {A : Type ℓ} where
  abbrev pub wrong : ℕ → Option (List A) → Bool
  wrong n none = false
  wrong n (some values) = not (length values == n)

  abbrev pub elem_or : List A → ℕ → A → A
  elem_or [] i a = a
  elem_or (x ∷ xs) zero a = x
  elem_or (x ∷ xs) (suc i) a = elem_or xs i a

  -- `values[i] if values is not None else value`; the index is in range
  abbrev pub own : Option (List A) → A → ℕ → A
  own none value i = value
  own (some values) value i = elem_or values i value

unfoldable pub bad_length : WaveArgs → Option ArgName
bad_length args =
    let n = length args.personas in
    if wrong n args.peer_contexts
    then some ArgName.peer_contexts
    else if wrong n args.own_priors
    then some ArgName.own_priors
    else if wrong n args.call_seeds
    then some ArgName.call_seeds
    else if wrong n args.user_messages
    then some ArgName.user_messages
    else if wrong n args.market_contexts
    then some ArgName.market_contexts
    else none

-- Local calls go out without jitter.
abbrev pub jitter : Bool → GovernorSettings → ℕ × ℕ
jitter true settings = (0, 0)
jitter false settings = (settings.jitter_min_seconds, settings.jitter_max_seconds)

abbrev pub call_of : WaveArgs → ℕ × ℕ → ℕ → WorkerPersona → Call
call_of args bounds i p = record {
  persona = p;
  user_message = own args.user_messages args.user_message i;
  peer_context = own args.peer_contexts args.peer_context i;
  market_context = own args.market_contexts args.market_context i;
  jitter_min = bounds.0;
  jitter_max = bounds.1;
  own_prior = own args.own_priors none i;
  seed = own args.call_seeds none i;
}

abbrev pub calls_from : WaveArgs → ℕ × ℕ → ℕ → List WorkerPersona → List Call
calls_from args bounds i [] = []
calls_from args bounds i (p ∷ rest) = call_of args bounds i p ∷ calls_from args bounds (suc i) rest

abbrev pub opened : Option ArgName → List Call → ArgName ⊎ List Call
opened (some name) calls = inl name
opened none calls = inr calls

-- The checks of `dispatch_wave` and the calls of its tasks.
unfoldable pub open_wave : Bool → GovernorSettings → WaveArgs → ArgName ⊎ List Call
open_wave local settings args =
    opened (bad_length args) (calls_from args (jitter local settings) 0 args.personas)
