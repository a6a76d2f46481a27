-- ===== src/Dispatch/Tests.antt =====
-- A wave of two agents: one decides, the other one's inference fails.
use Prim.Native.String.{String}
use mathlib.Core.List.{Memᴰ}
use alpha_swarm.Prelude.{◌≤◌, refl, false, none, some, List, [], ◌∷◌, count, arith}
use alpha_swarm.Prelude.Int.{pos}
use alpha_swarm.Prelude.Texts.{Text, other_id, codes}
use alpha_swarm.Settings.{defaults}
use alpha_swarm.State.Types.{SignalType}
use alpha_swarm.State.Store.{empty}
use alpha_swarm.RateLimit.Controller.{Controller, make, report_wave_failures}
use alpha_swarm.Dispatch.{AgentDecision, WorkerPersona, WaveArgs, Call, calls_from, open_wave}
use alpha_swarm.Dispatch.Opening.{OpensAs, wave_opens}
use alpha_swarm.Dispatch.Wave.{infers, fails, writes, pushes, Event, run, start_wave, end_wave}
use alpha_swarm.Dispatch.Wave.Slots.{with_id}
use alpha_swarm.Dispatch.Wave.Accounts.{Accounts, wave_is_accounted}

abbrev persona : String → WorkerPersona
persona i = record {
  agent_id = i;
  bracket = "quants";
  influence_weight = 500;
  temperature = 700;
  system_prompt = codes "you trade";
  risk_profile = 300;
  shared_prompt_chars = none;
}

abbrev args : WaveArgs
args = record {
  personas = persona "q1" ∷ persona "q2" ∷ [];
  user_message = codes "rumor";
  peer_context = none;
  peer_contexts = some (some (codes "peers") ∷ none ∷ []);
  market_context = none;
  own_priors = none;
  call_seeds = some (some 7 ∷ some 8 ∷ []);
  user_messages = none;
  market_contexts = none;
}

abbrev short : WaveArgs
short = record args { call_seeds = some (some 7 ∷ []) }

short_is_refused : OpensAs short (open_wave false defaults short)
short_is_refused = wave_opens false defaults short

wave_opens_example : OpensAs args (open_wave false defaults args)
wave_opens_example = wave_opens false defaults args

abbrev calls : List Call
calls = calls_from args (0, 0) 0 args.personas

abbrev buys : AgentDecision
buys = record {
  signal = SignalType.buy;
  confidence = 800;
  sentiment = pos 400;
  rationale = codes "cheap";
  cited_agents = [];
  error_kind = none;
  parse_tier = some 1;
}

abbrev story : List Event
story =
    (1, fails (codes "timeout"))
    ∷ (0, infers buys)
    ∷ (1, writes 2)
    ∷ (0, writes 3)
    ∷ (0, pushes 900 4)
    ∷ []

abbrev plain : Text → String
plain t = "cheap"

abbrev controller : Controller
controller = make 4 none none 1500 2000 1 0

calls_distinct : (k : String) → count (with_id k) calls ≤ 1
calls_distinct k = ground (arith, other_id "q1" "q2" k refl)

wave_is_accounted_example :
    let w = run plain (start_wave 1 calls (some (empty 1))) story in
    Accounts report_wave_failures calls
      (λ e. Memᴰ e story)
      w
      controller
      (end_wave report_wave_failures w controller)
wave_is_accounted_example =
    wave_is_accounted report_wave_failures plain 1 calls (some (empty 1)) controller story
      calls_distinct
