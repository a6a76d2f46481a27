-- ===== src/Rounds.antt =====
-- rounds.py and simulation.py: the order of the writes of one run. What a run asks of the database, the
-- model and the web page is an effect; each may fail or be cancelled where the run awaits it. The
-- decisions of a wave, the shocks that are waiting and the filter of the citations are arguments.
pub mod Run
pub mod Protocol
pub mod Steps
pub mod Loop
pub mod Summaries
pub mod Calm
pub mod Refines
mod Tests
use Prim.Native.String.{String}
use alpha_swarm.Prelude.{
  ℕ, zero, suc, ◌+◌, ◌*◌, ◌-◌, Bool, true, false, not, ◌||◌, Option, none, some, List, [], ◌∷◌, ltb,
  ◌==◌, if◌then◌else◌, length, count,
}
use alpha_swarm.Prelude.Texts.{Text}
use alpha_swarm.State.Types.{SimulationPhase}
use alpha_swarm.Dispatch.{AgentDecision}
use alpha_swarm.Dispatch.Wave.{is_parse_error}

abbrev pub Decisions : Type 0
Decisions = List (String × AgentDecision)

abbrev pub has_failed : String × AgentDecision → Bool
has_failed (i, d) = is_parse_error d.signal

-- `_raise_if_round_failed`: an empty round fails, and one with more than the threshold
unfoldable pub round_failed : ℕ → Decisions → Bool
round_failed threshold_percent ds =
    (length ds == 0) || ltb (threshold_percent * length ds) (count has_failed ds * 10000)

-- `CycleStatus`
pub data CycleStatus : Type 0 where
  running complete failed cancelled : CycleStatus

-- What a run does outside itself, in the order of the source.
pub data Effect : Type 0 where
  set_phase : SimulationPhase → Effect
  set_num_rounds begin_run inject_seed set_cycle market_context write_manifest read_entities :
      Effect
  start_monitoring prepare teardown stop_monitoring write_cycle_metrics : Effect
  set_round bump_edges_version set_bracket_summaries on_round_complete : ℕ → Effect
  consume_shock : ℕ → Option Text → Effect
  write_shock_event record_applied_shock : Text → ℕ → Effect
  dispatch_wave compute_influence_edges retest_round1 : ℕ → Effect
  persist_round : ℕ → Decisions → Effect
  set_cycle_status : CycleStatus → Effect

-- Why a run stops: an exception or a cancellation.
pub data Stop : Type 0 where
  error cancel : Stop

-- An effect that was done, or one that failed.
pub data Step : Type 0 where
  did failed : Effect → Step

-- `RoundOutcome`, as far as the next round reads it
pub record RoundOutcome : Type 0 where
  pub round_num : ℕ
  pub decisions : Decisions
  pub applied_shocks : List Text
