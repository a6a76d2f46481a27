-- ===== src/Sessions/Simulation.antt =====
-- web/simulation_manager.py: `SimulationManager`, beside the store that it writes. `start` takes a
-- free lock and writes to the store without giving up control, so it is one step. The run itself is
-- a task: it ends in one step, and its done callback runs in a later one.
use Prim.Native.String.{String}
use alpha_swarm.Prelude.{
  ℕ, ◌+◌, ◌-◌, Bool, true, false, ◌||◌, not, Option, none, some, is_some, ltb, if◌then◌else◌,
}
use alpha_swarm.State.Types.{RunError, SimulationPhase}
use alpha_swarm.State.Store.{
  StateStore, set_last_error, set_pending_shock, set_phase, shock_window_open, round_of_phase,
}

-- How the task of a run ends.
pub data RunEnd : Type 0 where
  finished : String → RunEnd
  cancelled : RunEnd
  failed : RunError → RunEnd

-- `_task`: none, running, or ended with its done callback still to run.
pub data RunTask : Type 0 where
  no_task in_progress : RunTask
  ended : RunEnd → RunTask

pub record SimulationManager : Type 0 where
  pub locked : Bool
  pub is_running : Bool
  pub task : RunTask
  pub pending_shock : Option String
  pub last_cycle_id : Option String
  -- the post-run pipeline tasks that are not done
  pub post_run : ℕ
  pub store : StateStore

abbrev pub idle_manager : StateStore → SimulationManager
idle_manager store = record {
  locked = false;
  is_running = false;
  task = no_task;
  pending_shock = none;
  last_cycle_id = none;
  post_run = 0;
  store = store;
}

pub data SimReply : Type 0 where
  accepted : SimReply
  replay_active already_running post_run_in_progress : SimReply
  none_running shock_window_closed shock_already_queued : SimReply

-- `start`; the start hook only clears the interview sessions
unfoldable pub start_simulation : Bool → Bool → ℕ → SimulationManager → SimReply × SimulationManager
start_simulation replay_is_active orchestrator_busy fresh m =
    if replay_is_active
    then (replay_active, m)
    else if m.locked
    then (already_running, m)
    else if ltb 0 m.post_run || orchestrator_busy
    then (post_run_in_progress, m)
    else (
      accepted,
      record m {
        locked = true;
        is_running = true;
        pending_shock = none;
        task = in_progress;
        store = set_pending_shock none (fresh + 1) (set_last_error none fresh m.store);
      },
    )

-- `_publish_failure`: the error names the round when the run was in one
abbrev round_if_in_round : Option ℕ → ℕ → Option ℕ
round_if_in_round none round_num = none
round_if_in_round (some k) round_num = some round_num

unfoldable pub publish_failure : RunError → ℕ → StateStore → StateStore
publish_failure err fresh s =
    set_last_error
      (some (record err { round_num = round_if_in_round (round_of_phase s.phase) s.round_num }))
      fresh s

-- The end of `_run`: the handlers reset the phase before the task is done.
unfoldable pub end_run : RunEnd → ℕ → ℕ → SimulationManager → SimulationManager
end_run (finished cycle_id) now fresh m = record m {
  task = ended (finished cycle_id);
  last_cycle_id = some cycle_id;
}
end_run cancelled now fresh m = record m {
  task = ended cancelled;
  store = set_phase SimulationPhase.idle now fresh m.store;
}
end_run (failed err) now fresh m = record m {
  task = ended (failed err);
  store = set_phase SimulationPhase.idle now (fresh + 1) (publish_failure err fresh m.store);
}

-- A successful run with a cycle id starts the post-run pipeline, if there is one.
abbrev trigger : RunEnd → Bool → SimulationManager → SimulationManager
trigger (finished cycle_id) has_pipeline m = record m {
  last_cycle_id = none;
  post_run =
      if is_some m.last_cycle_id
      then (if has_pipeline then m.post_run + 1 else m.post_run)
      else m.post_run;
}
trigger cancelled has_pipeline m = m
trigger (failed err) has_pipeline m = m

-- `_on_task_done`
unfoldable pub on_task_done : RunEnd → Bool → ℕ → SimulationManager → SimulationManager
on_task_done end has_pipeline fresh m = trigger end has_pipeline (record m {
  is_running = false;
  task = no_task;
  pending_shock = none;
  store = set_pending_shock none fresh m.store;
  locked = false;
})

abbrev has_task : RunTask → Bool
has_task no_task = false
has_task in_progress = true
has_task (ended end) = true

-- `stop`: whether the cancellation was requested; the task ends in its own time
unfoldable pub stop_simulation : SimulationManager → SimReply
stop_simulation m = if not m.is_running || not (has_task m.task) then none_running else accepted

unfoldable pub inject_shock : String → ℕ → SimulationManager → SimReply × SimulationManager
inject_shock text fresh m =
    if not m.is_running
    then (none_running, m)
    else if not (shock_window_open m.store)
    then (shock_window_closed, m)
    else if is_some m.pending_shock
    then (shock_already_queued, m)
    else (
      accepted,
      record m { pending_shock = some text; store = set_pending_shock (some text) fresh m.store },
    )

unfoldable pub consume_shock : ℕ → SimulationManager → Option String × SimulationManager
consume_shock fresh m = (
  m.pending_shock,
  record m {
    pending_shock = none;
    store = if is_some m.pending_shock then set_pending_shock none fresh m.store else m.store;
  },
)

-- A post-run pipeline task is done.
abbrev pub post_run_done : SimulationManager → SimulationManager
post_run_done m = record m { post_run = m.post_run - 1 }
