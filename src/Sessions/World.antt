-- ===== src/Sessions/World.antt =====
-- A simulation manager and a replay manager over one live store, interleaved at their awaits.
pub mod Apart
pub mod Shocks
pub mod Shown
use Prim.Native.String.{String}
use alpha_swarm.Prelude.{ℕ, ◌+◌, ◌≡◌, Bool, Option, none, some, List, [], ◌∷◌}
use alpha_swarm.State.Types.{SimulationPhase}
use alpha_swarm.State.Store.{set_phase}
use alpha_swarm.State.Replay.{Signals}
use alpha_swarm.Sessions.Replay.{
  ReplayManager, Pending, nothing, start_read, round_read, RoundRows, is_active, start_replay,
  advance, seek, read_done, stop_replay,
}
use alpha_swarm.Sessions.Simulation.{
  SimulationManager, RunTask, no_task, in_progress, ended, RunEnd, start_simulation, end_run,
  on_task_done, inject_shock, consume_shock, post_run_done,
}

pub record World : Type 0 where
  pub sim : SimulationManager
  pub replay : ReplayManager

pub data Event : Type 0 where
  -- requests of the simulation routes
  sim_start : Bool → Event
  shock : String → Event
  -- the run: it changes the phase, takes the shock, ends; then its callback runs
  run_phase : SimulationPhase → Event
  run_takes_shock : Event
  run_ends : RunEnd → Event
  run_callback : Bool → Event
  pipeline_done : Event
  -- requests of the replay routes, and the end of a read
  replay_start : String → Signals → Event
  replay_advance replay_stop : Event
  replay_seek : ℕ → Event
  replay_read : Option RoundRows → Event

abbrev if_running : RunTask → World → World → World
if_running in_progress w w' = w'
if_running no_task w w' = w
if_running (ended end) w w' = w

abbrev if_ended : RunTask → World → (RunEnd → World) → World
if_ended in_progress w f = w
if_ended no_task w f = w
if_ended (ended end) w f = f end

-- An operation of the replay manager waits for the lock: it is no step while a read is pending.
abbrev if_free : Pending → World → World → World
if_free nothing w w' = w'
if_free (start_read cycle_id signals) w w' = w
if_free (round_read round_num) w w' = w

-- One step. `fresh` is the version counter's next value.
unfoldable pub step : ℕ → ℕ → Event → World → World
step now fresh (sim_start orchestrator_busy) w = record w {
  sim = (start_simulation (is_active w.replay) orchestrator_busy fresh w.sim).1;
}
step now fresh (shock text) w = record w { sim = (inject_shock text fresh w.sim).1 }
step now fresh (run_phase p) w =
    if_running w.sim.task w
      (record w { sim = record w.sim { store = set_phase p now fresh w.sim.store } })
step now fresh run_takes_shock w =
    if_running w.sim.task w (record w { sim = (consume_shock fresh w.sim).1 })
step now fresh (run_ends end) w =
    if_running w.sim.task w (record w { sim = end_run end now fresh w.sim })
step now fresh (run_callback has_pipeline) w =
    if_ended w.sim.task w (λ end. record w { sim = on_task_done end has_pipeline fresh w.sim })
step now fresh pipeline_done w = record w { sim = post_run_done w.sim }
step now fresh (replay_start cycle_id signals) w =
    if_free w.replay.pending w
      (record w { replay = (start_replay cycle_id signals w.sim.is_running w.replay).1 })
step now fresh replay_advance w =
    if_free w.replay.pending w (record w { replay = (advance w.replay).1 })
step now fresh replay_stop w =
    if_free w.replay.pending w (record w { replay = (stop_replay w.replay).1 })
step now fresh (replay_seek round_num) w =
    if_free w.replay.pending w (record w { replay = (seek round_num w.replay).1 })
step now fresh (replay_read rows) w = record w { replay = (read_done fresh rows w.replay).1 }

unfoldable pub run : List (ℕ × ℕ × Event) → World → World
run [] w = w
run ((now, fresh, e) ∷ rest) w = run rest (step now fresh e w)
