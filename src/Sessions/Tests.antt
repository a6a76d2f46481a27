-- ===== src/Sessions/Tests.antt =====
-- The managers at concrete inputs.
use Prim.Native.String.{String}
use alpha_swarm.Prelude.{
  ℕ, ◌≡◌, refl, true, false, ◌&&◌, not, is_some, none, some, List, [], ◌∷◌, if◌then◌else◌,
}
use alpha_swarm.State.Types.{SimulationPhase}
use alpha_swarm.State.Store.{StateStore, empty, shock_window_open}
use alpha_swarm.Sessions.Replay.{RoundRows, no_replay, is_active}
use alpha_swarm.Sessions.Simulation.{
  SimulationManager, RunEnd, idle_manager, inject_shock, consume_shock,
}
use alpha_swarm.Sessions.World.{
  Event, sim_start, shock, run_phase, run_takes_shock, run_ends, run_callback, replay_start,
  replay_advance, replay_read, run,
}
use alpha_swarm.Sessions.World.Apart.{has_run, never_both}
use alpha_swarm.Sessions.World.Shocks.{shock_is_mirrored, is_accepted, shock_taken_once}
use alpha_swarm.Sessions.World.Shown.{Shows, run_on, frames_show_one_round}

abbrev store : StateStore
store = record (empty 1) { pending_shock = none }

abbrev rows : RoundRows
rows = record { bracket_summaries = []; rationale_entries = [] }

abbrev story : List (ℕ × ℕ × Event)
story =
    (1, 2, sim_start false)
    ∷ (2, 4, run_phase SimulationPhase.seeding)
    ∷ (3, 5, shock "rates rise")
    ∷ (4, 6, replay_start "c1" [])
    ∷ (5, 7, run_takes_shock)
    ∷ (6, 9, run_ends (RunEnd.finished "c2"))
    ∷ (7, 10, run_callback true)
    ∷ (8, 11, replay_start "c2" ((("quants_01", 2), record { signal = none; confidence = 0 }) ∷ []))
    ∷ (9, 12, sim_start false)
    ∷ (10, 13, replay_read (some rows))
    ∷ (11, 17, replay_advance)
    ∷ (12, 18, replay_read none)
    ∷ []

never_both_example :
    let w = run story (record { sim = idle_manager store; replay = no_replay }) in
    ((w.sim.is_running && is_active w.replay) ≡ false)
    × (w.sim.locked ≡ w.sim.is_running)
    × (has_run w.sim.task ≡ w.sim.is_running)
never_both_example = never_both store story

shock_is_mirrored_example :
    let w = run story (record { sim = idle_manager store; replay = no_replay }) in
    (w.sim.store.pending_shock ≡ w.sim.pending_shock)
    × ((if w.sim.is_running then none else w.sim.store.pending_shock) ≡ none)
shock_is_mirrored_example = shock_is_mirrored store story refl

abbrev running : SimulationManager
running = record (idle_manager (record store { phase = SimulationPhase.round_1 })) {
  is_running = true;
  locked = true;
}

shock_taken_once_example :
    let (reply, m1) = inject_shock "rates rise" 5 running in
    let (first, m2) = consume_shock 6 m1 in
    let free =
      running.is_running
      && shock_window_open running.store
      && not (is_some running.pending_shock) in
    (is_accepted reply ≡ free)
    × (first ≡ (if free then some "rates rise" else running.pending_shock))
    × ((consume_shock 7 m2).0 ≡ none)
    × ((if free then running else m1) ≡ running)
shock_taken_once_example = shock_taken_once "rates rise" 5 6 7 running

abbrev graph : String → ℕ → RoundRows
graph cycle_id round_num = rows

frames_show_one_round_example :
    let w = run_on graph story (record { sim = idle_manager store; replay = no_replay }) in
    Shows graph w.replay.store w.replay.cycle_id w.replay.round_num
frames_show_one_round_example = frames_show_one_round graph store story
