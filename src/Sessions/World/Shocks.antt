-- ===== src/Sessions/World/Shocks.antt =====
-- The shock that is queued for the next round.
use Prim.Native.String.{String}
use alpha_swarm.Prelude.{
  ℕ, ◌≡◌, refl, Bool, true, false, ◌&&◌, not, is_some, none, some, List, [], ◌∷◌, if◌then◌else◌,
  arith,
}
use alpha_swarm.State.Types.{SimulationPhase}
use alpha_swarm.State.Store.{
  StateStore, set_phase, enter_phase, clear_run, set_last_error, set_pending_shock,
  shock_window_open,
}
use alpha_swarm.Sessions.Replay.{no_replay}
use alpha_swarm.Sessions.Simulation.{
  SimulationManager, SimReply, accepted, idle_manager, start_simulation, end_run, publish_failure,
  on_task_done, inject_shock, consume_shock,
}
use alpha_swarm.Sessions.World.{World, Event, sim_start, run, step}

-- The store shows the shock that the manager holds, and without a run there is none.
record IsMirrored (w : World) : Type 0 where
  mirror : w.sim.store.pending_shock ≡ w.sim.pending_shock
  only_running : (if w.sim.is_running then none else w.sim.pending_shock) ≡ none

set_phase-pending_shock :
    (p : SimulationPhase) (now fresh : ℕ) (s : StateStore)
    → (set_phase p now fresh s).pending_shock ≡ s.pending_shock
unfolding set_phase enter_phase clear_run
set_phase-pending_shock p now fresh s = ground arith

step-IsMirrored :
    (now fresh : ℕ) (e : Event) (w : World) → IsMirrored w → IsMirrored (step now fresh e w)
unfolding step start_simulation end_run publish_failure on_task_done inject_shock consume_shock
    set_last_error set_pending_shock
step-IsMirrored now fresh (sim_start busy) w h = ground arith
step-IsMirrored now fresh (Event.run_phase p) w h =
    ground (arith, set_phase-pending_shock p now fresh w.sim.store)
step-IsMirrored now fresh (Event.run_ends end) w h = grind (arith, set_phase-pending_shock)
step-IsMirrored now fresh _ w h = ground arith

run-IsMirrored :
    (events : List (ℕ × ℕ × Event)) (w : World) → IsMirrored w → IsMirrored (run events w)
unfolding run
run-IsMirrored [] w h = h
run-IsMirrored ((now, fresh, e) ∷ rest) w h =
    run-IsMirrored rest _ (step-IsMirrored now fresh e w h)

-- Over every interleaving, the shock that the screen shows is the one that the next round will take,
-- and when no run is marked running there is none: none outlives its run or reaches the next one.
pub shock_is_mirrored :
    (store : StateStore) (events : List (ℕ × ℕ × Event))
    → store.pending_shock ≡ none
    → let w = run events (record { sim = idle_manager store; replay = no_replay }) in
      (w.sim.store.pending_shock ≡ w.sim.pending_shock)
      × ((if w.sim.is_running then none else w.sim.store.pending_shock) ≡ none)
shock_is_mirrored store events start =
    mirrored (run events (record { sim = idle_manager store; replay = no_replay }))
      (run-IsMirrored events _ (record { mirror = start; only_running = refl }))
  where
    mirrored :
        (w : World)
        → IsMirrored w
        → (w.sim.store.pending_shock ≡ w.sim.pending_shock)
          × ((if w.sim.is_running then none else w.sim.store.pending_shock) ≡ none)
    mirrored w h = ground arith

abbrev pub is_accepted : SimReply → Bool
is_accepted accepted = true
is_accepted _ = false

-- A shock is accepted exactly when a run is marked running, the window is open and none is queued.
-- The next round takes the accepted text, and otherwise what was queued before; no round takes it a
-- second time; and a refused shock changes nothing.
pub shock_taken_once :
    (text : String) (f1 f2 f3 : ℕ) (m : SimulationManager)
    → let (reply, m1) = inject_shock text f1 m in
      let (first, m2) = consume_shock f2 m1 in
      let free = m.is_running && shock_window_open m.store && not (is_some m.pending_shock) in
      (is_accepted reply ≡ free)
      × (first ≡ (if free then some text else m.pending_shock))
      × ((consume_shock f3 m2).0 ≡ none)
      × ((if free then m else m1) ≡ m)
unfolding inject_shock consume_shock set_pending_shock
shock_taken_once text f1 f2 f3 m = ground arith
