-- ===== src/Sessions/World/Apart.antt =====
-- A live run and a replay never overlap.
use alpha_swarm.Prelude.{ℕ, ◌≡◌, refl, Bool, true, false, ◌&&◌, List, [], ◌∷◌, arith}
use alpha_swarm.State.Store.{StateStore}
use alpha_swarm.Sessions.Replay.{
  no_replay, Pending, nothing, start_read, round_read, is_active, start_replay, advance, seek,
  read_done, stop_replay,
}
use alpha_swarm.Sessions.Simulation.{
  RunTask, no_task, in_progress, ended, idle_manager, start_simulation, end_run, on_task_done,
  inject_shock, consume_shock,
}
use alpha_swarm.Sessions.World.{World, Event, sim_start, step, run}

-- whether the run's task exists
abbrev pub has_run : RunTask → Bool
has_run no_task = false
has_run in_progress = true
has_run (ended end) = true

abbrev is_start : Pending → Bool
is_start nothing = false
is_start (start_read cycle_id signals) = true
is_start (round_read round_num) = false

-- The lock, the flag and the task of a run come and go together, and a replay that is active or on
-- its way excludes them; a pending start is one that is on its way.
record AreApart (w : World) : Type 0 where
  lock : w.sim.locked ≡ w.sim.is_running
  task : has_run w.sim.task ≡ w.sim.is_running
  apart : (w.sim.is_running && is_active w.replay) ≡ false
  starting : w.replay.starting ≡ is_start w.replay.pending

step-AreApart : (now fresh : ℕ) (e : Event) (w : World) → AreApart w → AreApart (step now fresh e w)
unfolding step start_simulation end_run on_task_done inject_shock consume_shock start_replay advance
    seek read_done stop_replay is_active
step-AreApart now fresh (sim_start busy) w h = ground arith
step-AreApart now fresh _ w h = ground arith

run-AreApart : (events : List (ℕ × ℕ × Event)) (w : World) → AreApart w → AreApart (run events w)
unfolding run
run-AreApart [] w h = h
run-AreApart ((now, fresh, e) ∷ rest) w h = run-AreApart rest _ (step-AreApart now fresh e w h)

-- Whatever the routes, the run and the graph reads do, in whatever order they interleave: a live run
-- and an active or starting replay never exist together, and the manager's lock is held exactly
-- while a run is marked running, which is exactly while its task is there or its callback is due.
pub never_both :
    (store : StateStore) (events : List (ℕ × ℕ × Event))
    → let w = run events (record { sim = idle_manager store; replay = no_replay }) in
      ((w.sim.is_running && is_active w.replay) ≡ false)
      × (w.sim.locked ≡ w.sim.is_running)
      × (has_run w.sim.task ≡ w.sim.is_running)
unfolding is_active
never_both store events =
    let h =
      run-AreApart events (record { sim = idle_manager store; replay = no_replay })
        (record { lock = refl; task = refl; apart = refl; starting = refl }) in
    (h.apart, h.lock, h.task)
