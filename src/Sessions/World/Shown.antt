-- ===== src/Sessions/World/Shown.antt =====
-- A replay shows one round at a time.
use Prim.Native.String.{String}
use alpha_swarm.Prelude.{ℕ, ◌≡◌, Option, none, some, List, [], ◌∷◌, arith}
use alpha_swarm.State.Store.{StateStore}
use alpha_swarm.State.Replay.{
  ReplayStore, open_replay, set_replay_round, set_replay_summaries, set_rationale_entries,
}
use alpha_swarm.Sessions.Replay.{
  RoundRows, Pending, nothing, start_read, round_read, no_replay, is_active, start_replay, advance,
  seek, read_done, stop_replay, show,
}
use alpha_swarm.Sessions.Simulation.{idle_manager}
use alpha_swarm.Sessions.World.{
  World, Event, sim_start, shock, run_phase, run_takes_shock, run_ends, run_callback, pipeline_done,
  replay_start, replay_advance, replay_stop, replay_seek, replay_read, step,
}

module _ (graph : String → ℕ → RoundRows) where
  -- The rows that the graph holds for the read that is pending.
  abbrev rows_for : Pending → Option String → Option RoundRows
  rows_for nothing cycle_id = none
  rows_for (start_read c signals) cycle_id = some (graph c 1)
  rows_for (round_read r) none = none
  rows_for (round_read r) (some c) = some (graph c r)

  -- A read that succeeds brings what the graph holds for the pending read.
  abbrev pub answered : Event → World → Event
  answered (replay_read none) w = replay_read none
  answered (replay_read (some _)) w = replay_read (rows_for w.replay.pending w.replay.cycle_id)
  answered e w = e

  abbrev pub run_on : List (ℕ × ℕ × Event) → World → World
  run_on [] w = w
  run_on ((now, fresh, e) ∷ rest) w = run_on rest (step now fresh (answered e w) w)

  -- What is on screen: all of one round of one cycle, as the graph holds it.
  abbrev pub Shows : Option ReplayStore → Option String → ℕ → Type 0
  Shows none none r = Unit
  Shows none (some c) r = ⊥
  Shows (some s) none r = ⊥
  Shows (some s) (some c) r =
      (s.cycle_id ≡ c)
      × (s.current_round ≡ r)
      × (s.bracket_summaries ≡ (graph c r).bracket_summaries)
      × (s.rationale_entries ≡ (graph c r).rationale_entries)

  step-Shows :
      (now fresh : ℕ) (e : Event) (w : World)
      → Shows w.replay.store w.replay.cycle_id w.replay.round_num
      → let w' = step now fresh (answered e w) w in
        Shows w'.replay.store w'.replay.cycle_id w'.replay.round_num
  unfolding step start_replay advance seek read_done stop_replay show open_replay set_replay_round
      set_replay_summaries set_rationale_entries is_active
  step-Shows now fresh (replay_start cycle_id signals) w h = ground arith
  step-Shows now fresh replay_advance w h = ground arith
  step-Shows now fresh replay_stop w h = ground arith
  step-Shows now fresh (replay_seek r) w h = ground arith
  step-Shows now fresh (replay_read none) w h = ground arith
  step-Shows now fresh (replay_read (some rows)) w h = ground arith
  step-Shows now fresh (run_phase p) w h = ground arith
  step-Shows now fresh run_takes_shock w h = ground arith
  step-Shows now fresh (run_ends end) w h = ground arith
  step-Shows now fresh (run_callback p) w h = ground arith
  step-Shows now fresh (sim_start b) w h = h
  step-Shows now fresh (shock text) w h = h
  step-Shows now fresh pipeline_done w h = h

  run_on-Shows :
      (events : List (ℕ × ℕ × Event)) (w : World)
      → Shows w.replay.store w.replay.cycle_id w.replay.round_num
      → let w' = run_on events w in Shows w'.replay.store w'.replay.cycle_id w'.replay.round_num
  run_on-Shows [] w h = h
  run_on-Shows ((now, fresh, e) ∷ rest) w h = run_on-Shows rest _ (step-Shows now fresh e w h)

  -- Frames never mix two rounds. Whatever requests, failed reads and runs interleave, if a replay
  -- store is there, its round is the manager's round, and its bracket summaries and rationale entries
  -- are both the ones that the graph holds for that round of the manager's cycle.
  pub frames_show_one_round :
      (store : StateStore) (events : List (ℕ × ℕ × Event))
      → let w = run_on events (record { sim = idle_manager store; replay = no_replay }) in
        Shows w.replay.store w.replay.cycle_id w.replay.round_num
  frames_show_one_round store events = run_on-Shows events _ tt
