-- ===== src/State/Tests.antt =====
-- The store at concrete inputs.
use alpha_swarm.Prelude.{◌+◌, ◌≡◌, refl, some, List, [], ◌∷◌, ltb, take, arith}
use alpha_swarm.State.Types.{SignalType, SimulationPhase, thinking, RationaleEntry}
use alpha_swarm.State.Store.{
  StateStore, empty, set_phase, set_num_rounds, shock_window_open, window_tokens,
}
use alpha_swarm.State.Store.Feed.{Pushes, push_all, stamped_onto, CountsDown, feed_is_newest}
use alpha_swarm.State.Store.Windows.{Calls, recent, record_all, window_counts_recent}
use alpha_swarm.State.Replay.{newest_last, snapshot}
use alpha_swarm.State.Store.Phases.{
  ids, AgentWrite, decide, phase, write_all, roster_is_stable, seeding_forgets_run, position,
  shock_window_follows_phase,
}

abbrev entry : RationaleEntry
entry = record {
  agent_id = "quants_01";
  signal = SignalType.buy;
  rationale = "cheap";
  round_num = 1;
  seq = 0;
  ts = 0;
}

abbrev pushes : Pushes
pushes = (entry, 10, 2) ∷ (entry, 20, 3) ∷ []

abbrev store : StateStore
store = record (empty 1) {
  agent_states = ("quants_01", thinking) ∷ ("whales_01", thinking) ∷ [];
  rationale_seq = 7;
  rationale_window = [];
  token_window = [];
}

feed_is_newest_example :
    let s' = push_all pushes store in
    let feed = take 50 (stamped_onto 7 pushes []) in
    ((snapshot 30 s').0.rationale_entries ≡ newest_last feed)
    × CountsDown (7 + 2) feed
    × (s'.rationale_seq ≡ 7 + 2)
feed_is_newest_example = feed_is_newest pushes 30 store tt (omega arith)

abbrev calls : Calls
calls = (1000, 40) ∷ (8000, 30) ∷ (12000, 20) ∷ []

window_counts_recent_example :
    (window_tokens 13000 (record_all calls 5 store)).0 ≡ recent 13000 calls
window_counts_recent_example =
    window_counts_recent calls 5 12000 13000 store refl (omega arith) (omega arith)

abbrev writes : List AgentWrite
writes =
    phase SimulationPhase.round_1
    ∷ decide "whales_01" SignalType.sell 800
    ∷ phase SimulationPhase.round_2
    ∷ []

roster_is_stable_example :
    ids (write_all writes 100 9 store).agent_states ≡ "quants_01" ∷ "whales_01" ∷ []
roster_is_stable_example = roster_is_stable writes 100 9 store (refl, tt)

-- The store with the remains of a run: a clock, a cycle and shocks.
abbrev used : StateStore
used = record store {
  phase = SimulationPhase.complete;
  start_time = some 5;
  final_elapsed = some 900;
  cycle_id = some "c1";
  edges_version = 2;
  applied_shocks = record { text = "rumour"; round_num = 2 } ∷ [];
}

seeding_forgets_run_example :
    set_phase SimulationPhase.seeding 50 9 used ≡ set_phase SimulationPhase.seeding 50 9 store
seeding_forgets_run_example = seeding_forgets_run 50 9 used store (record {
  agents = refl;
  round_num = refl;
  governor_metrics = refl;
  last_error = refl;
  jobs = refl;
  num_rounds = refl;
  pending_shock = refl;
  rationale_seq = refl;
})

shock_window_follows_phase_example :
    shock_window_open (set_phase SimulationPhase.round_2 60 9 (set_num_rounds 2 8 used))
    ≡ ltb (position SimulationPhase.round_2) 2
shock_window_follows_phase_example =
    shock_window_follows_phase 2 SimulationPhase.round_2 60 8 9 used (omega arith) (omega arith)
