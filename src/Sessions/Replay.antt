-- ===== src/Sessions/Replay.antt =====
-- web/replay_manager.py: `ReplayManager`. `start`, `advance` and `seek` hold the manager's lock over
-- their one await, the read of a round; so each is a first half, up to the read, and a second half
-- that the read's result starts. In between the lock keeps the other operations out.
use Prim.Native.String.{String}
use alpha_swarm.Prelude.{
  ℕ, ◌+◌, min, max, Bool, true, false, ◌||◌, Option, none, some, is_some, List, [], ◌∷◌, leb, ◌==◌,
  if◌then◌else◌,
}
use alpha_swarm.State.Types.{BracketSummary, RationaleEntry, SignalType}
use alpha_swarm.State.Replay.{
  Signals, ReplayStore, open_replay, set_replay_round, set_replay_summaries, set_rationale_entries,
}

-- `_RoundRows`
pub record RoundRows : Type 0 where
  pub bracket_summaries : List BracketSummary
  pub rationale_entries : List RationaleEntry

-- A row of the rationale read, and `_rationale_entries_from_rows`, which numbers them from 1.
pub record RationaleRow : Type 0 where
  pub agent_id : String
  pub signal : SignalType
  pub rationale : String
  pub round_num : ℕ

abbrev pub numbered_from : ℕ → List RationaleRow → List RationaleEntry
numbered_from seq [] = []
numbered_from seq (row ∷ rest) =
    record {
      agent_id = row.agent_id;
      signal = row.signal;
      rationale = row.rationale;
      round_num = row.round_num;
      seq = seq;
      ts = 0;
    }
    ∷ numbered_from (seq + 1) rest

unfoldable pub rationale_entries_from_rows : List RationaleRow → List RationaleEntry
rationale_entries_from_rows rows = numbered_from 1 rows

-- What the operation that holds the lock is waiting for.
pub data Pending : Type 0 where
  nothing : Pending
  start_read : String → Signals → Pending
  round_read : ℕ → Pending

pub record ReplayManager : Type 0 where
  pub store : Option ReplayStore
  pub cycle_id : Option String
  pub round_num : ℕ
  pub max_rounds : ℕ
  pub starting : Bool
  pub pending : Pending

-- `__init__`
abbrev pub no_replay : ReplayManager
no_replay = record {
  store = none;
  cycle_id = none;
  round_num = 0;
  max_rounds = 3;
  starting = false;
  pending = nothing;
}

-- the property `is_active`
unfoldable pub is_active : ReplayManager → Bool
is_active m = is_some m.store || m.starting

pub data ReplayReply : Type 0 where
  reading : ReplayReply
  shown : ℕ → ReplayReply
  done : ReplayReply
  already_active simulation_active no_replay_active : ReplayReply

-- `max((rnd for (_, rnd) in signals), default=1)`
abbrev max_round_from : ℕ → Signals → ℕ
max_round_from best [] = best
max_round_from best (((agent_id, rnd), state) ∷ rest) = max_round_from (max best rnd) rest

unfoldable pub max_round : Signals → ℕ
max_round [] = 1
max_round (((agent_id, rnd), state) ∷ rest) = max_round_from rnd rest

-- `start`, up to the read
unfoldable pub start_replay : String → Signals → Bool → ReplayManager → ReplayReply × ReplayManager
start_replay cycle_id signals sim_running m =
    if is_active m
    then (already_active, m)
    else if sim_running
    then (simulation_active, m)
    else (reading, record m { starting = true; pending = start_read cycle_id signals })

abbrev with_session :
    Option ReplayStore
    → Option String
    → (ReplayReply × ReplayManager)
    → ReplayManager
    → ReplayReply × ReplayManager
with_session none cycle_id go m = (no_replay_active, m)
with_session (some store) none go m = (no_replay_active, m)
with_session (some store) (some cycle_id) go m = go

-- `advance`, up to the read
unfoldable pub advance : ReplayManager → ReplayReply × ReplayManager
advance m =
    with_session m.store m.cycle_id
      (if leb m.max_rounds m.round_num
        then (shown m.round_num, m)
        else (reading, record m { pending = round_read (m.round_num + 1) }))
      m

-- `seek`, up to the read; a negative round clamps to 1, as 0 does
unfoldable pub seek : ℕ → ReplayManager → ReplayReply × ReplayManager
seek round_num m =
    let target = min (max round_num 1) m.max_rounds in
    with_session m.store m.cycle_id
      (if target == m.round_num
        then (shown target, m)
        else (reading, record m { pending = round_read target }))
      m

-- `_show`: three writes in one step; `fresh` is the version counter's next value
unfoldable pub show : ℕ → ReplayStore → ℕ → RoundRows → ReplayStore
show fresh store round_num rows = set_rationale_entries rows.rationale_entries (fresh + 2) (
    set_replay_summaries rows.bracket_summaries (fresh + 1)
      (set_replay_round round_num fresh store))

abbrev show_in : Option ReplayStore → ℕ → ℕ → RoundRows → Option ReplayStore
show_in none fresh round_num rows = none
show_in (some store) fresh round_num rows = some (show fresh store round_num rows)

-- The second halves: a read that raised changes nothing on screen, and `finally` ends a start.
abbrev resume : Pending → ℕ → Option RoundRows → ReplayManager → ReplayReply × ReplayManager
resume nothing fresh rows m = (done, m)
resume (start_read cycle_id signals) fresh none m =
    (done, record m { starting = false; pending = nothing })
resume (start_read cycle_id signals) fresh (some rows) m = (
  shown 1,
  record {
    store = some (show (fresh + 1) (open_replay cycle_id signals (max_round signals) fresh) 1 rows);
    cycle_id = some cycle_id;
    round_num = 1;
    max_rounds = max_round signals;
    starting = false;
    pending = nothing;
  },
)
resume (round_read round_num) fresh none m = (done, record m { pending = nothing })
resume (round_read round_num) fresh (some rows) m = (
  shown round_num,
  record m {
    store = show_in m.store fresh round_num rows;
    round_num = round_num;
    pending = nothing;
  },
)

unfoldable pub read_done : ℕ → Option RoundRows → ReplayManager → ReplayReply × ReplayManager
read_done fresh rows m = resume m.pending fresh rows m

-- `stop`
unfoldable pub stop_replay : ReplayManager → ReplayReply × ReplayManager
stop_replay m = (done, record m { store = none; cycle_id = none; round_num = 0; max_rounds = 3 })

-- Whether the lock is free.
abbrev pub is_free : Pending → Bool
is_free nothing = true
is_free (start_read cycle_id signals) = false
is_free (round_read round_num) = false
