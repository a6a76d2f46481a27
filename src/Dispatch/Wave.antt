-- ===== src/Dispatch/Wave.antt =====
-- batch_dispatcher.py: the tasks of a wave (`_safe_agent_inference`) and the end of `dispatch_wave`. A
-- task is cut where it awaits: the inference, the write of the agent's state, the push to the feed. The
-- TaskGroup lets the others run on between two of these, and may cancel a task that has not returned.
-- The task that awaits the wave is not cancelled itself, and no KeyboardInterrupt comes.
pub mod Stands
pub mod Slots
pub mod Keeps
pub mod Accounts
use Prim.Native.String.{String}
use alpha_swarm.Prelude.{
  ℕ, zero, suc, ◌+◌, ◌-◌, Bool, true, false, Option, none, some, List, [], ◌∷◌, ◌++◌, ltb,
  if◌then◌else◌, length, count,
}
use alpha_swarm.Prelude.Texts.{Text}
use alpha_swarm.State.Types.{SignalType, RationaleEntry}
use alpha_swarm.State.Store.{StateStore, update_agent_state, push_rationale}
use alpha_swarm.Dispatch.{AgentDecision, ErrorKind, failure_decision, HardStop, Call}

-- Where a task stands: in its inference, with a decision to write, with a decision whose rationale is
-- to be pushed, returned, stopped by a hard stop, or cancelled.
pub data Task : Type 0 where
  running was_cancelled : Task
  resolved streamed returned : AgentDecision → Task
  stopped : HardStop → Task

pub record Slot : Type 0 where
  pub call : Call
  pub task : Task

pub record Wave : Type 0 where
  pub round_num : ℕ
  pub slots : List Slot
  pub store : Option StateStore
  -- the hard stops, the first to be raised first
  pub errors : List HardStop

-- What happens to a task. The push of a rationale fails without an effect, or comes at a time; `fresh`
-- is the next version of a store.
pub data Action : Type 0 where
  infers : AgentDecision → Action
  fails : Text → Action
  stops : HardStop → Action
  writes : ℕ → Action
  pushes : ℕ → ℕ → Action
  push_fails cancels : Action

abbrev pub Event : Type 0
Event = ℕ × Action

-- `decision.signal is SignalType.PARSE_ERROR`
abbrev pub is_parse_error : SignalType → Bool
is_parse_error SignalType.parse_error = true
is_parse_error SignalType.buy = false
is_parse_error SignalType.sell = false
is_parse_error SignalType.hold = false

-- Without a store the task returns at once.
abbrev pub to_write : Option StateStore → AgentDecision → Task
to_write none d = returned d
to_write (some s) d = resolved d

abbrev pub to_push : AgentDecision → Task
to_push d = if is_parse_error d.signal then returned d else streamed d

-- The task after an action; one that does not fit leaves it as it is.
abbrev pub next : Option StateStore → String → Task → Action → Task
next store agent_id running (infers d) = to_write store d
next store agent_id running (fails e) = to_write store (failure_decision agent_id e)
next store agent_id running (stops h) = stopped h
next store agent_id running cancels = was_cancelled
next store agent_id (resolved d) (writes fresh) = to_push d
next store agent_id (resolved d) cancels = was_cancelled
next store agent_id (streamed d) (pushes wall fresh) = returned d
next store agent_id (streamed d) push_fails = returned d
next store agent_id (streamed d) cancels = was_cancelled
next store agent_id task _ = task

abbrev on_store : (StateStore → StateStore) → Option StateStore → Option StateStore
on_store f none = none
on_store f (some s) = some (f s)

abbrev pub raised : Task → Action → List HardStop
raised running (stops h) = h ∷ []
raised _ _ = []

abbrev pub slot_at : List Slot → ℕ → Option Slot
slot_at [] i = none
slot_at (s ∷ rest) zero = some s
slot_at (s ∷ rest) (suc i) = slot_at rest i

abbrev pub put_slot : List Slot → ℕ → Slot → List Slot
put_slot [] i s = []
put_slot (t ∷ rest) zero s = s ∷ rest
put_slot (t ∷ rest) (suc i) s = t ∷ put_slot rest i s

module _ (sanitize : Text → String) where
  -- The `RationaleEntry` of a decision; the store stamps it.
  abbrev pub entry_of : ℕ → String → AgentDecision → RationaleEntry
  entry_of round_num agent_id d = record {
    agent_id = agent_id;
    signal = d.signal;
    rationale = sanitize d.rationale;
    round_num = round_num;
    seq = 0;
    ts = 0;
  }

  -- What an action writes to the store.
  abbrev pub write : ℕ → String → Task → Action → Option StateStore → Option StateStore
  write round_num agent_id (resolved d) (writes fresh) store =
      on_store (update_agent_state agent_id d.signal d.confidence fresh) store
  write round_num agent_id (streamed d) (pushes wall fresh) store =
      on_store (push_rationale (entry_of round_num agent_id d) wall fresh) store
  write round_num agent_id _ _ store = store

  abbrev pub act : ℕ → Action → Wave → Option Slot → Wave
  act i action w none = w
  act i action w (some slot) =
      let agent_id = slot.call.persona.agent_id in
      record w {
        slots = put_slot w.slots i (record slot { task = next w.store agent_id slot.task action });
        store = write w.round_num agent_id slot.task action w.store;
        errors = w.errors ++ raised slot.task action;
      }

  unfoldable pub step : Wave → Event → Wave
  step w (i, action) = act i action w (slot_at w.slots i)

  unfoldable pub run : Wave → List Event → Wave
  run w [] = w
  run w (e ∷ rest) = run (step w e) rest

abbrev pub waiting : List Call → List Slot
waiting [] = []
waiting (c ∷ rest) = record { call = c; task = running } ∷ waiting rest

-- The tasks are created, none has run.
unfoldable pub start_wave : ℕ → List Call → Option StateStore → Wave
start_wave round_num calls store = record {
  round_num = round_num;
  slots = waiting calls;
  store = store;
  errors = [];
}

-- What the tasks have come to: one is not over yet, one was cancelled, or all have returned.
pub data Tasks : Type 0 where
  unfinished some_cancelled : Tasks
  all_returned : List AgentDecision → Tasks

abbrev pub add_task : Task → Tasks → Tasks
add_task running rest = unfinished
add_task (resolved d) rest = unfinished
add_task (streamed d) rest = unfinished
add_task (stopped h) rest = rest
add_task was_cancelled unfinished = unfinished
add_task was_cancelled some_cancelled = some_cancelled
add_task was_cancelled (all_returned ds) = some_cancelled
add_task (returned d) unfinished = unfinished
add_task (returned d) some_cancelled = some_cancelled
add_task (returned d) (all_returned ds) = all_returned (d ∷ ds)

abbrev pub collect : List Slot → Tasks
collect [] = all_returned []
collect (s ∷ rest) = add_task s.task (collect rest)

abbrev names_inference : Option ErrorKind → Bool
names_inference none = false
names_inference (some ErrorKind.inference) = true
names_inference (some ErrorKind.parse) = false
names_inference (some ErrorKind.truncated) = false

abbrev pub is_inference : AgentDecision → Bool
is_inference d = names_inference d.error_kind

-- How the wave ends: a bare hard stop, a CancelledError, or the decisions and the controller.
pub data WaveEnd (C : Type 0) : Type 0 where
  raises : HardStop → WaveEnd C
  cancelled : WaveEnd C
  results : List AgentDecision → C → WaveEnd C

module _ {C : Type 0} (report_wave_failures : ℕ → ℕ → C → C) where
  -- The controller hears inference failures only, and only if there are any.
  abbrev pub reported : List AgentDecision → C → C
  reported ds governor =
      let failures = count is_inference ds in
      if ltb 0 failures
      then report_wave_failures (length ds - failures) failures governor
      else governor

  abbrev pub settled : List HardStop → Tasks → C → Option (WaveEnd C)
  settled errors unfinished governor = none
  settled (h ∷ more) (all_returned ds) governor = some (raises h)
  settled (h ∷ more) some_cancelled governor = some (raises h)
  settled [] some_cancelled governor = some cancelled
  settled [] (all_returned ds) governor = some (results ds (reported ds governor))

  -- The end of `dispatch_wave`, once every task is over.
  unfoldable pub end_wave : Wave → C → Option (WaveEnd C)
  end_wave w governor = settled w.errors (collect w.slots) governor
