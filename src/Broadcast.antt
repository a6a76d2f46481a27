-- ===== src/Broadcast.antt =====
-- web/connection_manager.py: `ConnectionManager`, and web/broadcaster.py: the tick and its loop. A frame
-- is its key, with the number of the tick that built it. Times are in milliseconds.
pub mod Clients
pub mod Fresh
mod Tests
use alpha_swarm.Prelude.{
  ℕ, ◌+◌, ◌-◌, Bool, true, false, ◌&&◌, ◌||◌, not, Option, none, some, List, [], ◌∷◌, ◌++◌, ltb,
  leb, ◌==◌, if◌then◌else◌, length,
}

-- `FrameKey`: the version of the frame's source, of the live store, and the connection generation
pub record FrameKey : Type 0 where
  pub source_version : ℕ
  pub live_version : ℕ
  pub generation : ℕ

abbrev pub same_key : FrameKey → FrameKey → Bool
same_key a b =
    (a.source_version == b.source_version)
    && (a.live_version == b.live_version)
    && (a.generation == b.generation)

pub record Frame : Type 0 where
  pub key : FrameKey
  pub serialized_at : ℕ

-- A registered client: its queue, oldest first; the frame that its writer is sending; and the last one
-- that was sent.
pub record Client : Type 0 where
  pub socket : ℕ
  pub queue : List Frame
  pub sending : Option Frame
  pub sent : Option Frame

pub record ConnectionManager : Type 0 where
  pub clients : List Client
  pub generation : ℕ

abbrev pub client_queue_maxsize : ℕ
client_queue_maxsize = 1

-- `connect`, once the socket is accepted; a socket connects once
unfoldable pub connect : ℕ → ConnectionManager → ConnectionManager
connect socket m = record {
  clients = m.clients ++ record { socket = socket; queue = []; sending = none; sent = none } ∷ [];
  generation = m.generation + 1;
}

abbrev pub without : ℕ → List Client → List Client
without socket [] = []
without socket (c ∷ rest) =
    let others = without socket rest in if c.socket == socket then others else c ∷ others

-- `disconnect`, and what the `finally` of `_writer` does when a send fails
unfoldable pub disconnect : ℕ → ConnectionManager → ConnectionManager
disconnect socket m = record m { clients = without socket m.clients }

abbrev drop_oldest : List Frame → List Frame
drop_oldest [] = []
drop_oldest (f ∷ rest) = rest

-- `put_nowait`, and on `QueueFull` the drop of the oldest frame before it
unfoldable pub put_latest : Frame → List Frame → List Frame
put_latest f q =
    if leb client_queue_maxsize (length q) then drop_oldest q ++ f ∷ [] else q ++ f ∷ []

abbrev put_all : Frame → List Client → List Client
put_all f [] = []
put_all f (c ∷ rest) = record c { queue = put_latest f c.queue } ∷ put_all f rest

unfoldable pub broadcast : Frame → ConnectionManager → ConnectionManager
broadcast f m = record m { clients = put_all f m.clients }

-- The writer's `queue.get()`, once it waits for one and a frame is there.
abbrev take_frame : Option Frame → List Frame → Client → Client
take_frame (some g) q c = c
take_frame none [] c = c
take_frame none (f ∷ rest) c = record c { queue = rest; sending = some f }

abbrev finish_send : Option Frame → Client → Client
finish_send none c = c
finish_send (some f) c = record c { sending = none; sent = some f }

abbrev at_socket : ℕ → (Client → Client) → List Client → List Client
at_socket socket f [] = []
at_socket socket f (c ∷ rest) = (if c.socket == socket then f c else c) ∷ at_socket socket f rest

unfoldable pub writer_takes : ℕ → ConnectionManager → ConnectionManager
writer_takes socket m = record m {
  clients = at_socket socket (λ c. take_frame c.sending c.queue c) m.clients;
}

unfoldable pub writer_sent : ℕ → ConnectionManager → ConnectionManager
writer_sent socket m = record m {
  clients = at_socket socket (λ c. finish_send c.sending c) m.clients;
}

-- `BroadcastState`; `last_sent_at` is only read where there is a last key
pub record BroadcastState : Type 0 where
  pub last_key : Option FrameKey
  pub last_sent_at : ℕ
  pub window_started_at : ℕ
  pub ticks : ℕ
  pub serializations : ℕ
  pub skipped_idle : ℕ
  pub skipped_unchanged : ℕ

abbrev pub keepalive : ℕ
keepalive = 1000

abbrev pub stats_interval : ℕ
stats_interval = 60000

-- What a tick reads: the version of the live store, the replay's version once it has a store, and
-- whether serializing works.
pub record Sources : Type 0 where
  pub live_version : ℕ
  pub replay_version : Option ℕ
  pub serializes : Bool

abbrev source_version : Option ℕ → ℕ → ℕ
source_version none live = live
source_version (some replay) live = replay

unfoldable pub frame_key : Sources → ℕ → FrameKey
frame_key src generation = record {
  source_version = source_version src.replay_version src.live_version;
  live_version = src.live_version;
  generation = generation;
}

-- `key == state.last_key and now - state.last_sent_at < KEEPALIVE_SECONDS`
abbrev pub unchanged : Option FrameKey → FrameKey → ℕ → ℕ → Bool
unchanged none key now last_sent_at = false
unchanged (some last) key now last_sent_at = same_key key last && ltb (now - last_sent_at) keepalive

pub data TickResult : Type 0 where
  skipped queued failed : TickResult

unfoldable pub broadcast_tick :
    Sources
    → ℕ
    → ConnectionManager
    → BroadcastState
    → TickResult × ConnectionManager × BroadcastState
unfolding frame_key
broadcast_tick src now m state =
    let counted = record state { ticks = state.ticks + 1 } in
    let key = frame_key src m.generation in
    if length m.clients == 0
    then (skipped, m, record counted { skipped_idle = state.skipped_idle + 1 })
    else if unchanged state.last_key key now state.last_sent_at
    then (skipped, m, record counted { skipped_unchanged = state.skipped_unchanged + 1 })
    else if not src.serializes
    then (failed, m, counted)
    else (
      queued,
      broadcast (record { key = key; serialized_at = now }) m,
      record counted {
        serializations = state.serializations + 1;
        last_key = some key;
        last_sent_at = now;
      },
    )

-- `take_stats`: the state with its counters reset once the interval has passed
unfoldable pub take_stats : ℕ → BroadcastState → BroadcastState
take_stats now state =
    if ltb (now - state.window_started_at) stats_interval then state else record state {
      window_started_at = now;
      ticks = 0;
      serializations = 0;
      skipped_idle = 0;
      skipped_unchanged = 0;
    }

-- The state of `_broadcast_loop` beside the connections.
pub record Loop : Type 0 where
  pub manager : ConnectionManager
  pub state : BroadcastState
  pub consecutive_failures : ℕ

abbrev failures_after : TickResult → ℕ → ℕ
failures_after skipped n = 0
failures_after queued n = 0
failures_after failed n = n + 1

-- One round of `_broadcast_loop`.
unfoldable pub loop_round : Sources → ℕ → Loop → Loop
loop_round src now l =
    let (result, manager, state) = broadcast_tick src now l.manager l.state in
    record {
      manager = manager;
      state = take_stats now state;
      consecutive_failures = failures_after result l.consecutive_failures;
    }
