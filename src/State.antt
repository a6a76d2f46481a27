-- ===== src/State.antt =====
-- state.py: what the simulation writes and the web UI reads. The types are in State/Types, the live
-- store in State/Store, the store of a replay in State/Replay.
pub mod Types
pub mod Store
pub mod Replay
mod Tests
