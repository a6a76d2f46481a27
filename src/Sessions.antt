-- ===== src/Sessions.antt =====
-- The managers that keep live runs and replays apart: web/simulation_manager.py in
-- Sessions/Simulation, web/replay_manager.py in Sessions/Replay. Sessions/World puts both beside one
-- store and interleaves them.
pub mod Replay
pub mod Simulation
pub mod World
mod Tests
