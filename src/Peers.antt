-- ===== src/Peers.antt =====
-- peers.py: which earlier decisions a reader sees, and the text that shows them.
pub mod Sorting
pub mod Select
pub mod Context
pub mod Holdout
pub mod Round
mod Tests
