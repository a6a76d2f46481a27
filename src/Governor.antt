-- ===== src/Governor.antt =====
-- governor.py: `ResourceGovernor`. The limiter is in Governor/Limiter, the state machine in
-- Governor/Machine, the monitor task and the session in Governor/Session.
pub mod State
pub mod Limiter
pub mod Machine
pub mod Session
pub mod Invariant
pub mod Admission
pub mod Failures
pub mod Recovery
mod Tests
