-- ===== src/Betting.antt =====
-- game/src/betting.rs: the No-Limit Hold'em betting engine.
pub mod State
pub mod Actions
pub mod Invariant
pub mod Turns
pub mod Moves
pub mod Apply
pub mod Rounds
pub mod Blinds
pub mod Raises
