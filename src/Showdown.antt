-- ===== src/Showdown.antt =====
-- game/src/showdown.rs: who wins the pots.
pub mod Defs
pub mod Leaders
pub mod Shares
pub mod OddChips
pub mod Payouts
pub mod Distribute
