-- ===== src/Pot.antt =====
-- game/src/pot.rs: the main pot and the side pots.
pub mod Defs
pub mod Layers
pub mod Merge
pub mod Absorb
pub mod Compute
