-- ===== src/HandEval.antt =====
-- game/src/hand_eval.rs: the value of a poker hand.
pub mod Defs
pub mod Order
pub mod Groups
pub mod Best
