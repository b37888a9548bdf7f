-- ===== src/Hand.antt =====
-- game/src/hand.rs: the driver of one hand, with a module for the cards and one for the betting.
pub mod Dealing
pub mod Board
pub mod Rounds
pub mod Play
