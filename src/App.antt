-- ===== src/App.antt =====
-- app/src: the parts of the graphical client that draw nothing.
pub mod Text
pub mod Legal
mod Accepted
pub mod Offered
pub mod Snapshot
pub mod Model
pub mod State
pub mod Project
pub mod Rotation
pub mod Control
