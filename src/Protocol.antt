-- ===== src/Protocol.antt =====
-- protocol/src: the networked table, the deal that it drives, the strategies and the wire format.
pub mod Bot
pub mod Setting
pub mod Layout
pub mod Agreement
pub mod Mental
pub mod Table
pub mod Driver
