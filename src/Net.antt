-- ===== src/Net.antt =====
-- net/src: the parts of the network layer that do no input or output.
pub mod Reachability
pub mod Frames
pub mod Uri
pub mod AddrBook
