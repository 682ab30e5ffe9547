-- ===== src/Limiter.antt =====
-- limiter/: who may connect to a node, from how many addresses, to what, and how fast.
pub mod State
pub mod Admission
pub mod Online
pub mod Rules
