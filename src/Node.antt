-- ===== src/Node.antt =====
-- node/: the controller of a node.
pub mod UserDiff
pub mod Cert
pub mod Controller
pub mod Machine
pub mod Start
pub mod Monitor
pub mod Report
