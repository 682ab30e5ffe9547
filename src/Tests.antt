-- ===== src/Tests.antt =====
-- Runs of the modelled code on concrete inputs, and the theorems at inputs that meet their
-- hypotheses.
pub mod Limits
pub mod Users
pub mod Traffic
pub mod Hooks
pub mod Texts
pub mod Tasks
pub mod Panel
pub mod Inbounds
pub mod Nodes
