-- ===== src/Tests.antt =====
-- The theorems at concrete states and requests, where their hypotheses hold.
pub mod Data
pub mod Store
pub mod Http
pub mod Mux
pub mod Start
pub mod Joining
pub mod Covering
