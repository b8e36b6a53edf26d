-- ===== src/Examples.antt =====
-- Concrete runs: the theorems applied to inputs that meet their conditions.
pub mod Data
pub mod Readings
pub mod Brake
pub mod Outbound
pub mod Daemon
pub mod Interchange
pub mod Hardware
pub mod Start
