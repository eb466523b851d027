-- ===== src/Examples.antt =====
-- Concrete databases, runs of the operations on them, and the theorems at concrete inputs.
pub mod Fixture
mod Witnesses
mod Payments
pub mod Deliveries
mod Workers
mod Histories
pub mod Inputs
mod Demonstration
