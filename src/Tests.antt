-- ===== src/Tests.antt =====
-- Runs of the models on concrete inputs, and the theorems at inputs that meet their hypotheses.
pub mod Window
pub mod Staging
pub mod Assembly
pub mod Sequential
pub mod Parallel
pub mod Queueing
pub mod Chunks
pub mod Capacity
pub mod Admission
pub mod Reservation
pub mod Cohort
pub mod Execution
pub mod Pressure
pub mod Recovery
pub mod Journal
