-- ===== src/Resource.antt =====
-- subgen_core/resource_management.py, a module for each of its parts.
pub mod Chunks
pub mod Capacity
pub mod Admission
pub mod Reservation
pub mod Cohort
pub mod Pressure
