-- ===== src/Segmentation.antt =====
-- subgen_core/segmentation.py, a module for each of its layers.
pub mod Number
pub mod Window
pub mod Recognition
pub mod Copy
pub mod Staging
pub mod Assembly
pub mod Sequential
pub mod Ranges
pub mod Parallel
