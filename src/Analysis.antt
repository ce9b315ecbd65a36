-- ===== src/Analysis.antt =====
-- The parts of src/analysis.
pub mod Executor
pub mod Vm
