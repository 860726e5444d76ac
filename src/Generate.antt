-- ===== src/Generate.antt =====
-- The parts of xtce_sim/generate.py.
pub mod Opcodes
