-- ===== src/Preprocess.antt =====
-- crates/smt-preprocess: the passes over terms that come before the solver.
pub mod Fold
