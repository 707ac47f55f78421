-- ===== src/Sat/Float.antt =====
-- The numbers that crates/smt-sat/src/vsids.rs and crates/smt-sat/src/restart.rs keep in `f64`. Such
-- a number is its bit pattern; the processor's operations are a parameter, and no law of them is
-- asked.
use smt_solver_rust.Common.{ℕ, Bool}

abbrev pub F64 : Type 0
F64 = ℕ

pub record FloatOps : Type 0 where
  pub zero_f : F64
  pub one_f : F64
  -- 0.95, 1e100 and 1e-100
  pub decay_f : F64
  pub huge_f : F64
  pub tiny_f : F64
  -- 0.03, 0.0003 and 1.25
  pub fast_f : F64
  pub slow_f : F64
  pub margin_f : F64
  pub add_f : F64 → F64 → F64
  pub sub_f : F64 → F64 → F64
  pub mul_f : F64 → F64 → F64
  pub div_f : F64 → F64 → F64
  pub gt_f : F64 → F64 → Bool
  pub eq_f : F64 → F64 → Bool
  pub of_u32 : ℕ → F64
