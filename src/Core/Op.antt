-- ===== src/Core/Op.antt =====
-- crates/smt-core/src/term.rs: the operators. `BigUint` and `BigInt` are numbers and integers; a
-- `BigRational` is its numerator and denominator.
use Prim.Native.String.{String}
use native.Mathlib.Decide.{ℕ_discrete}
use smt_solver_rust.Common.{ℕ}
use smt_solver_rust.Common.Int.{ℤ}
use smt_solver_rust.Common.Names.{String-discrete}
use smt_solver_rust.Core.Sort.{SortId}

pub data Op : Type 0 where
  true_op false_op not_op and_op or_op xor_op implies ite_op : Op
  eq_op distinct : Op
  bv_const : ℕ → ℕ → Op
  bv_add bv_sub bv_mul bv_udiv bv_sdiv bv_urem bv_srem bv_smod bv_neg : Op
  bv_and bv_or bv_xor bv_not bv_nand bv_nor bv_xnor bv_shl bv_lshr bv_ashr : Op
  bv_rotate_left bv_rotate_right : ℕ → Op
  bv_concat : Op
  bv_extract : ℕ → ℕ → Op
  bv_sign_extend bv_zero_extend bv_repeat : ℕ → Op
  bv_ult bv_ule bv_ugt bv_uge bv_slt bv_sle bv_sgt bv_sge : Op
  int_const : ℤ → Op
  real_const : ℤ → ℕ → Op
  add_op sub_op mul_op div_op mod_op rem_op neg_op lt_op le_op gt_op ge_op : Op
  to_real to_int is_int : Op
  select store : Op
  const_array : SortId → Op
  var_op apply_op : String → Op

unfoldable pub Op-discrete : Discrete Op
Op-discrete = hlevel (ℕ_discrete, String-discrete)
