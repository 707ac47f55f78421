-- ===== src/Preprocess/Fold/Run.antt =====
-- crates/smt-preprocess/src/constant_folding.rs: `fold_term`, on fuel that bounds the depth of the
-- term. `none` is a panic or a lack of fuel.
use smt_solver_rust.Common.{
  ℕ, zero, suc, ◌+◌, ◌-◌, ◌*◌, ◌^◌, true, false, Option, none, some, List, [], ◌∷◌, ltb, leb, ◌>>=◌,
  bit_and, bit_or, bit_xor,
}
use smt_solver_rust.Common.Int.{pos, ◌+ℤ◌, ◌*ℤ◌, ltb_ℤ, leb_ℤ}
use smt_solver_rust.Core.Sort.{SortArena}
use smt_solver_rust.Core.Op.{
  Op, not_op, and_op, or_op, xor_op, implies, ite_op, eq_op, bv_add, bv_sub, bv_mul, bv_udiv,
  bv_urem, bv_and, bv_or, bv_xor, bv_not, bv_shl, bv_lshr, bv_ashr, bv_concat, bv_extract, bv_ult,
  bv_ule, bv_ugt, bv_uge, add_op, sub_op, mul_op, lt_op, le_op, gt_op, ge_op,
}
use smt_solver_rust.Core.Term.{TermId, TermData, TermArena, intern, get_term, mask}
use smt_solver_rust.Core.Meaning.{RatioOps}
use smt_solver_rust.Preprocess.Fold.{
  ConstantFolder, Arm, panics, falls, gives, fold_not, fold_and, fold_or, fold_xor, fold_implies,
  fold_ite, fold_bits, fold_test, udiv_at, urem_at, shl_at, lshr_at, ashr_at, fold_bv_not,
  fold_concat, fold_extract,
}
use smt_solver_rust.Preprocess.Fold.Numbers.{fold_chain, fold_compare, fold_eq, fold_sub}

module _ (R : RatioOps) where
  open R use {zero_r, one_r, add_r, mul_r, lt_r, le_r}

  unfoldable pub fold_op : Op → List TermId → SortArena → TermArena → Arm
  fold_op not_op = fold_not
  fold_op and_op = fold_and
  fold_op or_op = fold_or
  fold_op xor_op = fold_xor
  fold_op implies = fold_implies
  fold_op ite_op = fold_ite
  fold_op eq_op = fold_eq R
  fold_op bv_add = fold_bits (λ w x y. bit_and (x + y) (mask w))
  fold_op bv_sub = fold_bits (λ w x y. bit_and (x + 2 ^ w - bit_and y (mask w)) (mask w))
  fold_op bv_mul = fold_bits (λ w x y. bit_and (x * y) (mask w))
  fold_op bv_udiv = fold_bits udiv_at
  fold_op bv_urem = fold_bits urem_at
  fold_op bv_and = fold_bits (λ w x y. bit_and (bit_and x y) (mask w))
  fold_op bv_or = fold_bits (λ w x y. bit_and (bit_or x y) (mask w))
  fold_op bv_xor = fold_bits (λ w x y. bit_and (bit_xor x y) (mask w))
  fold_op bv_not = fold_bv_not
  fold_op bv_shl = fold_bits shl_at
  fold_op bv_lshr = fold_bits lshr_at
  fold_op bv_ashr = fold_bits ashr_at
  fold_op bv_concat = fold_concat
  fold_op (bv_extract high low) = fold_extract high low
  fold_op bv_ult = fold_test (λ x y. ltb x y)
  fold_op bv_ule = fold_test (λ x y. leb x y)
  fold_op bv_ugt = fold_test (λ x y. ltb y x)
  fold_op bv_uge = fold_test (λ x y. leb y x)
  fold_op add_op = fold_chain ◌+ℤ◌ (pos 0) add_r zero_r
  fold_op sub_op = fold_sub R
  fold_op mul_op = fold_chain ◌*ℤ◌ (pos 1) mul_r one_r
  fold_op lt_op = fold_compare (λ i j. ltb_ℤ i j) lt_r
  fold_op le_op = fold_compare (λ i j. leb_ℤ i j) le_r
  fold_op gt_op = fold_compare (λ i j. ltb_ℤ j i) (λ r s. lt_r s r)
  fold_op ge_op = fold_compare (λ i j. leb_ℤ j i) (λ r s. le_r s r)
  fold_op _ = λ args sorts a. falls

  abbrev pub finish :
      Arm → TermData → List TermId → ConstantFolder → Option (ConstantFolder × TermId)
  finish panics t args s = none
  finish falls t args s =
      let (b, id) = intern t.op args t.sort s.terms in some (record s { terms = b }, id)
  finish (gives sorts a id) t args s = some (record s { sorts = sorts; terms = a }, id)

  abbrev pub fold_args :
      (TermId → ConstantFolder → Option (ConstantFolder × TermId))
      → List TermId
      → ConstantFolder
      → Option (ConstantFolder × List TermId)
  fold_args f [] s = some (s, [])
  fold_args f (x ∷ xs) s = do (u, y) ← f x s; (v, ys) ← fold_args f xs u; some (v, y ∷ ys)

  abbrev pub tick : ConstantFolder → ConstantFolder
  tick s = record s { steps = s.steps + 1 }

  unfoldable pub fold_term : ℕ → TermId → ConstantFolder → Option (ConstantFolder × TermId)
  unfolding fold_op
  fold_term zero id s = none
  fold_term (suc fuel) id s = elim (ltb (tick s).max_steps (tick s).steps) [
    | true ↦ some (tick s, id)
    | false ↦ (do
      t ← get_term s.terms id
      (u, args) ← fold_args (fold_term fuel) t.args (tick s)
      finish (fold_op t.op args u.sorts u.terms) t args u)
  ]
