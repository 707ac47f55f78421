-- ===== src/Preprocess/Fold/Sound.antt =====
-- crates/smt-preprocess/src/constant_folding.rs: `fold_term` and the values of terms.
use smt_solver_rust.Common.{
  ℕ, zero, suc, ◌≤◌, ◌<◌, ◌≡◌, refl, ap, ◌∙◌, Option, some, List, [], ◌∷◌, ltb, map, length, get_or,
  get_elem?-of_lt, All, arith, Bool-cases, inl, inr,
}
use smt_solver_rust.Core.Sort.{SortArena}
use smt_solver_rust.Core.Op.{
  Op, true_op, not_op, and_op, or_op, xor_op, implies, ite_op, eq_op, bv_add, bv_sub, bv_mul,
  bv_udiv, bv_urem, bv_and, bv_or, bv_xor, bv_not, bv_shl, bv_lshr, bv_ashr, bv_concat, bv_extract,
  bv_ult, bv_ule, bv_ugt, bv_uge, add_op, sub_op, mul_op, lt_op, le_op, gt_op, ge_op,
}
use smt_solver_rust.Core.Term.{TermId, TermData, TermArena, intern, get_term}
use smt_solver_rust.Core.Term.Pool.{IsArena}
use smt_solver_rust.Core.Meaning.{RatioOps, Value, denote}
use smt_solver_rust.Core.Meaning.Model.{
  Interp, IsModel, Extends, Yields, Yields-here, Extends-refl, Extends-trans, intern-Yields,
  map_agree,
}
use smt_solver_rust.Preprocess.Fold.{ConstantFolder, Arm, panics, falls, gives}
use smt_solver_rust.Preprocess.Fold.Run.{fold_op, finish, fold_args, tick, fold_term}
use smt_solver_rust.Preprocess.Fold.Digits.{
  add-Computes, sub-Computes, mul-Computes, udiv-Computes, urem-Computes, and-Computes, or-Computes,
  xor-Computes, shl-Computes, lshr-Computes, ashr-Computes,
}
use smt_solver_rust.Preprocess.Fold.Arms.{Good}
use smt_solver_rust.Preprocess.Fold.BitArms.{
  fold_bits-Good, fold_test-Good, fold_bv_not-Good, fold_extract-Good, fold_concat-Good,
}
use smt_solver_rust.Preprocess.Fold.JunctionArms.{fold_and-Good, fold_or-Good}
use smt_solver_rust.Preprocess.Fold.TruthArms.{
  fold_not-Good, fold_xor-Good, fold_implies-Good, fold_ite-Good,
}
use smt_solver_rust.Preprocess.Fold.NumberArms.{
  fold_chain-Good, fold_compare-Good, fold_eq-Good, fold_sub-Good,
}

module _ (R : RatioOps) (Φ : Op → List Value → Value) where
  open R use {zero_r, one_r, add_r, mul_r, lt_r, le_r}

  module _ (a : TermArena) (I : Interp) (w : IsArena a) (m : IsModel R Φ a I)
      (sorts : SortArena) where
    -- Whatever the operator, the arm for it yields the value that the operator has.
    pub fold_op-Good :
        (o : Op) (args : List TermId) (v : Value)
        → All (λ k. k < length a.terms) args
        → denote R Φ o (map I args) ≡ some v
        → Good R Φ a I v (fold_op R o args sorts a)
    unfolding fold_op denote
    fold_op-Good not_op args v h e = fold_not-Good R Φ a I w m sorts args v h e
    fold_op-Good and_op args v h e = fold_and-Good R Φ a I w m sorts args v h e
    fold_op-Good or_op args v h e = fold_or-Good R Φ a I w m sorts args v h e
    fold_op-Good xor_op args v h e = fold_xor-Good R Φ a I w m sorts args v h e
    fold_op-Good implies args v h e = fold_implies-Good R Φ a I w m sorts args v h e
    fold_op-Good ite_op args v h e = fold_ite-Good R Φ a I w m sorts args v h e
    fold_op-Good eq_op args v h e = fold_eq-Good R Φ a I w m sorts args v h e
    fold_op-Good bv_add args v h e = fold_bits-Good R Φ a I w m sorts _ _ add-Computes args v h e
    fold_op-Good bv_sub args v h e = fold_bits-Good R Φ a I w m sorts _ _ sub-Computes args v h e
    fold_op-Good bv_mul args v h e = fold_bits-Good R Φ a I w m sorts _ _ mul-Computes args v h e
    fold_op-Good bv_udiv args v h e = fold_bits-Good R Φ a I w m sorts _ _ udiv-Computes args v h e
    fold_op-Good bv_urem args v h e = fold_bits-Good R Φ a I w m sorts _ _ urem-Computes args v h e
    fold_op-Good bv_and args v h e = fold_bits-Good R Φ a I w m sorts _ _ and-Computes args v h e
    fold_op-Good bv_or args v h e = fold_bits-Good R Φ a I w m sorts _ _ or-Computes args v h e
    fold_op-Good bv_xor args v h e = fold_bits-Good R Φ a I w m sorts _ _ xor-Computes args v h e
    fold_op-Good bv_not args v h e = fold_bv_not-Good R Φ a I w m sorts args v h e
    fold_op-Good bv_shl args v h e = fold_bits-Good R Φ a I w m sorts _ _ shl-Computes args v h e
    fold_op-Good bv_lshr args v h e = fold_bits-Good R Φ a I w m sorts _ _ lshr-Computes args v h e
    fold_op-Good bv_ashr args v h e = fold_bits-Good R Φ a I w m sorts _ _ ashr-Computes args v h e
    fold_op-Good bv_concat args v h e = fold_concat-Good R Φ a I w m sorts args v h e
    fold_op-Good (bv_extract high low) args v h e =
        fold_extract-Good R Φ a I w m sorts high low args v h e
    fold_op-Good bv_ult args v h e = fold_test-Good R Φ a I w m sorts _ args v h e
    fold_op-Good bv_ule args v h e = fold_test-Good R Φ a I w m sorts _ args v h e
    fold_op-Good bv_ugt args v h e = fold_test-Good R Φ a I w m sorts _ args v h e
    fold_op-Good bv_uge args v h e = fold_test-Good R Φ a I w m sorts _ args v h e
    fold_op-Good add_op args v h e = fold_chain-Good R Φ a I w m sorts _ _ _ _ args v h e
    fold_op-Good mul_op args v h e = fold_chain-Good R Φ a I w m sorts _ _ _ _ args v h e
    fold_op-Good sub_op args v h e = fold_sub-Good R Φ a I w m sorts args v h e
    fold_op-Good lt_op args v h e = fold_compare-Good R Φ a I w m sorts _ _ args v h e
    fold_op-Good le_op args v h e = fold_compare-Good R Φ a I w m sorts _ _ args v h e
    fold_op-Good gt_op args v h e = fold_compare-Good R Φ a I w m sorts _ _ args v h e
    fold_op-Good ge_op args v h e = fold_compare-Good R Φ a I w m sorts _ _ args v h e
    fold_op-Good _ args v h e = tt

  -- A call returns, and what it returns yields the value.
  abbrev pub Folds : ConstantFolder → Interp → Value → Option (ConstantFolder × TermId) → Type 0
  Folds s I v o =
      (r : ConstantFolder × TermId) × (o ≡ some r) × Yields R Φ s.terms I v (r.0.terms, r.1)

  finish-Folds :
      (arm : Arm) (t : TermData) (args : List TermId) (s : ConstantFolder) (I : Interp) (v : Value)
      → IsArena s.terms
      → IsModel R Φ s.terms I
      → All (λ k. k < length s.terms.terms) args
      → denote R Φ t.op (map I args) ≡ some v
      → Good R Φ s.terms I v arm
      → Folds s I v (finish R arm t args s)
  finish-Folds panics t args s I v w m h d g = absurd g
  finish-Folds falls t args s I v w m h d g =
      let r = intern t.op args t.sort s.terms in
      (
        (record s { terms = r.0 }, r.1),
        refl,
        intern-Yields R Φ t.op args t.sort s.terms I v w m h d,
      )
  finish-Folds (gives sorts a id) t args s I v w m h d g =
      ((record s { sorts = sorts; terms = a }, id), refl, g)

  Yields-after :
      {a b : TermArena} {I J : Interp} {v : Value} (c : TermArena) (id : TermId)
      → Extends R Φ a I b J
      → Yields R Φ b J v (c, id)
      → Yields R Φ a I v (c, id)
  Yields-after c id e (K, f, h, g) = (K, Extends-trans R Φ e f, h, g)

  -- What folding a list of arguments leaves.
  abbrev FoldsAll :
      ConstantFolder → Interp → List TermId → Option (ConstantFolder × List TermId) → Type 0
  FoldsAll s I ks o =
      (r : ConstantFolder × List TermId) × (o ≡ some r)
      × (J : Interp) × Extends R Φ s.terms I r.0.terms J
      × All (λ k. k < length r.0.terms.terms) r.1
      × (map J r.1 ≡ map I ks)

  module _ (f : TermId → ConstantFolder → Option (ConstantFolder × TermId)) (n : ℕ)
      (folds : (k : TermId) (s : ConstantFolder) (I : Interp)
        → IsArena s.terms
        → IsModel R Φ s.terms I
        → k < length s.terms.terms
        → k < n
        → Folds s I (I k) (f k s)) where
    fold_args-FoldsAll :
        (ks : List TermId) (s : ConstantFolder) (I : Interp)
        → IsArena s.terms
        → IsModel R Φ s.terms I
        → n ≤ length s.terms.terms
        → All (λ k. k < n) ks
        → FoldsAll s I ks (fold_args R f ks s)
    fold_args-FoldsAll [] s I w m h l = ((s, []), refl, I, Extends-refl R Φ s.terms I w m, tt, refl)
    fold_args-FoldsAll (k ∷ ks) s I w m h l =
        let ((u, y), e, (J, x, y_below, y_value)) = folds k s I w m (omega (arith, l.0)) l.0 in
        let ((v, ys), g, K, z, below, values) =
          fold_args-FoldsAll ks u J x.arena x.model (omega (arith, x.grows)) l.1 in
        (
          (v, y ∷ ys),
          rw (e, g),
          K,
          Extends-trans R Φ x z,
          (omega (arith, z.grows), below),
          (λ i.
              (z.agrees y y_below ∙ y_value) i
              ∷ (values ∙ map_agree I J n ks (λ j b. x.agrees j (omega arith)) l.1) i),
        )

  -- In a valid arena, for each model of it, folding a term on more fuel than its identifier returns
  -- a term; the arena after is valid, and the model extends to one of that arena, where the result
  -- has the value of the term. A model gives each application of the arena a value: an arena with,
  -- say, a comparison, an equation, an implication or a binary bit-vector operator on other than two
  -- arguments has none.
  pub fold_term-Folds :
      (fuel : ℕ) (id : TermId) (s : ConstantFolder) (I : Interp)
      → IsArena s.terms
      → IsModel R Φ s.terms I
      → id < length s.terms.terms
      → id < fuel
      → Folds s I (I id) (fold_term R fuel id s)
  unfolding fold_term get_term
  fold_term-Folds zero id s I w m h l = absurd (omega arith)
  fold_term-Folds (suc fuel) id s I w m h l =
      elim (Bool-cases (ltb (tick R s).max_steps (tick R s).steps)) [
        | inl p ↦
            ((tick R s, id), rw (fold_term, p), Yields-here R Φ s.terms I id (I id) w m h refl)
        | inr p ↦
            let blank : TermData = record { op = true_op; args = []; sort = 0 } in
            let t = get_or s.terms.terms id blank in
            let found = get_elem?-of_lt s.terms.terms id blank h in
            let ((u, args), e, J, x, below, values) =
              fold_args-FoldsAll (fold_term R fuel) id
                (λ k s' I' w' m' h' b. fold_term-Folds fuel k s' I' w' m' h' (omega arith)) t.args
                (tick R s) I w m (omega arith) (w.acyclic id t found) in
            let value = ap (denote R Φ t.op) values ∙ m id t found in
            let (r, g, y) =
              finish-Folds (fold_op R t.op args u.sorts u.terms) t args u J (I id) x.arena x.model
                below value
                (fold_op-Good u.terms J x.arena x.model u.sorts t.op args (I id) below value) in
            (r, rw (fold_term, p, get_term, found, e) g, Yields-after r.0.terms r.1 x y)
      ]
