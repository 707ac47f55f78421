-- ===== src/Preprocess/Fold/TruthArms.antt =====
-- crates/smt-preprocess/src/constant_folding.rs: the arms of `fold_term` for the
-- other Boolean operators.
use mathlib.Core.Path.{subst}
use smt_solver_rust.Common.{
  ◌<◌, ◌≡◌, sym, ap, ◌∙◌, Bool, true, not, some, List, [], ◌∷◌, ◌==◌, if◌then◌else◌, map, length,
  All, arith, Bool-cases, inl, inr, ==→≡, get_elem?-of_lt, get_or,
}
use smt_solver_rust.Core.Sort.{SortArena}
use smt_solver_rust.Core.Op.{Op, true_op, not_op, xor_op, implies, ite_op}
use smt_solver_rust.Core.Term
use smt_solver_rust.Core.Term.{TermId, TermData, TermArena, Alloc, intern, get_term}
use smt_solver_rust.Core.Term.Pool.{IsArena}
use smt_solver_rust.Core.Meaning.{RatioOps, Value, bool, denote}
use smt_solver_rust.Core.Meaning.Model.{Interp, IsModel, Yields, Yields-here}
use smt_solver_rust.Core.Meaning.Terms.{here_true, here_false, read_true, read_false, not-Returns}
use smt_solver_rust.Preprocess.Fold.{
  falls, gives, gives_some, is_not, first_arg, fold_not, fold_xor, fold_implies, fold_ite,
}
use smt_solver_rust.Preprocess.Fold.Arms.{Good}
use smt_solver_rust.Preprocess.Fold.Shapes.{
  not_shape, xor_shape, implies_shape, ite_shape, not_back, xor_same, xor_left, xor_right, not_left,
  not_right, from_false, to_true, from_true, either, not_panics,
}

module _ (R : RatioOps) (Φ : Op → List Value → Value) (a : TermArena) (I : Interp) (w : IsArena a)
    (m : IsModel R Φ a I) (sorts : SortArena) where
  -- The argument of a negation that is negated.
  double_not :
      (o : Op) (args : List TermId) (x : TermId) (b : Bool)
      → denote R Φ o (map I args) ≡ some (I x)
      → All (λ k. k < x) args
      → x < length a.terms
      → I x ≡ bool b
      → Good R Φ a I (bool (not b)) (if is_not o then first_arg args sorts a else falls)
  double_not not_op [] x b d h l e = not_panics R Φ (I x) d
  double_not not_op (y ∷ zs) x b d h l e =
      let (c, shape, val) = not_shape R Φ (map I (y ∷ zs)) (I x) d in
      let at : I y ≡ bool c = cc in
      let back : c ≡ not b = not_back b c (let q : bool (not c) ≡ bool b = val ∙ e in cc) in
      Yields-here R Φ a I y (bool (not b)) w m (let g : y < x = h.0 in omega arith)
        (at ∙ ap bool back)
  double_not _ args x b d h l e = tt

  pub fold_not-Good :
      (args : List TermId) (v : Value)
      → All (λ k. k < length a.terms) args
      → denote R Φ not_op (map I args) ≡ some v
      → Good R Φ a I v (fold_not args sorts a)
  unfolding fold_not get_term
  fold_not-Good [] v h e = not_panics R Φ v e
  fold_not-Good (x ∷ zs) v h e =
      let (b, shape, val) = not_shape R Φ (map I (x ∷ zs)) v e in
      let at : I x ≡ bool b = cc in
      elim (Bool-cases (x == a.true_id)) [
        | inl p ↦
            let r : fold_not (x ∷ zs) sorts a ≡ gives sorts a a.false_id = rw (fold_not, p) in
            subst (Good R Φ a I v) (sym r) (
              subst (λ t. Yields R Φ a I t (a, a.false_id))
                (ap (λ c. bool (not c)) (read_true R Φ a I w m x b p at) ∙ val)
                (here_false R Φ a I w m))
        | inr p ↦ elim (Bool-cases (x == a.false_id)) [
          | inl q ↦
              let r : fold_not (x ∷ zs) sorts a ≡ gives sorts a a.true_id = rw (fold_not, p, q) in
              subst (Good R Φ a I v) (sym r) (
                subst (λ t. Yields R Φ a I t (a, a.true_id))
                  (ap (λ c. bool (not c)) (read_false R Φ a I w m x b q at) ∙ val)
                  (here_true R Φ a I w m))
          | inr q ↦
              let d : TermData = record { op = true_op; args = []; sort = 0 } in
              let t = get_or a.terms x d in
              let found = get_elem?-of_lt a.terms x d h.0 in
              let r : fold_not (x ∷ zs) sorts a
                  ≡ (if is_not t.op then first_arg t.args sorts a else falls) =
                rw (fold_not, p, q, get_term, found) in
              subst (Good R Φ a I v) (sym r) (
                subst
                  (λ u. Good R Φ a I u (if is_not t.op then first_arg t.args sorts a else falls))
                  val (double_not t.op t.args x b (m x t found) (w.acyclic x t found) h.0 at))
        ]
      ]

  same_truth : (x y : TermId) (b c : Bool) → (x == y) ≡ true → I x ≡ bool b → I y ≡ bool c → b ≡ c
  same_truth x y b c p e f = let q : bool b ≡ bool c = sym e ∙ ap I (==→≡ x y p) ∙ f in cc

  some-Good :
      (x : TermId) (b : Bool) (v : Value)
      → x < length a.terms
      → I x ≡ bool b
      → bool (not b) ≡ v
      → Good R Φ a I v (gives_some sorts (Term.not x a))
  some-Good x b v h e g =
      let (r, found, y) = not-Returns R Φ a I w m x b h e in
      subst (λ o. Good R Φ a I v (gives_some sorts o)) (sym found)
        (subst (λ t. Yields R Φ a I t r) g y)

  pub fold_xor-Good :
      (args : List TermId) (v : Value)
      → All (λ k. k < length a.terms) args
      → denote R Φ xor_op (map I args) ≡ some v
      → Good R Φ a I v (fold_xor args sorts a)
  unfolding fold_xor
  fold_xor-Good [] v h e = let (b, c, shape, val) = xor_shape R Φ [] v e in cc
  fold_xor-Good (x ∷ []) v h e = let (b, c, shape, val) = xor_shape R Φ (map I (x ∷ [])) v e in cc
  fold_xor-Good (x ∷ (y ∷ zs)) v h e =
      let (b, c, shape, val) = xor_shape R Φ (map I (x ∷ (y ∷ zs))) v e in
      let at_x : I x ≡ bool b = cc in
      let at_y : I y ≡ bool c = cc in
      let args = x ∷ (y ∷ zs) in
      let here = Yields-here R Φ a I in
      elim (Bool-cases (x == y)) [
        | inl p ↦
            let r : fold_xor args sorts a ≡ gives sorts a a.false_id = rw (fold_xor, p) in
            subst (Good R Φ a I v) (sym r) (
              subst (λ t. Yields R Φ a I t (a, a.false_id))
                (let q = same_truth x y b c p at_x at_y in ap bool (xor_same b c q) ∙ val)
                (here_false R Φ a I w m))
        | inr p ↦ elim (Bool-cases (x == a.false_id)) [
          | inl q ↦
              let r : fold_xor args sorts a ≡ gives sorts a y = rw (fold_xor, p, q) in
              subst (Good R Φ a I v) (sym r) (
                here y v w m h.1.0
                  (at_y ∙ ap bool (xor_left b c (read_false R Φ a I w m x b q at_x)) ∙ val))
          | inr q ↦ elim (Bool-cases (y == a.false_id)) [
            | inl s ↦
                let r : fold_xor args sorts a ≡ gives sorts a x = rw (fold_xor, p, q, s) in
                subst (Good R Φ a I v) (sym r) (
                  here x v w m h.0
                    (at_x ∙ ap bool (xor_right b c (read_false R Φ a I w m y c s at_y)) ∙ val))
            | inr s ↦ elim (Bool-cases (x == a.true_id)) [
              | inl t ↦
                  let r : fold_xor args sorts a ≡ gives_some sorts (Term.not y a) =
                    rw (fold_xor, p, q, s, t) in
                  subst (Good R Φ a I v) (sym r) (
                    some-Good y c v h.1.0 at_y
                      (ap bool (not_left b c (read_true R Φ a I w m x b t at_x)) ∙ val))
              | inr t ↦ elim (Bool-cases (y == a.true_id)) [
                | inl u ↦
                    let r : fold_xor args sorts a ≡ gives_some sorts (Term.not x a) =
                      rw (fold_xor, p, q, s, t, u) in
                    subst (Good R Φ a I v) (sym r) (
                      some-Good x b v h.0 at_x
                        (ap bool (not_right b c (read_true R Φ a I w m y c u at_y)) ∙ val))
                | inr u ↦
                    let r : fold_xor args sorts a ≡ falls = rw (fold_xor, p, q, s, t, u) in
                    subst (Good R Φ a I v) (sym r) tt
              ]
            ]
          ]
        ]
      ]

  pub fold_implies-Good :
      (args : List TermId) (v : Value)
      → All (λ k. k < length a.terms) args
      → denote R Φ implies (map I args) ≡ some v
      → Good R Φ a I v (fold_implies args sorts a)
  unfolding fold_implies
  fold_implies-Good [] v h e = let (b, c, shape, val) = implies_shape R Φ [] v e in cc
  fold_implies-Good (x ∷ []) v h e =
      let (b, c, shape, val) = implies_shape R Φ (map I (x ∷ [])) v e in cc
  fold_implies-Good (x ∷ (y ∷ zs)) v h e =
      let (b, c, shape, val) = implies_shape R Φ (map I (x ∷ (y ∷ zs))) v e in
      let at_x : I x ≡ bool b = cc in
      let at_y : I y ≡ bool c = cc in
      let args = x ∷ (y ∷ zs) in
      elim (Bool-cases (x == a.false_id)) [
        | inl p ↦
            let r : fold_implies args sorts a ≡ gives sorts a a.true_id = rw (fold_implies, p) in
            subst (Good R Φ a I v) (sym r) (
              subst (λ t. Yields R Φ a I t (a, a.true_id))
                (ap bool (from_false b c (read_false R Φ a I w m x b p at_x)) ∙ val)
                (here_true R Φ a I w m))
        | inr p ↦ elim (Bool-cases (y == a.true_id)) [
          | inl q ↦
              let r : fold_implies args sorts a ≡ gives sorts a a.true_id =
                rw (fold_implies, p, q) in
              subst (Good R Φ a I v) (sym r) (
                subst (λ t. Yields R Φ a I t (a, a.true_id))
                  (ap bool (to_true b c (read_true R Φ a I w m y c q at_y)) ∙ val)
                  (here_true R Φ a I w m))
          | inr q ↦ elim (Bool-cases (x == a.true_id)) [
            | inl s ↦
                let r : fold_implies args sorts a ≡ gives sorts a y = rw (fold_implies, p, q, s) in
                subst (Good R Φ a I v) (sym r) (
                  Yields-here R Φ a I y v w m h.1.0
                    (at_y ∙ ap bool (from_true b c (read_true R Φ a I w m x b s at_x)) ∙ val))
            | inr s ↦
                let r : fold_implies args sorts a ≡ falls = rw (fold_implies, p, q, s) in
                subst (Good R Φ a I v) (sym r) tt
          ]
        ]
      ]

  pub fold_ite-Good :
      (args : List TermId) (v : Value)
      → All (λ k. k < length a.terms) args
      → denote R Φ ite_op (map I args) ≡ some v
      → Good R Φ a I v (fold_ite args sorts a)
  unfolding fold_ite
  fold_ite-Good [] v h e = let (b, s, t, shape, val) = ite_shape R Φ [] v e in cc
  fold_ite-Good (x ∷ []) v h e =
      let (b, s, t, shape, val) = ite_shape R Φ (map I (x ∷ [])) v e in cc
  fold_ite-Good (x ∷ (y ∷ [])) v h e =
      let (b, s, t, shape, val) = ite_shape R Φ (map I (x ∷ (y ∷ []))) v e in cc
  fold_ite-Good (x ∷ (y ∷ (z ∷ zs))) v h e =
      let (b, s, t, shape, val) = ite_shape R Φ (map I (x ∷ (y ∷ (z ∷ zs)))) v e in
      let at_x : I x ≡ bool b = cc in
      let at_y : I y ≡ s = cc in
      let at_z : I z ≡ t = cc in
      let args = x ∷ (y ∷ (z ∷ zs)) in
      let here = Yields-here R Φ a I in
      elim (Bool-cases (x == a.true_id)) [
        | inl p ↦
            let r : fold_ite args sorts a ≡ gives sorts a y = rw (fold_ite, p) in
            subst (Good R Φ a I v) (sym r) (
              here y v w m h.1.0
                (at_y ∙ ap (λ c. if c then s else t) (read_true R Φ a I w m x b p at_x) ∙ val))
        | inr p ↦ elim (Bool-cases (x == a.false_id)) [
          | inl q ↦
              let r : fold_ite args sorts a ≡ gives sorts a z = rw (fold_ite, p, q) in
              subst (Good R Φ a I v) (sym r) (
                here z v w m h.1.1.0
                  (at_z ∙ ap (λ c. if c then s else t) (read_false R Φ a I w m x b q at_x) ∙ val))
          | inr q ↦ elim (Bool-cases (y == z)) [
            | inl u ↦
                let r : fold_ite args sorts a ≡ gives sorts a y = rw (fold_ite, p, q, u) in
                let st : s ≡ t = sym at_y ∙ ap I (==→≡ y z u) ∙ at_z in
                subst (Good R Φ a I v) (sym r) (here y v w m h.1.0 (at_y ∙ either b s t st ∙ val))
            | inr u ↦
                let r : fold_ite args sorts a ≡ falls = rw (fold_ite, p, q, u) in
                subst (Good R Φ a I v) (sym r) tt
          ]
        ]
      ]
