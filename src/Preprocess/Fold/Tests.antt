-- ===== src/Preprocess/Fold/Tests.antt =====
-- The constant folder on small arenas, and its law at one.
use smt_solver_rust.Common.{◌≡◌, refl, true, Option, some, [], ◌∷◌, ◌>>=◌, arith}
use native.Mathlib.Decide.{ℕ_discrete}
use smt_solver_rust.Common.Dict.{get}
use smt_solver_rust.Core.Sort
use smt_solver_rust.Core.Sort.{Sort-discrete, bv}
use smt_solver_rust.Core.Op.{Op, Op-discrete, bv_const, bv_add, and_op}
use smt_solver_rust.Core.Term.{TermArena, Key-discrete, intern, new, op_of, get_term, bv_const_term}
use smt_solver_rust.Core.Meaning.{bool, denote}
use smt_solver_rust.Core.Meaning.Model.{Interp, Yields, intern-Yields}
use smt_solver_rust.Core.Meaning.Fresh.{constants}
use smt_solver_rust.Core.Meaning.Sample.{fractions, all_true, with_x, with_x-Yields}
use smt_solver_rust.Preprocess.Fold
use smt_solver_rust.Preprocess.Fold.{ConstantFolder, fold_bits, look_two, look, fold_and}
use smt_solver_rust.Preprocess.Fold.Run.{fold_op, fold_term}
use smt_solver_rust.Preprocess.Fold.Sound.{Folds, fold_term-Folds}

-- 200 + 100 in eight bits, whose sort has the identifier 3.
abbrev sum : TermArena
sum =
    let (a, x) = intern (bv_const 200 8) [] 3 (new Sort.new) in
    let (b, y) = intern (bv_const 100 8) [] 3 a in (intern bv_add (x ∷ (y ∷ [])) 3 b).0

result : Option Op
unfolding fold_term fold_op fold_bits look_two look get_term op_of bv_const_term bv intern
    Sort.intern Key-discrete Op-discrete Sort-discrete get new Sort.new Fold.new
result = do (s, id) ← fold_term fractions 5 4 (Fold.new sum Sort.new); op_of s.terms id

sum_folds : result ≡ some (bv_const 44 8)
unfolding result ℕ_discrete
sum_folds = refl

-- The conjunction of a variable and `true`.
abbrev conjunction : TermArena
conjunction = (intern and_op (2 ∷ (0 ∷ [])) 0 with_x).0

conjunction-Yields :
    Yields fractions all_true with_x with_x-Yields.0
      (bool true)
      (intern and_op (2 ∷ (0 ∷ [])) 0 with_x)
unfolding denote constants new Sort.new intern Key-discrete Op-discrete get
conjunction-Yields =
    let (I, e, h, v) = with_x-Yields in
    let at_x : I 2 ≡ bool true = v in
    let at_true : I 0 ≡ bool true = e.agrees 0 (omega arith) in
    intern-Yields fractions all_true and_op (2 ∷ (0 ∷ [])) 0 with_x I (bool true) e.arena e.model
      (omega arith, (omega arith, tt)) (rw (at_x, at_true))

abbrev model : Interp
model = conjunction-Yields.0

fold_term-Folds_example :
    Folds fractions all_true
      (Fold.new conjunction Sort.new)
      model
      (model 3)
      (fold_term fractions 4 3 (Fold.new conjunction Sort.new))
unfolding constants new Sort.new intern Key-discrete Op-discrete get Fold.new
fold_term-Folds_example =
    let (J, e, h, v) = conjunction-Yields in
    fold_term-Folds fractions all_true 4 3 (Fold.new conjunction Sort.new) J e.arena e.model
      (omega arith) (omega arith)
