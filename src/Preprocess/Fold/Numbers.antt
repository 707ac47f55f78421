-- ===== src/Preprocess/Fold/Numbers.antt =====
-- crates/smt-preprocess/src/constant_folding.rs: the arms of `fold_term` for equations, sums,
-- products and comparisons.
use smt_solver_rust.Common.{Bool, Option, none, some, List, [], ◌∷◌, ◌==◌, if◌then◌else◌}
use smt_solver_rust.Common.Int.{ℤ, ◌-ℤ◌, eqb_ℤ}
use smt_solver_rust.Core.Sort.{SortArena}
use smt_solver_rust.Core.Op.{Op}
use smt_solver_rust.Core.Term.{TermId, TermArena, int_const_term, real_const_term}
use smt_solver_rust.Core.Meaning.{Ratio, RatioOps}
use smt_solver_rust.Preprocess.Fold.{
  Arm, panics, falls, gives, truth, bv_of, int_of, real_of, look, look_two, if_let,
}

abbrev pub gives_int : ℤ → SortArena → TermArena → Arm
gives_int i sorts a = let (b, id) = int_const_term i sorts a in gives sorts b id

abbrev pub gives_real : Ratio → SortArena → TermArena → Arm
gives_real r sorts a = let (b, id) = real_const_term r.numer r.denom sorts a in gives sorts b id

-- The test that all arguments match, and the loop over them: `none` is a panic, `some none` an
-- argument that does not match.
unfoldable pub total {ℓ} :
    {A : Type ℓ} → (Op → Option A) → (A → A → A) → A → TermArena → List TermId → Option (Option A)
total f g acc a [] = some (some acc)
total f g acc a (x ∷ xs) = elim (look f a x) [
  | none ↦ none
  | some none ↦ some none
  | some (some u) ↦ total f g (g acc u) a xs
]

-- An empty list of arguments falls through.
unfoldable pub fold_chain :
    (ℤ → ℤ → ℤ) → ℤ → (Ratio → Ratio → Ratio) → Ratio → List TermId → SortArena → TermArena → Arm
fold_chain f i g r [] sorts a = falls
fold_chain f i g r (x ∷ xs) sorts a =
    if_let (total int_of f i a (x ∷ xs)) (λ n. gives_int n sorts a)
      (if_let (total real_of g r a (x ∷ xs)) (λ q. gives_real q sorts a) falls)

unfoldable pub fold_compare :
    (ℤ → ℤ → Bool) → (Ratio → Ratio → Bool) → List TermId → SortArena → TermArena → Arm
fold_compare f g (x ∷ (y ∷ _)) sorts a =
    if_let (look_two int_of a x y) (λ p. truth (f p.0 p.1) sorts a)
      (if_let (look_two real_of a x y) (λ p. truth (g p.0 p.1) sorts a) falls)
fold_compare f g _ sorts a = panics

unfoldable pub fold_eq : RatioOps → List TermId → SortArena → TermArena → Arm
fold_eq R (x ∷ (y ∷ _)) sorts a =
    if x == y
    then gives sorts a a.true_id
    else if_let (look_two bv_of a x y) (λ p. truth (p.0.0 == p.1.0) sorts a)
        (if_let (look_two int_of a x y) (λ p. truth (eqb_ℤ p.0 p.1) sorts a)
          (if_let (look_two real_of a x y) (λ p. truth (R.eq_r p.0 p.1) sorts a) falls))
fold_eq R _ sorts a = panics

unfoldable pub fold_sub : RatioOps → List TermId → SortArena → TermArena → Arm
fold_sub R (x ∷ (y ∷ [])) sorts a =
    if_let (look_two int_of a x y) (λ p. gives_int (p.0 -ℤ p.1) sorts a)
      (if_let (look_two real_of a x y) (λ p. gives_real (R.sub_r p.0 p.1) sorts a) falls)
fold_sub R _ sorts a = falls
