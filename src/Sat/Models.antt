-- ===== src/Sat/Models.antt =====
-- What clauses mean: the models of a clause database. Nothing of this is code; it is the
-- specification that the solver's components are measured against.
use smt_solver_rust.Common.{
  ◌≡◌, refl, Bool, true, false, not, ◌||◌, List, [], ◌∷◌, ◌++◌, All, arith,
}
use smt_solver_rust.Sat.Lit.{Var, Lit, var, is_pos, negate}
use smt_solver_rust.Sat.Lit.Laws.{var-negate, is_pos-negate}

abbrev pub Clause : Type 0
Clause = List Lit

abbrev pub Valuation : Type 0
Valuation = Var → Bool

-- A positive literal has its variable's value, a negative one the opposite.
abbrev pub by_sign : Bool → Bool → Bool
by_sign true b = b
by_sign false b = not b

unfoldable pub holds : Valuation → Lit → Bool
holds α l = by_sign (is_pos l) (α (var l))

unfoldable pub satisfies : Valuation → Clause → Bool
satisfies α [] = false
satisfies α (l ∷ c) = holds α l || satisfies α c

abbrev pub Models : Valuation → List Clause → Type 0
Models α cs = All (λ c. satisfies α c ≡ true) cs

pub holds-negate : (α : Valuation) (l : Lit) → holds α (negate l) ≡ not (holds α l)
unfolding holds
holds-negate α l = ground (arith, var-negate l, is_pos-negate l)

pub satisfies-append :
    (α : Valuation) (c d : Clause) → satisfies α (c ++ d) ≡ (satisfies α c || satisfies α d)
unfolding satisfies
satisfies-append α [] d = refl
satisfies-append α (l ∷ c) d = ground (arith, satisfies-append α c d)
