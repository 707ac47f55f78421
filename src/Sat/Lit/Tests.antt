-- ===== src/Sat/Lit/Tests.antt =====
-- Literals on concrete values, and the laws at them.
use smt_solver_rust.Common.{◌^◌, ◌<◌, ◌≡◌, ◌≢◌, refl, true, false, none, some, arith}
use smt_solver_rust.Common.Int.{pos, negsuc}
use smt_solver_rust.Sat.Lit.{
  Lit, to_lit, to_neg_lit, new, var, is_neg, negate, to_dimacs, from_dimacs,
}
use smt_solver_rust.Sat.Lit.Laws.{
  new_fields, new-var-is_neg, negate-new, from_dimacs-to_dimacs, to_dimacs-from_dimacs,
}

dimacs_values : (to_dimacs 7 ≡ negsuc 3) × (from_dimacs (negsuc 3) ≡ some 7)
unfolding to_dimacs from_dimacs
dimacs_values = (refl, refl)

new_fields_example :
    (var (new 5 true) ≡ 5)
    × (is_neg (new 5 true) ≡ true)
    × (new 5 true < 2 ^ 32)
    × (to_lit 5 ≡ new 5 false)
    × (to_neg_lit 5 ≡ new 5 true)
new_fields_example = new_fields 5 true (omega arith)

new-var-is_neg_example : new (var 11) (is_neg 11) ≡ 11
new-var-is_neg_example = new-var-is_neg 11 (omega arith)

negate-new_example : negate (new 5 true) ≡ new 5 false
negate-new_example = negate-new 5 true (omega arith)

from_dimacs-to_dimacs_example : from_dimacs (to_dimacs 7) ≡ some 7
from_dimacs-to_dimacs_example = from_dimacs-to_dimacs 7 (omega arith)

to_dimacs-from_dimacs_example :
    (from_dimacs (pos 0) ≡ none)
    × (negsuc 3 ≢ pos 0 → (l : Lit) × (from_dimacs (negsuc 3) ≡ some l) × (to_dimacs l ≡ negsuc 3))
to_dimacs-from_dimacs_example = to_dimacs-from_dimacs (negsuc 3) (omega arith)
