-- ===== src/Core/Meaning/Sample.antt =====
-- Small arenas and an arithmetic of fractions, for the tests.
use smt_solver_rust.Common.{◌*◌, refl, Bool, true, List, []}
use smt_solver_rust.Common.Int.{ℤ, pos, ◌+ℤ◌, ◌-ℤ◌, ◌*ℤ◌, ltb_ℤ, leb_ℤ, eqb_ℤ, eqb_ℤ_iff}
use smt_solver_rust.Core.Sort
use smt_solver_rust.Core.Sort.{SortArena, bit_vec, get_sort, bool_s, int_s}
use smt_solver_rust.Core.Op.{Op, var_op}
use smt_solver_rust.Core.Term.{TermArena, intern, new}
use smt_solver_rust.Core.Term.Fresh.{new-IsArena}
use smt_solver_rust.Core.Meaning.{Ratio, RatioOps, Value, bool, denote}
use smt_solver_rust.Core.Meaning.Model.{Yields, intern-Yields}
use smt_solver_rust.Core.Meaning.Fresh.{constants, new-IsModel}

-- Fractions that are not reduced, compared across.
abbrev across : (ℤ → ℤ → Bool) → Ratio → Ratio → Bool
across f r s = f (r.numer *ℤ pos s.denom) (s.numer *ℤ pos r.denom)

abbrev over : (ℤ → ℤ → ℤ) → Ratio → Ratio → Ratio
over f r s = record {
  numer = f (r.numer *ℤ pos s.denom) (s.numer *ℤ pos r.denom);
  denom = r.denom * s.denom;
}

abbrev pub fractions : RatioOps
fractions = record {
  zero_r = record { numer = pos 0; denom = 1 };
  one_r = record { numer = pos 1; denom = 1 };
  add_r = over ◌+ℤ◌;
  sub_r = over ◌-ℤ◌;
  mul_r = λ r s. record { numer = r.numer *ℤ s.numer; denom = r.denom * s.denom };
  eq_r = across (λ i j. eqb_ℤ i j);
  lt_r = across (λ i j. ltb_ℤ i j);
  le_r = across (λ i j. leb_ℤ i j);
  eq_r_self = λ r. (eqb_ℤ_iff (r.numer *ℤ pos r.denom) (r.numer *ℤ pos r.denom)).1 refl;
}

-- Every variable is true.
abbrev pub all_true : Op → List Value → Value
all_true o vs = bool true

abbrev pub empty : TermArena
empty = new Sort.new

-- The arena with a variable `x`, and a model of it.
abbrev pub with_x : TermArena
with_x = (intern (var_op "x") [] 0 empty).0

pub with_x-Yields :
    Yields fractions all_true empty constants (bool true) (intern (var_op "x") [] 0 empty)
unfolding denote
with_x-Yields =
    intern-Yields fractions all_true (var_op "x") [] 0 empty constants (bool true)
      (new-IsArena Sort.new) (new-IsModel fractions all_true Sort.new) tt refl
