-- ===== src/Sat/Trail/Tests.antt =====
-- The trail on a small run, and its laws at it: x0 at level 0, then x1 negated at level 1.
use smt_solver_rust.Common.{
  ℕ, zero, suc, ◌+◌, ◌≡◌, ◌≢◌, refl, false, some, [], ◌∷◌, length, get_elem?, take, arith,
}
use smt_solver_rust.Sat.Lit.{Var, var, is_pos, is_neg, undef, true_val}
use smt_solver_rust.Sat.Trail.{
  decision, unit, Trail, new, ensure_var, decision_level, lit_value, new_decision_level, assign,
  assigned, backtrack_to_with,
}
use smt_solver_rust.Sat.Trail.View.{value_in}
use smt_solver_rust.Sat.Trail.Valid.{
  IsValid, value_of, new_decision_level-IsValid, assign-IsValid, assigned-IsValid,
}
use smt_solver_rust.Sat.Trail.Backtrack.{backtrack_to_with-IsValid}

abbrev fresh : Trail
fresh = record {
  assigns = undef ∷ (undef ∷ []);
  var_data = record { level = 0; reason = unit } ∷ (record { level = 0; reason = unit } ∷ []);
  phase = false ∷ (false ∷ []);
  trail = [];
  trail_lim = [];
  qhead = 0;
}

made : ensure_var 2 new ≡ fresh
unfolding ensure_var new
made = refl

fresh_value : (v : Var) → value_of fresh v ≡ undef
fresh_value zero = refl
fresh_value (suc zero) = refl
fresh_value (suc (suc v)) = refl

fresh-IsValid : IsValid fresh
unfolding value_in
fresh-IsValid = record {
  core = record {
    data_length = refl;
    phase_length = refl;
    distinct = tt;
    in_range = tt;
    values = λ v h. fresh_value v;
    levels = λ i l d e. absurd (cc);
  };
  limits = omega arith;
  queue = omega arith;
}

abbrev step : Trail
step = new_decision_level (assigned fresh 0 unit)

step-IsValid : IsValid step
unfolding var is_pos is_neg
step-IsValid =
    new_decision_level-IsValid (assigned-IsValid fresh fresh-IsValid 0 unit (omega arith) refl)

abbrev run : Trail
run = assigned step 3 decision

assign-IsValid_example :
    IsValid run
    × (lit_value run 3 ≡ some true_val)
    × (get_elem? run.var_data (var 3)
        ≡ some (record { level = decision_level step; reason = decision }))
    × ((w : Var) → w ≢ var 3 → value_of run w ≡ value_of step w)
unfolding new_decision_level var is_pos is_neg decision_level assign
assign-IsValid_example = assign-IsValid step 3 decision run step-IsValid refl

-- The closure counts the variables.
backtrack_to_with-IsValid_example :
    (u : Trail) × (s' : ℕ) × (k : ℕ) × (backtrack_to_with (λ v (s : ℕ). s + 1) 0 run 0
      ≡ some (u, s'))
    × IsValid u
    × (get_elem? run.trail_lim 0 ≡ some k)
    × (u.trail ≡ take k run.trail)
    × (u.qhead ≡ k)
    × (decision_level u ≡ 0)
    × (u.phase ≡ run.phase)
    × (u.var_data ≡ run.var_data)
    × (u.trail_lim ≡ take 0 run.trail_lim)
    × (length u.assigns ≡ length run.assigns)
unfolding new_decision_level var is_pos is_neg decision_level
backtrack_to_with-IsValid_example =
    backtrack_to_with-IsValid (λ v (s : ℕ). s + 1) 0 run 0 assign-IsValid_example.0 (omega arith)
