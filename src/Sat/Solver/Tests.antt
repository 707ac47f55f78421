-- ===== src/Sat/Solver/Tests.antt =====
-- Runs of crates/smt-sat/src/solver.rs, and its laws on a conflict: x2 is decided at level 1 and x0
-- at level 2, the clause x1 or not x0 implies x1, and not x2 or not x0 or not x1 is the conflict.
use mathlib.Core.Option.{some-injective}
use smt_solver_rust.Common.{
  ℕ, zero, suc, ◌<◌, ◌≡◌, refl, sym, ap, ◌∙◌, true, false, Option, none, some, List, [], ◌∷◌,
  get_elem?, arith, ◌⊎◌, inl, inr, All,
}
use smt_solver_rust.Common.Int.{decr}
use smt_solver_rust.Sat.Lit.{Var, Lit, var, negate, is_pos, is_neg, undef}
use smt_solver_rust.Sat.Trail.{
  Trail, Reason, decision, unit, clause, ClauseId, new_decision_level, assigned, reason_of,
  level_of, decision_level,
}
use smt_solver_rust.Sat.Trail.View.{value_in, level_at}
use smt_solver_rust.Sat.Trail.Valid.{
  IsValid, value_of, new_decision_level-IsValid, assigned-IsValid,
}
use smt_solver_rust.Sat.Clause.{Clause, ClauseArena, get_clause}
use smt_solver_rust.Sat.Float.{F64}
use smt_solver_rust.Sat.Vsids
use smt_solver_rust.Sat.Vsids.{Vsids, absent}
use smt_solver_rust.Sat.Vsids.Indexed.{IsIndexed}
use smt_solver_rust.Sat.Vsids.Tests.{numbers}
use smt_solver_rust.Sat.Solver
use smt_solver_rust.Sat.Solver.{SatSolver, Kernel}
use smt_solver_rust.Sat.Solver.Analyze.{analyze_conflict, mark, walk, count_levels, met}
use smt_solver_rust.Sat.Solver.Position.{FalseBefore}
use smt_solver_rust.Sat.Solver.Learn.{is_clause}
use smt_solver_rust.Sat.Solver.Conflict.{IsConflict, IsAnalyzed, analyze_conflict-IsAnalyzed}

abbrev pub three : Trail
three = record {
  assigns = undef ∷ (undef ∷ (undef ∷ []));
  var_data =
      record { level = 0; reason = unit }
      ∷ (record { level = 0; reason = unit } ∷ (record { level = 0; reason = unit } ∷ []));
  phase = false ∷ (false ∷ (false ∷ []));
  trail = [];
  trail_lim = [];
  qhead = 0;
}

three_value : (v : Var) → value_of three v ≡ undef
three_value zero = refl
three_value (suc zero) = refl
three_value (suc (suc zero)) = refl
three_value (suc (suc (suc v))) = refl

pub three-IsValid : IsValid three
unfolding value_in
three-IsValid = record {
  core = record {
    data_length = refl;
    phase_length = refl;
    distinct = tt;
    in_range = tt;
    values = λ v h. three_value v;
    levels = λ i l d e. absurd (cc);
  };
  limits = omega arith;
  queue = omega arith;
}

abbrev pub decided : Trail
decided = assigned (new_decision_level (assigned (new_decision_level three) 4 decision)) 0 decision

abbrev run : Trail
run = assigned decided 2 (clause 0)

run-IsValid : IsValid run
unfolding var is_pos is_neg new_decision_level
run-IsValid =
    let one =
      assigned-IsValid (new_decision_level three) (new_decision_level-IsValid three-IsValid) 4
        decision (omega arith) refl in
    let two =
      assigned-IsValid (new_decision_level (assigned (new_decision_level three) 4 decision))
        (new_decision_level-IsValid one) 0 decision (omega arith) refl in
    assigned-IsValid decided two 2 (clause 0) (omega arith) refl

abbrev pub first_clause : Clause F64
first_clause = record {
  lits = 2 ∷ (1 ∷ []);
  lbd = 0;
  activity = 0;
  learned = false;
  deleted = false;
}

abbrev pub second_clause : Clause F64
second_clause = record {
  lits = 5 ∷ (1 ∷ (3 ∷ []));
  lbd = 0;
  activity = 0;
  learned = false;
  deleted = false;
}

abbrev pub arena : ClauseArena F64
arena = record { clauses = first_clause ∷ (second_clause ∷ []) }

abbrev id_of : Reason → ClauseId
id_of (clause id) = id
id_of _ = 0

run_reasons :
    (i : ℕ) (l : Lit) (id : ClauseId)
    → get_elem? run.trail i ≡ some l
    → reason_of run (var l) ≡ some (clause id)
    → (c : Clause F64) × (get_clause arena id ≡ some c)
      × All (λ m. (m ≡ l) ⊎ FalseBefore run i m) c.lits
unfolding reason_of var is_pos is_neg new_decision_level get_clause negate decision_level
run_reasons zero l id e r =
    let q : 4 ≡ l = some-injective _ _ e in
    let z : some decision ≡ some (clause id) = ap (λ k. reason_of run (var k)) q ∙ r in absurd (cc)
run_reasons (suc zero) l id e r =
    let q : 0 ≡ l = some-injective _ _ e in
    let z : some decision ≡ some (clause id) = ap (λ k. reason_of run (var k)) q ∙ r in absurd (cc)
run_reasons (suc (suc zero)) l id e r =
    let q : 2 ≡ l = some-injective _ _ e in
    let z : some (clause 0) ≡ some (clause id) = ap (λ k. reason_of run (var k)) q ∙ r in
    let same : 0 ≡ id = ap id_of (some-injective _ _ z) in
    (first_clause, ap (get_clause arena) (sym same), (inl q, (inr (1, omega arith, refl), tt)))
run_reasons (suc (suc (suc i))) l id e r = absurd (cc)

run_openers :
    (i : ℕ) (l : Lit) (r : Reason)
    → get_elem? run.trail i ≡ some l
    → reason_of run (var l) ≡ some r
    → is_clause r ≡ false
    → 0 < level_at run.trail_lim i
    → (j : ℕ) → j < i
    → level_at run.trail_lim j < level_at run.trail_lim i
unfolding reason_of var is_pos is_neg new_decision_level level_at decision_level
run_openers zero l r e f p q j h = absurd (omega arith)
run_openers (suc zero) l r e f p q zero h = omega arith
run_openers (suc zero) l r e f p q (suc j) h = absurd (omega arith)
run_openers (suc (suc zero)) l r e f p q j h =
    let same : 2 ≡ l = some-injective _ _ e in
    let z : some (clause 0) ≡ some r = ap (λ k. reason_of run (var k)) same ∙ f in
    let y : true ≡ false = ap is_clause (some-injective _ _ z) ∙ p in absurd (cc)
run_openers (suc (suc (suc i))) l r e f p q j h = absurd (cc)

abbrev pub one_left : Vsids
one_left = record {
  activity = 0 ∷ (0 ∷ (0 ∷ []));
  var_inc = 1;
  var_decay = 1;
  heap = 1 ∷ [];
  heap_pos = absent ∷ (0 ∷ (absent ∷ []));
}

one_left_placed :
    (i : ℕ) (v : Var) → get_elem? one_left.heap i ≡ some v → get_elem? one_left.heap_pos v ≡ some i
one_left_placed zero v e = ap (get_elem? one_left.heap_pos) (sym (some-injective _ _ e))
one_left_placed (suc i) v e = absurd (cc)

one_left_found :
    (v : Var) (p : ℕ)
    → get_elem? one_left.heap_pos v ≡ some p
    → (p ≡ absent) ⊎ (get_elem? one_left.heap p ≡ some v)
one_left_found zero p e = inl (sym (some-injective _ _ e))
one_left_found (suc zero) p e = inr (ap (get_elem? one_left.heap) (sym (some-injective _ _ e)))
one_left_found (suc (suc zero)) p e = inl (sym (some-injective _ _ e))
one_left_found (suc (suc (suc v))) p e = absurd (cc)

pub one_left-IsIndexed : IsIndexed 3 one_left
one_left-IsIndexed = record {
  activities = refl;
  positions = refl;
  placed = one_left_placed;
  found = one_left_found;
  filled = refl;
  small = omega arith;
}

abbrev stuck : SatSolver
stuck =
    let s = Solver.new numbers in
    let k = s.kernel in
    record s { kernel = record k { arena = arena; trail = run }; vsids = one_left; num_vars = 3 }

run-IsConflict : IsConflict run second_clause
unfolding new_decision_level negate level_at
run-IsConflict = record {
  all_false = ((0, omega arith, refl), ((1, omega arith, refl), ((2, omega arith, refl), tt)));
  last = 3;
  last_in = (2, refl);
  position = 2;
  last_at = refl;
  last_level = refl;
  above = omega arith;
}

analyze_conflict-IsAnalyzed_example :
    (u : SatSolver) × (l : Lit) × (rest : List Lit) × (back : ℕ) × (lbd : ℕ) × (analyze_conflict
        numbers 1 stuck
      ≡ some (u, l ∷ rest, back, lbd))
    × IsAnalyzed stuck u l rest back lbd
unfolding Solver.new get_clause new_decision_level var is_pos is_neg
analyze_conflict-IsAnalyzed_example =
    analyze_conflict-IsAnalyzed numbers stuck 1 second_clause run-IsValid
      (record { reasons = run_reasons; openers = run_openers }) one_left-IsIndexed refl refl
      run-IsConflict

abbrev learned_of : Option (SatSolver × List Lit × ℕ × ℕ) → List Lit × ℕ × ℕ
learned_of none = ([], 0, 0)
learned_of (some (u, ls, back, lbd)) = (ls, back, lbd)

learned_run : learned_of (analyze_conflict numbers 1 stuck) ≡ (1 ∷ (5 ∷ []), 1, 2)
unfolding Solver.new analyze_conflict decision_level new_decision_level get_clause mark var is_pos
    is_neg Vsids.bump_var Vsids.rescale level_of Vsids.sift_up walk reason_of count_levels negate
    met Vsids.above Vsids.decay decr
learned_run = refl
