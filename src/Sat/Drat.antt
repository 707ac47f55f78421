-- ===== src/Sat/Drat.antt =====
-- crates/smt-sat/src/drat_checker.rs: the proof checker. `check_rup` is here, the reading of a
-- certificate in the modules below. The `HashMap` of assignments is a function; its loop runs on
-- fuel, one unit more than there are literals, and `none` means that the fuel ran out.
pub mod Rup
pub mod Text
pub mod Verify
pub mod Sound
pub mod Fuel
mod Tests
use smt_solver_rust.Common.{
  ℕ, zero, suc, ◌+◌, Bool, true, false, not, ◌&&◌, Option, none, some, List, [], ◌∷◌, ◌++◌, ◌==◌,
  if◌then◌else◌, length, bool_eq,
}
use smt_solver_rust.Sat.Lit.{Var, Lit, var, is_pos, is_neg}
use smt_solver_rust.Sat.Models.{Clause}

abbrev pub Assignments : Type 0
Assignments = Var → Option Bool

abbrev pub empty : Assignments
empty v = none

-- `HashMap::insert`
abbrev pub insert : Var → Bool → Assignments → Assignments
insert v b asg u = if u == v then some b else asg u

-- Step 1: the candidate's literals are made false. `none` is the early `return true` on a
-- literal that is already true.
unfoldable pub assume_negation : List Lit → Assignments → Option Assignments
assume_negation [] asg = some asg
assume_negation (l ∷ ls) asg = elim (asg (var l)) [
  | some existing ↦ elim (bool_eq existing (is_neg l)) [
    | true ↦ assume_negation ls asg
    | false ↦ none
  ]
  | none ↦ assume_negation ls (insert (var l) (is_neg l) asg)
]

-- The locals of the loop over one clause.
pub record Tally : Type 0 where
  pub unassigned : List Lit
  pub satisfied : Bool
  pub false_count : ℕ

abbrev pub lit_val : Lit → Bool → Bool
lit_val l assigned = if is_pos l then assigned else not assigned

-- The loop over the literals of a clause; a true literal breaks it off.
unfoldable pub tally : Assignments → List Lit → Tally → Tally
tally asg [] t = t
tally asg (l ∷ ls) t = elim (asg (var l)) [
  | some assigned ↦ elim (lit_val l assigned) [
    | true ↦ record t { satisfied = true }
    | false ↦ tally asg ls (record t { false_count = t.false_count + 1 })
  ]
  | none ↦ tally asg ls (record t { unassigned = t.unassigned ++ l ∷ [] })
]

abbrev pub start : Tally
start = record { unassigned = []; satisfied = false; false_count = 0 }

-- What the tests after the loop decide.
pub data Verdict : Type 0 where
  pass conflict : Verdict
  unit : Lit → Verdict

abbrev pub judge_unit : List Lit → Bool → Verdict
judge_unit (l ∷ []) true = unit l
judge_unit _ _ = pass

unfoldable pub judge : ℕ → Tally → Verdict
judge len t =
    if t.satisfied
    then pass
    else if t.false_count == len
    then conflict
    else judge_unit t.unassigned (t.false_count + 1 == len)

-- The `for` loop over the clauses up to its `return true` or its `break`.
unfoldable pub scan : Assignments → List Clause → Verdict
scan asg [] = pass
scan asg (c ∷ cs) = elim (judge (length c) (tally asg c start)) [
  | pass ↦ scan asg cs
  | conflict ↦ conflict
  | unit l ↦ unit l
]

-- Step 2: the unit propagation loop.
unfoldable pub propagate : ℕ → List Clause → Assignments → Option Bool
propagate zero cs asg = none
propagate (suc fuel) cs asg = elim (scan asg cs) [
  | pass ↦ some false
  | conflict ↦ some true
  | unit l ↦ propagate fuel cs (insert (var l) (is_pos l) asg)
]

unfoldable pub total_lits : List Clause → ℕ
total_lits [] = 0
total_lits (c ∷ cs) = length c + total_lits cs

unfoldable pub check_rup : List Clause → List Lit → Option Bool
check_rup clauses candidate = elim (assume_negation candidate empty) [
  | none ↦ some true
  | some asg ↦ propagate (total_lits clauses + 1) clauses asg
]
