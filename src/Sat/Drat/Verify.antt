-- ===== src/Sat/Drat/Verify.antt =====
-- crates/smt-sat/src/drat_checker.rs: `verify_proof` and `delete_clause`. The checker's clauses
-- go in and come out with the result; `none` is the fuel of `check_rup` running out.
use smt_solver_rust.Common.{
  ℕ, ◌+◌, ◌-◌, Bool, true, false, ◌&&◌, Option, none, some, List, [], ◌∷◌, ◌++◌, ◌==◌, leb,
  if◌then◌else◌, length, get_or, set, take,
}
use smt_solver_rust.Sat.Lit.{Lit}
use smt_solver_rust.Sat.Models.{Clause}
use smt_solver_rust.Sat.Drat.{check_rup}
use smt_solver_rust.Sat.Drat.Text.{
  Text, lines, parse_line, Line, skip, delete, add, lits, bad_token,
}

pub data DratVerificationResult : Type 0 where
  valid missing_empty_clause : DratVerificationResult
  rup_failure : ℕ → Clause → DratVerificationResult
  parse_error : ℕ → Text → DratVerificationResult

-- `sort` on numbers.
unfoldable pub insert_sorted : ℕ → List ℕ → List ℕ
insert_sorted x [] = x ∷ []
insert_sorted x (y ∷ ys) = if leb x y then x ∷ (y ∷ ys) else y ∷ insert_sorted x ys

unfoldable pub sort : List ℕ → List ℕ
unfolding insert_sorted
sort [] = []
sort (x ∷ xs) = insert_sorted x (sort xs)

unfoldable pub same_lits : List ℕ → List ℕ → Bool
same_lits [] [] = true
same_lits [] (y ∷ ys) = false
same_lits (x ∷ xs) [] = false
same_lits (x ∷ xs) (y ∷ ys) = x == y && same_lits xs ys

-- `position`: the first clause that is `sorted_lits` once it is sorted.
unfoldable pub position : List Lit → List Clause → Option ℕ
unfolding sort same_lits
position sorted_lits [] = none
position sorted_lits (c ∷ cs) = elim (same_lits (sort c) sorted_lits) [
  | true ↦ some 0
  | false ↦ elim (position sorted_lits cs) [ none ↦ none | some i ↦ some (i + 1) ]
]

-- `swap_remove`: the last element takes the place of the removed one.
unfoldable pub swap_remove : List Clause → ℕ → List Clause
swap_remove cs i = let last = length cs - 1 in take last (set cs i (get_or cs last []))

unfoldable pub delete_clause : List Lit → List Clause → List Clause
unfolding position swap_remove
delete_clause ls cs = elim (position (sort ls) cs) [ none ↦ cs | some i ↦ swap_remove cs i ]

-- What the body of the loop over the lines does: go on with these clauses, or return.
pub data Progress : Type 0 where
  go : List Clause → Progress
  stop : List Clause → DratVerificationResult → Progress
  out_of_fuel : Progress

-- An accepted clause is kept; the empty one ends the proof.
abbrev pub accept : Clause → List Clause → Progress
accept [] cs = stop cs valid
accept (l ∷ ls) cs = go (cs ++ (l ∷ ls) ∷ [])

unfoldable pub check_line : ℕ → Line → List Clause → Progress
unfolding delete_clause
check_line n skip cs = go cs
check_line n (delete (bad_token t)) cs = stop cs (parse_error n t)
check_line n (delete (lits ls)) cs = go (delete_clause ls cs)
check_line n (add (bad_token t)) cs = stop cs (parse_error n t)
check_line n (add (lits ls)) cs = elim (check_rup cs ls) [
  | none ↦ out_of_fuel
  | some false ↦ stop cs (rup_failure n ls)
  | some true ↦ accept ls cs
]

-- The loop over the lines; the first argument is the number of the next line.
unfoldable pub verify_lines :
    ℕ → List Text → List Clause → Option (List Clause × DratVerificationResult)
unfolding check_line
verify_lines n [] cs = some (cs, missing_empty_clause)
verify_lines n (line ∷ rest) cs = elim (check_line n (parse_line line) cs) [
  | go cs' ↦ verify_lines (n + 1) rest cs'
  | stop cs' r ↦ some (cs', r)
  | out_of_fuel ↦ none
]

unfoldable pub verify_proof : List Clause → Text → Option (List Clause × DratVerificationResult)
unfolding verify_lines
verify_proof cs text = verify_lines 1 (lines text) cs
