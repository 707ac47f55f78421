-- ===== src/Sat/Drat/Tests.antt =====
-- The checker on small certificates, and its laws at them.
use Prim.Native.String.{String}
use Prim.Native.Char.{code}
use smt_solver_rust.Common.{◌≡◌, ◌≢◌, refl, true, Option, none, some, List, [], ◌∷◌, ◌++◌}
use smt_solver_rust.Sat.Lit.{var, is_pos, is_neg}
use smt_solver_rust.Sat.Models.{Clause, satisfies, holds, Models}
use smt_solver_rust.Sat.Drat.{check_rup, assume_negation, propagate, total_lits, scan, judge, tally}
use smt_solver_rust.Sat.Drat.Rup.{check_rup_sound}
use smt_solver_rust.Sat.Drat.Text.{Text, lines, parse_line}
use smt_solver_rust.Sat.Drat.Verify.{
  DratVerificationResult, valid, rup_failure, parse_error, verify_proof,
}
use smt_solver_rust.Sat.Drat.Sound.{Certified, verify_proof-Certified}
use smt_solver_rust.Sat.Drat.Fuel.{check_rup_total, verify_proof_total}

abbrev codes : String → Text
codes String.[] = []
codes (String.◌∷◌ c s) = code c ∷ codes s

-- `verify_proof` with all that it calls open.
run : List Clause → Text → Option (List Clause × DratVerificationResult)
unfolding verify_proof lines parse_line check_rup assume_negation propagate total_lits scan judge
    tally var is_pos is_neg
run = verify_proof

-- x0 or x1, x0 or not x1
abbrev half : List Clause
half = (0 ∷ 2 ∷ []) ∷ ((0 ∷ 3 ∷ []) ∷ [])

-- with not x0 or x1, not x0 or not x1
abbrev square : List Clause
square = half ++ ((1 ∷ 2 ∷ []) ∷ ((1 ∷ 3 ∷ []) ∷ []))

abbrev certificate : Text
certificate = codes "c learned\n1 0\n\n0\n"

accepted : verify_proof square certificate ≡ some (square ++ (0 ∷ []) ∷ [], valid)
unfolding run
accepted = refl

rejected :
    verify_proof ((0 ∷ []) ∷ []) (codes "2 0\n") ≡ some ((0 ∷ []) ∷ [], rup_failure 1 (2 ∷ []))
unfolding run
rejected = refl

-- `swap_remove` moves the last clause into the gap.
deleted :
    verify_proof square (codes "d -2 1 0\nx 0")
    ≡ some ((0 ∷ 2 ∷ []) ∷ ((1 ∷ 3 ∷ []) ∷ ((1 ∷ 2 ∷ []) ∷ [])), parse_error 2 (codes "x"))
unfolding run
deleted = refl

half_accepts : check_rup half (0 ∷ []) ≡ some true
unfolding run
half_accepts = refl

half-Models : Models (λ _. true) half
unfolding satisfies holds run
half-Models = (refl, (refl, tt))

check_rup_sound_example : satisfies (λ _. true) (0 ∷ []) ≡ true
check_rup_sound_example = check_rup_sound half (0 ∷ []) half_accepts (λ _. true) half-Models

check_rup_total_example : check_rup square (0 ∷ []) ≢ none
check_rup_total_example = check_rup_total square (0 ∷ [])

verify_proof-Certified_example : Certified square (square ++ (0 ∷ []) ∷ [], valid)
verify_proof-Certified_example = verify_proof-Certified square certificate _ accepted

verify_proof_total_example :
    (o : List Clause × DratVerificationResult) × (verify_proof square certificate ≡ some o)
verify_proof_total_example = verify_proof_total square certificate
