-- ===== src/Sat/Drat/Sound.antt =====
-- crates/smt-sat/src/drat_checker.rs: a run over a certificate and the models of the clauses.
use smt_solver_rust.Common.{
  ℕ, zero, suc, ◌+◌, ◌-◌, ◌≤◌, ◌≡◌, ◌≢◌, refl, true, false, none, some, List, [], ◌∷◌, get_or, set,
  take, length, All, All-append, arith, Option-cases, ◌⊎◌, inl, inr,
}
use smt_solver_rust.Sat.Models.{Clause, Valuation, satisfies, Models}
use mathlib.Core.Path.{subst}
use mathlib.Core.Option.{some-injective}
use smt_solver_rust.Sat.Lit.{Lit}
use smt_solver_rust.Sat.Drat.{check_rup}
use smt_solver_rust.Sat.Drat.Rup.{check_rup_sound}
use smt_solver_rust.Sat.Drat.Text.{
  Text, lines, parse_line, Line, skip, delete, add, lits, bad_token,
}
use smt_solver_rust.Sat.Drat.Verify.{
  DratVerificationResult, valid, position, sort, swap_remove, delete_clause, Progress, go, stop,
  out_of_fuel, accept, check_line, verify_lines, verify_proof,
}

module _ {ℓ κ} {A : Type ℓ} (P : A → Type κ) where
  All-set : (xs : List A) (i : ℕ) (v : A) → All P xs → P v → All P (set xs i v)
  All-set [] i v h p = tt
  All-set (x ∷ xs) zero v h p = (p, h.1)
  All-set (x ∷ xs) (suc i) v h p = (h.0, All-set xs i v h.1 p)

  All-take : (n : ℕ) (xs : List A) → All P xs → All P (take n xs)
  All-take zero xs h = tt
  All-take (suc n) [] h = tt
  All-take (suc n) (x ∷ xs) h = (h.0, All-take n xs h.1)

  get_or-All : (xs : List A) (i : ℕ) (d : A) → All P xs → suc i ≤ length xs → P (get_or xs i d)
  get_or-All [] i d h b = absurd (omega arith)
  get_or-All (x ∷ xs) zero d h b = h.0
  get_or-All (x ∷ xs) (suc i) d h b = get_or-All xs i d h.1 (omega arith)

swap_remove-Models :
    (α : Valuation) (cs : List Clause) (i : ℕ) → Models α cs → Models α (swap_remove cs i)
unfolding swap_remove
swap_remove-Models α [] i m = tt
swap_remove-Models α (c ∷ cs) i m =
    let P : Clause → Type 0 = λ d. satisfies α d ≡ true in
    let all = c ∷ cs in
    let last : ℕ = length all - 1 in
    All-take P last _
      (All-set P all i (get_or all last []) m (get_or-All P all last [] m (omega arith)))

-- Deletion keeps every model.
pub delete_clause-Models :
    (α : Valuation) (ls : List Lit) (cs : List Clause)
    → Models α cs
    → Models α (delete_clause ls cs)
unfolding delete_clause
delete_clause-Models α ls cs m = elim (Option-cases (position (sort ls) cs)) [
  | inl e ↦ rw (e, delete_clause) m
  | inr (i, e) ↦ rw (e, delete_clause) (swap_remove-Models α cs i m)
]

-- The clauses that are left hold in the valuation, and the result is not `valid`.
abbrev Keeps : Valuation → Progress → Type 0
Keeps α (go cs) = Models α cs
Keeps α (stop cs r) = Models α cs × (r ≢ valid)
Keeps α out_of_fuel = Unit

accept-Keeps :
    (α : Valuation) (ls : Clause) (cs : List Clause)
    → satisfies α ls ≡ true
    → Models α cs
    → Keeps α (accept ls cs)
accept-Keeps α [] cs s m = absurd (unfold satisfies in cc)
accept-Keeps α (l ∷ ls) cs s m = All-append (λ d. satisfies α d ≡ true) cs _ m (s, tt)

check_line-Keeps :
    (α : Valuation) (n : ℕ) (line : Line) (cs : List Clause)
    → Models α cs
    → Keeps α (check_line n line cs)
unfolding check_line
check_line-Keeps α n skip cs m = m
check_line-Keeps α n (delete (bad_token t)) cs m = (m, λ e. cc)
check_line-Keeps α n (delete (lits ls)) cs m = delete_clause-Models α ls cs m
check_line-Keeps α n (add (bad_token t)) cs m = (m, λ e. cc)
check_line-Keeps α n (add (lits ls)) cs m = elim (Option-cases (check_rup cs ls)) [
  | inl e ↦ rw (e, check_line) tt
  | inr (true, e) ↦ rw (e, check_line) (accept-Keeps α ls cs (check_rup_sound cs ls e α m) m)
  | inr (false, e) ↦ rw (e, check_line) (m, λ f. cc)
]

-- What a run proves: the clauses that it leaves hold in every model of those it started from, and
-- after `valid` there is no such model.
abbrev pub Certified : List Clause → List Clause × DratVerificationResult → Type 0
Certified cs (cs', r) = (α : Valuation) → Models α cs → Models α cs' × (r ≢ valid)

pub Progress-cases :
    (p : Progress)
    → ((cs : List Clause) × (p ≡ go cs))
      ⊎ ((cs : List Clause) × (r : DratVerificationResult) × (p ≡ stop cs r))
      ⊎ (p ≡ out_of_fuel)
Progress-cases (go cs) = inl (cs, refl)
Progress-cases (stop cs r) = inr (inl (cs, r, refl))
Progress-cases out_of_fuel = inr (inr refl)

verify_lines-Certified :
    (n : ℕ) (ls : List Text) (cs : List Clause) (o : List Clause × DratVerificationResult)
    → verify_lines n ls cs ≡ some o
    → Certified cs o
unfolding verify_lines
verify_lines-Certified n [] cs o e α m =
    subst (λ q. Models α q.0 × (q.1 ≢ valid)) (some-injective _ _ e) (m, λ f. cc)
verify_lines-Certified n (line ∷ rest) cs o e α m =
    let kept = check_line-Keeps α n (parse_line line) cs m in
    elim (Progress-cases (check_line n (parse_line line) cs)) [
      | inl (cs', p) ↦
          verify_lines-Certified (n + 1) rest cs' o (rw (p, verify_lines) at e) α (rw p at kept)
      | inr (inl (cs', r, p)) ↦
          subst (λ q. Models α q.0 × (q.1 ≢ valid)) (some-injective _ _ (rw (p, verify_lines) at e))
            (rw p at kept)
      | inr (inr p) ↦ absurd (let bad : none ≡ some o = rw (p, verify_lines) at e in cc)
    ]

-- A run that returns leaves clauses that hold in every model of the clauses it was given, and if
-- it returns `valid` those have no model.
pub verify_proof-Certified :
    (cs : List Clause) (text : Text) (o : List Clause × DratVerificationResult)
    → verify_proof cs text ≡ some o
    → Certified cs o
unfolding verify_proof
verify_proof-Certified cs text o e = verify_lines-Certified 1 (lines text) cs o e
