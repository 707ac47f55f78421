-- ===== src/Sat/Drat/Fuel.antt =====
-- crates/smt-sat/src/drat_checker.rs: the rounds of unit propagation, each of which assigns a
-- variable of a literal that was unassigned.
use smt_solver_rust.Common.{
  ℕ, zero, suc, ◌+◌, ◌≤◌, ◌<◌, ◌≡◌, ◌≢◌, refl, Bool, true, false, Option, none, some, List, [], ◌∷◌,
  ◌++◌, ◌==◌, length, arith, Bool-cases, Option-cases, ◌⊎◌, inl, inr, ==-refl, ap, ◌∙◌,
}
use smt_solver_rust.Sat.Models.{Clause}
use smt_solver_rust.Sat.Lit.{Var, Lit, var, is_pos}
use smt_solver_rust.Sat.Drat.{
  Assignments, empty, insert, assume_negation, Tally, tally, start, lit_val, unit, judge_unit,
  judge, scan, propagate, total_lits, check_rup,
}
use smt_solver_rust.Sat.Drat.Rup.{Verdict-cases}
use smt_solver_rust.Sat.Drat.Text.{
  Text, lines, parse_line, Line, skip, delete, add, lits, bad_token,
}
use smt_solver_rust.Sat.Drat.Verify.{
  DratVerificationResult, missing_empty_clause, out_of_fuel, check_line, verify_lines, verify_proof,
}
use smt_solver_rust.Sat.Drat.Sound.{Progress-cases}

-- The literals whose variable has no value yet.
waiting_one : Option Bool → ℕ
waiting_one none = 1
waiting_one (some b) = 0

waiting : Assignments → Clause → ℕ
waiting asg [] = 0
waiting asg (l ∷ c) = waiting_one (asg (var l)) + waiting asg c

waiting_all : Assignments → List Clause → ℕ
waiting_all asg [] = 0
waiting_all asg (c ∷ cs) = waiting asg c + waiting_all asg cs

abbrev OneOf : Lit → List Lit → Type 0
OneOf l [] = ⊥
OneOf l (x ∷ xs) = (x ≡ l) ⊎ OneOf l xs

OneOf-append : (l : Lit) (xs ys : List Lit) → OneOf l (xs ++ ys) → OneOf l xs ⊎ OneOf l ys
OneOf-append l [] ys h = inr h
OneOf-append l (x ∷ xs) ys (inl e) = inl (inl e)
OneOf-append l (x ∷ xs) ys (inr h) = elim (OneOf-append l xs ys h) [
  | inl a ↦ inl (inr a)
  | inr b ↦ inr b
]

-- A literal that the loop sets aside waits for its variable.
abbrev Waits : Assignments → Lit → Clause → Type 0
Waits asg l [] = ⊥
Waits asg l (x ∷ c) = ((x ≡ l) × (asg (var x) ≡ none)) ⊎ Waits asg l c

tally-Waits :
    (asg : Assignments) (l : Lit) (ls : List Lit) (t : Tally)
    → OneOf l (tally asg ls t).unassigned
    → OneOf l t.unassigned ⊎ Waits asg l ls
unfolding tally
tally-Waits asg l [] t h = inl h
tally-Waits asg l (x ∷ ls) t h = elim (Option-cases (asg (var x))) [
  | inl e ↦
      elim (tally-Waits asg l ls (record t { unassigned = t.unassigned ++ x ∷ [] })
        (rw (e, tally) at h)) [
          | inl a ↦ elim (OneOf-append l t.unassigned (x ∷ []) a) [
            | inl b ↦ inl b
            | inr (inl b) ↦ inr (inl (b, e))
            | inr (inr b) ↦ absurd b
          ]
          | inr w ↦ inr (inr w)
        ]
  | inr (b, e) ↦ elim (Bool-cases (lit_val x b)) [
    | inl v ↦ inl (rw (e, tally, v) at h)
    | inr v ↦
        let later = record t { false_count = t.false_count + 1 } in
        elim (tally-Waits asg l ls later (rw (e, tally, v) at h)) [
          | inl a ↦ inl a
          | inr w ↦ inr (inr w)
        ]
  ]
]

insert-waiting_one :
    (asg : Assignments) (v u : Var) (b : Bool)
    → waiting_one (insert v b asg u) ≤ waiting_one (asg u)
unfolding waiting_one
insert-waiting_one asg v u b = ground arith

insert-waiting :
    (asg : Assignments) (v : Var) (b : Bool) (c : Clause)
    → waiting (insert v b asg) c ≤ waiting asg c
unfolding waiting
insert-waiting asg v b [] = omega arith
insert-waiting asg v b (l ∷ c) =
    omega (arith, insert-waiting_one asg v (var l) b, insert-waiting asg v b c)

insert-waiting_all :
    (asg : Assignments) (v : Var) (b : Bool) (cs : List Clause)
    → waiting_all (insert v b asg) cs ≤ waiting_all asg cs
unfolding waiting_all
insert-waiting_all asg v b [] = omega arith
insert-waiting_all asg v b (c ∷ cs) =
    omega (arith, insert-waiting asg v b c, insert-waiting_all asg v b cs)

Waits-insert :
    (asg : Assignments) (l : Lit) (b : Bool) (c : Clause)
    → Waits asg l c
    → waiting (insert (var l) b asg) c < waiting asg c
unfolding waiting waiting_one
Waits-insert asg l b [] h = absurd h
Waits-insert asg l b (x ∷ c) (inl (e, w)) =
    ground (arith, ap var e, ==-refl (var l), insert-waiting asg (var l) b c)
Waits-insert asg l b (x ∷ c) (inr h) =
    omega (arith, insert-waiting_one asg (var l) (var x) b, Waits-insert asg l b c h)

judge_unit-OneOf : (ls : List Lit) (b : Bool) (l : Lit) → judge_unit ls b ≡ unit l → OneOf l ls
judge_unit-OneOf [] b l e = absurd (cc)
judge_unit-OneOf (x ∷ []) true l e = inl (ground arith)
judge_unit-OneOf (x ∷ []) false l e = absurd (cc)
judge_unit-OneOf (x ∷ (y ∷ ls)) b l e = absurd (cc)

judge-Waits :
    (asg : Assignments) (c : Clause) (l : Lit)
    → judge (length c) (tally asg c start) ≡ unit l
    → Waits asg l c
judge-Waits asg c l e = elim (tally-Waits asg l c start (one (tally asg c start) e)) [
  | inl a ↦ absurd a
  | inr w ↦ w
]
  where
    one : (t : Tally) → judge (length c) t ≡ unit l → OneOf l t.unassigned
    one t e =
        judge_unit-OneOf t.unassigned (t.false_count + 1 == length c) l
          (unfold judge in ground arith)

scan-waiting :
    (asg : Assignments) (cs : List Clause) (l : Lit) (b : Bool)
    → scan asg cs ≡ unit l
    → waiting_all (insert (var l) b asg) cs < waiting_all asg cs
unfolding scan waiting_all
scan-waiting asg [] l b e = absurd (cc)
scan-waiting asg (c ∷ cs) l b e = elim (Verdict-cases (judge (length c) (tally asg c start))) [
  | inl p ↦
      omega (arith, insert-waiting asg (var l) b c, scan-waiting asg cs l b (rw (p, scan) at e))
  | inr (inl p) ↦ absurd (ground arith)
  | inr (inr (x, p)) ↦ omega (
    arith,
    insert-waiting_all asg (var l) b cs,
    Waits-insert asg l b c (judge-Waits asg c l (p ∙ (rw (p, scan) at e))),
  )
]

propagate_total :
    (fuel : ℕ) (cs : List Clause) (asg : Assignments)
    → waiting_all asg cs < fuel
    → propagate fuel cs asg ≢ none
unfolding propagate
propagate_total zero cs asg h = absurd (omega arith)
propagate_total (suc fuel) cs asg h = elim (Verdict-cases (scan asg cs)) [
  | inl e ↦ ground arith
  | inr (inl e) ↦ ground arith
  | inr (inr (l, e)) ↦ ground (
    arith,
    scan-waiting asg cs l (is_pos l) e,
    propagate_total fuel cs (insert (var l) (is_pos l) asg),
  )
]

waiting-le-length : (asg : Assignments) (c : Clause) → waiting asg c ≤ length c
unfolding waiting waiting_one
waiting-le-length asg [] = omega arith
waiting-le-length asg (l ∷ c) = ground (arith, waiting-le-length asg c)

waiting_all-le-total_lits :
    (asg : Assignments) (cs : List Clause) → waiting_all asg cs ≤ total_lits cs
unfolding waiting_all total_lits
waiting_all-le-total_lits asg [] = omega arith
waiting_all-le-total_lits asg (c ∷ cs) =
    omega (arith, waiting-le-length asg c, waiting_all-le-total_lits asg cs)

-- The fuel of `check_rup` is enough.
pub check_rup_total : (cs : List Clause) (candidate : Clause) → check_rup cs candidate ≢ none
unfolding check_rup
check_rup_total cs candidate = elim (Option-cases (assume_negation candidate empty)) [
  | inl e ↦ ground arith
  | inr (asg, e) ↦
      ground (arith, waiting_all-le-total_lits asg cs, propagate_total (total_lits cs + 1) cs asg)
]

check_line_total : (n : ℕ) (line : Line) (cs : List Clause) → check_line n line cs ≢ out_of_fuel
unfolding check_line
check_line_total n skip cs = ground arith
check_line_total n (delete (bad_token t)) cs = ground arith
check_line_total n (delete (lits ls)) cs = ground arith
check_line_total n (add (bad_token t)) cs = ground arith
check_line_total n (add (lits ls)) cs = ground (arith, check_rup_total cs ls)

verify_lines_total :
    (n : ℕ) (ls : List Text) (cs : List Clause)
    → (o : List Clause × DratVerificationResult) × (verify_lines n ls cs ≡ some o)
unfolding verify_lines
verify_lines_total n [] cs = ((cs, missing_empty_clause), refl)
verify_lines_total n (line ∷ rest) cs = elim (Progress-cases (check_line n (parse_line line) cs)) [
  | inl (cs', p) ↦ rw (p, verify_lines) (verify_lines_total (n + 1) rest cs')
  | inr (inl (cs', r, p)) ↦ ((cs', r), rw (p, verify_lines))
  | inr (inr p) ↦ absurd (check_line_total n (parse_line line) cs p)
]

-- The checker returns a result for every text, with machine arithmetic that wraps: a build with
-- overflow checks panics on the token -2147483648.
pub verify_proof_total :
    (cs : List Clause) (text : Text)
    → (o : List Clause × DratVerificationResult) × (verify_proof cs text ≡ some o)
unfolding verify_proof
verify_proof_total cs text = verify_lines_total 1 (lines text) cs
