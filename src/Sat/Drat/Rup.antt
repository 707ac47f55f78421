-- ===== src/Sat/Drat/Rup.antt =====
-- crates/smt-sat/src/drat_checker.rs: unit propagation and the models of the clauses.
use smt_solver_rust.Common.{
  ℕ, zero, suc, ◌+◌, ◌≡◌, ◌≢◌, refl, Bool, true, false, ◌||◌, some, List, [], ◌∷◌, ◌++◌, length,
  arith, bool_eq, Bool-cases, Option-cases, ==→≡, length-append, ◌⊎◌, inl, inr,
}
use smt_solver_rust.Sat.Lit.{Var, Lit, var, is_pos, is_neg}
use smt_solver_rust.Sat.Lit.Laws.{is_neg-not-is_pos}
use smt_solver_rust.Sat.Models.{Clause, Valuation, holds, satisfies, satisfies-append, Models}
use smt_solver_rust.Sat.Drat.{
  Assignments, empty, insert, assume_negation, Tally, tally, start, Verdict, pass, conflict, unit,
  judge, scan, propagate, total_lits, check_rup,
}

-- The valuation has every value that is assigned.
abbrev pub Agrees : Assignments → Valuation → Type 0
Agrees asg α = (v : Var) (b : Bool) → asg v ≡ some b → α v ≡ b

pub Verdict-cases : (v : Verdict) → (v ≡ pass) ⊎ (v ≡ conflict) ⊎ ((l : Lit) × (v ≡ unit l))
Verdict-cases pass = inl refl
Verdict-cases conflict = inr (inl refl)
Verdict-cases (unit l) = inr (inr (l, refl))

module _ (α : Valuation) where
  holds-value : (l : Lit) → holds α l ≡ true → α (var l) ≡ is_pos l
  unfolding holds
  holds-value l h = ground arith

  Agrees-insert :
      (asg : Assignments) (v : Var) (b : Bool) → Agrees asg α → α v ≡ b → Agrees (insert v b asg) α
  Agrees-insert asg v b agrees e u c h = ground (arith, agrees u c, ==→≡ u v)

  assume_negation-Agrees :
      (ls : List Lit) (asg : Assignments)
      → Agrees asg α
      → satisfies α ls ≡ false
      → (asg' : Assignments) × (assume_negation ls asg ≡ some asg') × Agrees asg' α
  unfolding assume_negation satisfies holds
  assume_negation-Agrees [] asg agrees h = (asg, refl, agrees)
  assume_negation-Agrees (l ∷ ls) asg agrees h =
      let value : α (var l) ≡ is_neg l = ground (arith, is_neg-not-is_pos l) in
      let rest : satisfies α ls ≡ false = ground arith in
      elim (Option-cases (asg (var l))) [
        | inl e ↦
            rw (e, assume_negation)
              (assume_negation-Agrees ls (insert (var l) (is_neg l) asg)
                (Agrees-insert asg (var l) (is_neg l) agrees value) rest)
        | inr (b, e) ↦
            let same : bool_eq b (is_neg l) ≡ true = ground (arith, agrees (var l) b e) in
            rw (e, assume_negation, same) (assume_negation-Agrees ls asg agrees rest)
      ]

  -- A clause that is not found satisfied has each of its literals counted,
  tally_count :
      (asg : Assignments) (ls : List Lit) (t : Tally)
      → (tally asg ls t).satisfied ≡ false
      → (tally asg ls t).false_count + length (tally asg ls t).unassigned
        ≡ t.false_count + length t.unassigned + length ls
  unfolding tally
  tally_count asg [] t h = omega arith
  tally_count asg (l ∷ ls) t h = ground (
    arith,
    length-append t.unassigned (l ∷ []),
    tally_count asg ls (record t { false_count = t.false_count + 1 }),
    tally_count asg ls (record t { unassigned = t.unassigned ++ l ∷ [] }),
  )

  -- and what holds of it stands among the unassigned.
  tally-satisfies :
      (asg : Assignments) (ls : List Lit) (t : Tally)
      → Agrees asg α
      → (tally asg ls t).satisfied ≡ false
      → (satisfies α t.unassigned || satisfies α ls) ≡ true
      → satisfies α (tally asg ls t).unassigned ≡ true
  unfolding tally satisfies holds
  tally-satisfies asg [] t agrees h s = ground arith
  tally-satisfies asg (l ∷ ls) t agrees h s = ground (
    arith,
    agrees (var l) true,
    agrees (var l) false,
    satisfies-append α t.unassigned (l ∷ []),
    tally-satisfies asg ls (record t { false_count = t.false_count + 1 }) agrees,
    tally-satisfies asg ls (record t { unassigned = t.unassigned ++ l ∷ [] }) agrees,
  )

  judge_sound :
      (asg : Assignments) (c : Clause)
      → Agrees asg α
      → satisfies α c ≡ true
      → (judge (length c) (tally asg c start) ≢ conflict)
        × ((l : Lit) → judge (length c) (tally asg c start) ≡ unit l → holds α l ≡ true)
  unfolding judge satisfies
  judge_sound asg c agrees s =
      let t : Tally = tally asg c start in
      let count = tally_count asg c start in
      let sat = tally-satisfies asg c start agrees in
      (ground (arith, count, sat), λ l e. ground (arith, count, sat))

  scan_sound :
      (asg : Assignments) (cs : List Clause)
      → Agrees asg α
      → Models α cs
      → (scan asg cs ≢ conflict) × ((l : Lit) → scan asg cs ≡ unit l → holds α l ≡ true)
  unfolding scan
  scan_sound asg [] agrees m = (ground arith, λ l. ground arith)
  scan_sound asg (c ∷ cs) agrees (s, m) =
      let now = judge_sound asg c agrees s in
      let later = scan_sound asg cs agrees m in
      (ground (arith, now.0, later.0), λ l. ground (arith, now.1 l, later.1 l))

  -- Propagation from an assignment that a model agrees with finds no conflict.
  propagate_sound :
      (fuel : ℕ) (cs : List Clause) (asg : Assignments)
      → Agrees asg α
      → Models α cs
      → propagate fuel cs asg ≢ some true
  unfolding propagate
  propagate_sound zero cs asg agrees m = ground arith
  propagate_sound (suc fuel) cs asg agrees m = elim (Verdict-cases (scan asg cs)) [
    | inl e ↦ ground arith
    | inr (inl e) ↦ absurd ((scan_sound asg cs agrees m).0 e)
    | inr (inr (l, e)) ↦
        let value = holds-value l ((scan_sound asg cs agrees m).1 l e) in
        ground (
          arith,
          propagate_sound fuel cs (insert (var l) (is_pos l) asg)
              (Agrees-insert asg (var l) (is_pos l) agrees value) m,
        )
  ]

-- An accepted candidate follows from the clauses: it holds in each of their models.
pub check_rup_sound :
    (clauses : List Clause) (candidate : Clause)
    → check_rup clauses candidate ≡ some true
    → (α : Valuation) → Models α clauses
    → satisfies α candidate ≡ true
unfolding check_rup
check_rup_sound clauses candidate accepted α m = elim (Bool-cases (satisfies α candidate)) [
  | inl yes_it ↦ yes_it
  | inr fails ↦
      let (asg, e, agrees) =
        assume_negation-Agrees α candidate empty (λ v b h. absurd (cc)) fails in
      absurd (
        propagate_sound α (total_lits clauses + 1) clauses asg agrees m
          (rw (e, check_rup) at accepted))
]
