-- ===== src/Sat/Solver/Search.antt =====
-- crates/smt-sat/src/solver.rs and crates/smt-sat/src/theory.rs: the search, with a theory that is an
-- implementation of `TheoryCallback`. The loop is on fuel, one unit for each round; `none` is a
-- panic or the end of the fuel.
use smt_solver_rust.Common.{
  ℕ, zero, suc, ◌+◌, ◌-◌, Bool, true, false, ◌&&◌, ◌||◌, not, Option, none, some, List, [], ◌∷◌,
  ◌++◌, ltb, leb, if◌then◌else◌, ◌>>=◌, length, get_elem?, drop,
}
use smt_solver_rust.Sat.Lit
use smt_solver_rust.Sat.Lit.{Var, Lit, LBool, undef, true_val, false_val, is_defined}
use smt_solver_rust.Sat.Trail.{
  Trail, ClauseId, Reason, decision, unit, clause, decision_level, lit_value, assign,
  new_decision_level, saved_phase, var_value,
}
use smt_solver_rust.Sat.Clause.{alloc_learned, range, update_clause, ClauseArena}
use smt_solver_rust.Sat.Float.{F64, FloatOps}
use smt_solver_rust.Sat.Vsids.{select_decision_var}
use smt_solver_rust.Sat.Restart.{record_conflict}
use smt_solver_rust.Sat.Proof
use smt_solver_rust.Sat.Solver.{SatSolver, backtrack_to, push}
use smt_solver_rust.Sat.Solver.Bcp.{bcp}
use smt_solver_rust.Sat.Solver.Add.{add_learned_clause}
use smt_solver_rust.Sat.Solver.Analyze.{analyze_conflict, reduce_db}

-- The trait: `none` of `check` is `Ok`, `some c` the clause of `Err`.
pub record TheoryCallback (T : Type 0) : Type 0 where
  pub assert_lit : Lit → T → T
  pub check : T → T × Option (List Lit)
  pub propagate : T → T × List (Lit × List Lit)
  pub push_scope : T → T
  pub pop_scope : T → T

-- `NoOpTheory`.
unfoldable pub no_op_theory : TheoryCallback (Unit {0})
no_op_theory = record {
  assert_lit = λ l t. t;
  check = λ t. (t, none);
  propagate = λ t. (t, []);
  push_scope = λ t. t;
  pop_scope = λ t. t;
}

-- How a round ends: the search returns, or goes on with this number of assumptions decided.
pub data Round (T : Type 0) : Type 0 where
  returns : LBool → SatSolver → T → Round T
  goes_on : ℕ → SatSolver → T → Round T

module _ {T : Type 0} (X : FloatOps) (Y : TheoryCallback T) where
  unfoldable pub assert_all : List Lit → T → T
  assert_all [] th = th
  assert_all (l ∷ ls) th = assert_all ls (Y.assert_lit l th)

  -- `while self.trail.decision_level() > level`, one level at a time, from the level given.
  unfoldable pub unwind_to : ℕ → ℕ → SatSolver → T → Option (SatSolver × T)
  unwind_to zero level s th = some (s, th)
  unwind_to (suc n) level s th = elim (ltb level (suc n)) [
    | false ↦ some (s, th)
    | true ↦ backtrack_to X n s >>= λ u. unwind_to n level u (Y.pop_scope th)
  ]

  abbrev pub assign_lit : Lit → Reason → SatSolver → Option SatSolver
  assign_lit l r s = do
    let k = s.kernel
    t ← assign l r k.trail
    some (record s { kernel = record k { trail = t } })

  -- The learned clause is added, and its first literal assigned: `traced` is whether a unit goes to
  -- the proof.
  unfoldable pub learn : Bool → List Lit → ℕ → SatSolver → T → Option (SatSolver × T)
  learn traced [] lbd s th = none
  learn traced (l ∷ []) lbd s th = do
    let s' = record s { proof = if traced then Proof.add_clause (l ∷ []) s.proof else s.proof }
    u ← assign_lit l unit s'
    some (u, Y.assert_lit l th)
  learn traced (l ∷ (m ∷ ls)) lbd s th = do
    (t, id) ← add_learned_clause X (l ∷ (m ∷ ls)) lbd s
    u ← assign_lit l (clause id) t
    some (u, Y.assert_lit l th)

  abbrev pub note_unsat : Bool → SatSolver → SatSolver
  note_unsat is_assumption_run s = record s { ok = if is_assumption_run then s.ok else false }

  -- A conflict of propagation.
  unfoldable pub resolve : Bool → List Lit → ℕ → ClauseId → SatSolver → T → Option (Round T)
  resolve is_assumption_run assumptions idx id s th = elim (decision_level s.kernel.trail) [
    | zero ↦ some (
        returns false_val
          (note_unsat is_assumption_run (record s { proof = Proof.add_clause [] s.proof })) th)
    | suc level ↦ (do
      (t, learned, back, lbd) ← analyze_conflict X id s
      elim (is_assumption_run && ltb back (length assumptions)) [
        | true ↦ some (returns false_val t th)
        | false ↦ (do
          (u, th1) ← unwind_to (suc level) back t th
          (r, again) ← record_conflict X lbd u.restarts
          let v = record u { restarts = r }
          (w, th2) ←
              (if again then unwind_to (decision_level v.kernel.trail) 0 v th1 else some (v, th1))
          x ← reduce_db X w
          (y, th3) ← learn true learned lbd x th2
          some (goes_on idx y th3))
      ])
  ]

  -- A conflict of the theory.
  unfoldable pub resolve_theory : Bool → List Lit → ℕ → List Lit → SatSolver → T → Option (Round T)
  resolve_theory is_assumption_run assumptions idx conflict s th =
      elim (decision_level s.kernel.trail) [
        | zero ↦ some (returns false_val (note_unsat is_assumption_run s) th)
        | suc level ↦ (do
          let k = s.kernel
          let (a, id) = alloc_learned X.zero_f conflict 2 k.arena
          (t, learned, back, lbd) ←
              analyze_conflict X id (record s { kernel = record k { arena = a } })
          elim (is_assumption_run && ltb back (length assumptions)) [
            | true ↦ some (returns false_val t th)
            | false ↦ (do
              (u, th1) ← unwind_to (suc level) back t th
              (y, th2) ← learn false learned lbd u th1
              some (goes_on idx y th2))
          ])
      ]

  -- The literals that the theory implies.
  unfoldable pub take_implied : List (Lit × List Lit) → SatSolver → T → Option (SatSolver × T)
  take_implied [] s th = some (s, th)
  take_implied ((l, reason) ∷ rest) s th = do
    v ← lit_value s.kernel.trail l
    elim (is_defined v) [
      | true ↦ take_implied rest s th
      | false ↦ (do
        let k = s.kernel
        let (a, id) = alloc_learned X.zero_f (reason ++ l ∷ []) 2 k.arena
        u ← assign_lit l (clause id) (record s { kernel = record k { arena = a } })
        take_implied rest u (Y.assert_lit l th))
    ]

  -- A decision opens a level.
  unfoldable pub decide : Lit → SatSolver → T → Option (SatSolver × T)
  decide l s th = do
    let k = s.kernel
    let st = s.stats
    u ←
        assign_lit l decision
          (record s { kernel = record k { trail = new_decision_level k.trail } })
    some (
      record u { stats = record st { decisions = st.decisions + 1 } },
      Y.assert_lit l (Y.push_scope th),
    )

  -- The assumptions in order, and then the variable that the heuristic selects.
  unfoldable pub branch : List Lit → ℕ → SatSolver → T → Option (Round T)
  branch assumptions idx s th = elim (get_elem? assumptions idx) [
    | some p ↦ (do
      v ← lit_value s.kernel.trail p
      elim v [
        | false_val ↦ some (returns false_val s th)
        | true_val ↦ some (goes_on (idx + 1) s th)
        | undef ↦ (do (u, th1) ← decide p s th; some (goes_on (idx + 1) u th1))
      ])
    | none ↦ (do
      (h, found) ← select_decision_var X s.kernel.trail s.vsids
      let t = record s { vsids = h }
      elim found [
        | none ↦ some (returns true_val t th)
        | some v ↦ (do
          phase ← saved_phase t.kernel.trail v
          (u, th1) ← decide (Lit.new v phase) t th
          some (goes_on idx u th1))
      ])
  ]

  abbrev pub reached : Option ℕ → ℕ → Bool
  reached none n = false
  reached (some limit) n = leb limit n

  unfoldable pub round : Bool → List Lit → ℕ → SatSolver → T → Option (Round T)
  round is_assumption_run assumptions idx s th =
      elim (reached s.max_conflicts s.stats.conflicts
        || reached s.max_propagations s.stats.propagations) [
          | true ↦ some (returns undef s th)
          | false ↦ (do
            (t, found) ← bcp s
            elim found [
              | some id ↦ resolve is_assumption_run assumptions idx id t th
              | none ↦ (do
                let th1 = assert_all (drop (length s.kernel.trail.trail) t.kernel.trail.trail) th
                let (th2, verdict) = Y.check th1
                elim verdict [
                  | some conflict ↦ resolve_theory is_assumption_run assumptions idx conflict t th2
                  | none ↦ (do
                    let (th3, implied) = Y.propagate th2
                    (u, th4) ← take_implied implied t th3
                    branch assumptions idx u th4)
                ])
            ])
        ]

  unfoldable pub solve_internal :
      ℕ → Bool → List Lit → ℕ → SatSolver → T → Option (SatSolver × T × LBool)
  solve_internal zero is_assumption_run assumptions idx s th = none
  solve_internal (suc fuel) is_assumption_run assumptions idx s th = do
    r ← round is_assumption_run assumptions idx s th
    elim r [
      | returns v t th1 ↦ some (t, th1, v)
      | goes_on j t th1 ↦ solve_internal fuel is_assumption_run assumptions j t th1
    ]

  abbrev pub delete_from : List ClauseId → ClauseArena F64 → Option (ClauseArena F64)
  delete_from [] a = some a
  delete_from (id ∷ ids) a =
      update_clause id (λ c. record c { deleted = true }) a >>= delete_from ids

  -- The clauses that are newer than the last scope are marked as deleted.
  unfoldable pub pop : SatSolver → Option SatSolver
  pop s = elim (last_scope s.scopes) [
    | none ↦ some s
    | some (scopes, count) ↦ (do
      t ← backtrack_to X 0 (record s { scopes = scopes })
      let k = t.kernel
      a ← delete_from (range count (length k.arena.clauses - count)) k.arena
      some (record t { max_learned = 4000; kernel = record k { arena = a } }))
  ]
    where
      last_scope : List ℕ → Option (List ℕ × ℕ)
      last_scope [] = none
      last_scope (n ∷ ns) = elim (last_scope ns) [
        | none ↦ some ([], n)
        | some (ms, m) ↦ some (n ∷ ms, m)
      ]

  abbrev pub is_empty : List Lit → Bool
  is_empty [] = true
  is_empty (l ∷ ls) = false

  -- The values of `n` variables from `v` on.
  unfoldable pub read_values : Trail → ℕ → Var → Option (List LBool)
  read_values t zero v = some []
  read_values t (suc n) v = do x ← var_value t v; xs ← read_values t n (v + 1); some (x ∷ xs)

  abbrev pub with_model : LBool → SatSolver → Option SatSolver
  with_model true_val s = do
    xs ← read_values s.kernel.trail s.num_vars 0
    some (record s { model = xs })
  with_model v s = some (record s { model = [] })

  unfoldable pub solve_with_theory : ℕ → List Lit → SatSolver → T → Option (SatSolver × T × LBool)
  solve_with_theory fuel assumptions s th = elim s.ok [
    | false ↦ some (s, th, false_val)
    | true ↦ (do
      t ← backtrack_to X 0 s
      (u, found) ← bcp t
      elim found [
        | some id ↦ some (record u { ok = false }, th, false_val)
        | none ↦ (do
          let th1 = assert_all u.kernel.trail.trail th
          let run = not (is_empty assumptions)
          (v, th2, res) ← solve_internal fuel run assumptions 0 (if run then push u else u) th1
          w ← with_model res v
          x ← (if run then pop w else backtrack_to X 0 w)
          some (x, th2, res))
      ])
  ]

module _ (X : FloatOps) where
  unfoldable pub solve_with_assumptions : ℕ → List Lit → SatSolver → Option (SatSolver × LBool)
  solve_with_assumptions fuel assumptions s = do
    (t, th, r) ← solve_with_theory X no_op_theory fuel assumptions s tt
    some (t, r)

  unfoldable pub solve : ℕ → SatSolver → Option (SatSolver × LBool)
  solve fuel s = solve_with_assumptions fuel [] s
