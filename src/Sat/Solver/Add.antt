-- ===== src/Sat/Solver/Add.antt =====
-- crates/smt-sat/src/solver.rs: `add_clause` and `add_learned_clause`.
use smt_solver_rust.Common.{
  ℕ, zero, suc, ◌+◌, ◌-◌, Bool, true, false, ◌||◌, Option, none, some, List, [], ◌∷◌, ◌++◌, ◌==◌,
  if◌then◌else◌, ◌>>=◌, get_elem?,
}
use smt_solver_rust.Sat.Lit.{Lit, var, negate, undef, true_val, false_val}
use smt_solver_rust.Sat.Trail.{Trail, ClauseId, unit, lit_value, assign, decision_level}
use smt_solver_rust.Sat.Clause.{alloc_original, alloc_learned}
use smt_solver_rust.Sat.Watch
use smt_solver_rust.Sat.Watch.{Watcher}
use smt_solver_rust.Sat.Float.{FloatOps}
use smt_solver_rust.Sat.Proof
use smt_solver_rust.Sat.Drat.Verify.{sort}
use smt_solver_rust.Sat.Solver.{Kernel, SatSolver, new_var}
use smt_solver_rust.Sat.Solver.Bcp.{bcp}

-- `dedup`: one of each run of equal literals.
unfoldable pub dedup : List Lit → List Lit
dedup [] = []
dedup (l ∷ []) = l ∷ []
dedup (l ∷ (m ∷ ls)) = let rest = dedup (m ∷ ls) in if l == m then rest else l ∷ rest

abbrev pub among : Lit → List Lit → Bool
among l [] = false
among l (m ∷ ms) = m == l || among l ms

-- The loop over the literals: `satisfied` is its return, for a literal that is true or whose
-- complement was seen.
pub data Cleaned : Type 0 where
  satisfied : Cleaned
  remaining : List Lit → Cleaned

unfoldable pub clean : Trail → List Lit → List Lit → Option Cleaned
clean t [] cleaned = some (remaining cleaned)
clean t (l ∷ ls) cleaned = do
  v ← lit_value t l
  elim v [
    | true_val ↦ some satisfied
    | false_val ↦ clean t ls cleaned
    | undef ↦ elim (among (negate l) cleaned) [
      | true ↦ some satisfied
      | false ↦ clean t ls (cleaned ++ l ∷ [])
    ]
  ]

-- The watches of a clause whose first two literals are these.
abbrev pub watch_two : ClauseId → List Lit → Kernel → Option Kernel
watch_two id ls k = do
  l0 ← get_elem? ls 0
  l1 ← get_elem? ls 1
  let w = Watch.add (negate l0) (record { clause_id = id; blocker = l1 }) k.watches
  some (record k { watches = Watch.add (negate l1) (record { clause_id = id; blocker = l0 }) w })

unfoldable pub add_learned_clause :
    FloatOps → List Lit → ℕ → SatSolver → Option (SatSolver × ClauseId)
add_learned_clause X lits lbd s = do
  let k = s.kernel
  let (a, id) = alloc_learned X.zero_f lits lbd k.arena
  j ← watch_two id lits (record k { arena = a })
  let st = s.stats
  some (
    record s {
      proof = Proof.add_clause lits s.proof;
      kernel = j;
      stats = record st { clauses_learned = st.clauses_learned + 1 };
    },
    id,
  )

module _ (X : FloatOps) where
  unfoldable pub new_vars : ℕ → SatSolver → Option SatSolver
  new_vars zero s = some s
  new_vars (suc n) s = do (t, v) ← new_var X s; new_vars n t

  -- `while lit.var().index() >= self.num_vars` for each literal.
  unfoldable pub make_room : List Lit → SatSolver → Option SatSolver
  make_room [] s = some s
  make_room (l ∷ ls) s = new_vars (var l + 1 - s.num_vars) s >>= λ t. make_room ls t

  abbrev pub refuted : SatSolver → SatSolver
  refuted s = record s { proof = Proof.add_clause [] s.proof; ok = false }

  unfoldable pub add_cleaned : List Lit → SatSolver → Option (SatSolver × Bool)
  add_cleaned [] s = some (refuted s, false)
  add_cleaned (l ∷ []) s = do
    let k = s.kernel
    t ← assign l unit k.trail
    (u, r) ← bcp (record s { kernel = record k { trail = t } })
    elim r [ none ↦ some (u, true) | some id ↦ some (refuted u, false) ]
  add_cleaned (l ∷ (m ∷ ls)) s = do
    let k = s.kernel
    let (a, id) = alloc_original X.zero_f (l ∷ (m ∷ ls)) k.arena
    j ← watch_two id (l ∷ (m ∷ ls)) (record k { arena = a })
    some (record s { kernel = j }, true)

  unfoldable pub add_clause : List Lit → SatSolver → Option (SatSolver × Bool)
  add_clause lits s = elim s.ok [
    | false ↦ some (s, false)
    | true ↦ elim (decision_level s.kernel.trail) [
      | suc n ↦ none
      | zero ↦ (do
        t ← make_room lits s
        c ← clean t.kernel.trail (dedup (sort lits)) []
        elim c [ satisfied ↦ some (t, true) | remaining ls ↦ add_cleaned ls t ])
    ]
  ]
