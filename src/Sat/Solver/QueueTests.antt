-- ===== src/Sat/Solver/QueueTests.antt =====
-- crates/smt-sat/src/solver.rs: propagation on the clauses of the other tests, before x0 is visited.
use mathlib.Core.Path.{subst}
use mathlib.Core.Option.{some-injective}
use smt_solver_rust.Common.{
  ℕ, zero, suc, ◌<◌, ◌≡◌, refl, sym, ap, ◌∙◌, Option, none, some, [], ◌∷◌, length, get_elem?,
  get_or, arith, ◌⊎◌, inl, inr,
}
use smt_solver_rust.Sat.Lit.{Lit, var, negate, is_pos, is_neg, is_defined}
use smt_solver_rust.Sat.Trail.{
  Trail, Reason, decision, clause, ClauseId, new_decision_level, assigned, reason_of,
  decision_level,
}
use smt_solver_rust.Sat.Trail.View.{level_at}
use smt_solver_rust.Sat.Trail.Valid.{IsValid, new_decision_level-IsValid, assigned-IsValid}
use smt_solver_rust.Sat.Clause.{Clause, get_clause}
use smt_solver_rust.Sat.Float.{F64}
use smt_solver_rust.Sat.Watch
use smt_solver_rust.Sat.Watch.{WatchList}
use smt_solver_rust.Sat.Watch.Laws.{get-get_or}
use smt_solver_rust.Sat.Vsids.Tests.{numbers}
use smt_solver_rust.Sat.Solver
use smt_solver_rust.Sat.Solver.{SatSolver, Kernel}
use smt_solver_rust.Sat.Solver.Learn.{IsImplied}
use smt_solver_rust.Sat.Solver.Bcp.{bcp}
use smt_solver_rust.Sat.Solver.Watched.{IsProper, IsListed}
use smt_solver_rust.Sat.Solver.Attached.{Has, same-IsVersion}
use smt_solver_rust.Sat.Solver.Round.{IsKernel, IsAttached}
use smt_solver_rust.Sat.Solver.Propagate.{AtTop, Extends, Outcome, bcp-Propagates}
use smt_solver_rust.Sat.Trail.{decision_level}
use smt_solver_rust.Common.{take}
use smt_solver_rust.Sat.Solver.Backtrack.{backtrack_to-IsReady}
use smt_solver_rust.Sat.Solver.Resolve.{IsReady, Learns, bcp-Learns}
use smt_solver_rust.Sat.Solver.Tests.{
  three, three-IsValid, decided, first_clause, second_clause, arena, one_left, one_left-IsIndexed,
}

-- Before propagation x2 and x0 are decided, and x0 is still in the queue.
abbrev queued : Trail
queued = record decided { qhead = 1 }

decided-IsValid : IsValid decided
unfolding var is_pos is_neg new_decision_level
decided-IsValid =
    let one =
      assigned-IsValid (new_decision_level three) (new_decision_level-IsValid three-IsValid) 4
        decision (omega arith) refl in
    assigned-IsValid (new_decision_level (assigned (new_decision_level three) 4 decision))
      (new_decision_level-IsValid one) 0 decision (omega arith) refl

queued-IsValid : IsValid queued
unfolding var is_pos is_neg new_decision_level
queued-IsValid =
    let c = decided-IsValid.core in
    record {
      core = record {
        data_length = c.data_length;
        phase_length = c.phase_length;
        distinct = c.distinct;
        in_range = c.in_range;
        values = c.values;
        levels = c.levels;
      };
      limits = decided-IsValid.limits;
      queue = omega arith;
    }

queued_reasons :
    (i : ℕ) (l : Lit) (r : Reason)
    → get_elem? queued.trail i ≡ some l
    → reason_of queued (var l) ≡ some r
    → r ≡ decision
unfolding reason_of var is_pos is_neg new_decision_level decision_level
queued_reasons zero l r e f =
    let q : 4 ≡ l = some-injective _ _ e in
    let z : some decision ≡ some r = ap (λ k. reason_of queued (var k)) q ∙ f in
    sym (some-injective _ _ z)
queued_reasons (suc zero) l r e f =
    let q : 0 ≡ l = some-injective _ _ e in
    let z : some decision ≡ some r = ap (λ k. reason_of queued (var k)) q ∙ f in
    sym (some-injective _ _ z)
queued_reasons (suc (suc i)) l r e f = absurd (cc)

queued_openers :
    (i : ℕ) (l : Lit)
    → get_elem? queued.trail i ≡ some l
    → (j : ℕ) → j < i
    → level_at queued.trail_lim j < level_at queued.trail_lim i
unfolding new_decision_level level_at
queued_openers zero l e j h = absurd (omega arith)
queued_openers (suc zero) l e zero h = omega arith
queued_openers (suc zero) l e (suc j) h = absurd (omega arith)
queued_openers (suc (suc i)) l e j h = absurd (cc)

queued-IsImplied : IsImplied queued arena
queued-IsImplied = record {
  reasons = λ i l id e f.
      let z : clause id ≡ decision = queued_reasons i l (clause id) e f in absurd (cc);
  openers = λ i l r e f z pos j h. queued_openers i l e j h;
}

first_clause_distinct :
    (i j : ℕ) (l : Lit)
    → get_elem? first_clause.lits i ≡ some l
    → get_elem? first_clause.lits j ≡ some l
    → i ≡ j
first_clause_distinct zero zero l e f = refl
first_clause_distinct zero (suc zero) l e f =
    let z : ◌≡◌ {A = ℕ} 2 1 = some-injective _ _ (e ∙ sym f) in absurd (omega arith)
first_clause_distinct zero (suc (suc j)) l e f = absurd (cc)
first_clause_distinct (suc zero) zero l e f =
    let z : ◌≡◌ {A = ℕ} 1 2 = some-injective _ _ (e ∙ sym f) in absurd (omega arith)
first_clause_distinct (suc zero) (suc zero) l e f = refl
first_clause_distinct (suc zero) (suc (suc j)) l e f = absurd (cc)
first_clause_distinct (suc (suc i)) j l e f = absurd (cc)

first_clause-IsProper : IsProper 3 first_clause
unfolding var
first_clause-IsProper = record {
  long = omega arith;
  bounded = (omega arith, (omega arith, tt));
  distinct = first_clause_distinct;
}

second_clause_distinct :
    (i j : ℕ) (l : Lit)
    → get_elem? second_clause.lits i ≡ some l
    → get_elem? second_clause.lits j ≡ some l
    → i ≡ j
second_clause_distinct zero zero l e f = refl
second_clause_distinct zero (suc zero) l e f =
    let z : ◌≡◌ {A = ℕ} 5 1 = some-injective _ _ (e ∙ sym f) in absurd (omega arith)
second_clause_distinct zero (suc (suc zero)) l e f =
    let z : ◌≡◌ {A = ℕ} 5 3 = some-injective _ _ (e ∙ sym f) in absurd (omega arith)
second_clause_distinct zero (suc (suc (suc j))) l e f = absurd (cc)
second_clause_distinct (suc zero) zero l e f =
    let z : ◌≡◌ {A = ℕ} 1 5 = some-injective _ _ (e ∙ sym f) in absurd (omega arith)
second_clause_distinct (suc zero) (suc zero) l e f = refl
second_clause_distinct (suc zero) (suc (suc zero)) l e f =
    let z : ◌≡◌ {A = ℕ} 1 3 = some-injective _ _ (e ∙ sym f) in absurd (omega arith)
second_clause_distinct (suc zero) (suc (suc (suc j))) l e f = absurd (cc)
second_clause_distinct (suc (suc zero)) zero l e f =
    let z : ◌≡◌ {A = ℕ} 3 5 = some-injective _ _ (e ∙ sym f) in absurd (omega arith)
second_clause_distinct (suc (suc zero)) (suc zero) l e f =
    let z : ◌≡◌ {A = ℕ} 3 1 = some-injective _ _ (e ∙ sym f) in absurd (omega arith)
second_clause_distinct (suc (suc zero)) (suc (suc zero)) l e f = refl
second_clause_distinct (suc (suc zero)) (suc (suc (suc j))) l e f = absurd (cc)
second_clause_distinct (suc (suc (suc i))) j l e f = absurd (cc)

second_clause-IsProper : IsProper 3 second_clause
unfolding var
second_clause-IsProper = record {
  long = omega arith;
  bounded = (omega arith, (omega arith, (omega arith, tt)));
  distinct = second_clause_distinct;
}

abbrev watch_lists : WatchList
watch_lists = record {
  watches =
      (record { clause_id = 0; blocker = 2 } ∷ (record { clause_id = 1; blocker = 5 } ∷ []))
      ∷ ([]
          ∷ ([]
              ∷ ((record { clause_id = 0; blocker = 1 } ∷ [])
                  ∷ ((record { clause_id = 1; blocker = 1 } ∷ []) ∷ []))));
}

lists_IsListed : (p : Lit) → IsListed 3 arena p (get_or watch_lists.watches p [])
unfolding get_clause negate var
lists_IsListed zero = (
  (
    (first_clause, refl, first_clause-IsProper, inr refl, omega arith),
    ((second_clause, refl, second_clause-IsProper, inr refl, omega arith), tt),
  ),
  (((λ e. absurd (omega arith)), tt), (tt, tt)),
)
lists_IsListed (suc zero) = (tt, tt)
lists_IsListed (suc (suc zero)) = (tt, tt)
lists_IsListed (suc (suc (suc zero))) =
    (((first_clause, refl, first_clause-IsProper, inl refl, omega arith), tt), (tt, tt))
lists_IsListed (suc (suc (suc (suc zero)))) =
    (((second_clause, refl, second_clause-IsProper, inl refl, omega arith), tt), (tt, tt))
lists_IsListed (suc (suc (suc (suc (suc p))))) = (tt, tt)

abbrev waiting : SatSolver
waiting =
    let s = Solver.new numbers in
    record s {
      kernel = record { arena = arena; watches = watch_lists; trail = queued };
      vsids = one_left;
      num_vars = 3;
    }

waiting-IsKernel : IsKernel 3 waiting.kernel
unfolding Solver.new new_decision_level var is_pos is_neg is_defined
waiting-IsKernel = record {
  valid = queued-IsValid;
  implied = queued-IsImplied;
  size = refl;
  watched = λ p. subst (IsListed 3 arena p) (sym (get-get_or watch_lists p)) (lists_IsListed p);
  filled = refl;
}

waiting-AtTop : AtTop waiting.kernel.trail
unfolding Solver.new new_decision_level level_at
waiting-AtTop = refl

-- Both clauses have their watchers.
first_clause-IsAttached : IsAttached 3 waiting.kernel 0 first_clause
unfolding Solver.new new_decision_level get_clause negate Watch.get
first_clause-IsAttached = (
  first_clause,
  refl,
  same-IsVersion first_clause,
  first_clause-IsProper,
  λ alive l at. elim at [
    | inl e ↦
        subst (λ m. Has 0 (Watch.get watch_lists (negate m))) (some-injective _ _ e) (inl refl)
    | inr e ↦
        subst (λ m. Has 0 (Watch.get watch_lists (negate m))) (some-injective _ _ e) (inl refl)
  ],
)

second_clause-IsAttached : IsAttached 3 waiting.kernel 1 second_clause
unfolding Solver.new new_decision_level get_clause negate Watch.get
second_clause-IsAttached = (
  second_clause,
  refl,
  same-IsVersion second_clause,
  second_clause-IsProper,
  λ alive l at. elim at [
    | inl e ↦
        subst (λ m. Has 1 (Watch.get watch_lists (negate m))) (some-injective _ _ e) (inl refl)
    | inr e ↦
        subst (λ m. Has 1 (Watch.get watch_lists (negate m))) (some-injective _ _ e)
          (inr (inl refl))
  ],
)

bcp-Propagates_example :
    (u : SatSolver) × (found : Option ClauseId) × (bcp waiting ≡ some (u, found))
    × IsKernel 3 u.kernel
    × Extends waiting.kernel u.kernel
    × ((id : ClauseId) (c : Clause F64)
        → IsAttached 3 waiting.kernel id c
        → IsAttached 3 u.kernel id c)
    × Outcome u.kernel found
    × (u.vsids ≡ waiting.vsids)
    × (u.num_vars ≡ waiting.num_vars)
unfolding Solver.new new_decision_level var is_pos is_neg
bcp-Propagates_example = bcp-Propagates waiting waiting-IsKernel waiting-AtTop

bcp-Learns_example :
    (u : SatSolver) × (found : Option ClauseId) × (bcp waiting ≡ some (u, found))
    × IsKernel 3 u.kernel
    × (((found ≡ none) × (u.kernel.trail.qhead ≡ length u.kernel.trail.trail))
        ⊎ ((id : ClauseId) × (found ≡ some id) × Learns numbers id u))
unfolding Solver.new new_decision_level var is_pos is_neg
bcp-Learns_example =
    bcp-Learns numbers waiting
      (record { kernel = waiting-IsKernel; heap = one_left-IsIndexed; top = waiting-AtTop })
      (omega arith)

backtrack_to-IsReady_example :
    (u : SatSolver) × (k : ℕ) × (Solver.backtrack_to numbers 1 waiting ≡ some u)
    × IsReady u
    × (decision_level u.kernel.trail ≡ 1)
    × (get_elem? waiting.kernel.trail.trail_lim 1 ≡ some k)
    × (u.kernel.trail.trail ≡ take k waiting.kernel.trail.trail)
    × (u.num_vars ≡ waiting.num_vars)
unfolding Solver.new new_decision_level decision_level
backtrack_to-IsReady_example =
    backtrack_to-IsReady numbers 1 waiting waiting-IsKernel one_left-IsIndexed (omega arith)
