-- ===== src/Sat/Solver/Bcp.antt =====
-- crates/smt-sat/src/solver.rs: `bcp`, unit propagation with two watched literals. The outer loop is
-- on fuel: each round takes a literal off the queue.
use smt_solver_rust.Common.{
  ℕ, zero, suc, ◌+◌, true, false, Option, none, some, List, [], ◌∷◌, ◌++◌, ◌==◌, if◌then◌else◌,
  ◌>>=◌, length, get_elem?, set, put,
}
use smt_solver_rust.Sat.Lit.{Lit, negate, undef, true_val, false_val, is_true, is_false}
use smt_solver_rust.Sat.Trail.{Trail, ClauseId, clause, lit_value, assign, next_unpropagated}
use smt_solver_rust.Sat.Clause.{Clause, get_clause, update_clause}
use smt_solver_rust.Sat.Watch
use smt_solver_rust.Sat.Watch.{Watcher, WatchList, update}
use smt_solver_rust.Sat.Float.{F64}
use smt_solver_rust.Sat.Solver.{Kernel, SatSolver}

-- What becomes of a watcher: it is dropped, kept (with another blocker), or kept and its clause is
-- a conflict.
pub data Visit : Type 0 where
  dropped : Kernel → Visit
  kept : Kernel → Watcher → Visit
  conflict : Kernel → Watcher → ClauseId → Visit

-- "Make sure false_lit is at clause[1]".
unfoldable pub put_second : Lit → List Lit → Option (List Lit)
put_second false_lit c = do
  c0 ← get_elem? c 0
  if c0 == false_lit then (do c1 ← get_elem? c 1; put (set c 0 c1) 1 false_lit) else some c

-- The `for` over the literals from index `i` on: the first that is not false, with its index.
unfoldable pub find_watch : Trail → ℕ → List Lit → Option (Option (ℕ × Lit))
find_watch t i [] = some none
find_watch t i (l ∷ ls) = do
  v ← lit_value t l
  elim (is_false v) [ true ↦ find_watch t (i + 1) ls | false ↦ some (some (i, l)) ]

abbrev pub after_two : List Lit → List Lit
after_two (a ∷ (b ∷ ls)) = ls
after_two _ = []

abbrev pub write_lits : ClauseId → List Lit → Kernel → Option Kernel
write_lits id ls k = do
  a ← update_clause id (λ c. record c { lits = ls }) k.arena
  some (record k { arena = a })

-- No other literal can be watched: the clause is a conflict, true, or a unit.
unfoldable pub settle : ClauseId → Lit → Kernel → Option Visit
settle id first k = do
  v ← lit_value k.trail first
  let w : Watcher = record { clause_id = id; blocker = first }
  elim v [
    | false_val ↦ some (conflict k w id)
    | true_val ↦ some (kept k w)
    | undef ↦ (do t ← assign first (clause id) k.trail; some (kept (record k { trail = t }) w))
  ]

-- The clause of a watcher, once its blocker is not true.
unfoldable pub inspect : Lit → ClauseId → Clause F64 → Kernel → Option Visit
inspect false_lit id c k = do
  ls ← put_second false_lit c.lits
  j ← write_lits id ls k
  first ← get_elem? ls 0
  v ← lit_value j.trail first
  let w : Watcher = record { clause_id = id; blocker = first }
  elim (is_true v) [
    | true ↦ some (kept j w)
    | false ↦ (do
      found ← find_watch j.trail 2 (after_two ls)
      elim found [
        | none ↦ settle id first j
        | some (i, cand) ↦ (do
          ms ← put ls 1 cand
          ns ← put ms i false_lit
          n ← write_lits id ns j
          some (dropped (record n { watches = Watch.add (negate cand) w n.watches })))
      ])
  ]

unfoldable pub visit : Lit → Watcher → Kernel → Option Visit
visit false_lit w k = do
  c ← get_clause k.arena w.clause_id
  elim c.deleted [
    | true ↦ some (dropped k)
    | false ↦ (do
      v ← lit_value k.trail w.blocker
      elim (is_true v) [ true ↦ some (kept k w) | false ↦ inspect false_lit w.clause_id c k ])
  ]

-- The loop over the watchers that were taken; after a conflict the rest of them are kept.
unfoldable pub visit_all :
    Lit → List Watcher → List Watcher → Kernel → Option (Kernel × List Watcher × Option ClauseId)
visit_all false_lit [] keep k = some (k, keep, none)
visit_all false_lit (w ∷ ws) keep k = do
  o ← visit false_lit w k
  elim o [
    | dropped j ↦ visit_all false_lit ws keep j
    | kept j x ↦ visit_all false_lit ws (keep ++ x ∷ []) j
    | conflict j x id ↦ some (j, keep ++ x ∷ ws, some id)
  ]

-- One round: the watchers of the literal are taken, visited and written back.
unfoldable pub propagate_lit : Lit → Kernel → Option (Kernel × Option ClauseId)
propagate_lit p k = do
  let taken = Watch.get k.watches p
  let emptied = record k { watches = update p (λ ws. []) k.watches }
  (j, keep, found) ← visit_all (negate p) taken [] emptied
  some (record j { watches = update p (λ ws. keep) j.watches }, found)

-- The kernel, the number of literals taken off the queue, and the clause in conflict.
unfoldable pub propagate_queue : ℕ → Kernel → Option (Kernel × ℕ × Option ClauseId)
propagate_queue zero k = none
propagate_queue (suc fuel) k =
    let (t, next) = next_unpropagated k.trail in
    elim next [
      | none ↦ some (record k { trail = t }, 0, none)
      | some p ↦ (do
        (j, found) ← propagate_lit p (record k { trail = t })
        elim found [
          | some id ↦ some (j, 1, some id)
          | none ↦ (do (i, n, r) ← propagate_queue fuel j; some (i, n + 1, r))
        ])
    ]

-- A round takes one literal, and no more are ever assigned than there are variables.
unfoldable pub bcp : SatSolver → Option (SatSolver × Option ClauseId)
bcp s = do
  (k, n, found) ← propagate_queue (length s.kernel.trail.assigns + 1) s.kernel
  let st = s.stats
  some (record s { kernel = k; stats = record st { propagations = st.propagations + n } }, found)
