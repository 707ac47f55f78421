-- ===== src/Sat/Tests.antt =====
-- The watch lists and the arena of clauses at small states.
use smt_solver_rust.Common.{ℕ, ◌≡◌, ◌≢◌, ◌*◌, ◌≤◌, ◌++◌, [], ◌∷◌, length}
use smt_solver_rust.Sat.Lit.{Lit}
use smt_solver_rust.Sat.Watch
use smt_solver_rust.Sat.Watch.{Watcher, WatchList, ensure_var, add}
use smt_solver_rust.Sat.Watch.Laws.{add-get, ensure_var-get}
use smt_solver_rust.Sat.Clause
use smt_solver_rust.Sat.Clause.{
  ClauseArena, new_original, new_learned, alloc_original, alloc_learned, iter_ids,
}
use smt_solver_rust.Sat.Clause.Laws.{Stored, alloc-Stored}

abbrev watcher : Watcher
watcher = record { clause_id = 7; blocker = 2 }

-- A literal beyond the lists that there are.
add-get_example :
    (Watch.get (add 5 watcher Watch.new) 5 ≡ Watch.get Watch.new 5 ++ watcher ∷ [])
    × ((m : Lit) → 5 ≢ m → Watch.get (add 5 watcher Watch.new) m ≡ Watch.get Watch.new m)
add-get_example = add-get 5 watcher Watch.new

ensure_var-get_example :
    (3 * 2 ≤ length (ensure_var 3 (add 1 watcher Watch.new)).watches)
    × ((m : Lit)
        → Watch.get (ensure_var 3 (add 1 watcher Watch.new)) m
          ≡ Watch.get (add 1 watcher Watch.new) m)
ensure_var-get_example = ensure_var-get 3 (add 1 watcher Watch.new)

-- Numbers for the activities.
abbrev one_clause : ClauseArena ℕ
one_clause = (alloc_original 0 (0 ∷ (3 ∷ [])) Clause.new).0

alloc-Stored_example :
    Stored one_clause
      (alloc_original 0 (2 ∷ []) one_clause).0
      (alloc_original 0 (2 ∷ []) one_clause).1
      (new_original 0 (2 ∷ []))
    × Stored one_clause
        (alloc_learned 0 (2 ∷ []) 1 one_clause).0
        (alloc_learned 0 (2 ∷ []) 1 one_clause).1
        (new_learned 0 (2 ∷ []) 1)
alloc-Stored_example = alloc-Stored 0 (2 ∷ []) 1 one_clause
