-- ===== src/Sat/Watch.antt =====
-- crates/smt-sat/src/watch.rs: the watch lists. A list stands at the literal's own number, and a
-- literal beyond the lists has none.
pub mod Laws
use smt_solver_rust.Common.{
  ℕ, ◌+◌, ◌-◌, ◌*◌, ◌<◌, Bool, true, false, List, [], ◌∷◌, ◌++◌, ltb, leb, if◌then◌else◌, length,
  get_or, set, replicate,
}
use smt_solver_rust.Sat.Lit.{Lit}
use smt_solver_rust.Sat.Trail.{ClauseId, grow}

pub record Watcher : Type 0 where
  pub clause_id : ClauseId
  pub blocker : Lit

pub record WatchList : Type 0 where
  pub watches : List (List Watcher)

unfoldable pub new : WatchList
new = record { watches = [] }

unfoldable pub ensure_var : ℕ → WatchList → WatchList
ensure_var var_count w =
    let required = var_count * 2 in
    if ltb (length w.watches) required then record { watches = grow required [] w.watches } else w

-- The resizing that `add` and `get_mut` begin with.
abbrev pub reach : Lit → List (List Watcher) → List (List Watcher)
reach lit ws = if leb (length ws) lit then grow (lit + 1) [] ws else ws

unfoldable pub add : Lit → Watcher → WatchList → WatchList
add lit watcher w =
    let ws = reach lit w.watches in
    record { watches = set ws lit (get_or ws lit [] ++ watcher ∷ []) }

unfoldable pub get : WatchList → Lit → List Watcher
get w lit = if ltb lit (length w.watches) then get_or w.watches lit [] else []

-- `get_mut` hands out the list; what the caller leaves there is written back.
unfoldable pub update : Lit → (List Watcher → List Watcher) → WatchList → WatchList
update lit f w =
    let ws = reach lit w.watches in record { watches = set ws lit (f (get_or ws lit [])) }
