-- ===== src/Sat/Solver/Analyze.antt =====
-- crates/smt-sat/src/solver.rs: `analyze_conflict`, which learns a clause up to the first unique
-- implication point, and `reduce_db`. The `i32` of
-- `path_count` is an integer: it counts marked variables, fewer than an `i32` holds.
use smt_solver_rust.Common.{
  ℕ, zero, suc, ◌+◌, ◌/◌, Bool, true, false, ◌&&◌, ◌||◌, not, Option, some, List, [], ◌∷◌, ◌++◌,
  ◌==◌, ltb, leb, if◌then◌else◌, ◌>>=◌, length, get_elem?, set, replicate, max,
}
use smt_solver_rust.Common.Int.{ℤ, pos, incr, decr, is_zero}
use smt_solver_rust.Sat.Lit.{Lit, var, negate, is_defined}
use smt_solver_rust.Sat.Trail.{
  Trail, ClauseId, Reason, decision, unit, clause, theory, decision_level, level_of, reason_of,
  var_value,
}
use smt_solver_rust.Sat.Clause.{Clause, ClauseArena, get_clause, update_clause, iter_ids}
use smt_solver_rust.Sat.Float.{F64, FloatOps}
use smt_solver_rust.Sat.Vsids
use smt_solver_rust.Sat.Vsids.{Vsids, bump_var}
use smt_solver_rust.Sat.Proof
use smt_solver_rust.Sat.Solver.{SatSolver}

-- The variables of the loop: `learned` without its reserved slot 0.
pub record Analysis : Type 0 where
  pub learned : List Lit
  pub seen : List Bool
  pub path_count : ℤ
  pub back_level : ℕ
  pub heap : Vsids

abbrev pub note_level : ℕ → ℕ → Lit → Analysis → Analysis
note_level current level l an =
    if level == current
    then record an { path_count = incr an.path_count }
    else if ltb 0 level
    then record an { learned = an.learned ++ l ∷ []; back_level = max an.back_level level }
    else an

-- The `for` over `current_lits`.
unfoldable pub mark : FloatOps → Trail → ℕ → List Lit → Analysis → Option Analysis
mark X t current [] an = some an
mark X t current (l ∷ ls) an = do
  b ← get_elem? an.seen (var l)
  elim b [
    | true ↦ mark X t current ls an
    | false ↦ (do
      h ← bump_var X (var l) an.heap
      level ← level_of t (var l)
      mark X t current ls
          (note_level current level l (record an { seen = set an.seen (var l) true; heap = h })))
  ]

-- The literals of a reason but those of the variable.
abbrev pub others : ℕ → List Lit → List Lit
others v [] = []
others v (l ∷ ls) = if var l == v then others v ls else l ∷ others v ls

-- The outer loop, down the trail from `idx`: the literal for slot 0, which is `Lit(0)` where the
-- loop breaks without a unique implication point.
unfoldable pub walk :
    FloatOps → Trail → ClauseArena F64 → ℕ → ℕ → Analysis → Option (Lit × Analysis)
walk X t a current zero an = some (0, an)
walk X t a current (suc idx) an = do
  l ← get_elem? t.trail idx
  b ← get_elem? an.seen (var l)
  elim b [
    | false ↦ walk X t a current idx an
    | true ↦ (do
      let bn = record an { seen = set an.seen (var l) false; path_count = decr an.path_count }
      elim (is_zero bn.path_count) [
        | true ↦ some (negate l, bn)
        | false ↦ (do
          r ← reason_of t (var l)
          elim r [
            | clause id ↦ (do
              c ← get_clause a id
              cn ← mark X t current (others (var l) c.lits) bn
              walk X t a current idx cn)
            | decision ↦ some (0, bn)
            | unit ↦ some (0, bn)
            | theory i ↦ some (0, bn)
          ])
      ])
  ]

unfoldable pub met : ℕ → List ℕ → Bool
met x [] = false
met x (y ∷ ys) = y == x || met x ys

abbrev pub note_met : ℕ → List ℕ → List ℕ
note_met level levels = if met level levels then levels else level ∷ levels

-- How many levels the literals have: `levels` is the set of those met.
unfoldable pub count_levels : Trail → List Lit → List ℕ → Option ℕ
count_levels t [] levels = some (length levels)
count_levels t (l ∷ ls) levels = do
  level ← level_of t (var l)
  count_levels t ls (note_met level levels)

-- The learned clause, the level to go back to, and the number of levels in the clause.
unfoldable pub analyze_conflict :
    FloatOps → ClauseId → SatSolver → Option (SatSolver × List Lit × ℕ × ℕ)
analyze_conflict X conflict_cid s = do
  let t = s.kernel.trail
  let st = s.stats
  let start : Analysis = record {
    learned = [];
    seen = replicate s.num_vars false;
    path_count = pos 0;
    back_level = 0;
    heap = s.vsids;
  }
  c ← get_clause s.kernel.arena conflict_cid
  an ← mark X t (decision_level t) c.lits start
  (l, bn) ← walk X t s.kernel.arena (decision_level t) (length t.trail) an
  lbd ← count_levels t (l ∷ bn.learned) []
  some (
    record s { stats = record st { conflicts = st.conflicts + 1 }; vsids = Vsids.decay X bn.heap },
    l ∷ bn.learned,
    bn.back_level,
    max lbd 1,
  )

-- The candidates of `reduce_db`.
unfoldable pub evictable : ClauseArena F64 → List ClauseId → Option (List ClauseId)
evictable a [] = some []
evictable a (id ∷ ids) = do
  c ← get_clause a id
  rest ← evictable a ids
  some (if c.learned && not c.deleted && ltb 2 (length c.lits) then id ∷ rest else rest)

-- `a` comes before `b`: more levels, or as many and less activity.
unfoldable pub before : FloatOps → Clause F64 → Clause F64 → Bool
before X c d = ltb d.lbd c.lbd || (c.lbd == d.lbd && X.gt_f d.activity c.activity)

unfoldable pub insert_id :
    FloatOps → ClauseArena F64 → ClauseId → List ClauseId → Option (List ClauseId)
insert_id X a id [] = some (id ∷ [])
insert_id X a id (j ∷ js) = do
  c ← get_clause a id
  d ← get_clause a j
  rest ← insert_id X a id js
  some (if before X d c then j ∷ rest else id ∷ (j ∷ js))

-- `sort_by`, which is stable.
unfoldable pub sort_ids : FloatOps → ClauseArena F64 → List ClauseId → Option (List ClauseId)
sort_ids X a [] = some []
sort_ids X a (id ∷ ids) = sort_ids X a ids >>= λ js. insert_id X a id js

abbrev pub is_reason : ClauseId → Reason → Bool
is_reason id (clause j) = j == id
is_reason id _ = false

-- Whether the clause is the reason of its first literal.
unfoldable pub locked : Trail → ClauseId → Clause F64 → Option Bool
locked t id c = do
  l ← get_elem? c.lits 0
  v ← var_value t (var l)
  r ← reason_of t (var l)
  some (is_defined v && is_reason id r)

abbrev pub evict : ClauseId → Clause F64 → SatSolver → Option SatSolver
evict id c s = do
  let k = s.kernel
  let st = s.stats
  a ← update_clause id (λ d. record d { deleted = true }) k.arena
  some (record s {
    proof = Proof.delete_clause c.lits s.proof;
    kernel = record k { arena = a };
    stats = record st { clauses_deleted = st.clauses_deleted + 1 };
  })

-- The loop over the candidates with the removals left.
unfoldable pub evict_all : ℕ → List ClauseId → SatSolver → Option SatSolver
evict_all zero ids s = some s
evict_all (suc left) [] s = some s
evict_all (suc left) (id ∷ ids) s = do
  c ← get_clause s.kernel.arena id
  kept ← (if leb c.lbd 2 then some true else locked s.kernel.trail id c)
  elim kept [
    | true ↦ evict_all (suc left) ids s
    | false ↦ evict id c s >>= λ u. evict_all left ids u
  ]

unfoldable pub reduce_db : FloatOps → SatSolver → Option SatSolver
reduce_db X s = do
  let a = s.kernel.arena
  ids ← evictable a (iter_ids a)
  elim (ltb (length ids) s.max_learned) [
    | true ↦ some s
    | false ↦ (do
      sorted ← sort_ids X a ids
      u ← evict_all (length sorted / 2) sorted s
      some (record u { max_learned = u.max_learned + 500 }))
  ]
