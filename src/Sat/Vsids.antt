-- ===== src/Sat/Vsids.antt =====
-- crates/smt-sat/src/vsids.rs: the branching heuristic, a binary heap of variables with the position
-- of each. `none` is an index out of range; the fuel of a sift bounds its rounds.
pub mod Indexed
pub mod Sift
pub mod Bump
pub mod Insert
pub mod Pop
pub mod Select
pub mod Tests
use smt_solver_rust.Common.{
  ℕ, zero, suc, ◌+◌, ◌-◌, ◌*◌, ◌/◌, ◌^◌, Bool, true, false, ◌&&◌, not, Option, none, some, List, [],
  ◌∷◌, ◌++◌, ◌==◌, ltb, if◌then◌else◌, ◌>>=◌, length, get_elem?, set, put, replicate, map, take,
}
use smt_solver_rust.Sat.Lit.{Var, is_defined}
use smt_solver_rust.Sat.Trail.{Trail, var_value, grow}
use smt_solver_rust.Sat.Float.{F64, FloatOps}

pub record Vsids : Type 0 where
  pub activity : List F64
  pub var_inc : F64
  pub var_decay : F64
  pub heap : List Var
  pub heap_pos : List ℕ

-- `usize::MAX`
abbrev pub absent : ℕ
absent = 2 ^ 64 - 1

abbrev pub parent : ℕ → ℕ
parent pos = (pos - 1) / 2

-- `heap.swap(i, j)` with the two positions written.
unfoldable pub exchange : ℕ → ℕ → Vsids → Option Vsids
exchange i j s = do
  x ← get_elem? s.heap i
  y ← get_elem? s.heap j
  p ← put s.heap_pos x j
  q ← put p y i
  some (record s { heap = set (set s.heap i y) j x; heap_pos = q })

module _ (X : FloatOps) where
  open X use {zero_f, one_f, decay_f, huge_f, tiny_f, add_f, mul_f, div_f, gt_f}

  unfoldable pub new : Vsids
  new = record { activity = []; var_inc = one_f; var_decay = decay_f; heap = []; heap_pos = [] }

  -- Whether the variable at one position has more activity than that at another.
  unfoldable pub above : Vsids → ℕ → ℕ → Option Bool
  above s i j = do
    x ← get_elem? s.heap i
    y ← get_elem? s.heap j
    a ← get_elem? s.activity x
    b ← get_elem? s.activity y
    some (gt_f a b)

  unfoldable pub sift_up : ℕ → ℕ → Vsids → Option Vsids
  sift_up zero pos s = none
  sift_up (suc fuel) pos s = elim (ltb 0 pos) [
    | false ↦ some s
    | true ↦ (do
      rises ← above s pos (parent pos)
      elim rises [
        | false ↦ some s
        | true ↦ exchange pos (parent pos) s >>= λ t. sift_up fuel (parent pos) t
      ])
  ]

  -- The child that is above the position and its sibling, if there is one.
  unfoldable pub best_child : Vsids → ℕ → Option ℕ
  best_child s pos = do
    let left = 2 * pos + 1
    let right = left + 1
    l ← above s left pos
    let best = if l then left else pos
    r ← (if ltb right (length s.heap) then above s right best else some false)
    some (if r then right else best)

  unfoldable pub sift_down : ℕ → ℕ → Vsids → Option Vsids
  sift_down zero pos s = none
  sift_down (suc fuel) pos s = elim (ltb (2 * pos + 1) (length s.heap)) [
    | false ↦ some s
    | true ↦ (do
      best ← best_child s pos
      elim (best == pos) [
        | true ↦ some s
        | false ↦ exchange pos best s >>= λ t. sift_down fuel best t
      ])
  ]

  unfoldable pub insert : Var → Vsids → Option Vsids
  insert v s = do
    p ← get_elem? s.heap_pos v
    elim (p == absent) [
      | false ↦ some s
      | true ↦ (do
        let pos = length s.heap
        q ← put s.heap_pos v pos
        sift_up (pos + 1) pos (record s { heap = s.heap ++ v ∷ []; heap_pos = q }))
    ]

  unfoldable pub insert_range : ℕ → Var → Vsids → Option Vsids
  insert_range zero v s = some s
  insert_range (suc n) v s = insert v s >>= λ t. insert_range n (v + 1) t

  unfoldable pub ensure_var : ℕ → Vsids → Option Vsids
  ensure_var var_count s =
      let old = length s.activity in
      if ltb old var_count
      then insert_range (var_count - old) old (record s {
        activity = grow var_count zero_f s.activity;
        heap_pos = grow var_count absent s.heap_pos;
      })
      else some s

  unfoldable pub is_in_heap : Vsids → Var → Bool
  is_in_heap s v = elim (get_elem? s.heap_pos v) [ none ↦ false | some p ↦ not (p == absent) ]

  -- Above 1e100 everything is scaled down.
  unfoldable pub rescale : F64 → Vsids → Vsids
  rescale a s =
      if gt_f a huge_f
      then record s {
        activity = map (λ x. mul_f x tiny_f) s.activity;
        var_inc = mul_f s.var_inc tiny_f;
      }
      else s

  unfoldable pub bump_var : Var → Vsids → Option Vsids
  bump_var v s = do
    a ← get_elem? s.activity v
    let b = add_f a s.var_inc
    let t = rescale b (record s { activity = set s.activity v b })
    pos ← get_elem? t.heap_pos v
    elim (pos == absent) [ true ↦ some t | false ↦ sift_up (pos + 1) pos t ]

  unfoldable pub decay : Vsids → Vsids
  decay s = record s { var_inc = div_f s.var_inc s.var_decay }

  -- The two cases of `pop_max`, by the heap.
  unfoldable pub pop_from : List Var → Vsids → Option (Vsids × Option Var)
  pop_from [] s = some (s, none)
  pop_from (top ∷ rest) s = do
    p ← put s.heap_pos top absent
    let n = length rest
    elim (n == 0) [
      | true ↦ some (record s { heap = []; heap_pos = p }, some top)
      | false ↦ (do
        last ← get_elem? s.heap n
        q ← put p last 0
        let t = record s { heap = set (take n s.heap) 0 last; heap_pos = q }
        u ← sift_down (n + 1) 0 t
        some (u, some top))
    ]

  -- The variable at the root is out of the heap, and the last one takes its place.
  unfoldable pub pop_max : Vsids → Option (Vsids × Option Var)
  pop_max s = pop_from s.heap s

  -- `while let Some(var) = self.pop_max()`, on fuel: each round shortens the heap.
  unfoldable pub pop_unassigned : ℕ → Trail → Vsids → Option (Vsids × Option Var)
  pop_unassigned zero t s = none
  pop_unassigned (suc fuel) t s = do
    (u, top) ← pop_max s
    elim top [
      | none ↦ some (u, none)
      | some v ↦ (do
        x ← var_value t v
        elim (is_defined x) [ true ↦ pop_unassigned fuel t u | false ↦ some (u, some v) ])
    ]

  -- The `for` over the variables from `v` on.
  unfoldable pub scan_unassigned : ℕ → Var → Trail → Vsids → Option (Vsids × Option Var)
  scan_unassigned zero v t s = some (s, none)
  scan_unassigned (suc n) v t s = do
    x ← var_value t v
    elim (is_defined x) [
      | true ↦ scan_unassigned n (v + 1) t s
      | false ↦ insert v s >>= λ u. pop_max u
    ]

  unfoldable pub select_decision_var : Trail → Vsids → Option (Vsids × Option Var)
  select_decision_var t s = do
    (u, found) ← pop_unassigned (length s.heap + 1) t s
    elim found [ some v ↦ some (u, some v) | none ↦ scan_unassigned (length u.activity) 0 t u ]
