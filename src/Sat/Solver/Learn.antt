-- ===== src/Sat/Solver/Learn.antt =====
-- crates/smt-sat/src/solver.rs: the walk of `analyze_conflict` down the trail, and the clause that it
-- learns.
use mathlib.Core.Path.{subst}
use mathlib.Core.Option.{some-injective}
use smt_solver_rust.Common.{
  ℕ, suc, ◌<◌, ◌≡◌, ◌≢◌, sym, ap, ◌∙◌, Bool, true, false, some, List, ◌∷◌, length, get_elem?,
  get_or, set, arith, ◌⊎◌, inl, inr, All, get_or-eq_of_some, length-set, get_or-set_self,
  get_or-set_ne,
}
use native.Mathlib.Decide.{ℕ_discrete}
use smt_solver_rust.Common.Int.{pos, pos_part}
use smt_solver_rust.Sat.Lit.{Var, Lit, var, negate}
use smt_solver_rust.Sat.Lit.Laws.{var-negate, negate-negate}
use smt_solver_rust.Sat.Models.{Valuation, holds, satisfies}
use smt_solver_rust.Sat.Trail.{Trail, Reason, ClauseId, clause, reason_of}
use smt_solver_rust.Sat.Trail.View.{level_at}
use smt_solver_rust.Sat.Trail.Valid.{IsValid}
use smt_solver_rust.Sat.Clause.{Clause, ClauseArena, get_clause}
use smt_solver_rust.Sat.Float.{F64}
use smt_solver_rust.Sat.Vsids.{Vsids}
use smt_solver_rust.Sat.Solver.Analyze.{Analysis}
use smt_solver_rust.Sat.Solver.Position.{
  In, holds_not_both, FalseBefore, trail_in_range, level_at-le, level_at_mono,
}
use smt_solver_rust.Sat.Solver.Count.{lit_at, count, count-unmark, count_pos, count-skip}
use smt_solver_rust.Sat.Solver.Note.{Seen, BelowLevel, IsMarked}

abbrev pub is_clause : Reason → Bool
is_clause (clause id) = true
is_clause _ = false

-- A literal with a clause as its reason is in it, and its other literals were false before; above
-- level 0 a literal with another reason is the first of its level.
pub record IsImplied (t : Trail) (a : ClauseArena F64) : Type 0 where
  pub reasons :
      (i : ℕ) (l : Lit) (id : ClauseId)
      → get_elem? t.trail i ≡ some l
      → reason_of t (var l) ≡ some (clause id)
      → (c : Clause F64) × (get_clause a id ≡ some c)
        × All (λ m. (m ≡ l) ⊎ FalseBefore t i m) c.lits
  pub openers :
      (i : ℕ) (l : Lit) (r : Reason)
      → get_elem? t.trail i ≡ some l
      → reason_of t (var l) ≡ some r
      → is_clause r ≡ false
      → 0 < level_at t.trail_lim i
      → (j : ℕ) → j < i
      → level_at t.trail_lim j < level_at t.trail_lim i

-- A valuation in which every clause and every literal of level 0 holds.
pub record Respects (α : Valuation) (t : Trail) (a : ClauseArena F64) : Type 0 where
  pub clauses :
      (id : ClauseId) (c : Clause F64) → get_clause a id ≡ some c → satisfies α c.lits ≡ true
  pub facts :
      (i : ℕ) (l : Lit)
      → get_elem? t.trail i ≡ some l
      → level_at t.trail_lim i ≡ 0
      → holds α l ≡ true

-- What is still to be resolved away, together with the literals collected, holds.
abbrev pub Live : Valuation → Trail → ℕ → ℕ → Analysis → Type 0
Live α t current b an =
    ((m : Lit) × In m an.learned × (holds α m ≡ true))
    ⊎ ((j : ℕ) × (l : Lit) × (j < b)
        × (get_elem? t.trail j ≡ some l)
        × Seen an (var l)
        × (level_at t.trail_lim j ≡ current)
        × (holds α (negate l) ≡ true))

-- A clause that was learned: its first literal is false at the current level and the others at
-- levels in between, and it holds wherever the clauses do.
pub record IsLearned (t : Trail) (a : ClauseArena F64) (current : ℕ) (l : Lit) (rest : List Lit)
    (back : ℕ) : Type 0 where
  pub asserting :
      (j : ℕ) × (get_elem? t.trail j ≡ some (negate l)) × (level_at t.trail_lim j ≡ current)
  pub others_below : (m : Lit) → In m rest → BelowLevel t current back m
  pub goes_back : back < current
  pub entailed : (α : Valuation) → Respects α t a → satisfies α (l ∷ rest) ≡ true

-- The analysis after the walk takes a literal.
abbrev pub unmarked : Lit → ℕ → Analysis → Analysis
unmarked l n an = record an { seen = set an.seen (var l) false; path_count = pos n }

module _ (IsHeap : Vsids → Type 0) (t : Trail) (v : IsValid t) (current : ℕ)
    (top : length t.trail_lim ≡ current) where
  -- A literal that holds although it is false on the trail is collected, or still to be resolved.
  pub holding-Live :
      (a : ClauseArena F64) (α : Valuation) (b : ℕ) (an : Analysis) (m : Lit)
      → Respects α t a
      → IsMarked IsHeap t current b an
      → FalseBefore t b m
      → Seen an (var m)
      → holds α m ≡ true
      → Live α t current b an
  holding-Live a α b an m r k (j, below, at) seen h =
      let here : Seen an (var (negate m)) =
        ap (λ n. get_or an.seen n false) (var-negate m) ∙ seen in
      let back : holds α (negate (negate m)) ≡ true = ap (holds α) (negate-negate m) ∙ h in
      let le = level_at-le t.trail_lim j in
      elim (ℕ_discrete (level_at t.trail_lim j) current) [
        | yes p ↦ inr (j, negate m, below, at, here, p, back)
        | no ne ↦ elim (ℕ_discrete (level_at t.trail_lim j) 0) [
          | yes z ↦
              let bad : true ≡ false = sym (r.facts j (negate m) at z) ∙ holds_not_both α m h in cc
          | no nz ↦ inl (
            m,
            subst (λ n. In n an.learned) (negate-negate m)
                (k.collected j (negate m) at here (omega arith) (omega arith)),
            h,
          )
        ]
      ]

  -- Where the variable at the position is not marked, the position is done.
  pub skip-IsMarked :
      (i : ℕ) (l : Lit) (an : Analysis)
      → get_elem? t.trail i ≡ some l
      → get_or an.seen (var l) false ≡ false
      → IsMarked IsHeap t current (suc i) an
      → IsMarked IsHeap t current i an
  skip-IsMarked i l an at u m = record {
    size = m.size;
    collected = m.collected;
    below = m.below;
    lower = m.lower;
    heap = m.heap;
    whole = m.whole;
    counted = m.counted ∙ count-skip t current an.seen i l at u;
  }

  pub skip-Live :
      (i : ℕ) (l : Lit) (an : Analysis) (α : Valuation)
      → get_elem? t.trail i ≡ some l
      → get_or an.seen (var l) false ≡ false
      → Live α t current (suc i) an
      → Live α t current i an
  skip-Live i l an α at u (inl x) = inl x
  skip-Live i l an α at u (inr (j, k, below, e, s, lv, h)) = elim (ℕ_discrete j i) [
    | yes p ↦
        let q : l ≡ k = some-injective _ _ (sym at ∙ ap (get_elem? t.trail) (sym p) ∙ e) in
        let u' : get_or an.seen (var k) false ≡ false =
          ap (λ n. get_or an.seen (var n) false) (sym q) ∙ u in
        let bad : true ≡ false = sym s ∙ u' in cc
    | no ne ↦ inr (j, k, omega arith, e, s, lv, h)
  ]

  -- While something is counted, a position is at the current level.
  pub level-current :
      (i : ℕ) (an : Analysis)
      → IsMarked IsHeap t current (suc i) an
      → 0 < pos_part an.path_count
      → level_at t.trail_lim i ≡ current
  level-current i an m some_left =
      let c = m.counted in
      let (j, below, s, e) = count_pos t current an.seen (suc i) (omega arith) in
      let up = level_at_mono t.trail_lim j i (omega arith) in
      let le = level_at-le t.trail_lim i in omega arith

  unmark-seen :
      (l : Lit) (n : ℕ) (an : Analysis) (k : Var)
      → var l < length an.seen
      → Seen (unmarked l n an) k
      → Seen an k
  unmark-seen l n an k r s = elim (ℕ_discrete (var l) k) [
    | yes p ↦
        let z = get_or-set_self an.seen (var l) false false r in
        let bad : true ≡ false =
          sym s ∙ ap (λ j. get_or (set an.seen (var l) false) j false) (sym p) ∙ z in
        cc
    | no ne ↦ sym (get_or-set_ne an.seen (var l) k false false ne) ∙ s
  ]

  pub unmark-keeps :
      (l : Lit) (n : ℕ) (an : Analysis) (k : Var) → var l ≢ k → Seen an k → Seen (unmarked l n an) k
  unmark-keeps l n an k ne s = get_or-set_ne an.seen (var l) k false false ne ∙ s

  pub unmark-IsMarked :
      (i n : ℕ) (l : Lit) (an : Analysis)
      → get_elem? t.trail i ≡ some l
      → i < length t.trail
      → n ≡ count t current an.seen i
      → IsMarked IsHeap t current (suc i) an
      → IsMarked IsHeap t current i (unmarked l n an)
  unmark-IsMarked i n l an at bound e m = record {
    size = length-set an.seen (var l) false ∙ m.size;
    whole = λ k. pos n;
    counted =
        let p : lit_at t i ≡ l = get_or-eq_of_some t.trail i 0 at in
        let c = count-unmark t v current an.seen m.size i i false (omega arith) bound in
        e ∙ sym c ∙ ap (λ k. count t current (set an.seen (var k) false) i) p;
    collected = λ j k f s p q.
        m.collected j k f
          (unmark-seen l n an (var k)
            (let r = trail_in_range t v i l at in let z = m.size in omega arith) s)
          p q;
    below = m.below;
    lower = m.lower;
    heap = m.heap;
  }
