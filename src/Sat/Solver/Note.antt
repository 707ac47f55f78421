-- ===== src/Sat/Solver/Note.antt =====
-- crates/smt-sat/src/solver.rs: the state of `analyze_conflict`, and the step of its `for` loop for a
-- literal whose variable is not marked yet. `IsHeap` is the invariant of the heuristic.
use mathlib.Core.Path.{subst}
use mathlib.Core.Option.{some-injective}
use smt_solver_rust.Common.{
  ℕ, ◌+◌, ◌≤◌, ◌<◌, ◌≡◌, sym, ap, ◌∙◌, true, false, some, [], ◌∷◌, ◌++◌, ◌==◌, ltb, if◌then◌else◌,
  length, get_elem?, get_or, set, arith, Bool-cases, ◌⊎◌, inl, inr, max, get_or-eq_of_some,
  length-set, get_or-set_self, get_or-set_ne, lt→ltb, ==→≡, ==→≢, ltb→lt, ltb→le,
}
use native.Mathlib.Decide.{ℕ_discrete}
use smt_solver_rust.Common.Int.{pos, pos_part, incr}
use smt_solver_rust.Sat.Lit.{Var, Lit, var, negate}
use smt_solver_rust.Sat.Lit.Laws.{var-negate, negate-negate}
use smt_solver_rust.Sat.Trail.{Trail}
use smt_solver_rust.Sat.Trail.View.{level_at}
use smt_solver_rust.Sat.Trail.Valid.{IsValid}
use smt_solver_rust.Sat.Vsids.{Vsids}
use smt_solver_rust.Sat.Solver.Analyze.{Analysis, note_level}
use smt_solver_rust.Sat.Solver.Position.{
  In, In-old, In-new, In-snoc-cases, trail_in_range, Distinct-position, level_at-le,
}
use smt_solver_rust.Sat.Solver.Count.{lit_at, seen_at, count, count-mark}

abbrev pub Seen : Analysis → Var → Type 0
Seen an v = get_or an.seen v false ≡ true

-- A literal of the learned clause is false at a level between the lowest and the current.
abbrev pub BelowLevel : Trail → ℕ → ℕ → Lit → Type 0
BelowLevel t current back m =
    (j : ℕ) × (get_elem? t.trail j ≡ some (negate m))
    × (0 < level_at t.trail_lim j)
    × (level_at t.trail_lim j < current)
    × (level_at t.trail_lim j ≤ back)

-- The state of the analysis once every position from `b` on is done: the count is right, a marked
-- variable of a level in between has its literal in the clause, and the clause has no others.
pub record IsMarked (IsHeap : Vsids → Type 0) (t : Trail) (current b : ℕ) (an : Analysis)
    : Type 0 where
  pub size : length an.seen ≡ length t.assigns
  pub whole : an.path_count ≡ pos (pos_part an.path_count)
  pub counted : pos_part an.path_count ≡ count t current an.seen b
  pub collected :
      (j : ℕ) (l : Lit)
      → get_elem? t.trail j ≡ some l
      → Seen an (var l)
      → 0 < level_at t.trail_lim j
      → level_at t.trail_lim j < current
      → In (negate l) an.learned
  pub below : (m : Lit) → In m an.learned → BelowLevel t current an.back_level m
  pub lower : 0 < current → an.back_level < current
  pub heap : IsHeap an.heap

-- What marking more literals leaves as it was.
pub record Grows (an bn : Analysis) : Type 0 where
  pub seen : (v : Var) → Seen an v → Seen bn v
  pub learned : (m : Lit) → In m an.learned → In m bn.learned
  pub paths : pos_part an.path_count ≤ pos_part bn.path_count

module _ (IsHeap : Vsids → Type 0) (t : Trail) (v : IsValid t) (current : ℕ)
    (top : length t.trail_lim ≡ current) where
  at_position : (j : ℕ) (l : Lit) → get_elem? t.trail j ≡ some (negate l) → var (lit_at t j) ≡ var l
  at_position j l at = ap var (get_or-eq_of_some t.trail j 0 at) ∙ var-negate l

  pub in_range :
      (j : ℕ) (l : Lit) → get_elem? t.trail j ≡ some (negate l) → var l < length t.assigns
  in_range j l at =
      subst (λ k. k < length t.assigns) (var-negate l) (trail_in_range t v j (negate l) at)

  -- The one variable that is newly marked stands at one position.
  marked-cases :
      (j i : ℕ) (l k : Lit) (an : Analysis)
      → get_elem? t.trail j ≡ some (negate l)
      → get_elem? t.trail i ≡ some k
      → get_or (set an.seen (var l) true) (var k) false ≡ true
      → ((j ≡ i) × (negate l ≡ k)) ⊎ Seen an (var k)
  marked-cases j i l k an at e s = elim (ℕ_discrete (var l) (var k)) [
    | yes p ↦
        let same : j ≡ i =
          Distinct-position t.trail j i (negate l) k v.core.distinct at e (var-negate l ∙ p) in
        inl (same, some-injective _ _ (sym at ∙ ap (get_elem? t.trail) same ∙ e))
    | no ne ↦ inr (sym (get_or-set_ne an.seen (var l) (var k) true false ne) ∙ s)
  ]

  module _ (b j : ℕ) (l : Lit) (an : Analysis) (h : Vsids) (bound : b ≤ length t.trail)
      (below : j < b) (at : get_elem? t.trail j ≡ some (negate l))
      (fresh : get_or an.seen (var l) false ≡ false) (heap : IsHeap h)
      (m : IsMarked IsHeap t current b an) where
    abbrev pub noted : Analysis
    noted = record an { seen = set an.seen (var l) true; heap = h }

    counted_after :
        count t current (set an.seen (var l) true) b
        ≡ pos_part an.path_count + (if level_at t.trail_lim j == current then 1 else 0)
    counted_after =
        let p = at_position j l at in
        let u : seen_at t an.seen j ≡ false = ap (λ k. get_or an.seen k false) p ∙ fresh in
        let c = count-mark t v current an.seen m.size b j (omega arith) bound u in
        ap (λ k. count t current (set an.seen k true) b) (sym p)
        ∙ c
        ∙ rw (lt→ltb j b below) (let e = m.counted in omega arith)

    lower_level : (level_at t.trail_lim j == current) ≡ false → level_at t.trail_lim j < current
    lower_level q =
        let h = level_at-le t.trail_lim j in
        let ne = ==→≢ (level_at t.trail_lim j) current q in omega arith

    now_seen : get_or (set an.seen (var l) true) (var l) false ≡ true
    now_seen =
        get_or-set_self an.seen (var l) true false
          (let r = in_range j l at in let s = m.size in omega arith)

    seen_grows : (k : Var) → Seen an k → get_or (set an.seen (var l) true) k false ≡ true
    seen_grows k h = elim (ℕ_discrete (var l) k) [
      | yes p ↦ ap (λ n. get_or (set an.seen (var l) true) n false) (sym p) ∙ now_seen
      | no ne ↦ get_or-set_ne an.seen (var l) k true false ne ∙ h
    ]

    rise : pos_part an.path_count ≤ pos_part (incr an.path_count)
    rise = let z = ap (λ z. pos_part (incr z)) m.whole in omega arith

    note_current-IsMarked :
        (level_at t.trail_lim j == current) ≡ true
        → IsMarked IsHeap t current b (record noted { path_count = incr an.path_count })
    note_current-IsMarked q = record {
      size = length-set an.seen (var l) true ∙ m.size;
      whole = ap incr m.whole ∙ ap (λ z. pos (pos_part z)) (sym (ap incr m.whole));
      counted = let c = counted_after in ap (λ z. pos_part (incr z)) m.whole ∙ sym (rw q at c);
      collected = λ i k e s p r. elim (marked-cases j i l k an at e s) [
        | inl (same, _) ↦
            let z = ==→≡ (level_at t.trail_lim j) current q in
            let r' : level_at t.trail_lim j < current = rw (← same) at r in absurd (omega arith)
        | inr old ↦ m.collected i k e old p r
      ];
      below = m.below;
      lower = m.lower;
      heap = heap;
    }

    note_lower-IsMarked :
        (level_at t.trail_lim j == current) ≡ false
        → 0 < level_at t.trail_lim j
        → IsMarked IsHeap t current b (record noted {
          learned = an.learned ++ l ∷ [];
          back_level = max an.back_level (level_at t.trail_lim j);
        })
    note_lower-IsMarked q above = record {
      size = length-set an.seen (var l) true ∙ m.size;
      whole = m.whole;
      counted = let c = counted_after in sym (rw q at c ∙ omega arith);
      collected = λ i k e s p r. elim (marked-cases j i l k an at e s) [
        | inl (_, same) ↦
            subst (λ n. In n (an.learned ++ l ∷ [])) (sym (negate-negate l) ∙ ap negate same)
              (In-new l an.learned)
        | inr old ↦ In-old (negate k) an.learned (l ∷ []) (m.collected i k e old p r)
      ];
      below = λ n h. elim (In-snoc-cases an.learned l n h) [
        | inl old ↦ let (i, e, p, r, u) = m.below n old in (i, e, p, r, ground arith)
        | inr same ↦
            (j, at ∙ ap (λ k. some (negate k)) (sym same), above, lower_level q, ground arith)
      ];
      lower = λ p. let k = m.lower p in let u = lower_level q in ground arith;
      heap = heap;
    }

    note_zero-IsMarked :
        (level_at t.trail_lim j == current) ≡ false
        → level_at t.trail_lim j ≡ 0
        → IsMarked IsHeap t current b noted
    note_zero-IsMarked q none_at = record {
      size = length-set an.seen (var l) true ∙ m.size;
      whole = m.whole;
      counted = let c = counted_after in sym (rw q at c ∙ omega arith);
      collected = λ i k e s p r. elim (marked-cases j i l k an at e s) [
        | inl (same, _) ↦
            let p' : 0 < level_at t.trail_lim j = rw (← same) at p in absurd (omega arith)
        | inr old ↦ m.collected i k e old p r
      ];
      below = m.below;
      lower = m.lower;
      heap = heap;
    }

    pub note-IsMarked :
        IsMarked IsHeap t current b (note_level current (level_at t.trail_lim j) l noted)
        × Grows an (note_level current (level_at t.trail_lim j) l noted)
        × Seen (note_level current (level_at t.trail_lim j) l noted) (var l)
    note-IsMarked =
        let L = level_at t.trail_lim j in
        let Goal : Analysis → Type 0 =
          λ bn. IsMarked IsHeap t current b bn × Grows an bn × Seen bn (var l) in
        elim (Bool-cases (L == current)) [
          | inl q ↦
              let e : note_level current L l noted
                  ≡ record noted { path_count = incr an.path_count } =
                rw (q) in
              subst Goal (sym e) (
                note_current-IsMarked q,
                record { seen = seen_grows; learned = λ k h. h; paths = rise },
                now_seen,
              )
          | inr q ↦ elim (Bool-cases (ltb 0 L)) [
            | inl p ↦
                let e : note_level current L l noted ≡ record noted {
                  learned = an.learned ++ l ∷ [];
                  back_level = max an.back_level L;
                } =
                  rw (q, p) in
                subst Goal (sym e) (
                  note_lower-IsMarked q (ltb→lt 0 L p),
                  record {
                    seen = seen_grows;
                    learned = λ k h. In-old k an.learned (l ∷ []) h;
                    paths = omega arith;
                  },
                  now_seen,
                )
            | inr p ↦
                let e : note_level current L l noted ≡ noted = rw (q, p) in
                subst Goal (sym e) (
                  note_zero-IsMarked q (let z = ltb→le 0 L p in omega arith),
                  record { seen = seen_grows; learned = λ k h. h; paths = omega arith },
                  now_seen,
                )
          ]
        ]
