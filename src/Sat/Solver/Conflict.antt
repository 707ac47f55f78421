-- ===== src/Sat/Solver/Conflict.antt =====
-- crates/smt-sat/src/solver.rs: `analyze_conflict` from a conflict to the learned clause.
use smt_solver_rust.Common.{
  ℕ, zero, suc, ◌+◌, ◌≤◌, ◌<◌, ◌≡◌, refl, sym, ap, ◌∙◌, false, some, List, [], ◌∷◌, length,
  get_elem?, get_or, arith, max, All, replicate, get_elem?-lt, length-replicate,
}
use mathlib.Core.Option.{some-injective}
use smt_solver_rust.Common.Int.{pos, pos_part}
use smt_solver_rust.Sat.Lit.{Var, Lit, var, negate}
use smt_solver_rust.Sat.Lit.Laws.{var-negate}
use smt_solver_rust.Sat.Models.{Valuation}
use smt_solver_rust.Sat.Trail.{Trail, ClauseId, decision_level, level_of}
use smt_solver_rust.Sat.Trail.View.{level_at}
use smt_solver_rust.Sat.Trail.Valid.{IsValid}
use smt_solver_rust.Sat.Clause.{Clause, ClauseArena, get_clause}
use smt_solver_rust.Sat.Float.{F64, FloatOps}
use smt_solver_rust.Sat.Vsids
use smt_solver_rust.Sat.Vsids.{Vsids, bump_var}
use smt_solver_rust.Sat.Vsids.Indexed.{IsIndexed}
use smt_solver_rust.Sat.Vsids.Sift.{decay-IsIndexed}
use smt_solver_rust.Sat.Vsids.Bump.{bump_var-IsBumped}
use smt_solver_rust.Sat.Solver.{SatSolver}
use smt_solver_rust.Sat.Solver.Analyze.{Analysis, note_met, count_levels, analyze_conflict}
use smt_solver_rust.Sat.Solver.Position.{In, satisfies-In, FalseBefore, level_of-position, All-In}
use smt_solver_rust.Sat.Solver.Count.{count, counted_below}
use smt_solver_rust.Sat.Solver.Mark.{mark-IsMarked}
use smt_solver_rust.Sat.Solver.Note.{Seen, IsMarked}
use smt_solver_rust.Sat.Solver.Learn.{IsImplied, Respects, Live, IsLearned, holding-Live}
use smt_solver_rust.Sat.Solver.Walk.{walk-Finds}

-- A conflict: every literal of the clause is false, one of them at the current level, above 0.
pub record IsConflict (t : Trail) (c : Clause F64) : Type 0 where
  pub all_false : All (FalseBefore t (length t.trail)) c.lits
  pub last : Lit
  pub last_in : In last c.lits
  pub position : ℕ
  pub last_at : get_elem? t.trail position ≡ some (negate last)
  pub last_level : level_at t.trail_lim position ≡ length t.trail_lim
  pub above : 0 < length t.trail_lim

abbrev fresh : ℕ → Vsids → Analysis
fresh n h = record {
  learned = [];
  seen = replicate n false;
  path_count = pos 0;
  back_level = 0;
  heap = h;
}

none_seen : (n v : ℕ) → get_or (replicate n false) v false ≡ false
none_seen zero v = refl
none_seen (suc n) zero = refl
none_seen (suc n) (suc v) = none_seen n v

none_counted : (t : Trail) (n current b : ℕ) → count t current (replicate n false) b ≡ 0
unfolding count
none_counted t n current zero = refl
none_counted t n current (suc b) =
    rw (none_seen n (var (get_or t.trail b 0))) (omega (arith, none_counted t n current b))

start-IsMarked :
    (t : Trail) (current n b : ℕ) (h : Vsids)
    → n ≡ length t.assigns
    → 0 < current
    → IsIndexed (length t.assigns) h
    → IsMarked (IsIndexed (length t.assigns)) t current b (fresh n h)
start-IsMarked t current n b h size above k = record {
  size = length-replicate n false ∙ size;
  whole = refl;
  counted = sym (none_counted t n current b);
  collected = λ j l at s. absurd (let z = none_seen n (var l) in cc);
  below = λ m (i, e). absurd (cc);
  lower = λ p. p;
  heap = k;
}

-- Once the conflict is marked, its literals are to be resolved or collected.
module _ (t : Trail) (v : IsValid t) (c : Clause F64) (an : Analysis) (conflict : IsConflict t c)
    (m : IsMarked (IsIndexed (length t.assigns)) t (length t.trail_lim) (length t.trail) an)
    (all : All (λ l. Seen an (var l)) c.lits) where
  start-pos : 0 < pos_part an.path_count
  start-pos =
      let l = conflict.last in
      let s = All-In (λ l. Seen an (var l)) c.lits all l conflict.last_in in
      let s' : Seen an (var (negate l)) = ap (λ k. get_or an.seen k false) (var-negate l) ∙ s in
      let p =
        counted_below t (length t.trail_lim) an.seen (length t.trail) conflict.position (negate l)
          (get_elem?-lt t.trail conflict.position conflict.last_at) conflict.last_at s'
          conflict.last_level in
      omega (arith, m.counted)

  start-Live :
      (a : ClauseArena F64) (id : ClauseId)
      → get_clause a id ≡ some c
      → (α : Valuation) → Respects α t a
      → Live α t (length t.trail_lim) (length t.trail) an
  start-Live a id e α r =
      let (x, inside, y) = satisfies-In α c.lits (r.clauses id c e) in
      holding-Live (IsIndexed (length t.assigns)) t v (length t.trail_lim) refl a α (length t.trail)
        an x r m (All-In (FalseBefore t (length t.trail)) c.lits conflict.all_false x inside)
        (All-In (λ l. Seen an (var l)) c.lits all x inside) y

learned_on :
    (t : Trail) (a : ClauseArena F64) (current : ℕ) (l : Lit) (rest : List Lit) (back : ℕ)
    → IsLearned t a current l rest back
    → (m : Lit) → In m (l ∷ rest)
    → (j : ℕ) × (get_elem? t.trail j ≡ some (negate m))
learned_on t a current l rest back k m (zero, e) =
    let (j, at, z) = k.asserting in (j, at ∙ ap (λ n. some (negate n)) (some-injective _ _ e))
learned_on t a current l rest back k m (suc i, e) =
    let (j, at, p, q, r) = k.others_below m (i, e) in (j, at)

length-note_met : (x : ℕ) (levels : List ℕ) → length (note_met x levels) ≤ suc (length levels)
length-note_met x levels = ground arith

-- The levels of literals on the trail can be counted.
count_levels_returns :
    (t : Trail) (v : IsValid t) (ls : List Lit) (levels : List ℕ)
    → ((m : Lit) → In m ls → (j : ℕ) × (get_elem? t.trail j ≡ some (negate m)))
    → (k : ℕ) × (count_levels t ls levels ≡ some k) × (k ≤ length levels + length ls)
unfolding count_levels
count_levels_returns t v [] levels on = (length levels, refl, omega arith)
count_levels_returns t v (l ∷ ls) levels on =
    let (j, at) = on l (0, refl) in
    let e : level_of t (var l) ≡ some (level_at t.trail_lim j) =
      ap (level_of t) (sym (var-negate l)) ∙ level_of-position t v j (negate l) at in
    let lv = level_at t.trail_lim j in
    let (k, f, bound) =
      count_levels_returns t v ls (note_met lv levels) (λ m (i, p). on m (suc i, p)) in
    (k, rw (e) f, omega (arith, length-note_met lv levels))

-- The state after: the trail, the clauses and the watches are as before, one conflict is counted,
-- and the heap is indexed.
pub record IsAnalyzed (s u : SatSolver) (l : Lit) (rest : List Lit) (back lbd : ℕ) : Type 0 where
  pub kept : u.kernel ≡ s.kernel
  pub counted : u.stats.conflicts ≡ s.stats.conflicts + 1
  pub indexed : IsIndexed (length s.kernel.trail.assigns) u.vsids
  pub lbd_bound : lbd ≤ 1 + length rest
  pub learned :
      IsLearned s.kernel.trail s.kernel.arena (length s.kernel.trail.trail_lim) l rest back

module _ (X : FloatOps) (s : SatSolver) where
  abbrev after : Vsids → SatSolver
  after h =
      let st = s.stats in
      record s { stats = record st { conflicts = st.conflicts + 1 }; vsids = Vsids.decay X h }

  -- From a conflict at a level above 0 on a valid trail whose literals are implied, the analysis
  -- returns a first literal that is false at the current level, other literals that are false at
  -- levels from 1 to the level to go back to, which is below the current one; the clause holds in
  -- every valuation of the clauses in which the literals of level 0 hold, at most as many levels as
  -- literals are counted, and the heap stays indexed.
  pub analyze_conflict-IsAnalyzed :
      (id : ClauseId) (c : Clause F64)
      → IsValid s.kernel.trail
      → IsImplied s.kernel.trail s.kernel.arena
      → IsIndexed (length s.kernel.trail.assigns) s.vsids
      → s.num_vars ≡ length s.kernel.trail.assigns
      → get_clause s.kernel.arena id ≡ some c
      → IsConflict s.kernel.trail c
      → (u : SatSolver) × (l : Lit) × (rest : List Lit) × (back : ℕ) × (lbd : ℕ) × (analyze_conflict
            X id s
          ≡ some (u, l ∷ rest, back, lbd))
        × IsAnalyzed s u l rest back lbd
  unfolding analyze_conflict decision_level
  analyze_conflict-IsAnalyzed id c v w k size e conflict =
      let t = s.kernel.trail in
      let n = length t.assigns in
      let current = length t.trail_lim in
      let start = fresh s.num_vars s.vsids in
      let bump : (w : Var) (h : Vsids)
          → IsIndexed n h
          → w < n
          → (h' : Vsids) × (bump_var X w h ≡ some h') × IsIndexed n h' =
        λ w h k l. let (h', a, e, at, b) = bump_var-IsBumped X n w h k l in (h', e, b.indexed) in
      let (an, f, m, g, all) =
        mark-IsMarked X (IsIndexed n) t v current refl bump (length t.trail) c.lits start
          (omega arith) conflict.all_false
          (start-IsMarked t current s.num_vars (length t.trail) s.vsids size conflict.above k) in
      let live = start-Live t v c an conflict m all s.kernel.arena id e in
      let pos = start-pos t v c an conflict m all in
      let (l, bn, f', k', learned) =
        walk-Finds X (IsIndexed n) t v s.kernel.arena w current refl conflict.above bump
          (length t.trail) an (omega arith) m pos live in
      let (lbd, f'', bound) =
        count_levels_returns t v (l ∷ bn.learned) []
          (learned_on t s.kernel.arena current l bn.learned bn.back_level learned) in
      (
        after bn.heap,
        l,
        bn.learned,
        bn.back_level,
        max lbd 1,
        rw (e, f, f', f'') refl,
        record {
          kept = refl;
          counted = refl;
          indexed = decay-IsIndexed X n bn.heap k';
          lbd_bound = ground arith;
          learned = learned;
        },
      )
