-- ===== src/Sat/Solver/Backtrack.antt =====
-- crates/smt-sat/src/solver.rs: `backtrack_to`, which puts the variables back into the heap.
use smt_solver_rust.Common.{
  ℕ, ◌≤◌, ◌<◌, ◌≡◌, refl, sym, ap, ◌∙◌, Option, some, List, [], ◌∷◌, ◌>>=◌, length, get_elem?, take,
  arith, All, ◌⊎◌, inl, inr, get_elem?-lt, get_elem?-take_lt, length-take_le,
}
use smt_solver_rust.Sat.Lit.{Var, Lit, var}
use smt_solver_rust.Sat.Trail.{Trail, decision_level, reason_of}
use smt_solver_rust.Sat.Trail.View.{level_at, level_at-take, level_at_top, Ascending-take}
use smt_solver_rust.Sat.Trail.Valid.{IsValid}
use smt_solver_rust.Sat.Trail.Backtrack.{backtrack_to_with-IsValid, backtrack_to_with_keeps}
use smt_solver_rust.Sat.Clause.{ClauseArena}
use smt_solver_rust.Sat.Float.{F64, FloatOps}
use smt_solver_rust.Sat.Vsids.{Vsids}
use smt_solver_rust.Sat.Vsids.Indexed.{IsIndexed}
use smt_solver_rust.Sat.Vsids.Insert.{insert-IsIndexed}
use smt_solver_rust.Sat.Solver.{SatSolver, reinsert, backtrack_to}
use smt_solver_rust.Sat.Solver.Position.{FalseBefore, trail_in_range}
use smt_solver_rust.Sat.Solver.Learn.{IsImplied}
use smt_solver_rust.Sat.Solver.Filled.{trail_filled}
use smt_solver_rust.Sat.Solver.Round.{IsKernel}
use smt_solver_rust.Sat.Solver.Resolve.{IsReady}

module _ (t u : Trail) (v : IsValid t) (level k : ℕ) (at_k : get_elem? t.trail_lim level ≡ some k)
    (kept : u.trail ≡ take k t.trail) (same_data : u.var_data ≡ t.var_data)
    (lims : u.trail_lim ≡ take level t.trail_lim) where
  fits : k ≤ length t.trail
  fits = (Ascending-take 0 (length t.trail) t.trail_lim level k v.limits at_k).1

  pub length-cut : length u.trail ≡ k
  length-cut = ap length kept ∙ length-take_le k t.trail fits

  position : (i : ℕ) → i < k → get_elem? u.trail i ≡ get_elem? t.trail i
  position i h = ap (λ xs. get_elem? xs i) kept ∙ get_elem?-take_lt k t.trail i h

  position_below : (i : ℕ) (l : Lit) → get_elem? u.trail i ≡ some l → i < k
  position_below i l at = omega (arith, get_elem?-lt u.trail i at, length-cut)

  level_below : (i : ℕ) → i < k → level_at u.trail_lim i ≡ level_at t.trail_lim i
  level_below i h =
      ap (λ ks. level_at ks i) lims
      ∙ level_at-take 0 (length t.trail) t.trail_lim level k i v.limits at_k h

  same_reason : (w : Var) → reason_of u w ≡ reason_of t w
  unfolding reason_of
  same_reason w = ap (λ d. get_elem? d w >>= λ x. some x.reason) same_data

  shrunk :
      (i : ℕ) (l : Lit) (ms : List Lit)
      → i ≤ k
      → All (λ m. (m ≡ l) ⊎ FalseBefore t i m) ms
      → All (λ m. (m ≡ l) ⊎ FalseBefore u i m) ms
  shrunk i l [] h f = tt
  shrunk i l (m ∷ ms) h (inl p, f) = (inl p, shrunk i l ms h f)
  shrunk i l (m ∷ ms) h (inr (j, below, at), f) =
      (inr (j, below, position j (omega arith) ∙ at), shrunk i l ms h f)

  -- The literals that are left are implied by the same clauses.
  pub cut-IsImplied : (a : ClauseArena F64) → IsImplied t a → IsImplied u a
  cut-IsImplied a w = record {
    reasons = λ i l id at r.
        let below = position_below i l at in
        let (c, e, f) =
          w.reasons i l id (sym (position i below) ∙ at) (sym (same_reason (var l)) ∙ r) in
        (c, e, shrunk i l c.lits (omega arith) f);
    openers = λ i l r at f none_clause up j h.
        let below = position_below i l at in
        let here = level_below i below in
        let there = level_below j (omega arith) in
        let o =
          w.openers i l r (sym (position i below) ∙ at) (sym (same_reason (var l)) ∙ f) none_clause
            (omega arith) j h in
        omega arith;
  }

-- The heap that the closure hands on is there, and indexed.
abbrev Holds : ℕ → Option Vsids → Type 0
Holds n hs = (h : Vsids) × (hs ≡ some h) × IsIndexed n h

reinsert-Holds :
    (X : FloatOps) (n : ℕ) (v : Var) (hs : Option Vsids)
    → v < n
    → Holds n hs
    → Holds n (reinsert X v hs)
unfolding reinsert
reinsert-Holds X n v hs l (h, e, k) =
    let (w, f, k', _, _, _) = insert-IsIndexed X n h v k l in (w, rw (e) f, k')

-- Going back to a lower level returns a state that is ready at that level, with the trail cut at the
-- level's limit.
pub backtrack_to-IsReady :
    (X : FloatOps) (level : ℕ) (s : SatSolver)
    → IsKernel s.num_vars s.kernel
    → IsIndexed s.num_vars s.vsids
    → level < decision_level s.kernel.trail
    → (u : SatSolver) × (k : ℕ) × (backtrack_to X level s ≡ some u)
      × IsReady u
      × (decision_level u.kernel.trail ≡ level)
      × (get_elem? s.kernel.trail.trail_lim level ≡ some k)
      × (u.kernel.trail.trail ≡ take k s.kernel.trail.trail)
      × (u.num_vars ≡ s.num_vars)
unfolding backtrack_to
backtrack_to-IsReady X level s h heap below =
    let n = s.num_vars in
    let t = s.kernel.trail in
    let (u, hs, k, run, v, at_k, kept, queue, lv, phase, same_data, lims, size) =
      backtrack_to_with-IsValid (reinsert X) level t (some s.vsids) h.valid below in
    let (w, e, heap') =
      backtrack_to_with_keeps (reinsert X) (Holds n) n (reinsert-Holds X n) level t (some s.vsids) u
        hs (λ i l at. let r = trail_in_range t h.valid i l at in let z = h.size in omega arith)
        (s.vsids, refl, heap) run in
    let m = s.kernel in
    let cut = length-cut t u h.valid level k at_k kept same_data lims in
    (
      record s { kernel = record m { trail = u }; vsids = w },
      k,
      rw (run, e) refl,
      record {
        kernel = record {
          valid = v;
          implied =
              cut-IsImplied t u h.valid level k at_k kept same_data lims s.kernel.arena h.implied;
          size = size ∙ h.size;
          watched = h.watched;
          filled = trail_filled u v ∙ size ∙ h.size;
        };
        heap = heap';
        top = level_at_top 0 (length u.trail) u.trail_lim u.qhead v.limits (omega arith);
      },
      lv,
      at_k,
      kept,
      refl,
    )
