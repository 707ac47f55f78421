-- ===== src/Sat/Solver/Resolve.antt =====
-- crates/smt-sat/src/solver.rs: `bcp` and then `analyze_conflict`, as `solve_internal` calls them.
use mathlib.Core.Path.{subst}
use smt_solver_rust.Common.{
  ℕ, ◌≡◌, sym, ◌∙◌, ◌<◌, Option, none, some, List, ◌∷◌, length, ◌⊎◌, inl, inr, Option-cases,
}
use smt_solver_rust.Sat.Lit.{Lit}
use smt_solver_rust.Sat.Trail.{ClauseId}
use smt_solver_rust.Sat.Float.{FloatOps}
use smt_solver_rust.Sat.Vsids.Indexed.{IsIndexed}
use smt_solver_rust.Sat.Solver.{SatSolver}
use smt_solver_rust.Sat.Solver.Bcp.{bcp}
use smt_solver_rust.Sat.Solver.Analyze.{analyze_conflict}
use smt_solver_rust.Sat.Solver.Conflict.{IsAnalyzed, analyze_conflict-IsAnalyzed}
use smt_solver_rust.Sat.Solver.Round.{IsKernel}
use smt_solver_rust.Sat.Solver.Propagate.{AtTop, Outcome, bcp-Propagates}

-- A solver whose kernel and heap are for its variables, with the queue at the current level.
pub record IsReady (s : SatSolver) : Type 0 where
  pub kernel : IsKernel s.num_vars s.kernel
  pub heap : IsIndexed s.num_vars s.vsids
  pub top : AtTop s.kernel.trail

-- The analysis of the conflict returns a learned clause.
abbrev pub Learns : FloatOps → ClauseId → SatSolver → Type 0
Learns X id u =
    (v : SatSolver) × (l : Lit) × (rest : List Lit) × (back : ℕ) × (lbd : ℕ) × (analyze_conflict X
        id u
      ≡ some (v, l ∷ rest, back, lbd))
    × IsAnalyzed u v l rest back lbd

-- In a state that is ready and above level 0, propagation returns; either the queue is empty, or the
-- clause found is one from which the analysis learns.
pub bcp-Learns :
    (X : FloatOps) (s : SatSolver)
    → IsReady s
    → 0 < length s.kernel.trail.trail_lim
    → (u : SatSolver) × (found : Option ClauseId) × (bcp s ≡ some (u, found))
      × IsKernel s.num_vars u.kernel
      × (((found ≡ none) × (u.kernel.trail.qhead ≡ length u.kernel.trail.trail))
          ⊎ ((id : ClauseId) × (found ≡ some id) × Learns X id u))
bcp-Learns X s h pos =
    let size = h.kernel.size in
    let (u, found, e, k, o, _, out, vsids, vars) =
      bcp-Propagates s (subst (λ n. IsKernel n s.kernel) (sym size) h.kernel) h.top in
    let k' = subst (λ n. IsKernel n u.kernel) size k in
    (
      u,
      found,
      e,
      k',
      elim (Option-cases found) [
        | inl z ↦ inl (z, subst (Outcome u.kernel) z out)
        | inr (id, z) ↦
            let (c, f, _, conflict) = subst (Outcome u.kernel) z out in
            let heap : IsIndexed (length u.kernel.trail.assigns) u.vsids =
              subst (λ n. IsIndexed n u.vsids) (sym k'.size)
                (subst (IsIndexed s.num_vars) (sym vsids) h.heap) in
            inr (
              id,
              z,
              analyze_conflict-IsAnalyzed X u id c k'.valid k'.implied heap (vars ∙ sym k'.size) f
                  (conflict (subst (λ ks. 0 < length ks) (sym o.limits) pos)),
            )
      ],
    )
