-- ===== src/Sat/Solver/Mark.antt =====
-- crates/smt-sat/src/solver.rs: the `for` loop of `analyze_conflict` over the literals of a clause
-- that are all false. `IsHeap` is the invariant of the heuristic, which `bump_var` keeps.
use smt_solver_rust.Common.{
  ℕ, ◌≤◌, ◌<◌, ◌≡◌, refl, sym, ap, ◌∙◌, true, false, some, List, [], ◌∷◌, length, get_elem?, get_or,
  set, arith, Bool-cases, inl, inr, All, get_elem?-of_lt,
}
use smt_solver_rust.Sat.Lit.{Var, Lit, var, negate}
use smt_solver_rust.Sat.Lit.Laws.{var-negate}
use smt_solver_rust.Sat.Trail.{Trail, level_of}
use smt_solver_rust.Sat.Trail.View.{level_at}
use smt_solver_rust.Sat.Trail.Valid.{IsValid}
use smt_solver_rust.Sat.Float.{FloatOps}
use smt_solver_rust.Sat.Vsids.{Vsids, bump_var}
use smt_solver_rust.Sat.Solver.Analyze.{Analysis, note_level, mark}
use smt_solver_rust.Sat.Solver.Position.{FalseBefore, level_of-position}
use smt_solver_rust.Sat.Solver.Note.{Seen, IsMarked, Grows, in_range, note-IsMarked}

module _ (X : FloatOps) (IsHeap : Vsids → Type 0) (t : Trail) (v : IsValid t) (current : ℕ)
    (top : length t.trail_lim ≡ current)
    (bump : (w : Var) (h : Vsids)
      → IsHeap h
      → w < length t.assigns
      → (h' : Vsids) × (bump_var X w h ≡ some h') × IsHeap h') where
  level_at_lit :
      (j : ℕ) (l : Lit)
      → get_elem? t.trail j ≡ some (negate l)
      → level_of t (var l) ≡ some (level_at t.trail_lim j)
  level_at_lit j l at = ap (level_of t) (sym (var-negate l)) ∙ level_of-position t v j (negate l) at

  -- Marking the literals of a clause that is false before a position returns, keeps the state of the
  -- analysis right, and leaves them all marked.
  pub mark-IsMarked :
      (b : ℕ) (ls : List Lit) (an : Analysis)
      → b ≤ length t.trail
      → All (FalseBefore t b) ls
      → IsMarked IsHeap t current b an
      → (bn : Analysis) × (mark X t current ls an ≡ some bn)
        × IsMarked IsHeap t current b bn
        × Grows an bn
        × All (λ l. Seen bn (var l)) ls
  unfolding mark
  mark-IsMarked b [] an bound fs m =
      (an, refl, m, record { seen = λ k h. h; learned = λ k h. h; paths = omega arith }, tt)
  mark-IsMarked b (l ∷ ls) an bound ((j, below, at), fs) m =
      let found =
        get_elem?-of_lt an.seen (var l) false
          (let r = in_range IsHeap t v current top j l at in let s = m.size in omega arith) in
      elim (Bool-cases (get_or an.seen (var l) false)) [
        | inl s ↦
            let (bn, e, k, g, all) = mark-IsMarked b ls an bound fs m in
            (bn, rw (mark, found, s) e, k, g, (g.seen (var l) s, all))
        | inr s ↦
            let (h, he, heap) =
              bump (var l) an.heap m.heap (in_range IsHeap t v current top j l at) in
            let level = level_at_lit j l at in
            let (k, g, now) =
              note-IsMarked IsHeap t v current top b j l an h bound below at s heap m in
            let cn =
              note_level current (level_at t.trail_lim j) l
                (record an { seen = set an.seen (var l) true; heap = h }) in
            let (bn, e, k', g', all) = mark-IsMarked b ls cn bound fs k in
            (
              bn,
              rw (mark, found, s, he, level) e,
              k',
              record {
                seen = λ w q. g'.seen w (g.seen w q);
                learned = λ w q. g'.learned w (g.learned w q);
                paths = omega (arith, g.paths, g'.paths);
              },
              (g'.seen (var l) now, all),
            )
      ]
