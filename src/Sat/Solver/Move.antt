-- ===== src/Sat/Solver/Move.antt =====
-- crates/smt-sat/src/solver.rs: the step of `bcp` that watches another literal of a clause.
use mathlib.Core.Path.{subst}
use mathlib.Core.Option.{some-injective}
use native.Mathlib.Decide.{ℕ_discrete}
use smt_solver_rust.Common.{
  ℕ, ◌≤◌, ◌<◌, ◌≡◌, ◌≢◌, refl, sym, ap, ◌∙◌, some, List, [], ◌∷◌, ◌++◌, get_elem?, set, arith, All,
  inl, inr, get_elem?-lt, get_elem?-set_self, get_elem?-set_ne,
}
use smt_solver_rust.Sat.Lit.{Lit, var, negate}
use smt_solver_rust.Sat.Clause.{Clause, ClauseArena, get_clause}
use smt_solver_rust.Sat.Watch
use smt_solver_rust.Sat.Watch.Laws.{add-get}
use smt_solver_rust.Sat.Lit.Laws.{negate-negate}
use smt_solver_rust.Sat.Watch.{Watcher, WatchList}
use smt_solver_rust.Sat.Float.{F64}
use smt_solver_rust.Sat.Solver.{Kernel}
use smt_solver_rust.Sat.Solver.Rearrange.{IsRearranged, swap-IsRearranged}
use smt_solver_rust.Sat.Solver.Listed.{
  All-both, Apart, NoDup, NoDup-middle, NoDup-insert, All-insert, append_nil,
}
use smt_solver_rust.Sat.Solver.Watched.{
  IsProper, Watches, Watching, IsListed, written, written_at, written-IsImplied, written-Watching,
  written_other, rewritten, rewritten-IsProper,
}
use smt_solver_rust.Sat.Solver.Attached.{
  Attached, Keeps, Has, Has-drop, Has-last, Has-add, rearranged-IsVersion,
}
use smt_solver_rust.Sat.Solver.Loop.{IsLoop}
use smt_solver_rust.Sat.Solver.Settle.{drop-IsListed}

-- Another literal is watched in place of the second.
module _ (n : ℕ) (p : Lit) (keep ws : List Watcher) (w : Watcher) (k : Kernel)
    (h : IsLoop n p k (keep ++ w ∷ ws)) (c : Clause F64)
    (e : get_clause k.arena w.clause_id ≡ some c) (proper : IsProper n c) (first cand : Lit) (i : ℕ)
    (b : var first < n) (late : 2 ≤ i) (at : get_elem? c.lits i ≡ some cand)
    (second : get_elem? c.lits 1 ≡ some (negate p)) where
  abbrev pub moved : List Lit
  moved = set (set c.lits 1 cand) i (negate p)

  pub moved-IsRearranged : IsRearranged c.lits moved
  moved-IsRearranged =
      swap-IsRearranged c.lits 1 i (negate p) cand second at (λ z. absurd (omega arith))

  abbrev pub arena : ClauseArena F64
  arena = written k.arena w.clause_id c moved e moved-IsRearranged

  abbrev pub watcher : Watcher
  watcher = record { clause_id = w.clause_id; blocker = first }

  abbrev pub moved_on : Kernel
  moved_on = record k { arena = arena; watches = Watch.add (negate cand) watcher k.watches }

  other_literal : p ≢ negate cand
  other_literal q =
      let r : get_elem? c.lits 1 ≡ some cand =
        second ∙ ap some (ap negate q ∙ negate-negate cand) in
      let z = proper.distinct 1 i cand r at in absurd (omega arith)

  first_kept : get_elem? moved 0 ≡ get_elem? c.lits 0
  first_kept =
      get_elem?-set_ne (set c.lits 1 cand) i 0 (negate p) (λ z. absurd (omega arith))
      ∙ get_elem?-set_ne c.lits 1 0 cand (λ z. absurd (omega arith))

  cand_second : get_elem? moved 1 ≡ some cand
  cand_second =
      get_elem?-set_ne (set c.lits 1 cand) i 1 (negate p) (λ z. absurd (omega arith))
      ∙ get_elem?-set_self c.lits 1 cand (get_elem?-lt c.lits 1 second)

  front : (q : Lit) → p ≢ q → Watches (negate q) c.lits → Watches (negate q) moved
  front q ne (inl z) = inl (first_kept ∙ z)
  front q ne (inr z) = absurd (
      ne
        (sym (negate-negate p) ∙ ap negate (some-injective _ _ (sym second ∙ z)) ∙ negate-negate q))

  kept-IsListed : (q : Lit) → p ≢ q → IsListed n arena q (Watch.get k.watches q)
  kept-IsListed q ne =
      let (all, distinct) = h.others q ne in
      let xs = Watch.get k.watches q in
      (
        All-both (Watching n k.arena q) (Watching n k.arena q) (Watching n arena q) xs
            (λ x a b.
              written-Watching k.arena w.clause_id c moved e moved-IsRearranged n q x a
                (inl (front q ne)))
            all all,
        distinct,
      )

  -- No watcher of the new literal is of this clause yet.
  unwatched : (x : Watcher) → Watching n k.arena (negate cand) x → Apart w.clause_id x
  unwatched x (d, f, kd, z, _) same =
      let r : d ≡ c = some-injective _ _ (sym f ∙ ap (get_clause k.arena) same ∙ e) in
      let z' : Watches cand c.lits =
        subst (λ l. Watches l c.lits) (negate-negate cand)
          (subst (λ (y : Clause F64). Watches (negate (negate cand)) y.lits) r z) in
      elim z' [
        | inl u ↦ let q = proper.distinct 0 i cand u at in absurd (omega arith)
        | inr u ↦ let q = proper.distinct 1 i cand u at in absurd (omega arith)
      ]

  new-Watching : Watching n arena (negate cand) watcher
  new-Watching = (
    rewritten k.arena w.clause_id c moved e moved-IsRearranged,
    written_at k.arena w.clause_id c moved e moved-IsRearranged,
    rewritten-IsProper k.arena w.clause_id c moved e moved-IsRearranged n proper,
    inr (cand_second ∙ ap some (sym (negate-negate cand))),
    b,
  )

  added-IsListed : (q : Lit) → p ≢ q → IsListed n arena q (Watch.get moved_on.watches q)
  added-IsListed q ne =
      let (mine, rest) = add-get (negate cand) watcher k.watches in
      elim (ℕ_discrete (negate cand) q) [
        | no other ↦ subst (IsListed n arena q) (sym (rest q other)) (kept-IsListed q ne)
        | yes same ↦
            let (all, distinct) = kept-IsListed (negate cand) other_literal in
            let (old, _) = h.others (negate cand) other_literal in
            let xs = Watch.get k.watches (negate cand) in
            let fresh =
              All-both (Watching n k.arena (negate cand)) (Watching n k.arena (negate cand))
                (Apart w.clause_id) xs (λ x a b. unwatched x a) old old in
            subst (λ r. IsListed n arena r (Watch.get moved_on.watches r)) same
              (subst (IsListed n arena (negate cand)) (sym mine) (
                All-insert (Watching n arena (negate cand)) xs [] watcher new-Watching
                    (subst (All (Watching n arena (negate cand))) (sym (append_nil xs)) all),
                NoDup-insert xs [] watcher
                    (subst (All (Apart w.clause_id)) (sym (append_nil xs)) fresh)
                    (subst NoDup (sym (append_nil xs)) distinct),
              ))
      ]

  pub moved_on-IsLoop : IsLoop n p moved_on (keep ++ ws)
  moved_on-IsLoop = record {
    valid = h.valid;
    implied = written-IsImplied k.arena w.clause_id c moved e moved-IsRearranged k.trail h.implied;
    size = h.size;
    listed =
        let (all, distinct) = drop-IsListed n k.arena p keep ws w h.listed in
        let apart = NoDup-middle keep ws w h.listed.1 in
        (
          All-both (Watching n k.arena p) (Apart w.clause_id) (Watching n arena p) (keep ++ ws)
              (λ x a b.
                written-Watching k.arena w.clause_id c moved e moved-IsRearranged n p x a (inr b))
              all apart,
          distinct,
        );
    others = added-IsListed;
    false_at = h.false_at;
    filled = h.filled;
  }

  -- The clause has its watchers again: the new literal's is the one added.
  moved-Attached :
      (base : Clause F64)
      → Attached n p k (keep ++ w ∷ ws) w.clause_id base
      → Attached n p moved_on (keep ++ ws) w.clause_id base
  moved-Attached base (d, g, v, pr, f) =
      let z : d ≡ c = some-injective _ _ (sym g ∙ e) in
      (
        rewritten k.arena w.clause_id c moved e moved-IsRearranged,
        written_at k.arena w.clause_id c moved e moved-IsRearranged,
        rearranged-IsVersion base d c moved z moved-IsRearranged v,
        rewritten-IsProper k.arena w.clause_id c moved e moved-IsRearranged n proper,
        λ alive l at'. elim at' [
          | inl u ↦
              let u' : get_elem? c.lits 0 ≡ some l = sym first_kept ∙ u in
              let in_old : Watches l d.lits =
                subst (λ (x : Clause F64). Watches l x.lits) (sym z) (inl u') in
              let (_, there) = f (ap (λ (x : Clause F64). x.deleted) z ∙ alive) l in_old in
              (
                λ q.
                    let same : negate p ≡ l = ap negate q ∙ negate-negate l in
                    let i = proper.distinct 0 1 l u' (second ∙ ap some same) in
                    absurd (omega arith),
                λ ne. Has-add w.clause_id (negate cand) (negate l) watcher k.watches (there ne),
              )
          | inr u ↦
              let same : cand ≡ l = some-injective _ _ (sym cand_second ∙ u) in
              let (mine, _) = add-get (negate cand) watcher k.watches in
              (
                λ q. absurd (other_literal (q ∙ ap negate (sym same))),
                λ ne.
                    subst (λ m. Has w.clause_id (Watch.get moved_on.watches (negate m))) same
                      (subst (Has w.clause_id) (sym mine)
                        (Has-last w.clause_id (Watch.get k.watches (negate cand)) watcher refl)),
              )
        ],
      )

  pub moved-Keeps : Keeps n p k (keep ++ w ∷ ws) moved_on (keep ++ ws)
  moved-Keeps id base (d, g, v, pr, f) = elim (ℕ_discrete w.clause_id id) [
    | yes same ↦
        subst (λ i. Attached n p moved_on (keep ++ ws) i base) same
          (moved-Attached base
            (subst (λ i. Attached n p k (keep ++ w ∷ ws) i base) (sym same) (d, g, v, pr, f)))
    | no ne ↦ (
      d,
      written_other k.arena w.clause_id c moved e moved-IsRearranged id ne ∙ g,
      v,
      pr,
      λ alive l at'.
          let (here, there) = f alive l at' in
          (
            (λ q. Has-drop id keep ws w ne (here q)),
            λ apart. Has-add id (negate cand) (negate l) watcher k.watches (there apart),
          ),
    )
  ]
