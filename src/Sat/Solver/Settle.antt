-- ===== src/Sat/Solver/Settle.antt =====
-- crates/smt-sat/src/solver.rs: the steps of the inner loop of `bcp` that rewrite a clause, replace a
-- watcher or assign a literal, and the end of a visit where no other literal can be watched.
use mathlib.Core.Path.{subst}
use smt_solver_rust.Common.{
  ℕ, ◌<◌, ◌≡◌, refl, sym, ap, ◌∙◌, true, some, List, [], ◌∷◌, ◌++◌, if◌then◌else◌, length, arith,
  All, ◌⊎◌, inl, get_elem?-lt, get_elem?-append_old, length-append, length-set,
}
use smt_solver_rust.Sat.Lit.{Lit, var, negate, is_pos, undef, true_val, false_val, is_defined}
use smt_solver_rust.Sat.Trail.{ClauseId, assigned, clause}
use smt_solver_rust.Sat.Trail.Valid.{value_of, assigned-IsValid}
use smt_solver_rust.Sat.Clause.{Clause, ClauseArena, get_clause}
use smt_solver_rust.Sat.Watch
use smt_solver_rust.Sat.Watch.{Watcher, WatchList}
use smt_solver_rust.Sat.Float.{F64}
use smt_solver_rust.Sat.Solver.{Kernel}
use smt_solver_rust.Sat.Solver.Bcp.{Visit, dropped, kept, conflict}
use smt_solver_rust.Sat.Solver.Position.{In, FalseBefore}
use smt_solver_rust.Sat.Solver.Rearrange.{IsRearranged}
use smt_solver_rust.Sat.Solver.Assigned.{assigned-IsImplied}
use smt_solver_rust.Sat.Solver.Listed.{
  All-both, All-drop, All-replace, All-middle, Apart, NoDup-drop, NoDup-middle, NoDup-insert,
}
use smt_solver_rust.Sat.Solver.Watched.{
  Watches, Watching, IsListed, written, written-IsImplied, written-Watching,
}
use smt_solver_rust.Sat.Solver.Attached.{Keeps}
use smt_solver_rust.Sat.Solver.Loop.{undefs-set, IsLoop, Onward}

-- A clause whose literals are all false, the complement of `p` among them.
abbrev pub IsBroken : Lit → Kernel → ClauseId → Type 0
IsBroken p j id =
    (c : Clause F64) × (get_clause j.arena id ≡ some c)
    × All (FalseBefore j.trail (length j.trail.trail)) c.lits
    × In (negate p) c.lits

-- What holds after a visit of a watcher between those kept and the rest.
abbrev pub After : ℕ → Lit → Kernel → List Watcher → Watcher → List Watcher → Visit → Type 0
After n p k keep w ws (dropped j) =
    IsLoop n p j (keep ++ ws) × Onward k j × Keeps n p k (keep ++ w ∷ ws) j (keep ++ ws)
After n p k keep w ws (kept j x) =
    IsLoop n p j (keep ++ x ∷ ws) × Onward k j × Keeps n p k (keep ++ w ∷ ws) j (keep ++ x ∷ ws)
After n p k keep w ws (conflict j x id) =
    IsLoop n p j (keep ++ x ∷ ws)
    × Onward k j
    × Keeps n p k (keep ++ w ∷ ws) j (keep ++ x ∷ ws)
    × IsBroken p j id

pub replace-IsListed :
    (n : ℕ) (a : ClauseArena F64) (p : Lit) (keep ws : List Watcher) (w x : Watcher)
    → IsListed n a p (keep ++ w ∷ ws)
    → x.clause_id ≡ w.clause_id
    → var x.blocker < n
    → IsListed n a p (keep ++ x ∷ ws)
replace-IsListed n a p keep ws w x (all, distinct) same b =
    let (c, e, k, at, _) = All-middle (Watching n a p) keep ws w all in
    (
      All-replace (Watching n a p) keep ws w x (c, ap (get_clause a) same ∙ e, k, at, b) all,
      NoDup-insert keep ws x
          (subst (λ id. All (Apart id) (keep ++ ws)) (sym same) (NoDup-middle keep ws w distinct))
          (NoDup-drop keep ws w distinct),
    )

pub drop-IsListed :
    (n : ℕ) (a : ClauseArena F64) (p : Lit) (keep ws : List Watcher) (w : Watcher)
    → IsListed n a p (keep ++ w ∷ ws)
    → IsListed n a p (keep ++ ws)
drop-IsListed n a p keep ws w (all, distinct) =
    (All-drop (Watching n a p) keep ws w all, NoDup-drop keep ws w distinct)

module _ (n : ℕ) (p : Lit) (k : Kernel) (mine : List Watcher) (h : IsLoop n p k mine) where
  pub relist-IsLoop : (ws : List Watcher) → IsListed n k.arena p ws → IsLoop n p k ws
  relist-IsLoop ws l = record {
    valid = h.valid;
    implied = h.implied;
    size = h.size;
    listed = l;
    others = h.others;
    false_at = h.false_at;
    filled = h.filled;
  }

  -- A clause whose watched literals stay in front may be rearranged.
  pub written-IsListed :
      (id : ClauseId) (c : Clause F64) (ms : List Lit) (e : get_clause k.arena id ≡ some c)
      (r : IsRearranged c.lits ms) (front : (m : Lit) → Watches m c.lits → Watches m ms) (q : Lit)
      (ws : List Watcher)
      → IsListed n k.arena q ws
      → IsListed n (written k.arena id c ms e r) q ws
  written-IsListed id c ms e r front q ws (all, distinct) = (
    All-both (Watching n k.arena q) (Watching n k.arena q)
        (Watching n (written k.arena id c ms e r) q) ws
        (λ w a b. written-Watching k.arena id c ms e r n q w a (inl (front (negate q)))) all all,
    distinct,
  )

  pub written-IsLoop :
      (id : ClauseId) (c : Clause F64) (ms : List Lit) (e : get_clause k.arena id ≡ some c)
      (r : IsRearranged c.lits ms)
      → ((m : Lit) → Watches m c.lits → Watches m ms)
      → IsLoop n p (record k { arena = written k.arena id c ms e r }) mine
  written-IsLoop id c ms e r front = record {
    valid = h.valid;
    implied = written-IsImplied k.arena id c ms e r k.trail h.implied;
    size = h.size;
    listed = written-IsListed id c ms e r front p mine h.listed;
    others = λ q ne. written-IsListed id c ms e r front q (Watch.get k.watches q) (h.others q ne);
    false_at = h.false_at;
    filled = h.filled;
  }

  module _ (l : Lit) (id : ClauseId) (c : Clause F64) (e : get_clause k.arena id ≡ some c)
      (bound : var l < n) (free : value_of k.trail (var l) ≡ undef)
      (fs : All (λ m. (m ≡ l) ⊎ FalseBefore k.trail (length k.trail.trail) m) c.lits) where
    abbrev pub implied_by : Kernel
    implied_by = record k { trail = assigned k.trail l (clause id) }

    in_range : var l < length k.trail.assigns
    in_range = let s = h.size in omega arith

    pub implied_by-IsLoop : IsLoop n p implied_by mine
    unfolding is_defined
    implied_by-IsLoop = record {
      valid = assigned-IsValid k.trail h.valid l (clause id) in_range free;
      implied = assigned-IsImplied k.trail h.valid l id free in_range k.arena h.implied c e fs;
      size = length-set k.trail.assigns (var l) (if is_pos l then true_val else false_val) ∙ h.size;
      listed = h.listed;
      others = h.others;
      false_at =
          let (j, below, at) = h.false_at in
          (
            j,
            omega (arith, length-append k.trail.trail (l ∷ [])),
            get_elem?-append_old k.trail.trail (l ∷ []) j below ∙ at,
          );
      filled =
          let y = if is_pos l then true_val else false_val in
          let d : is_defined y ≡ true = ground arith in
          let u = undefs-set k.trail.assigns (var l) y in_range free d in
          omega (arith, length-append k.trail.trail (l ∷ []), h.filled);
    }

    pub implied_by-Onward : Onward k implied_by
    implied_by-Onward = record {
      limits = refl;
      qhead = refl;
      longer = omega (arith, length-append k.trail.trail (l ∷ []));
      kept = λ i m at.
          get_elem?-append_old k.trail.trail (l ∷ []) i (get_elem?-lt k.trail.trail i at) ∙ at;
    }
