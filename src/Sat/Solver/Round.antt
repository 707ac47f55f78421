-- ===== src/Sat/Solver/Round.antt =====
-- crates/smt-sat/src/solver.rs: one round of `bcp`, over the watchers of a literal.
use mathlib.Core.Path.{subst}
use native.Mathlib.Decide.{ℕ_discrete}
use smt_solver_rust.Common.{
  ℕ, ◌+◌, ◌≡◌, refl, sym, false, Option, none, some, List, [], ◌∷◌, ◌++◌, if◌then◌else◌, ◌>>=◌,
  length, arith, Bool-cases, inl, inr,
}
use smt_solver_rust.Sat.Lit
use smt_solver_rust.Sat.Lit.{
  Var, Lit, var, negate, is_pos, LBool, undef, true_val, false_val, is_true, is_false, is_defined,
}
use smt_solver_rust.Sat.Trail.{ClauseId}
use smt_solver_rust.Sat.Trail.Valid.{IsValid, value_of}
use smt_solver_rust.Sat.Watch
use smt_solver_rust.Sat.Watch.Laws.{update-get}
use smt_solver_rust.Sat.Watch.{Watcher, WatchList, update}
use smt_solver_rust.Sat.Clause.{Clause, get_clause}
use smt_solver_rust.Sat.Float.{F64}
use smt_solver_rust.Sat.Solver.{Kernel}
use smt_solver_rust.Sat.Solver.Bcp.{Visit, dropped, kept, conflict, visit, visit_all, propagate_lit}
use smt_solver_rust.Sat.Solver.Position.{FalseBefore}
use smt_solver_rust.Sat.Solver.Learn.{IsImplied}
use smt_solver_rust.Sat.Solver.Assigned.{lit_value_returns}
use smt_solver_rust.Sat.Solver.Listed.{All-middle, append_nil, snoc-append}
use smt_solver_rust.Sat.Solver.Watched.{Watching, Watches, IsProper, IsListed, IsWatched}
use smt_solver_rust.Sat.Solver.Attached.{IsVersion, Has, Attached, Keeps, drop-Keeps}
use smt_solver_rust.Sat.Solver.Loop.{undefs, IsLoop, Onward, same-Onward, chain-Onward}
use smt_solver_rust.Sat.Solver.Settle.{IsBroken, After, drop-IsListed, relist-IsLoop}
use smt_solver_rust.Sat.Solver.Inspect.{inspect-After}

-- What a round found: nothing, or a clause that is false.
abbrev pub Found : Lit → Kernel → Option ClauseId → Type 0
Found p j none = Unit
Found p j (some id) = IsBroken p j id

module _ (n : ℕ) (p : Lit) where
  visit-After :
      (keep ws : List Watcher) (w : Watcher) (k : Kernel)
      → IsLoop n p k (keep ++ w ∷ ws)
      → (o : Visit) × (visit (negate p) w k ≡ some o) × After n p k keep w ws o
  unfolding visit is_true
  visit-After keep ws w k h =
      let (c, e, proper, front, b) = All-middle (Watching n k.arena p) keep ws w h.listed.0 in
      let x : LBool =
        if is_pos w.blocker
        then value_of k.trail (var w.blocker)
        else Lit.not_val (value_of k.trail (var w.blocker)) in
      let value = lit_value_returns k.trail h.valid w.blocker (omega (arith, h.size)) in
      let (o, f, after) = inspect-After n p keep ws w k c h e in
      elim (Bool-cases c.deleted) [
        | inl d ↦ (
          dropped k,
          rw (visit, e, ◌>>=◌, d) refl,
          (
            relist-IsLoop n p k (keep ++ w ∷ ws) h (keep ++ ws)
                (drop-IsListed n k.arena p keep ws w h.listed),
            same-Onward k,
            drop-Keeps n p k keep ws w c e d,
          ),
        )
        | inr d ↦ elim (Bool-cases (is_true x)) [
          | inl t ↦
              (kept k w, rw (visit, e, ◌>>=◌, d, value, t) refl, (h, same-Onward k, λ i b z. z))
          | inr t ↦ (o, rw (visit, e, ◌>>=◌, d, value, t) f, after)
        ]
      ]

  -- The loop returns, with the watchers that are left.
  abbrev Visited : List Watcher → List Watcher → Kernel → Type 0
  Visited ws keep k =
      (j : Kernel) × (left : List Watcher) × (found : Option ClauseId) × (visit_all (negate p) ws
          keep k
        ≡ some (j, left, found))
      × IsLoop n p j left
      × Onward k j
      × Keeps n p k (keep ++ ws) j left
      × Found p j found

  visit_next :
      (ws keep : List Watcher) (w : Watcher) (k : Kernel) (o : Visit)
      → ((keep' : List Watcher) (j : Kernel) → IsLoop n p j (keep' ++ ws) → Visited ws keep' j)
      → visit (negate p) w k ≡ some o
      → After n p k keep w ws o
      → Visited (w ∷ ws) keep k
  unfolding visit_all
  visit_next ws keep w k (dropped j) more e (l, o, g) =
      let (i, left, found, f, l', o', g', r) = more keep j l in
      (i, left, found, rw (e) f, l', chain-Onward k j i o o', (λ m b z. g' m b (g m b z)), r)
  visit_next ws keep w k (kept j x) more e (l, o, g) =
      let same = sym (snoc-append keep ws x) in
      let (i, left, found, f, l', o', g', r) =
        more (keep ++ x ∷ []) j (subst (IsLoop n p j) same l) in
      let first = subst (Keeps n p k (keep ++ w ∷ ws) j) same g in
      (i, left, found, rw (e) f, l', chain-Onward k j i o o', (λ m b z. g' m b (first m b z)), r)
  visit_next ws keep w k (conflict j x id) more e (l, o, g, b) =
      (j, keep ++ x ∷ ws, some id, rw (e) refl, l, o, g, b)

  visit_all-Found :
      (ws keep : List Watcher) (k : Kernel) → IsLoop n p k (keep ++ ws) → Visited ws keep k
  unfolding visit_all
  visit_all-Found [] keep k h = (
    k,
    keep,
    none,
    refl,
    subst (IsLoop n p k) (append_nil keep) h,
    same-Onward k,
    subst (Keeps n p k (keep ++ []) k) (append_nil keep) (λ i b z. z),
    tt,
  )
  visit_all-Found (w ∷ ws) keep k h =
      let (o, e, after) = visit-After keep ws w k h in
      visit_next ws keep w k o (λ keep' j l. visit_all-Found ws keep' j l) e after

-- The watches do not bear on what was found.
refile :
    (p : Lit) (j : Kernel) (ws : WatchList) (found : Option ClauseId)
    → Found p j found
    → Found p (record j { watches = ws }) found
refile p j ws none r = tt
refile p j ws (some id) r = r

-- The state between the rounds: a valid trail of implied literals for `n` variables, with every
-- assigned variable on it, and a list of watchers for each literal.
pub record IsKernel (n : ℕ) (k : Kernel) : Type 0 where
  pub valid : IsValid k.trail
  pub implied : IsImplied k.trail k.arena
  pub size : length k.trail.assigns ≡ n
  pub watched : IsWatched n k.arena k.watches
  pub filled : undefs k.trail.assigns + length k.trail.trail ≡ n

-- A clause that propagation finds through its watchers, with its literals in some order: it is proper
-- and, unless it is deleted, has a watcher in the list of the complement of each of the first two.
abbrev pub IsAttached : ℕ → Kernel → ClauseId → Clause F64 → Type 0
IsAttached n k id base =
    (c : Clause F64) × (get_clause k.arena id ≡ some c)
    × IsVersion base c
    × IsProper n c
    × (c.deleted ≡ false → (l : Lit) → Watches l c.lits → Has id (Watch.get k.watches (negate l)))

-- The list of a literal is taken, and what is left is written back.
taken-Attached :
    (n : ℕ) (p : Lit) (k : Kernel) (id : ClauseId) (base : Clause F64)
    → IsAttached n k id base
    → Attached n p
        (record k { watches = update p (λ ws. []) k.watches })
        (Watch.get k.watches p)
        id
        base
taken-Attached n p k id base (c, e, v, proper, f) =
    let (_, rest) = update-get p (λ ws. []) k.watches in
    (
      c,
      e,
      v,
      proper,
      λ alive l at. (
        (λ q. subst (λ m. Has id (Watch.get k.watches m)) (sym q) (f alive l at)),
        λ ne. subst (Has id) (sym (rest (negate l) ne)) (f alive l at),
      ),
    )

restored-IsAttached :
    (n : ℕ) (p : Lit) (j : Kernel) (left : List Watcher) (id : ClauseId) (base : Clause F64)
    → Attached n p j left id base
    → IsAttached n (record j { watches = update p (λ ws. left) j.watches }) id base
restored-IsAttached n p j left id base (c, e, v, proper, f) =
    let (mine, others) = update-get p (λ ws. left) j.watches in
    let after = update p (λ ws. left) j.watches in
    (
      c,
      e,
      v,
      proper,
      λ alive l at.
          let (here, there) = f alive l at in
          elim (ℕ_discrete p (negate l)) [
            | yes q ↦ subst (λ m. Has id (Watch.get after m)) q (subst (Has id) (sym mine) (here q))
            | no ne ↦ subst (Has id) (sym (others (negate l) ne)) (there ne)
          ],
    )

-- A round for a literal on the trail returns and keeps the state and the clauses' watchers.
pub propagate_lit-Found :
    (n : ℕ) (p : Lit) (k : Kernel)
    → IsKernel n k
    → FalseBefore k.trail (length k.trail.trail) (negate p)
    → (j : Kernel) × (found : Option ClauseId) × (propagate_lit p k ≡ some (j, found))
      × IsKernel n j
      × Onward k j
      × ((id : ClauseId) (c : Clause F64) → IsAttached n k id c → IsAttached n j id c)
      × Found p j found
unfolding propagate_lit
propagate_lit-Found n p k h fp =
    let taken = Watch.get k.watches p in
    let emptied = record k { watches = update p (λ ws. []) k.watches } in
    let (_, rest) = update-get p (λ ws. []) k.watches in
    let start : IsLoop n p emptied taken = record {
      valid = h.valid;
      implied = h.implied;
      size = h.size;
      listed = h.watched p;
      others = λ q ne. subst (IsListed n k.arena q) (sym (rest q ne)) (h.watched q);
      false_at = fp;
      filled = h.filled;
    } in
    let (j, left, found, e, l, o, g, r) = visit_all-Found n p taken [] emptied start in
    let (mine, others) = update-get p (λ ws. left) j.watches in
    let i = record j { watches = update p (λ ws. left) j.watches } in
    (
      i,
      found,
      rw (e) refl,
      record {
        valid = l.valid;
        implied = l.implied;
        size = l.size;
        watched = λ q. elim (ℕ_discrete p q) [
          | yes same ↦
              subst (λ q. IsListed n j.arena q (Watch.get i.watches q)) same
                (subst (IsListed n j.arena p) (sym mine) l.listed)
          | no ne ↦ subst (IsListed n j.arena q) (sym (others q ne)) (l.others q ne)
        ];
        filled = l.filled;
      },
      record { limits = o.limits; qhead = o.qhead; longer = o.longer; kept = o.kept },
      λ id c a. restored-IsAttached n p j left id c (g id c (taken-Attached n p k id c a)),
      refile p j i.watches found r,
    )
