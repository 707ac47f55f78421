-- ===== src/Sat/Solver/Propagate.antt =====
-- crates/smt-sat/src/solver.rs: `bcp` to the end of the queue or to a conflict.
use mathlib.Core.Path.{subst}
use smt_solver_rust.Common.{
  ℕ, zero, suc, ◌+◌, ◌≤◌, ◌<◌, ◌≡◌, refl, sym, ap, ◌∙◌, true, false, Option, none, some, List,
  length, get_elem?, get_or, arith, Bool-cases, inl, inr, get_elem?-of_lt, ltb→lt, ltb→le, ltb,
  Option-cases, All,
}
use smt_solver_rust.Sat.Lit.{Lit, negate}
use smt_solver_rust.Sat.Trail.{Trail, ClauseId}
use smt_solver_rust.Sat.Clause.{Clause, get_clause}
use smt_solver_rust.Sat.Lit.Laws.{negate-negate}
use smt_solver_rust.Sat.Float.{F64}
use smt_solver_rust.Sat.Solver.{Kernel}
use smt_solver_rust.Sat.Solver.Bcp.{propagate_lit, propagate_queue, bcp}
use smt_solver_rust.Sat.Solver.Loop.{Onward}
use smt_solver_rust.Sat.Solver.Settle.{IsBroken}
use smt_solver_rust.Sat.Trail.{next_unpropagated, reason_of}
use smt_solver_rust.Sat.Trail.View.{level_at}
use smt_solver_rust.Sat.Solver.{SatSolver}
use smt_solver_rust.Sat.Solver.Position.{FalseBefore, level_at_mono, level_at-le}
use smt_solver_rust.Sat.Solver.Conflict.{IsConflict}
use smt_solver_rust.Sat.Solver.Round.{Found, IsKernel, IsAttached, propagate_lit-Found}

-- The queue is at the current level.
abbrev pub AtTop : Trail → Type 0
AtTop t = level_at t.trail_lim t.qhead ≡ length t.trail_lim

-- The end of propagation: the queue is empty, or all literals of a clause are false, one of them,
-- above level 0, at the current level.
abbrev pub Outcome : Kernel → Option ClauseId → Type 0
Outcome j none = j.trail.qhead ≡ length j.trail.trail
Outcome j (some id) =
    (c : Clause F64) × (get_clause j.arena id ≡ some c)
    × All (FalseBefore j.trail (length j.trail.trail)) c.lits
    × (0 < length j.trail.trail_lim → IsConflict j.trail c)

-- The trail after has the one before at its beginning, and the levels are as they were.
pub record Extends (k j : Kernel) : Type 0 where
  pub limits : j.trail.trail_lim ≡ k.trail.trail_lim
  pub kept :
      (i : ℕ) (l : Lit) → get_elem? k.trail.trail i ≡ some l → get_elem? j.trail.trail i ≡ some l

chain-Extends : (k j i : Kernel) → Extends k j → Extends j i → Extends k i
chain-Extends k j i o q = record {
  limits = q.limits ∙ o.limits;
  kept = λ m l e. q.kept m l (o.kept m l e);
}

-- The literal at the head of the queue is taken off it.
abbrev advanced : Kernel → Kernel
advanced k = let t = k.trail in record k { trail = record t { qhead = t.qhead + 1 } }

next_some :
    (k : Kernel) (p : Lit)
    → ltb k.trail.qhead (length k.trail.trail) ≡ true
    → get_elem? k.trail.trail k.trail.qhead ≡ some p
    → ((next_unpropagated k.trail).0 ≡ (advanced k).trail)
      × ((next_unpropagated k.trail).1 ≡ some p)
unfolding next_unpropagated
next_some k p z at = (rw (z) refl, rw (z, at) refl)

next_none :
    (t : Trail)
    → ltb t.qhead (length t.trail) ≡ false
    → ((next_unpropagated t).0 ≡ t) × ((next_unpropagated t).1 ≡ none)
unfolding next_unpropagated
next_none t z = (rw (z) refl, rw (z) refl)

queue_done :
    (fuel : ℕ) (k : Kernel)
    → ltb k.trail.qhead (length k.trail.trail) ≡ false
    → propagate_queue (suc fuel) k ≡ some (k, 0, none)
unfolding propagate_queue
queue_done fuel k z =
    let (same, end) = next_none k.trail z in
    rw (propagate_queue, end) (ap (λ t. some (record k { trail = t }, 0, none)) same)

-- A round of the outer loop that finds a conflict, and one that does not.
module _ (fuel : ℕ) (k : Kernel) (p : Lit) (j : Kernel) where
  queue_conflict :
      (id : ClauseId)
      → ltb k.trail.qhead (length k.trail.trail) ≡ true
      → get_elem? k.trail.trail k.trail.qhead ≡ some p
      → propagate_lit p (advanced k) ≡ some (j, some id)
      → propagate_queue (suc fuel) k ≡ some (j, 1, some id)
  unfolding propagate_queue
  queue_conflict id z at e =
      let (same, head) = next_some k p z at in rw (propagate_queue, head, same, e) refl

  queue_on :
      (i : Kernel) (m : ℕ) (found : Option ClauseId)
      → ltb k.trail.qhead (length k.trail.trail) ≡ true
      → get_elem? k.trail.trail k.trail.qhead ≡ some p
      → propagate_lit p (advanced k) ≡ some (j, none)
      → propagate_queue fuel j ≡ some (i, m, found)
      → propagate_queue (suc fuel) k ≡ some (i, m + 1, found)
  unfolding propagate_queue
  queue_on i m found z at e f =
      let (same, head) = next_some k p z at in rw (propagate_queue, head, same, e, f) refl

module _ (n : ℕ) where
  advanced-IsKernel :
      (k : Kernel) → k.trail.qhead < length k.trail.trail → IsKernel n k → IsKernel n (advanced k)
  unfolding reason_of
  advanced-IsKernel k l h = record {
    valid = record {
      core = record {
        data_length = h.valid.core.data_length;
        phase_length = h.valid.core.phase_length;
        distinct = h.valid.core.distinct;
        in_range = h.valid.core.in_range;
        values = h.valid.core.values;
        levels = h.valid.core.levels;
      };
      limits = h.valid.limits;
      queue = omega arith;
    };
    implied = record { reasons = h.implied.reasons; openers = h.implied.openers };
    size = h.size;
    watched = h.watched;
    filled = h.filled;
  }

  -- At the top every later position is.
  above-AtTop :
      (ks : List ℕ) (i j : ℕ) → i ≤ j → level_at ks i ≡ length ks → level_at ks j ≡ length ks
  above-AtTop ks i j h e = let a = level_at_mono ks i j h in let b = level_at-le ks j in omega arith

  -- A clause that a round found is in conflict.
  broken-IsConflict :
      (p : Lit) (k j : Kernel) (id : ClauseId)
      → AtTop k.trail
      → get_elem? k.trail.trail k.trail.qhead ≡ some p
      → Onward (advanced k) j
      → IsBroken p j id
      → Outcome j (some id)
  broken-IsConflict p k j id top at o (c, e, all, inside) = (
    c,
    e,
    all,
    λ pos. record {
      all_false = all;
      last = negate p;
      last_in = inside;
      position = k.trail.qhead;
      last_at = o.kept k.trail.qhead p at ∙ ap some (sym (negate-negate p));
      last_level = ap (λ ks. level_at ks k.trail.qhead) o.limits ∙ top ∙ ap length (sym o.limits);
      above = pos;
    },
  )

  -- The queue is worked off, or up to a conflict.
  abbrev pub Propagates : Kernel → Option (Kernel × ℕ × Option ClauseId) → Type 0
  Propagates k r =
      (j : Kernel) × (m : ℕ) × (found : Option ClauseId) × (r ≡ some (j, m, found))
      × IsKernel n j
      × Extends k j
      × ((id : ClauseId) (c : Clause F64) → IsAttached n k id c → IsAttached n j id c)
      × Outcome j found

  -- On more fuel than there are positions left, the loop returns.
  pub propagate_queue-Propagates :
      (fuel : ℕ) (k : Kernel)
      → IsKernel n k
      → AtTop k.trail
      → n < fuel + k.trail.qhead
      → Propagates k (propagate_queue fuel k)
  unfolding propagate_queue next_unpropagated
  propagate_queue-Propagates zero k h top enough =
      let q = h.valid.queue in let f = h.filled in absurd (omega arith)
  propagate_queue-Propagates (suc fuel) k h top enough =
      elim (Bool-cases (ltb k.trail.qhead (length k.trail.trail))) [
        | inr z ↦ (
          k,
          0,
          none,
          queue_done fuel k z,
          h,
          record { limits = refl; kept = λ i l e. e },
          λ id c a. a,
          let q = h.valid.queue in
              let b = ltb→le k.trail.qhead (length k.trail.trail) z in omega arith,
        )
        | inl z ↦
            let l = ltb→lt k.trail.qhead (length k.trail.trail) z in
            let p = get_or k.trail.trail k.trail.qhead 0 in
            let at = get_elem?-of_lt k.trail.trail k.trail.qhead 0 l in
            let (j, found, e, h', o, g, r) =
              propagate_lit-Found n p (advanced k) (advanced-IsKernel k l h)
                (k.trail.qhead, l, at ∙ ap some (sym (negate-negate p))) in
            let more : found ≡ none → Propagates j (propagate_queue fuel j) = λ q.
              propagate_queue-Propagates fuel j h'
                (ap (λ ks. level_at ks j.trail.qhead) o.limits
                  ∙ ap (level_at k.trail.trail_lim) o.qhead
                  ∙ above-AtTop k.trail.trail_lim k.trail.qhead (k.trail.qhead + 1) (omega arith)
                      top
                  ∙ ap length (sym o.limits))
                (let q = o.qhead in omega arith) in
            let first : Extends k j = record { limits = o.limits; kept = o.kept } in
            elim (Option-cases found) [
              | inr (id, q) ↦ (
                j,
                1,
                some id,
                queue_conflict fuel k p j id z at (e ∙ ap (λ x. some (j, x)) q),
                h',
                first,
                λ id c a. g id c a,
                broken-IsConflict p k j id top at o (subst (Found p j) q r),
              )
              | inl q ↦
                  let (i, m, found', f, h'', o', g', out) = more q in
                  (
                    i,
                    m + 1,
                    found',
                    queue_on fuel k p j i m found' z at (e ∙ ap (λ x. some (j, x)) q) f,
                    h'',
                    chain-Extends k j i first o',
                    λ id c a. g' id c (g id c a),
                    out,
                  )
            ]
      ]

-- From a state whose queue is at the current level propagation returns, on the fuel that it is
-- given: the trail is valid, begins with the one before and has its levels, each literal implied by
-- its reason; every watcher in the list of a literal is of a clause that has its complement among
-- the first two, at most one for each clause; a stored clause that is proper and has, unless it
-- is deleted, a watcher for each of its first two literals is stored with its literals in some order
-- and has them still; and the queue is empty, or all literals of
-- the clause returned are false, where above level 0 one of them is of the current level.
pub bcp-Propagates :
    (s : SatSolver)
    → IsKernel (length s.kernel.trail.assigns) s.kernel
    → AtTop s.kernel.trail
    → (u : SatSolver) × (found : Option ClauseId) × (bcp s ≡ some (u, found))
      × IsKernel (length s.kernel.trail.assigns) u.kernel
      × Extends s.kernel u.kernel
      × ((id : ClauseId) (c : Clause F64)
          → IsAttached (length s.kernel.trail.assigns) s.kernel id c
          → IsAttached (length s.kernel.trail.assigns) u.kernel id c)
      × Outcome u.kernel found
      × (u.vsids ≡ s.vsids)
      × (u.num_vars ≡ s.num_vars)
unfolding bcp
bcp-Propagates s h top =
    let n = length s.kernel.trail.assigns in
    let (j, m, found, e, h', o, g, out) =
      propagate_queue-Propagates n (n + 1) s.kernel h top (omega arith) in
    let st = s.stats in
    (
      record s { kernel = j; stats = record st { propagations = st.propagations + m } },
      found,
      rw (e) refl,
      h',
      o,
      λ id c a. g id c a,
      out,
      refl,
      refl,
    )
