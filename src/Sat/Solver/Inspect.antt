-- ===== src/Sat/Solver/Inspect.antt =====
-- crates/smt-sat/src/solver.rs: a visit of `bcp` to a clause whose blocker is not true.
use mathlib.Core.Path.{subst}
use mathlib.Core.Option.{some-injective}
use smt_solver_rust.Common.{
  ℕ, suc, ◌+◌, ◌≤◌, ◌<◌, ◌≡◌, refl, sym, ap, ◌∙◌, some, List, [], ◌∷◌, ◌++◌, if◌then◌else◌, ◌>>=◌,
  length, get_elem?, get_or, set, arith, All, Bool-cases, ◌⊎◌, inl, inr, get_elem?-lt,
  get_elem?-of_lt, length-set, lt→ltb,
}
use smt_solver_rust.Sat.Lit
use smt_solver_rust.Sat.Lit.{
  Var, Lit, var, negate, is_pos, LBool, undef, true_val, false_val, is_true, is_false, is_defined,
}
use smt_solver_rust.Sat.Trail.{Trail, ClauseId, lit_value, clause}
use smt_solver_rust.Sat.Trail.Valid.{value_of, assign_free}
use smt_solver_rust.Sat.Clause.{Clause, ClauseArena, get_clause}
use smt_solver_rust.Sat.Watch.{Watcher}
use smt_solver_rust.Sat.Float.{F64}
use smt_solver_rust.Sat.Solver.{Kernel}
use smt_solver_rust.Sat.Solver.Bcp.{Visit, dropped, kept, conflict, after_two, settle, inspect}
use smt_solver_rust.Sat.Solver.Position.{In, All-In, FalseBefore}
use smt_solver_rust.Sat.Solver.Assigned.{lit_value_returns, is_false-FalseBefore, undef-value}
use smt_solver_rust.Sat.Solver.Listed.{All-middle}
use smt_solver_rust.Sat.Solver.Watched.{
  IsProper, Watches, Watching, written, update-written, written_at, rewritten, rewritten-IsProper,
}
use smt_solver_rust.Sat.Solver.Loop.{
  IsLoop, Onward, same-Onward, put_second_returns, find_watch_returns,
}
use smt_solver_rust.Sat.Solver.Move.{moved_on, moved-IsRearranged, moved_on-IsLoop, moved-Keeps}
use smt_solver_rust.Sat.Solver.Attached.{Keeps, replace-Keeps, written-Keeps}
use smt_solver_rust.Sat.Solver.Settle.{
  After, replace-IsListed, relist-IsLoop, written-IsLoop, implied_by, implied_by-IsLoop,
  implied_by-Onward,
}

-- A literal is the first, false, or among the others that are.
split-False :
    (t : Trail) (b : ℕ) (first l : Lit) (ls : List Lit)
    → get_elem? ls 0 ≡ some first
    → get_elem? ls 1 ≡ some l
    → FalseBefore t b l
    → All (FalseBefore t b) (after_two ls)
    → All (λ m. (m ≡ first) ⊎ FalseBefore t b m) ls
split-False t b first l [] e f fl fs = tt
split-False t b first l (x ∷ []) e f fl fs = absurd (cc)
split-False t b first l (x ∷ (y ∷ ls)) e f fl fs = (
  inl (some-injective _ _ e),
  (inr (subst (FalseBefore t b) (sym (some-injective _ _ f)) fl), weaken ls fs),
)
  where
    weaken :
        (ms : List Lit) → All (FalseBefore t b) ms → All (λ m. (m ≡ first) ⊎ FalseBefore t b m) ms
    weaken [] h = tt
    weaken (m ∷ ms) h = (inr h.0, weaken ms h.1)

merge-False :
    (t : Trail) (b : ℕ) (first : Lit) (ls : List Lit)
    → FalseBefore t b first
    → All (λ m. (m ≡ first) ⊎ FalseBefore t b m) ls
    → All (FalseBefore t b) ls
merge-False t b first [] f h = tt
merge-False t b first (m ∷ ls) f (inl p, h) =
    (subst (FalseBefore t b) (sym p) f, merge-False t b first ls f h)
merge-False t b first (m ∷ ls) f (inr g, h) = (g, merge-False t b first ls f h)

after_two-All :
    (n : ℕ) (ls : List Lit) → All (λ l. var l < n) ls → All (λ l. var l < n) (after_two ls)
after_two-All n [] h = tt
after_two-All n (x ∷ []) h = tt
after_two-All n (x ∷ (y ∷ ls)) h = h.1.1

after_two_at :
    (ls : List Lit) (j : ℕ) (l : Lit)
    → get_elem? (after_two ls) j ≡ some l
    → get_elem? ls (2 + j) ≡ some l
after_two_at [] j l e = absurd (cc)
after_two_at (x ∷ []) j l e = absurd (cc)
after_two_at (x ∷ (y ∷ ls)) j l e =
    let q : 2 + j ≡ suc (suc j) = omega arith in ap (get_elem? (x ∷ (y ∷ ls))) q ∙ e

module _ (n : ℕ) (p : Lit) (keep ws : List Watcher) (w : Watcher) (id : ClauseId)
    (same : w.clause_id ≡ id) where
  settle_value :
      (k : Kernel) (first : Lit) (c : Clause F64) (x : LBool)
      → IsLoop n p k (keep ++ w ∷ ws)
      → get_clause k.arena id ≡ some c
      → var first < n
      → All (λ m. (m ≡ first) ⊎ FalseBefore k.trail (length k.trail.trail) m) c.lits
      → In (negate p) c.lits
      → lit_value k.trail first ≡ some x
      → (o : Visit) × (settle id first k ≡ some o) × After n p k keep w ws o
  unfolding settle is_false
  settle_value k first c undef h e b fs inside f =
      let free = undef-value k.trail h.valid first (omega (arith, h.size)) f in
      let x : Watcher = record { clause_id = id; blocker = first } in
      let j = implied_by n p k (keep ++ w ∷ ws) h first id c e b free fs in
      let step = assign_free k.trail h.valid first (clause id) (omega (arith, h.size)) free in
      let l = implied_by-IsLoop n p k (keep ++ w ∷ ws) h first id c e b free fs in
      (
        kept j x,
        rw (f, step) refl,
        (
          relist-IsLoop n p j (keep ++ w ∷ ws) l (keep ++ x ∷ ws)
              (replace-IsListed n k.arena p keep ws w x h.listed (sym same) b),
          implied_by-Onward n p k (keep ++ w ∷ ws) h first id c e b free fs,
          replace-Keeps n p k keep ws w x (sym same),
        ),
      )
  settle_value k first c true_val h e b fs inside f =
      let x : Watcher = record { clause_id = id; blocker = first } in
      (
        kept k x,
        rw (f) refl,
        (
          relist-IsLoop n p k (keep ++ w ∷ ws) h (keep ++ x ∷ ws)
              (replace-IsListed n k.arena p keep ws w x h.listed (sym same) b),
          same-Onward k,
          replace-Keeps n p k keep ws w x (sym same),
        ),
      )
  settle_value k first c false_val h e b fs inside f =
      let x : Watcher = record { clause_id = id; blocker = first } in
      (
        conflict k x id,
        rw (f) refl,
        (
          relist-IsLoop n p k (keep ++ w ∷ ws) h (keep ++ x ∷ ws)
              (replace-IsListed n k.arena p keep ws w x h.listed (sym same) b),
          same-Onward k,
          replace-Keeps n p k keep ws w x (sym same),
          (
            c,
            e,
            merge-False k.trail (length k.trail.trail) first c.lits
                (is_false-FalseBefore k.trail h.valid first false_val (omega (arith, h.size)) f
                  refl)
                fs,
            inside,
          ),
        ),
      )

-- A rewritten clause leaves the trail as it was.
onward :
    (k : Kernel) (a : ClauseArena F64) (j : Kernel) → Onward (record k { arena = a }) j → Onward k j
onward k a j o = record { limits = o.limits; qhead = o.qhead; longer = o.longer; kept = o.kept }

rebase :
    (n : ℕ) (p : Lit) (k : Kernel) (a : ClauseArena F64) (keep ws : List Watcher) (w : Watcher)
    (o : Visit)
    → Keeps n p k (keep ++ w ∷ ws) (record k { arena = a }) (keep ++ w ∷ ws)
    → After n p (record k { arena = a }) keep w ws o
    → After n p k keep w ws o
rebase n p k a keep ws w (dropped j) f (l, o, g) = (l, onward k a j o, λ i c z. g i c (f i c z))
rebase n p k a keep ws w (kept j x) f (l, o, g) = (l, onward k a j o, λ i c z. g i c (f i c z))
rebase n p k a keep ws w (conflict j x id) f (l, o, g, b) =
    (l, onward k a j o, (λ i c z. g i c (f i c z)), b)

-- A visit to a clause whose blocker is not true.
pub inspect-After :
    (n : ℕ) (p : Lit) (keep ws : List Watcher) (w : Watcher) (k : Kernel) (c : Clause F64)
    → IsLoop n p k (keep ++ w ∷ ws)
    → get_clause k.arena w.clause_id ≡ some c
    → (o : Visit) × (inspect (negate p) w.clause_id c k ≡ some o) × After n p k keep w ws o
unfolding inspect is_true
inspect-After n p keep ws w k c h e =
    let id = w.clause_id in
    let (d, f, proper', front', _) = All-middle (Watching n k.arena p) keep ws w h.listed.0 in
    let same : d ≡ c = some-injective _ _ (sym f ∙ e) in
    let proper : IsProper n c = subst (IsProper n) same proper' in
    let front : Watches (negate p) c.lits =
      subst (λ (x : Clause F64). Watches (negate p) x.lits) same front' in
    let (ms, e1, r, second, kept_front, back) =
      put_second_returns (negate p) c.lits proper.long front in
    let a = written k.arena id c ms e r in
    let j = record k { arena = a } in
    let h' = written-IsLoop n p k (keep ++ w ∷ ws) h id c ms e r kept_front in
    let moves = written-Keeps n p k (keep ++ w ∷ ws) id c ms e r back in
    let c' = rewritten k.arena id c ms e r in
    let e' = written_at k.arena id c ms e r in
    let proper2 = rewritten-IsProper k.arena id c ms e r n proper in
    let first = get_or ms 0 0 in
    let at_first = get_elem?-of_lt ms 0 0 (let l = proper2.long in omega arith) in
    let bound = All-In (λ l. var l < n) ms proper2.bounded first (0, at_first) in
    let x : LBool =
      if is_pos first
      then value_of k.trail (var first)
      else Lit.not_val (value_of k.trail (var first)) in
    let value = lit_value_returns k.trail h.valid first (omega (arith, h.size)) in
    let write = update-written k.arena id c ms e r in
    let y : Watcher = record { clause_id = id; blocker = first } in
    elim (Bool-cases (is_true x)) [
      | inl q ↦ (
        kept j y,
        rw (inspect, e1, write, at_first, value, ◌>>=◌, q) refl,
        (
          relist-IsLoop n p j (keep ++ w ∷ ws) h' (keep ++ y ∷ ws)
              (replace-IsListed n a p keep ws w y h'.listed refl bound),
          record { limits = refl; qhead = refl; longer = omega arith; kept = λ i l z. z },
          λ i d z. replace-Keeps n p j keep ws w y refl i d (moves i d z),
        ),
      )
      | inr q ↦
          let limits : All (λ l. var l < length k.trail.assigns) (after_two ms) =
            subst (λ m. All (λ l. var l < m) (after_two ms)) (sym h.size)
              (after_two-All n ms proper2.bounded) in
          let (found, e2, out) = find_watch_returns k.trail h.valid 2 (after_two ms) limits in
          elim out [
            | inl (z, fs) ↦
                let all =
                  split-False k.trail (length k.trail.trail) first (negate p) ms at_first second
                    h.false_at fs in
                let (o, e3, after) =
                  settle_value n p keep ws w id refl j first c' x h' e' bound all (1, second)
                    value in
                (
                  o,
                  rw (inspect, e1, write, at_first, value, ◌>>=◌, q, e2, z) e3,
                  rebase n p k a keep ws w o moves after,
                )
            | inr (i, cand, z, at') ↦
                let at = after_two_at ms i cand at' in
                let late : 2 ≤ 2 + i = omega arith in
                let g =
                  moved_on n p keep ws w j h' c' e' proper2 first cand (2 + i) bound late at
                    second in
                let r2 =
                  moved-IsRearranged n p keep ws w j h' c' e' proper2 first cand (2 + i) bound late
                    at second in
                let ns = set (set ms 1 cand) (2 + i) (negate p) in
                let in_one = lt→ltb 1 (length ms) (get_elem?-lt ms 1 second) in
                let in_two =
                  lt→ltb (2 + i) (length (set ms 1 cand))
                    (omega (arith, get_elem?-lt ms (2 + i) at, length-set ms 1 cand)) in
                let write2 = update-written j.arena id c' ns e' r2 in
                (
                  dropped g,
                  rw (inspect, e1, write, at_first, value, ◌>>=◌, q, e2, z, in_one, in_two, write2)
                      refl,
                  (
                    moved_on-IsLoop n p keep ws w j h' c' e' proper2 first cand (2 + i) bound late
                        at second,
                    record { limits = refl; qhead = refl; longer = omega arith; kept = λ i l z. z },
                    λ m d y.
                        moved-Keeps n p keep ws w j h' c' e' proper2 first cand (2 + i) bound late
                          at second m d (moves m d y),
                  ),
                )
          ]
    ]
