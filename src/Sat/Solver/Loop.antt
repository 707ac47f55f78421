-- ===== src/Sat/Solver/Loop.antt =====
-- crates/smt-sat/src/solver.rs: the state of the inner loop of `bcp`, and its steps.
use mathlib.Core.Option.{some-injective}
use smt_solver_rust.Common.{
  ℕ, zero, suc, ◌+◌, ◌≤◌, ◌<◌, ◌≡◌, ◌≢◌, refl, sym, ap, ◌∙◌, true, Option, none, some, List, [],
  ◌∷◌, ◌==◌, if◌then◌else◌, ◌>>=◌, length, get_elem?, get_or, set, put, arith, All, Bool-cases, ◌⊎◌,
  inl, inr, get_elem?-of_lt, get_elem?-set_self, get_elem?-set_ne, length-set, lt→ltb, ==→≡, ==→≢,
}
use smt_solver_rust.Sat.Lit
use smt_solver_rust.Sat.Lit.{
  Var, Lit, var, negate, is_pos, LBool, undef, true_val, false_val, is_false, is_defined,
}
use smt_solver_rust.Sat.Trail.{Trail}
use smt_solver_rust.Sat.Trail.Valid.{IsValid, value_of}
use smt_solver_rust.Sat.Watch
use smt_solver_rust.Sat.Watch.{Watcher, WatchList}
use smt_solver_rust.Sat.Solver.{Kernel}
use smt_solver_rust.Sat.Solver.Bcp.{put_second, find_watch}
use smt_solver_rust.Sat.Solver.Position.{FalseBefore}
use smt_solver_rust.Sat.Solver.Learn.{IsImplied}
use smt_solver_rust.Sat.Solver.Rearrange.{IsRearranged, same-IsRearranged, swap-IsRearranged}
use smt_solver_rust.Sat.Solver.Assigned.{lit_value_returns, is_false-FalseBefore}
use smt_solver_rust.Sat.Solver.Watched.{Watches, IsListed}

-- How many variables have no value.
abbrev pub undefs : List LBool → ℕ
undefs [] = 0
undefs (x ∷ xs) = (if is_defined x then 0 else 1) + undefs xs

pub undefs-set :
    (xs : List LBool) (i : ℕ) (y : LBool)
    → i < length xs
    → get_or xs i undef ≡ undef
    → is_defined y ≡ true
    → undefs (set xs i y) + 1 ≡ undefs xs
unfolding is_defined
undefs-set [] i y h e d = absurd (omega arith)
undefs-set (x ∷ xs) zero y h e d = rw (e, d) (omega arith)
undefs-set (x ∷ xs) (suc i) y h e d = let r = undefs-set xs i y (omega arith) e d in omega arith

-- The state of the loop over the watchers of `p`, with those that are kept or to be visited. Every
-- assigned variable is on the trail.
pub record IsLoop (n : ℕ) (p : Lit) (k : Kernel) (mine : List Watcher) : Type 0 where
  pub valid : IsValid k.trail
  pub implied : IsImplied k.trail k.arena
  pub size : length k.trail.assigns ≡ n
  pub listed : IsListed n k.arena p mine
  pub others : (q : Lit) → p ≢ q → IsListed n k.arena q (Watch.get k.watches q)
  pub false_at : FalseBefore k.trail (length k.trail.trail) (negate p)
  pub filled : undefs k.trail.assigns + length k.trail.trail ≡ n

-- Propagation adds to the trail and opens no level.
pub record Onward (k j : Kernel) : Type 0 where
  pub limits : j.trail.trail_lim ≡ k.trail.trail_lim
  pub qhead : j.trail.qhead ≡ k.trail.qhead
  pub longer : length k.trail.trail ≤ length j.trail.trail
  pub kept :
      (i : ℕ) (l : Lit) → get_elem? k.trail.trail i ≡ some l → get_elem? j.trail.trail i ≡ some l

pub same-Onward : (k : Kernel) → Onward k k
same-Onward k = record { limits = refl; qhead = refl; longer = omega arith; kept = λ i l e. e }

pub chain-Onward : (k j i : Kernel) → Onward k j → Onward j i → Onward k i
chain-Onward k j i o q = record {
  limits = q.limits ∙ o.limits;
  qhead = q.qhead ∙ o.qhead;
  longer = let a = o.longer in let b = q.longer in omega arith;
  kept = λ m l e. q.kept m l (o.kept m l e);
}

-- The watched literal that became false is in second place.
pub put_second_returns :
    (l : Lit) (ls : List Lit)
    → 2 ≤ length ls
    → Watches l ls
    → (ms : List Lit) × (put_second l ls ≡ some ms)
      × IsRearranged ls ms
      × (get_elem? ms 1 ≡ some l)
      × ((m : Lit) → Watches m ls → Watches m ms)
      × ((m : Lit) → Watches m ms → Watches m ls)
unfolding put_second
put_second_returns l ls long at =
    let c0 = get_or ls 0 0 in
    let c1 = get_or ls 1 0 in
    let e0 = get_elem?-of_lt ls 0 0 (omega arith) in
    let e1 = get_elem?-of_lt ls 1 0 (omega arith) in
    elim (Bool-cases (c0 == l)) [
      | inl p ↦
          let e0' : get_elem? ls 0 ≡ some l = e0 ∙ ap some (==→≡ c0 l p) in
          let ms = set (set ls 0 c1) 1 l in
          let size : length (set ls 0 c1) ≡ length ls = length-set ls 0 c1 in
          let second = get_elem?-set_self (set ls 0 c1) 1 l (omega arith) in
          let first : get_elem? ms 0 ≡ some c1 =
            get_elem?-set_ne (set ls 0 c1) 1 0 l (λ z. absurd (omega arith))
            ∙ get_elem?-set_self ls 0 c1 (omega arith) in
          let write : put (set ls 0 c1) 1 l ≡ some ms =
            rw (lt→ltb 1 (length (set ls 0 c1)) (omega arith)) refl in
          (
            ms,
            rw (put_second, e0, ◌>>=◌, p, e1) write,
            swap-IsRearranged ls 0 1 l c1 e0' e1 (λ z. absurd (omega arith)),
            second,
            λ m o. elim o [ inl z ↦ inr (second ∙ sym e0' ∙ z) | inr z ↦ inl (first ∙ sym e1 ∙ z) ],
            λ m o. elim o [ inl z ↦ inr (e1 ∙ sym first ∙ z) | inr z ↦ inl (e0' ∙ sym second ∙ z) ],
          )
      | inr p ↦ (
        ls,
        rw (put_second, e0, ◌>>=◌, p) refl,
        same-IsRearranged ls,
        elim at [ inl z ↦ absurd (==→≢ c0 l p (some-injective _ _ (sym e0 ∙ z))) | inr z ↦ z ],
        λ m o. o,
        λ m o. o,
      )
    ]

-- The search for another literal to watch returns: all are false, or one is found.
pub find_watch_returns :
    (t : Trail) (v : IsValid t) (i : ℕ) (ls : List Lit)
    → All (λ l. var l < length t.assigns) ls
    → (r : Option (ℕ × Lit)) × (find_watch t i ls ≡ some r)
      × (((r ≡ none) × All (FalseBefore t (length t.trail)) ls)
          ⊎ ((j : ℕ) × (cand : Lit) × (r ≡ some (i + j, cand)) × (get_elem? ls j ≡ some cand)))
unfolding find_watch
find_watch_returns t v i [] h = (none, refl, inl (refl, tt))
find_watch_returns t v i (l ∷ ls) h =
    let x = if is_pos l then value_of t (var l) else Lit.not_val (value_of t (var l)) in
    let e = lit_value_returns t v l h.0 in
    elim (Bool-cases (is_false x)) [
      | inl p ↦
          let (r, f, o) = find_watch_returns t v (i + 1) ls h.1 in
          (
            r,
            rw (find_watch, e, ◌>>=◌, p) f,
            elim o [
              | inl (z, all) ↦ inl (z, (is_false-FalseBefore t v l x h.0 e p, all))
              | inr (j, cand, z, at) ↦
                  inr (suc j, cand, z ∙ ap (λ k. some (k, cand)) (omega arith), at)
            ],
          )
      | inr p ↦ (
        some (i, l),
        rw (find_watch, e, ◌>>=◌, p) refl,
        inr (0, l, ap (λ k. some (k, l)) (omega arith), refl),
      )
    ]
