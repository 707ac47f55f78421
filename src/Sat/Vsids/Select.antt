-- ===== src/Sat/Vsids/Select.antt =====
-- crates/smt-sat/src/vsids.rs: `select_decision_var` on an indexed heap.
use mathlib.Core.Path.{subst}
use mathlib.Core.Option.{some-injective}
use native.Mathlib.Decide.{ℕ_discrete}
use smt_solver_rust.Common.{
  ℕ, zero, suc, ◌+◌, ◌≤◌, ◌<◌, ◌≡◌, refl, sym, ap, ◌∙◌, Bool, true, false, Option, none, some,
  ◌>>=◌, length, get_elem?, get_or, arith, Bool-cases, ◌⊎◌, inl, inr, get_elem?-of_lt, get_elem?-lt,
}
use smt_solver_rust.Sat.Lit.{Var, LBool, undef, is_defined}
use smt_solver_rust.Sat.Trail.{Trail, var_value}
use smt_solver_rust.Sat.Float.{FloatOps}
use smt_solver_rust.Sat.Vsids.{Vsids, pop_unassigned, scan_unassigned, select_decision_var}
use smt_solver_rust.Sat.Vsids.Indexed.{IsIndexed, var-lt}
use smt_solver_rust.Sat.Vsids.Insert.{insert-IsIndexed}
use smt_solver_rust.Sat.Vsids.Pop.{pop_max-Popped}

-- Whether the trail has a value for the variable.
abbrev pub Assigned : Trail → Bool → Var → Type 0
Assigned t b v = (x : LBool) × (var_value t v ≡ some x) × (is_defined x ≡ b)

-- The heap after a choice is indexed; the variable chosen has no value.
abbrev pub Chooses : ℕ → Trail → Option (Vsids × Option Var) → Type 0 → Type 0
Chooses n t r Otherwise =
    (u : Vsids) × (top : Option Var) × (r ≡ some (u, top))
    × IsIndexed n u
    × (((top ≡ none) × (length u.heap ≡ 0) × Otherwise)
        ⊎ ((v : Var) × (top ≡ some v) × (v < n) × Assigned t false v))

module _ (X : FloatOps) (n : ℕ) (t : Trail) (size : length t.assigns ≡ n) where
  value_returns : (v : Var) → v < n → (x : LBool) × (var_value t v ≡ some x)
  unfolding var_value
  value_returns v h = (get_or t.assigns v undef, get_elem?-of_lt t.assigns v undef (omega arith))

  -- On more fuel than the heap is long the loop returns.
  pop_unassigned-Chooses :
      (fuel : ℕ) (s : Vsids)
      → IsIndexed n s
      → length s.heap < fuel
      → Chooses n t (pop_unassigned X fuel t s) Unit
  unfolding pop_unassigned
  pop_unassigned-Chooses zero s k h = absurd (omega arith)
  pop_unassigned-Chooses (suc fuel) s k h =
      let (u, top, e, k', a, out) = pop_max-Popped X n s k in
      elim out [
        | inl (z, none_left, same) ↦
            (u, none, rw (e, z) refl, k', inl (refl, ap (λ r. length r.heap) same ∙ none_left, tt))
        | inr (v, z, root, shorter) ↦
            let l = var-lt n s k 0 v root in
            let (x, f) = value_returns v l in
            elim (Bool-cases (is_defined x)) [
              | inl d ↦
                  let (w, r, g, k'', o) = pop_unassigned-Chooses fuel u k' (omega arith) in
                  (w, r, rw (e, z, f, ◌>>=◌, d) g, k'', o)
              | inr d ↦ (u, some v, rw (e, z, f, ◌>>=◌, d) refl, k', inr (v, refl, l, (x, f, d)))
            ]
      ]

  -- The scan over the variables from `v` on, with an empty heap.
  scan_unassigned-Chooses :
      (m v : ℕ) (s : Vsids)
      → IsIndexed n s
      → length s.heap ≡ 0
      → v + m ≡ n
      → Chooses n t (scan_unassigned X m v t s) ((w : Var) → v ≤ w → w < n → Assigned t true w)
  unfolding scan_unassigned
  scan_unassigned-Chooses zero v s k h e =
      (s, none, refl, k, inl (refl, h, λ w a b. absurd (omega arith)))
  scan_unassigned-Chooses (suc m) v s k h e =
      let (x, f) = value_returns v (omega arith) in
      elim (Bool-cases (is_defined x)) [
        | inl d ↦
            let (u, r, g, k', o) = scan_unassigned-Chooses m (v + 1) s k h (omega arith) in
            (
              u,
              r,
              rw (f, ◌>>=◌, d) g,
              k',
              elim o [
                | inr c ↦ inr c
                | inl (z, empty, all) ↦ inl (
                  z,
                  empty,
                  λ w a b. elim (ℕ_discrete v w) [
                    | yes same ↦ subst (Assigned t true) same (x, f, d)
                    | no ne ↦ all w (omega arith) b
                  ],
                )
              ],
            )
        | inr d ↦
            let (u, g, k', a, (i, has), grown) = insert-IsIndexed X n s v k (omega arith) in
            let (w, top, g', k'', a', out) = pop_max-Popped X n u k' in
            let inside = get_elem?-lt u.heap i has in
            let one : length u.heap ≤ 1 = elim grown [
              | inl same ↦
                  let z : length u.heap ≡ 0 = ap (λ r. length r.heap) same ∙ h in omega arith
              | inr more ↦ omega arith
            ] in
            elim out [
              | inl (z, empty, same) ↦ absurd (omega arith)
              | inr (y, z, root, shorter) ↦
                  let q : i ≡ 0 = omega arith in
                  let same : y ≡ v =
                    some-injective _ _ (sym root ∙ ap (get_elem? u.heap) (sym q) ∙ has) in
                  (
                    w,
                    top,
                    rw (f, ◌>>=◌, d, g) g',
                    k'',
                    inr (v, z ∙ ap some same, omega arith, (x, f, d)),
                  )
            ]
      ]

  -- On an indexed heap with a trail for its variables, the choice returns, the heap after is
  -- indexed, the variable chosen has no value, and none is chosen only where each has one.
  pub select_decision_var-Chooses :
      (s : Vsids)
      → IsIndexed n s
      → Chooses n t (select_decision_var X t s) ((w : Var) → w < n → Assigned t true w)
  unfolding select_decision_var
  select_decision_var-Chooses s k =
      let (u, top, e, k', out) = pop_unassigned-Chooses (length s.heap + 1) s k (omega arith) in
      elim out [
        | inr (v, z, l, c) ↦ (u, some v, rw (e, z) refl, k', inr (v, refl, l, c))
        | inl (z, empty, _) ↦
            let (w, r, f, k'', o) =
              scan_unassigned-Chooses (length u.activity) 0 u k' empty
                (let q = k'.activities in omega arith) in
            (
              w,
              r,
              rw (e, z) f,
              k'',
              elim o [ inr c ↦ inr c | inl (q, m, all) ↦ inl (q, m, λ w l. all w (omega arith) l) ],
            )
      ]
