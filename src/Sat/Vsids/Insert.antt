-- ===== src/Sat/Vsids/Insert.antt =====
-- crates/smt-sat/src/vsids.rs: `insert` and `ensure_var` on an indexed heap.
use mathlib.Core.Path.{subst}
use mathlib.Core.Option.{some-injective}
use native.Mathlib.Decide.{ℕ_discrete}
use smt_solver_rust.Common.{
  ℕ, suc, ◌+◌, ◌<◌, ◌≡◌, refl, sym, ap, ◌∙◌, false, some, [], ◌∷◌, ◌++◌, ◌==◌, ◌>>=◌, length,
  get_elem?, get_or, set, arith, Bool-cases, ◌⊎◌, inl, inr, get_elem?-of_lt, get_elem?-lt,
  get_elem?-set_self, get_elem?-set_ne, length-set, ==→≡, ==→≢, ≢→==,
}
use smt_solver_rust.Sat.Lit.{Var}
use smt_solver_rust.Sat.Float.{FloatOps}
use smt_solver_rust.Common.{get_elem?-append_old, get_elem?-append_new, length-append}
use smt_solver_rust.Sat.Vsids.{Vsids, absent, insert}
use smt_solver_rust.Sat.Vsids.Indexed.{IsIndexed, Has, present-set, present-le, put-set, not_absent}
use smt_solver_rust.Sat.Vsids.Sift.{sift_up-Sifted}

module _ (n : ℕ) (s : Vsids) (k : IsIndexed n s) (v : Var)
    (gone : get_elem? s.heap_pos v ≡ some absent) where
  abbrev pushed : Vsids
  pushed = record s { heap = s.heap ++ v ∷ []; heap_pos = set s.heap_pos v (length s.heap) }

  room : length s.heap < n
  room =
      let e = present-set s.heap_pos v absent 0 gone in
      let b = present-le (set s.heap_pos v 0) in
      omega (arith, length-set s.heap_pos v 0, k.positions, k.filled)

  room-absent : (length s.heap == absent) ≡ false
  room-absent = ≢→== (length s.heap) absent (λ e.
      let r : absent < n = subst (λ j. j < n) e room in let m = k.small in absurd (omega arith))

  length-pushed : length pushed.heap ≡ suc (length s.heap)
  length-pushed = omega (arith, length-append s.heap (v ∷ []))

  pushed-placed :
      (i : ℕ) (u : Var) → get_elem? pushed.heap i ≡ some u → get_elem? pushed.heap_pos u ≡ some i
  pushed-placed i u e = elim (ℕ_discrete i (length s.heap)) [
    | yes p ↦
        let q : v ≡ u =
          some-injective _ _
            (sym (get_elem?-append_new s.heap v) ∙ ap (get_elem? pushed.heap) (sym p) ∙ e) in
        ap (get_elem? pushed.heap_pos) (sym q)
        ∙ get_elem?-set_self s.heap_pos v (length s.heap) (get_elem?-lt s.heap_pos v gone)
        ∙ ap some (sym p)
    | no ne ↦
        let l : i < length s.heap = omega (arith, get_elem?-lt pushed.heap i e, length-pushed) in
        let old = sym (get_elem?-append_old s.heap (v ∷ []) i l) ∙ e in
        let at = k.placed i u old in
        get_elem?-set_ne s.heap_pos v u (length s.heap) (λ q.
          ==→≢ i absent (not_absent n s k i l)
            (some-injective _ _ (sym at ∙ ap (get_elem? s.heap_pos) (sym q) ∙ gone)))
        ∙ at
  ]

  pushed-found :
      (u : Var) (p : ℕ)
      → get_elem? pushed.heap_pos u ≡ some p
      → (p ≡ absent) ⊎ (get_elem? pushed.heap p ≡ some u)
  pushed-found u p e = elim (ℕ_discrete v u) [
    | yes q ↦
        let at = get_elem?-set_self s.heap_pos v (length s.heap) (get_elem?-lt s.heap_pos v gone) in
        let r : length s.heap ≡ p =
          some-injective _ _ (sym at ∙ ap (get_elem? pushed.heap_pos) q ∙ e) in
        inr (ap (get_elem? pushed.heap) (sym r) ∙ get_elem?-append_new s.heap v ∙ ap some q)
    | no ne ↦ elim (k.found u p (sym (get_elem?-set_ne s.heap_pos v u (length s.heap) ne) ∙ e)) [
      | inl z ↦ inl z
      | inr here ↦ inr (get_elem?-append_old s.heap (v ∷ []) p (get_elem?-lt s.heap p here) ∙ here)
    ]
  ]

  pushed-IsIndexed : IsIndexed n pushed
  pushed-IsIndexed = record {
    activities = k.activities;
    positions = length-set s.heap_pos v (length s.heap) ∙ k.positions;
    placed = pushed-placed;
    found = pushed-found;
    filled =
        let a = present-set s.heap_pos v absent (length s.heap) gone in
        let a' = rw (room-absent) at a in omega (arith, length-pushed, k.filled);
    small = k.small;
  }

-- Inserting a variable in range returns an indexed heap with the same activities that has the
-- variable; it is the one before, or one longer.
pub insert-IsIndexed :
    (X : FloatOps) (n : ℕ) (s : Vsids) (v : Var)
    → IsIndexed n s
    → v < n
    → (t : Vsids) × (insert X v s ≡ some t)
      × IsIndexed n t
      × (t.activity ≡ s.activity)
      × Has t v
      × ((t ≡ s) ⊎ (length t.heap ≡ suc (length s.heap)))
unfolding insert
insert-IsIndexed X n s v k h =
    let p = get_or s.heap_pos v 0 in
    let here = get_elem?-of_lt s.heap_pos v 0 (omega (arith, k.positions)) in
    elim (Bool-cases (p == absent)) [
      | inr q ↦ elim (k.found v p here) [
        | inl gone ↦ absurd (==→≢ p absent q gone)
        | inr at ↦ (s, rw (insert, here, ◌>>=◌, q) refl, k, refl, (p, at), inl refl)
      ]
      | inl q ↦
          let gone = here ∙ ap some (==→≡ p absent q) in
          let l = length-pushed n s k v gone in
          let (t, e, k', l', a, has, inc) =
            sift_up-Sifted X n (length s.heap + 1) (length s.heap) (pushed n s k v gone)
              (pushed-IsIndexed n s k v gone) (omega arith) (omega arith) in
          (
            t,
            rw
                (
                  insert,
                  here,
                  ◌>>=◌,
                  q,
                  put-set s.heap_pos v (length s.heap) (omega (arith, k.positions)),
                )
                e,
            k',
            a,
            has v (length s.heap, get_elem?-append_new s.heap v),
            inr (l' ∙ l),
          )
    ]
