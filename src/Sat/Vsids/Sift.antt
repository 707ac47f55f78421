-- ===== src/Sat/Vsids/Sift.antt =====
-- crates/smt-sat/src/vsids.rs: the two sifts and `bump_var` on an indexed heap.
use smt_solver_rust.Common.{
  ℕ, zero, suc, ◌+◌, ◌*◌, ◌≤◌, ◌<◌, ◌≡◌, ◌≢◌, refl, sym, ap, ◌∙◌, Bool, Option, some, List, [], ◌∷◌,
  ◌==◌, ltb, if◌then◌else◌, ◌>>=◌, length, get_or, map, arith, Bool-cases, inl, inr,
  get_elem?-of_lt, ltb→lt, ==→≢,
}
use smt_solver_rust.Sat.Lit.{Var}
use smt_solver_rust.Sat.Float.{F64, FloatOps}
use smt_solver_rust.Sat.Vsids.{
  Vsids, parent, exchange, above, sift_up, best_child, sift_down, decay,
}
use smt_solver_rust.Sat.Vsids.Indexed.{IsIndexed, Has, exchange-IsIndexed, var-lt}

-- The heap after a sift: indexed, as long as before, with the same activities and variables.
abbrev pub Sifted : ℕ → Vsids → Option Vsids → Type 0
Sifted n s r =
    (t : Vsids) × (r ≡ some t)
    × IsIndexed n t
    × (length t.heap ≡ length s.heap)
    × (t.activity ≡ s.activity)
    × ((v : Var) → Has s v → Has t v)
    × (t.var_inc ≡ s.var_inc)

pub length-map {ℓ} : {A B : Type ℓ} → (f : A → B) (xs : List A) → length (map f xs) ≡ length xs
length-map f [] = refl
length-map f (x ∷ xs) = ap suc (length-map f xs)

module _ (X : FloatOps) (n : ℕ) where
  above_returns :
      (s : Vsids) (i j : ℕ)
      → IsIndexed n s
      → i < length s.heap
      → j < length s.heap
      → (b : Bool) × (above X s i j ≡ some b)
  unfolding above
  above_returns s i j k hi hj =
      let x = get_or s.heap i 0 in
      let y = get_or s.heap j 0 in
      let ex = get_elem?-of_lt s.heap i 0 hi in
      let ey = get_elem?-of_lt s.heap j 0 hj in
      let ax = get_elem?-of_lt s.activity x 0 (omega (arith, var-lt n s k i x ex, k.activities)) in
      let ay = get_elem?-of_lt s.activity y 0 (omega (arith, var-lt n s k j y ey, k.activities)) in
      (X.gt_f (get_or s.activity x 0) (get_or s.activity y 0), rw (ex, ey, ax, ay) refl)

  exchange-Sifted :
      (s : Vsids) (i j : ℕ)
      → IsIndexed n s
      → i < length s.heap
      → j < length s.heap
      → i ≢ j
      → Sifted n s (exchange i j s)
  exchange-Sifted s i j k hi hj ne =
      exchange-IsIndexed n s k i j (get_or s.heap i 0) (get_or s.heap j 0) ne
        (get_elem?-of_lt s.heap i 0 hi) (get_elem?-of_lt s.heap j 0 hj)

  -- A sift towards the root returns on more fuel than its position.
  pub sift_up-Sifted :
      (fuel pos : ℕ) (s : Vsids)
      → IsIndexed n s
      → pos < length s.heap
      → pos < fuel
      → Sifted n s (sift_up X fuel pos s)
  unfolding sift_up
  sift_up-Sifted zero pos s k h f = absurd (omega arith)
  sift_up-Sifted (suc fuel) pos s k h f = elim (Bool-cases (ltb 0 pos)) [
    | inr p ↦ (s, rw (sift_up, p) refl, k, refl, refl, (λ v h. h), refl)
    | inl p ↦
        let up : parent pos < pos = let q = ltb→lt 0 pos p in omega arith in
        let (b, e) = above_returns s pos (parent pos) k h (omega arith) in
        elim (Bool-cases b) [
          | inr q ↦ (s, rw (sift_up, p, e, q) refl, k, refl, refl, (λ v h. h), refl)
          | inl q ↦
              let (t, e', k', l, a, m, i) =
                exchange-Sifted s pos (parent pos) k h (omega arith) (λ z. absurd (omega arith)) in
              let (u, e'', k'', l', a', m', i') =
                sift_up-Sifted fuel (parent pos) t k' (omega arith) (omega arith) in
              (u, rw (sift_up, p, e, q, e') e'', k'', l' ∙ l, a' ∙ a, (λ v h. m' v (m v h)), i' ∙ i)
        ]
  ]

  best_child_returns :
      (s : Vsids) (pos : ℕ)
      → IsIndexed n s
      → 2 * pos + 1 < length s.heap
      → (best : ℕ) × (best_child X s pos ≡ some best) × (pos ≤ best) × (best < length s.heap)
  unfolding best_child
  best_child_returns s pos k h =
      let (l, e) = above_returns s (2 * pos + 1) pos k h (omega arith) in
      let m = if l then 2 * pos + 1 else pos in
      let low : pos ≤ m = ground arith in
      let high : m < length s.heap = ground arith in
      elim (Bool-cases (ltb (2 * pos + 1 + 1) (length s.heap))) [
        | inl p ↦
            let (r, f) =
              above_returns s (2 * pos + 1 + 1) m k (ltb→lt (2 * pos + 1 + 1) (length s.heap) p)
                high in
            let g = ltb→lt (2 * pos + 1 + 1) (length s.heap) p in
            (if r then 2 * pos + 1 + 1 else m, rw (e, p, f) refl, ground arith, ground arith)
        | inr p ↦ (m, rw (e, p) refl, low, high)
      ]

  -- A sift away from the root returns on fuel for the positions below.
  pub sift_down-Sifted :
      (fuel pos : ℕ) (s : Vsids)
      → IsIndexed n s
      → pos < length s.heap
      → length s.heap < fuel + pos
      → Sifted n s (sift_down X fuel pos s)
  unfolding sift_down
  sift_down-Sifted zero pos s k h f = absurd (omega arith)
  sift_down-Sifted (suc fuel) pos s k h f = elim (Bool-cases (ltb (2 * pos + 1) (length s.heap))) [
    | inr p ↦ (s, rw (sift_down, p) refl, k, refl, refl, (λ v h. h), refl)
    | inl p ↦
        let (best, e, low, high) =
          best_child_returns s pos k (ltb→lt (2 * pos + 1) (length s.heap) p) in
        elim (Bool-cases (best == pos)) [
          | inl q ↦ (s, rw (sift_down, p, e, ◌>>=◌, q) refl, k, refl, refl, (λ v h. h), refl)
          | inr q ↦
              let ne = ==→≢ best pos q in
              let (t, e', k', l, a, m, i) = exchange-Sifted s pos best k h high (λ z. ne (sym z)) in
              let (u, e'', k'', l', a', m', i') =
                sift_down-Sifted fuel best t k' (omega arith) (omega arith) in
              (
                u,
                rw (sift_down, p, e, ◌>>=◌, q, e') e'',
                k'',
                l' ∙ l,
                a' ∙ a,
                (λ v h. m' v (m v h)),
                i' ∙ i,
              )
        ]
  ]

  -- Changing activities keeps the index.
  pub reactivated :
      (s : Vsids) (acts : List F64) (inc : F64)
      → IsIndexed n s
      → length acts ≡ n
      → IsIndexed n (record s { activity = acts; var_inc = inc })
  reactivated s acts inc k e = record {
    activities = e;
    positions = k.positions;
    placed = k.placed;
    found = k.found;
    filled = k.filled;
    small = k.small;
  }

  pub decay-IsIndexed : (s : Vsids) → IsIndexed n s → IsIndexed n (decay X s)
  unfolding decay
  decay-IsIndexed s k = reactivated s s.activity (X.div_f s.var_inc s.var_decay) k k.activities
