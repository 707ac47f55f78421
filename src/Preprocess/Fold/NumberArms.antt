-- ===== src/Preprocess/Fold/NumberArms.antt =====
-- crates/smt-preprocess/src/constant_folding.rs: the arms of `fold_term` for equations, sums,
-- products, differences and comparisons.
use mathlib.Core.Path.{subst}
use mathlib.Core.Option.{some-injective}
use smt_solver_rust.Common.{
  ℕ, ◌<◌, ◌≡◌, refl, sym, ap, ◌∙◌, Bool, true, none, some, List, [], ◌∷◌, ◌==◌, map, length, All,
  Option-cases, Bool-cases, ◌⊎◌, inl, inr, ==→≡,
}
use smt_solver_rust.Common.Int.{ℤ, ◌-ℤ◌, eqb_ℤ}
use smt_solver_rust.Core.Sort.{SortArena}
use smt_solver_rust.Core.Op.{Op, eq_op, sub_op, int_const, real_const}
use smt_solver_rust.Core.Term.{TermId, TermArena, int_const_term, real_const_term}
use smt_solver_rust.Core.Term.Pool.{IsArena}
use smt_solver_rust.Core.Meaning.{
  Ratio, RatioOps, Value, bool, bits, int, real, ints_from, reals_from, chain, compare_by, same,
  denote,
}
use smt_solver_rust.Core.Meaning.Model.{Interp, IsModel, Yields, intern-Yields}
use smt_solver_rust.Core.Meaning.Terms.{here_true, same_self}
use smt_solver_rust.Preprocess.Fold.{falls, gives, truth, int_of, real_of}
use smt_solver_rust.Preprocess.Fold.Numbers.{
  gives_int, gives_real, total, fold_chain, fold_compare, fold_eq, fold_sub,
}
use smt_solver_rust.Preprocess.Fold.Arms.{
  Good, look_cases, const_int, const_real, bv_two-cases, int_two-cases, real_two-cases,
}
use smt_solver_rust.Preprocess.Fold.BitArms.{truth-Good}

chain_ints :
    (f : ℤ → ℤ → ℤ) (i : ℤ) (g : Ratio → Ratio → Ratio) (r : Ratio) (u : Value) (vs : List Value)
    (n : ℤ)
    → ints_from f i (u ∷ vs) ≡ some (int n)
    → chain f i g r (u ∷ vs) ≡ some (int n)
chain_ints f i g r (int j) vs n e = e
chain_ints f i g r _ vs n e = absurd (cc)

chain_reals :
    (f : ℤ → ℤ → ℤ) (i : ℤ) (g : Ratio → Ratio → Ratio) (r : Ratio) (u : Value) (vs : List Value)
    (q : Ratio)
    → reals_from g r (u ∷ vs) ≡ some (real q)
    → chain f i g r (u ∷ vs) ≡ some (real q)
chain_reals f i g r (real s) vs q e = e
chain_reals f i g r _ vs q e = absurd (cc)

module _ (f : ℤ → ℤ → Bool) (g : Ratio → Ratio → Bool) where
  compare_ints :
      (i j : ℤ) (vs : List Value) (v : Value)
      → compare_by f g (int i ∷ (int j ∷ vs)) ≡ some v
      → bool (f i j) ≡ v
  compare_ints i j [] v e = some-injective _ _ e
  compare_ints i j (u ∷ vs) v e = absurd (cc)

  compare_reals :
      (i j : Ratio) (vs : List Value) (v : Value)
      → compare_by f g (real i ∷ (real j ∷ vs)) ≡ some v
      → bool (g i j) ≡ v
  compare_reals i j [] v e = some-injective _ _ e
  compare_reals i j (u ∷ vs) v e = absurd (cc)

  compare_one : (u v : Value) → compare_by f g (u ∷ []) ≡ some v → ⊥
  compare_one (int i) v e = cc
  compare_one (real r) v e = cc
  compare_one _ v e = cc

module _ (R : RatioOps) (Φ : Op → List Value → Value) where
  eq_value :
      (s t : Value) (vs : List Value) (v : Value)
      → denote R Φ eq_op (s ∷ (t ∷ vs)) ≡ some v
      → (b : Bool) × (same R.eq_r s t ≡ some b) × (bool b ≡ v)
  unfolding denote
  eq_value s t [] v e = elim (Option-cases (same R.eq_r s t)) [
    | inl n ↦ absurd (let bad : none ≡ some v = sym (rw (n)) ∙ e in cc)
    | inr (b, n) ↦ (b, n, some-injective _ _ (sym (rw (n)) ∙ e))
  ]
  eq_value s t (u ∷ vs) v e = absurd (cc)

  eq_panics :
      (vs : List Value) (v : Value)
      → denote R Φ eq_op vs ≡ some v
      → (vs ≡ [] → ⊥) × ((u : Value) → vs ≡ u ∷ [] → ⊥)
  unfolding denote
  eq_panics [] v e = absurd (cc)
  eq_panics (s ∷ []) v e = absurd (cc)
  eq_panics (s ∷ (t ∷ vs)) v e = (λ p. cc, λ u p. cc)

  sub_ints :
      (i j : ℤ) (v : Value) → denote R Φ sub_op (int i ∷ (int j ∷ [])) ≡ some v → int (i -ℤ j) ≡ v
  unfolding denote
  sub_ints i j v e = some-injective _ _ e

  sub_reals :
      (i j : Ratio) (v : Value)
      → denote R Φ sub_op (real i ∷ (real j ∷ [])) ≡ some v
      → real (R.sub_r i j) ≡ v
  unfolding denote
  sub_reals i j v e = some-injective _ _ e

same_bits :
    (f : Ratio → Ratio → Bool) (x u y t : ℕ) (b : Bool)
    → same f (bits x u) (bits y t) ≡ some b
    → (x == y) ≡ b
same_bits f x u y t b e = elim (Bool-cases (u == t)) [
  | inl p ↦ some-injective _ _ (sym (rw (p)) ∙ e)
  | inr p ↦ absurd (let bad : none ≡ some b = sym (rw (p)) ∙ e in cc)
]

module _ (R : RatioOps) (Φ : Op → List Value → Value) (a : TermArena) (I : Interp) (w : IsArena a)
    (m : IsModel R Φ a I) (sorts : SortArena) where
  gives_int-Good : (n : ℤ) → Good R Φ a I (int n) (gives_int n sorts a)
  unfolding int_const_term denote
  gives_int-Good n = intern-Yields R Φ (int_const n) [] sorts.int_sort a I (int n) w m tt refl

  gives_real-Good : (q : Ratio) → Good R Φ a I (real q) (gives_real q sorts a)
  unfolding real_const_term denote
  gives_real-Good q =
      intern-Yields R Φ (real_const q.numer q.denom) [] sorts.real_sort a I (real q) w m tt refl

  ints_total :
      (f : ℤ → ℤ → ℤ) (acc : ℤ) (ts : List TermId)
      → All (λ k. k < length a.terms) ts
      → (total int_of f acc a ts ≡ some none)
        ⊎ ((n : ℤ) × (total int_of f acc a ts ≡ some (some n))
            × (ints_from f acc (map I ts) ≡ some (int n)))
  unfolding total
  ints_total f acc [] h = inr (acc, refl, refl)
  ints_total f acc (t ∷ ts) h =
      elim (look_cases R Φ a I m int_of (λ i r. r ≡ int i) (const_int R Φ) t h.0) [
        | inl e ↦ inl (rw (total, e))
        | inr (i, e, v) ↦ elim (ints_total f (f acc i) ts h.1) [
          | inl g ↦ inl (rw (total, e, g))
          | inr (n, g, val) ↦ inr (n, rw (total, e, g), rw (v, val))
        ]
      ]

  reals_total :
      (f : Ratio → Ratio → Ratio) (acc : Ratio) (ts : List TermId)
      → All (λ k. k < length a.terms) ts
      → (total real_of f acc a ts ≡ some none)
        ⊎ ((n : Ratio) × (total real_of f acc a ts ≡ some (some n))
            × (reals_from f acc (map I ts) ≡ some (real n)))
  unfolding total
  reals_total f acc [] h = inr (acc, refl, refl)
  reals_total f acc (t ∷ ts) h =
      elim (look_cases R Φ a I m real_of (λ i r. r ≡ real i) (const_real R Φ) t h.0) [
        | inl e ↦ inl (rw (total, e))
        | inr (i, e, v) ↦ elim (reals_total f (f acc i) ts h.1) [
          | inl g ↦ inl (rw (total, e, g))
          | inr (n, g, val) ↦ inr (n, rw (total, e, g), rw (v, val))
        ]
      ]

  pub fold_chain-Good :
      (f : ℤ → ℤ → ℤ) (i : ℤ) (g : Ratio → Ratio → Ratio) (q : Ratio) (args : List TermId)
      (v : Value)
      → All (λ k. k < length a.terms) args
      → chain f i g q (map I args) ≡ some v
      → Good R Φ a I v (fold_chain f i g q args sorts a)
  unfolding fold_chain
  fold_chain-Good f i g q [] v h e = tt
  fold_chain-Good f i g q (x ∷ xs) v h e = elim (ints_total f i (x ∷ xs) h) [
    | inr (n, l, val) ↦
        let r : fold_chain f i g q (x ∷ xs) sorts a ≡ gives_int n sorts a = rw (fold_chain, l) in
        subst (Good R Φ a I v) (sym r) (
          subst (λ t. Good R Φ a I t (gives_int n sorts a))
            (some-injective _ _ (sym (chain_ints f i g q (I x) (map I xs) n val) ∙ e))
            (gives_int-Good n))
    | inl l ↦ elim (reals_total g q (x ∷ xs) h) [
      | inr (n, k, val) ↦
          let r : fold_chain f i g q (x ∷ xs) sorts a ≡ gives_real n sorts a =
            rw (fold_chain, l, k) in
          subst (Good R Φ a I v) (sym r) (
            subst (λ t. Good R Φ a I t (gives_real n sorts a))
              (some-injective _ _ (sym (chain_reals f i g q (I x) (map I xs) n val) ∙ e))
              (gives_real-Good n))
      | inl k ↦
          let r : fold_chain f i g q (x ∷ xs) sorts a ≡ falls = rw (fold_chain, l, k) in
          subst (Good R Φ a I v) (sym r) tt
    ]
  ]

  pub fold_compare-Good :
      (f : ℤ → ℤ → Bool) (g : Ratio → Ratio → Bool) (args : List TermId) (v : Value)
      → All (λ k. k < length a.terms) args
      → compare_by f g (map I args) ≡ some v
      → Good R Φ a I v (fold_compare f g args sorts a)
  unfolding fold_compare
  fold_compare-Good f g [] v h e = cc
  fold_compare-Good f g (x ∷ []) v h e = compare_one f g (I x) v e
  fold_compare-Good f g (x ∷ (y ∷ zs)) v h e =
      let args = x ∷ (y ∷ zs) in
      elim (int_two-cases R Φ a I m x y h.0 h.1.0) [
        | inr (i, j, l, p, q) ↦
            let r : fold_compare f g args sorts a ≡ truth (f i j) sorts a = rw (fold_compare, l) in
            subst (Good R Φ a I v) (sym r) (
              subst (λ t. Good R Φ a I t (truth (f i j) sorts a))
                (compare_ints f g i j (map I zs) v
                  ((λ t. compare_by f g (sym p t ∷ (sym q t ∷ map I zs))) ∙ e))
                (truth-Good R Φ a I w m sorts (f i j)))
        | inl n ↦ elim (real_two-cases R Φ a I m x y h.0 h.1.0) [
          | inr (i, j, l, p, q) ↦
              let r : fold_compare f g args sorts a ≡ truth (g i j) sorts a =
                rw (fold_compare, n, l) in
              subst (Good R Φ a I v) (sym r) (
                subst (λ t. Good R Φ a I t (truth (g i j) sorts a))
                  (compare_reals f g i j (map I zs) v
                    ((λ t. compare_by f g (sym p t ∷ (sym q t ∷ map I zs))) ∙ e))
                  (truth-Good R Φ a I w m sorts (g i j)))
          | inl k ↦
              let r : fold_compare f g args sorts a ≡ falls = rw (fold_compare, n, k) in
              subst (Good R Φ a I v) (sym r) tt
        ]
      ]

  -- A truth value found under one reading of an equation's two sides.
  found-Good : (c b : Bool) (v : Value) → c ≡ b → bool b ≡ v → Good R Φ a I v (truth c sorts a)
  found-Good c b v e f =
      subst (λ t. Good R Φ a I t (truth c sorts a)) (ap bool e ∙ f) (truth-Good R Φ a I w m sorts c)

  pub fold_eq-Good :
      (args : List TermId) (v : Value)
      → All (λ k. k < length a.terms) args
      → denote R Φ eq_op (map I args) ≡ some v
      → Good R Φ a I v (fold_eq R args sorts a)
  unfolding fold_eq
  fold_eq-Good [] v h e = (eq_panics R Φ [] v e).0 refl
  fold_eq-Good (x ∷ []) v h e = (eq_panics R Φ (map I (x ∷ [])) v e).1 (I x) refl
  fold_eq-Good (x ∷ (y ∷ zs)) v h e =
      let (b, s, val) = eq_value R Φ (I x) (I y) (map I zs) v e in
      let args = x ∷ (y ∷ zs) in
      elim (Bool-cases (x == y)) [
        | inl p ↦
            let r : fold_eq R args sorts a ≡ gives sorts a a.true_id = rw (fold_eq, p) in
            let one : true ≡ b =
              some-injective _ _
                (sym (same_self R (I x)) ∙ ap (λ k. same R.eq_r (I x) (I k)) (==→≡ x y p) ∙ s) in
            subst (Good R Φ a I v) (sym r) (
              subst (λ t. Yields R Φ a I t (a, a.true_id)) (ap bool one ∙ val)
                (here_true R Φ a I w m))
        | inr p ↦ elim (bv_two-cases R Φ a I m x y h.0 h.1.0) [
          | inr (i, j, l, (ix, fi), (jy, fj)) ↦
              let r : fold_eq R args sorts a ≡ truth (i.0 == j.0) sorts a = rw (fold_eq, p, l) in
              subst (Good R Φ a I v) (sym r) (
                found-Good (i.0 == j.0) b v
                  (same_bits R.eq_r i.0 i.1 j.0 j.1 b
                    ((λ t. same R.eq_r (sym ix t) (sym jy t)) ∙ s))
                  val)
          | inl n ↦ elim (int_two-cases R Φ a I m x y h.0 h.1.0) [
            | inr (i, j, l, ix, jy) ↦
                let r : fold_eq R args sorts a ≡ truth (eqb_ℤ i j) sorts a =
                  rw (fold_eq, p, n, l) in
                subst (Good R Φ a I v) (sym r) (
                  found-Good (eqb_ℤ i j) b v
                    (some-injective _ _ ((λ t. same R.eq_r (sym ix t) (sym jy t)) ∙ s)) val)
            | inl k ↦ elim (real_two-cases R Φ a I m x y h.0 h.1.0) [
              | inr (i, j, l, ix, jy) ↦
                  let r : fold_eq R args sorts a ≡ truth (R.eq_r i j) sorts a =
                    rw (fold_eq, p, n, k, l) in
                  subst (Good R Φ a I v) (sym r) (
                    found-Good (R.eq_r i j) b v
                      (some-injective _ _ ((λ t. same R.eq_r (sym ix t) (sym jy t)) ∙ s)) val)
              | inl q ↦
                  let r : fold_eq R args sorts a ≡ falls = rw (fold_eq, p, n, k, q) in
                  subst (Good R Φ a I v) (sym r) tt
            ]
          ]
        ]
      ]

  pub fold_sub-Good :
      (args : List TermId) (v : Value)
      → All (λ k. k < length a.terms) args
      → denote R Φ sub_op (map I args) ≡ some v
      → Good R Φ a I v (fold_sub R args sorts a)
  unfolding fold_sub
  fold_sub-Good [] v h e = tt
  fold_sub-Good (x ∷ []) v h e = tt
  fold_sub-Good (x ∷ (y ∷ (z ∷ zs))) v h e = tt
  fold_sub-Good (x ∷ (y ∷ [])) v h e =
      let args = x ∷ (y ∷ []) in
      elim (int_two-cases R Φ a I m x y h.0 h.1.0) [
        | inr (i, j, l, p, q) ↦
            let r : fold_sub R args sorts a ≡ gives_int (i -ℤ j) sorts a = rw (fold_sub, l) in
            subst (Good R Φ a I v) (sym r) (
              subst (λ t. Good R Φ a I t (gives_int (i -ℤ j) sorts a))
                (sub_ints R Φ i j v ((λ t. denote R Φ sub_op (sym p t ∷ (sym q t ∷ []))) ∙ e))
                (gives_int-Good (i -ℤ j)))
        | inl n ↦ elim (real_two-cases R Φ a I m x y h.0 h.1.0) [
          | inr (i, j, l, p, q) ↦
              let d = R.sub_r i j in
              let r : fold_sub R args sorts a ≡ gives_real d sorts a = rw (fold_sub, n, l) in
              subst (Good R Φ a I v) (sym r) (
                subst (λ t. Good R Φ a I t (gives_real d sorts a))
                  (sub_reals R Φ i j v ((λ t. denote R Φ sub_op (sym p t ∷ (sym q t ∷ []))) ∙ e))
                  (gives_real-Good d))
          | inl k ↦
              let r : fold_sub R args sorts a ≡ falls = rw (fold_sub, n, k) in
              subst (Good R Φ a I v) (sym r) tt
        ]
      ]
