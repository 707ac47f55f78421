-- ===== src/Preprocess/Fold/BitArms.antt =====
-- crates/smt-preprocess/src/constant_folding.rs: the arms of `fold_term` for bit-vectors.
use mathlib.Core.Path.{subst}
use mathlib.Core.Option.{some-injective}
use smt_solver_rust.Common.{
  ℕ, ◌+◌, ◌-◌, ◌*◌, ◌/◌, ◌%◌, ◌^◌, ◌≤◌, ◌<◌, ◌≡◌, sym, ap, ◌∙◌, Bool, true, false, ◌&&◌, none, some,
  List, [], ◌∷◌, ◌==◌, ltb, leb, map, length, All, arith, Bool-cases, inl, inr, bit_and, bit_or,
  bit_xor, ==→≡,
}
use native.Mathlib.Nat.{mod-lt, one-le-pow}
use smt_solver_rust.Core.Sort
use smt_solver_rust.Core.Sort.{SortArena, bv, bit_vec}
use smt_solver_rust.Core.Op.{Op, bv_const, bv_not, bv_concat, bv_extract}
use smt_solver_rust.Core.Term.{TermId, TermArena, intern, mask, bv_const_term}
use smt_solver_rust.Core.Term.Pool.{IsArena}
use smt_solver_rust.Core.Meaning.{RatioOps, Value, bool, bits, fits, bits_op, bits_test, denote}
use smt_solver_rust.Core.Meaning.Model.{Interp, IsModel, Yields-here, intern-Yields}
use smt_solver_rust.Core.Meaning.Terms.{true_value, false_value}
use smt_solver_rust.Preprocess.Fold.{
  falls, gives, gives_bv, truth, fold_bits, fold_test, fold_bv_not, fold_concat, fold_extract,
}
use smt_solver_rust.Preprocess.Fold.Digits.{
  Computes, twice, bit_and-masked, not-Computes, concat-Computes,
}
use smt_solver_rust.Preprocess.Fold.Arms.{fits-Fits, Good, bv-cases, bv_two-cases}

-- Two operands of one width.
bits_op-shape :
    (g : ℕ → ℕ → ℕ → ℕ) (vs : List Value) (v : Value)
    → bits_op g vs ≡ some v
    → (x y u : ℕ) × (vs ≡ bits x u ∷ (bits y u ∷ [])) × (bits (g u x y) u ≡ v)
bits_op-shape g (bits x u ∷ (bits y t ∷ [])) v e = elim (Bool-cases (u == t)) [
  | inl p ↦ (
    x,
    y,
    u,
    ap (λ n. bits x u ∷ (bits y n ∷ [])) (sym (==→≡ u t p)),
    some-injective _ _ (sym (rw (p)) ∙ e),
  )
  | inr p ↦ absurd (let bad : none ≡ some v = sym (rw (p)) ∙ e in cc)
]
bits_op-shape g _ v e = absurd (cc)

bits_test-shape :
    (g : ℕ → ℕ → Bool) (vs : List Value) (v : Value)
    → bits_test g vs ≡ some v
    → (x y u : ℕ) × (vs ≡ bits x u ∷ (bits y u ∷ [])) × (bool (g x y) ≡ v)
bits_test-shape g (bits x u ∷ (bits y t ∷ [])) v e = elim (Bool-cases (u == t)) [
  | inl p ↦ (
    x,
    y,
    u,
    ap (λ n. bits x u ∷ (bits y n ∷ [])) (sym (==→≡ u t p)),
    some-injective _ _ (sym (rw (p)) ∙ e),
  )
  | inr p ↦ absurd (let bad : none ≡ some v = sym (rw (p)) ∙ e in cc)
]
bits_test-shape g _ v e = absurd (cc)

module _ (R : RatioOps) (Φ : Op → List Value → Value) (a : TermArena) (I : Interp) (w : IsArena a)
    (m : IsModel R Φ a I) (sorts : SortArena) where
  not_value :
      (x u : ℕ) (vs : List Value) (v : Value)
      → denote R Φ bv_not (bits x u ∷ vs) ≡ some v
      → bits (2 ^ u - 1 - x) u ≡ v
  unfolding denote
  not_value x u [] v e = some-injective _ _ e
  not_value x u (y ∷ vs) v e = absurd (cc)

  extract_value :
      (high low x u : ℕ) (vs : List Value) (v : Value)
      → denote R Φ (bv_extract high low) (bits x u ∷ vs) ≡ some v
      → (ltb high low ≡ false)
        × (high < u)
        × (bits (x / 2 ^ low % 2 ^ (high - low + 1)) (high - low + 1) ≡ v)
  unfolding denote
  extract_value high low x u [] v e = elim (Bool-cases (leb low high && ltb high u)) [
    | inl p ↦ (ground arith, ground arith, some-injective _ _ (sym (rw (p)) ∙ e))
    | inr p ↦ absurd (let bad : none ≡ some v = sym (rw (p)) ∙ e in cc)
  ]
  extract_value high low x u (y ∷ vs) v e = absurd (cc)

  concat_one : (u v : Value) → denote R Φ bv_concat (u ∷ []) ≡ some v → ⊥
  unfolding denote
  concat_one (bits x w) v e = cc
  concat_one _ v e = cc

  concat_value :
      (p q : ℕ × ℕ) (vs : List Value) (v : Value)
      → denote R Φ bv_concat (bits p.0 p.1 ∷ (bits q.0 q.1 ∷ vs)) ≡ some v
      → (p.1 + q.1 ≤ 65536)
        × (p.0 * 2 ^ q.1 + q.0 < 2 ^ (p.1 + q.1))
        × (bits (p.0 * 2 ^ q.1 + q.0) (p.1 + q.1) ≡ v)
  unfolding denote
  concat_value p q [] v e = elim (Bool-cases (fits (p.0 * 2 ^ q.1 + q.0) (p.1 + q.1))) [
    | inl t ↦
        let (h, k, l) = fits-Fits (p.0 * 2 ^ q.1 + q.0) (p.1 + q.1) t in
        (k, l, some-injective _ _ (sym (rw (t)) ∙ e))
    | inr t ↦ absurd (let bad : none ≡ some v = sym (rw (t)) ∙ e in cc)
  ]
  concat_value p q (y ∷ vs) v e = absurd (cc)

  -- Interning a bit-vector constant of an allowed width yields the number, reduced to the width.
  pub bv_const_term-Good :
      (value width : ℕ)
      → 0 < width
      → width ≤ 65536
      → Good R Φ a I (bits (value % 2 ^ width) width) (gives_bv (bv_const_term value width sorts a))
  unfolding bv_const_term bv denote
  bv_const_term-Good value width h k =
      let v = value % 2 ^ width in
      let ok : (ltb 0 width && leb width 65536) ≡ true = ground arith in
      let fit : fits v width ≡ true =
        ground (arith, mod-lt value (one-le-pow width 2 (omega arith))) in
      let same : bit_and value (mask width) ≡ v = bit_and-masked width value h in
      let sort = (Sort.intern (bit_vec width) sorts).1 in
      let e : gives_bv (bv_const_term value width sorts a)
          ≡ gives (Sort.intern (bit_vec width) sorts).0 (intern (bv_const v width) [] sort a).0
              (intern (bv_const v width) [] sort a).1 =
        rw (bv_const_term, bv, ok, same) in
      subst (Good R Φ a I (bits v width)) (sym e)
        (intern-Yields R Φ (bv_const v width) [] sort a I (bits v width) w m tt (rw (fit)))

  pub truth-Good : (b : Bool) → Good R Φ a I (bool b) (truth b sorts a)
  truth-Good true =
      let (e, h) = true_value R Φ a I w m in Yields-here R Φ a I a.true_id (bool true) w m h e
  truth-Good false =
      let (e, h) = false_value R Φ a I w m in Yields-here R Φ a I a.false_id (bool false) w m h e

  -- An arm whose number is the one that SMT-LIB gives yields the value of the operation.
  pub fold_bits-Good :
      (f g : ℕ → ℕ → ℕ → ℕ)
      → Computes f g
      → (args : List TermId) (v : Value) → All (λ k. k < length a.terms) args
      → bits_op g (map I args) ≡ some v
      → Good R Φ a I v (fold_bits f args sorts a)
  unfolding fold_bits
  fold_bits-Good f g c [] v h e = absurd (cc)
  fold_bits-Good f g c (x ∷ []) v h e =
      let (x0, y0, u, shape, val) = bits_op-shape g (map I (x ∷ [])) v e in absurd (cc)
  fold_bits-Good f g c (x ∷ (y ∷ zs)) v h e = elim (bv_two-cases R Φ a I m x y h.0 h.1.0) [
    | inl n ↦
        let r : fold_bits f (x ∷ (y ∷ zs)) sorts a ≡ falls = rw (fold_bits, n) in
        subst (Good R Φ a I v) (sym r) tt
    | inr (p, q, l, (i, (h0, k0, b0)), (j, (h1, k1, b1))) ↦
        let (x0, y0, u, shape, val) = bits_op-shape g (map I (x ∷ (y ∷ zs))) v e in
        let px : x0 ≡ p.0 = cc in
        let pu : u ≡ p.1 = cc in
        let qy : y0 ≡ q.0 = cc in
        let qu : q.1 ≡ p.1 = cc in
        let r : fold_bits f (x ∷ (y ∷ zs)) sorts a
            ≡ gives_bv (bv_const_term (f p.1 p.0 q.0) p.1 sorts a) =
          rw (fold_bits, l) in
        let goal : bits (f p.1 p.0 q.0 % 2 ^ p.1) p.1 ≡ v =
          ap (λ n. bits n p.1) (c p.1 p.0 q.0 h0 k0 b0 (subst (λ n. q.0 < 2 ^ n) qu b1))
          ∙ ap (λ (t : ℕ × ℕ × ℕ). bits (g t.0 t.1 t.2) t.0) (λ i. (sym pu i, sym px i, sym qy i))
          ∙ val in
        subst (Good R Φ a I v) (sym r) (
          subst (λ t. Good R Φ a I t (gives_bv (bv_const_term (f p.1 p.0 q.0) p.1 sorts a))) goal
            (bv_const_term-Good (f p.1 p.0 q.0) p.1 h0 k0))
  ]

  pub fold_test-Good :
      (f : ℕ → ℕ → Bool) (args : List TermId) (v : Value)
      → All (λ k. k < length a.terms) args
      → bits_test f (map I args) ≡ some v
      → Good R Φ a I v (fold_test f args sorts a)
  unfolding fold_test
  fold_test-Good f [] v h e = absurd (cc)
  fold_test-Good f (x ∷ []) v h e =
      let (x0, y0, u, shape, val) = bits_test-shape f (map I (x ∷ [])) v e in absurd (cc)
  fold_test-Good f (x ∷ (y ∷ zs)) v h e = elim (bv_two-cases R Φ a I m x y h.0 h.1.0) [
    | inl n ↦
        let r : fold_test f (x ∷ (y ∷ zs)) sorts a ≡ falls = rw (fold_test, n) in
        subst (Good R Φ a I v) (sym r) tt
    | inr (p, q, l, (i, s), (j, t)) ↦
        let (x0, y0, u, shape, val) = bits_test-shape f (map I (x ∷ (y ∷ zs))) v e in
        let px : x0 ≡ p.0 = cc in
        let qy : y0 ≡ q.0 = cc in
        let r : fold_test f (x ∷ (y ∷ zs)) sorts a ≡ truth (f p.0 q.0) sorts a =
          rw (fold_test, l) in
        subst (Good R Φ a I v) (sym r) (
          subst (λ t. Good R Φ a I t (truth (f p.0 q.0) sorts a))
            ((λ i. bool (f (sym px i) (sym qy i))) ∙ val) (truth-Good (f p.0 q.0)))
  ]

  pub fold_bv_not-Good :
      (args : List TermId) (v : Value)
      → All (λ k. k < length a.terms) args
      → denote R Φ bv_not (map I args) ≡ some v
      → Good R Φ a I v (fold_bv_not args sorts a)
  unfolding fold_bv_not denote
  fold_bv_not-Good [] v h e = absurd (cc)
  fold_bv_not-Good (x ∷ zs) v h e = elim (bv-cases R Φ a I m x h.0) [
    | inl n ↦
        let r : fold_bv_not (x ∷ zs) sorts a ≡ falls = rw (fold_bv_not, n) in
        subst (Good R Φ a I v) (sym r) tt
    | inr (p, l, (i, (h0, k0, b0))) ↦
        let r : fold_bv_not (x ∷ zs) sorts a
            ≡ gives_bv (bv_const_term (bit_xor (mask p.1) p.0) p.1 sorts a) =
          rw (fold_bv_not, l) in
        let goal : bits (bit_xor (mask p.1) p.0 % 2 ^ p.1) p.1 ≡ v =
          ap (λ n. bits n p.1) (not-Computes p.1 p.0 h0 b0)
          ∙ not_value p.0 p.1 (map I zs) v
              (ap (λ t. denote R Φ bv_not (t ∷ map I zs)) (sym i) ∙ e) in
        subst (Good R Φ a I v) (sym r) (
          subst
            (λ t. Good R Φ a I t (gives_bv (bv_const_term (bit_xor (mask p.1) p.0) p.1 sorts a)))
            goal (bv_const_term-Good (bit_xor (mask p.1) p.0) p.1 h0 k0))
  ]

  pub fold_extract-Good :
      (high low : ℕ) (args : List TermId) (v : Value)
      → All (λ k. k < length a.terms) args
      → denote R Φ (bv_extract high low) (map I args) ≡ some v
      → Good R Φ a I v (fold_extract high low args sorts a)
  unfolding fold_extract denote
  fold_extract-Good high low [] v h e = absurd (cc)
  fold_extract-Good high low (x ∷ zs) v h e = elim (bv-cases R Φ a I m x h.0) [
    | inl n ↦
        let r : fold_extract high low (x ∷ zs) sorts a ≡ falls = rw (fold_extract, n) in
        subst (Good R Φ a I v) (sym r) tt
    | inr (p, l, (i, (h0, k0, b0))) ↦
        let width = high - low + 1 in
        let n = bit_and (p.0 / 2 ^ low) (mask width) in
        let (order, top, val) =
          extract_value high low p.0 p.1 (map I zs) v
            (ap (λ t. denote R Φ (bv_extract high low) (t ∷ map I zs)) (sym i) ∙ e) in
        let r : fold_extract high low (x ∷ zs) sorts a ≡ gives_bv (bv_const_term n width sorts a) =
          rw (fold_extract, l, order) in
        let goal : bits (n % 2 ^ width) width ≡ v =
          ap (λ k. bits k width) (twice width (p.0 / 2 ^ low) (omega arith)) ∙ val in
        subst (Good R Φ a I v) (sym r) (
          subst (λ t. Good R Φ a I t (gives_bv (bv_const_term n width sorts a))) goal
            (bv_const_term-Good n width (omega arith) (omega arith)))
  ]

  pub fold_concat-Good :
      (args : List TermId) (v : Value)
      → All (λ k. k < length a.terms) args
      → denote R Φ bv_concat (map I args) ≡ some v
      → Good R Φ a I v (fold_concat args sorts a)
  unfolding fold_concat denote
  fold_concat-Good [] v h e = absurd (cc)
  fold_concat-Good (x ∷ []) v h e = absurd (concat_one (I x) v e)
  fold_concat-Good (x ∷ (y ∷ zs)) v h e = elim (bv_two-cases R Φ a I m x y h.0 h.1.0) [
    | inl n ↦
        let r : fold_concat (x ∷ (y ∷ zs)) sorts a ≡ falls = rw (fold_concat, n) in
        subst (Good R Φ a I v) (sym r) tt
    | inr (p, q, l, (i, (h0, k0, b0)), (j, (h1, k1, b1))) ↦
        let width = p.1 + q.1 in
        let n = bit_and (bit_or (p.0 * 2 ^ q.1) q.0) (mask width) in
        let (k, below, val) =
          concat_value p q (map I zs) v
            ((λ t. denote R Φ bv_concat (sym i t ∷ (sym j t ∷ map I zs))) ∙ e) in
        let r : fold_concat (x ∷ (y ∷ zs)) sorts a ≡ gives_bv (bv_const_term n width sorts a) =
          rw (fold_concat, l) in
        let goal : bits (n % 2 ^ width) width ≡ v =
          ap (λ k. bits k width) (concat-Computes p.1 q.1 p.0 q.0 h0 h1 below b1) ∙ val in
        subst (Good R Φ a I v) (sym r) (
          subst (λ t. Good R Φ a I t (gives_bv (bv_const_term n width sorts a))) goal
            (bv_const_term-Good n width (omega arith) k))
  ]
