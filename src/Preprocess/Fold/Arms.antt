-- ===== src/Preprocess/Fold/Arms.antt =====
-- crates/smt-preprocess/src/constant_folding.rs: what an arm of `fold_term` promises, and what the
-- constants that the arms look up are.
use mathlib.Core.Path.{subst}
use mathlib.Core.Option.{some-injective}
use smt_solver_rust.Common.{
  ℕ, ◌^◌, ◌≤◌, ◌<◌, ◌≡◌, sym, ◌∙◌, true, Option, none, some, List, [], ◌∷◌, map, length, arith,
  Option-cases, Bool-cases, ◌⊎◌, inl, inr, get_elem?-of_lt, get_or,
}
use smt_solver_rust.Common.Int.{ℤ}
use smt_solver_rust.Core.Op.{Op, true_op, bv_const, int_const, real_const}
use smt_solver_rust.Core.Term.{TermId, TermData, TermArena, get_term, op_of}
use smt_solver_rust.Core.Meaning.{Ratio, RatioOps, Value, bits, int, real, fits, denote}
use smt_solver_rust.Core.Meaning.Model.{Interp, IsModel, Yields}
use smt_solver_rust.Preprocess.Fold.{
  Arm, panics, falls, gives, bv_of, int_of, real_of, look, look_two,
}

-- A bit-vector that the sorts allow.
abbrev pub Fits : ℕ → ℕ → Type 0
Fits x w = (0 < w) × (w ≤ 65536) × (x < 2 ^ w)

pub fits-Fits : (x w : ℕ) → fits x w ≡ true → Fits x w
fits-Fits x w h = ground arith

module _ (R : RatioOps) (Φ : Op → List Value → Value) where
  -- The arm does not panic, and what it returns yields the value.
  abbrev pub Good : TermArena → Interp → Value → Arm → Type 0
  Good a I v panics = ⊥
  Good a I v falls = Unit
  Good a I v (gives sorts b id) = Yields R Φ a I v (b, id)

  pub const_bits :
      (o : Op) (vs : List Value) (r : Value) (p : ℕ × ℕ)
      → bv_of o ≡ some p
      → denote R Φ o vs ≡ some r
      → (r ≡ bits p.0 p.1) × Fits p.0 p.1
  unfolding denote
  const_bits (bv_const x w) [] r p e d = elim (Bool-cases (fits x w)) [
    | inl t ↦
        let val : bits x w ≡ r = some-injective _ _ (sym (rw (t)) ∙ d) in
        subst (λ (q : ℕ × ℕ). (r ≡ bits q.0 q.1) × Fits q.0 q.1) (some-injective _ _ e)
          (sym val, fits-Fits x w t)
    | inr t ↦ absurd (let bad : none ≡ some r = sym (rw (t)) ∙ d in cc)
  ]
  const_bits (bv_const x w) (v ∷ vs) r p e d = absurd (cc)
  const_bits _ vs r p e d = absurd (cc)

  pub const_int :
      (o : Op) (vs : List Value) (r : Value) (i : ℤ)
      → int_of o ≡ some i
      → denote R Φ o vs ≡ some r
      → r ≡ int i
  unfolding denote
  const_int (int_const j) [] r i e d = cc
  const_int (int_const j) (v ∷ vs) r i e d = absurd (cc)
  const_int _ vs r i e d = absurd (cc)

  pub const_real :
      (o : Op) (vs : List Value) (r : Value) (q : Ratio)
      → real_of o ≡ some q
      → denote R Φ o vs ≡ some r
      → r ≡ real q
  unfolding denote
  const_real (real_const n d) [] r q e f = cc
  const_real (real_const n d) (v ∷ vs) r q e f = absurd (cc)
  const_real _ vs r q e f = absurd (cc)

  module _ (a : TermArena) (I : Interp) (m : IsModel R Φ a I) where
    -- What an operator matches says what its term's value is.
    module _ {A : Type 0} (f : Op → Option A) (Q : A → Value → Type 0)
        (reads : (o : Op) (vs : List Value) (r : Value) (u : A)
          → f o ≡ some u
          → denote R Φ o vs ≡ some r
          → Q u r) where
      pub look_cases :
          (x : TermId)
          → x < length a.terms
          → (look f a x ≡ some none) ⊎ ((u : A) × (look f a x ≡ some (some u)) × Q u (I x))
      unfolding look op_of get_term
      look_cases x h =
          let d : TermData = record { op = true_op; args = []; sort = 0 } in
          let t = get_or a.terms x d in
          let at = get_elem?-of_lt a.terms x d h in
          elim (Option-cases (f t.op)) [
            | inl e ↦ inl (rw (at, e))
            | inr (u, e) ↦ inr (u, rw (at, e), reads t.op (map I t.args) (I x) u e (m x t at))
          ]

      pub look_two-cases :
          (x y : TermId)
          → x < length a.terms
          → y < length a.terms
          → (look_two f a x y ≡ some none)
            ⊎ ((u v : A) × (look_two f a x y ≡ some (some (u, v))) × Q u (I x) × Q v (I y))
      unfolding look_two
      look_two-cases x y h l = elim (look_cases x h) [
        | inl e ↦ elim (look_cases y l) [
          | inl g ↦ inl (rw (e, g))
          | inr (v, g, k) ↦ inl (rw (e, g))
        ]
        | inr (u, e, j) ↦ elim (look_cases y l) [
          | inl g ↦ inl (rw (e, g))
          | inr (v, g, k) ↦ inr (u, v, rw (e, g), j, k)
        ]
      ]

    abbrev pub BitsAt : ℕ × ℕ → Value → Type 0
    BitsAt p r = (r ≡ bits p.0 p.1) × Fits p.0 p.1

    pub bv-cases :
        (x : TermId)
        → x < length a.terms
        → (look bv_of a x ≡ some none)
          ⊎ ((p : ℕ × ℕ) × (look bv_of a x ≡ some (some p)) × BitsAt p (I x))
    bv-cases = look_cases bv_of BitsAt const_bits

    pub bv_two-cases :
        (x y : TermId)
        → x < length a.terms
        → y < length a.terms
        → (look_two bv_of a x y ≡ some none)
          ⊎ ((p q : ℕ × ℕ) × (look_two bv_of a x y ≡ some (some (p, q)))
              × BitsAt p (I x)
              × BitsAt q (I y))
    bv_two-cases = look_two-cases bv_of BitsAt const_bits

    pub int_two-cases :
        (x y : TermId)
        → x < length a.terms
        → y < length a.terms
        → (look_two int_of a x y ≡ some none)
          ⊎ ((i j : ℤ) × (look_two int_of a x y ≡ some (some (i, j)))
              × (I x ≡ int i)
              × (I y ≡ int j))
    int_two-cases = look_two-cases int_of (λ i r. r ≡ int i) const_int

    pub real_two-cases :
        (x y : TermId)
        → x < length a.terms
        → y < length a.terms
        → (look_two real_of a x y ≡ some none)
          ⊎ ((i j : Ratio) × (look_two real_of a x y ≡ some (some (i, j)))
              × (I x ≡ real i)
              × (I y ≡ real j))
    real_two-cases = look_two-cases real_of (λ i r. r ≡ real i) const_real
