-- ===== src/Preprocess/Fold/JunctionArms.antt =====
-- crates/smt-preprocess/src/constant_folding.rs: the arms of `fold_term` for `And` and `Or`.
use mathlib.Core.Path.{subst}
use mathlib.Core.Option.{some-injective}
use smt_solver_rust.Common.{
  ℕ, ◌<◌, ◌≡◌, refl, sym, ap, ◌∙◌, Bool, true, false, none, some, List, [], ◌∷◌, ◌==◌, map, length,
  All, arith, Option-cases, Bool-cases, inl, inr,
}
use smt_solver_rust.Core.Sort.{SortArena}
use smt_solver_rust.Core.Op.{Op, and_op, or_op}
use smt_solver_rust.Core.Term.{TermId, TermArena}
use smt_solver_rust.Core.Term.Pool.{IsArena}
use smt_solver_rust.Core.Meaning.{RatioOps, Value, bool, bool_and, bool_or, denote}
use smt_solver_rust.Core.Meaning.Model.{Interp, IsModel, Yields}
use smt_solver_rust.Core.Meaning.Terms.{
  here_true, here_false, read_true, read_false, bool_and-cons, bool_or-cons, join_and-Yields,
  join_or-Yields,
}
use smt_solver_rust.Preprocess.Fold.{gives, contains, without, collect, fold_and, fold_or}
use smt_solver_rust.Preprocess.Fold.Arms.{Good}

-- The value of a conjunction or a disjunction.
and_value :
    (R : RatioOps) (Φ : Op → List Value → Value) (vs : List Value) (v : Value)
    → denote R Φ and_op vs ≡ some v
    → (c : Bool) × (bool_and vs ≡ some c) × (bool c ≡ v)
unfolding denote
and_value R Φ vs v e = elim (Option-cases (bool_and vs)) [
  | inl n ↦ absurd (let bad : none ≡ some v = sym (rw (n)) ∙ e in cc)
  | inr (c, n) ↦ (c, n, some-injective _ _ (sym (rw (n)) ∙ e))
]

or_value :
    (R : RatioOps) (Φ : Op → List Value → Value) (vs : List Value) (v : Value)
    → denote R Φ or_op vs ≡ some v
    → (c : Bool) × (bool_or vs ≡ some c) × (bool c ≡ v)
unfolding denote
or_value R Φ vs v e = elim (Option-cases (bool_or vs)) [
  | inl n ↦ absurd (let bad : none ≡ some v = sym (rw (n)) ∙ e in cc)
  | inr (c, n) ↦ (c, n, some-injective _ _ (sym (rw (n)) ∙ e))
]

below_without :
    (n : ℕ) (x : TermId) (ts : List TermId) → All (λ k. k < n) ts → All (λ k. k < n) (without x ts)
below_without n x [] h = tt
below_without n x (t ∷ ts) h = elim (Bool-cases (t == x)) [
  | inl p ↦
      let r : without x (t ∷ ts) ≡ without x ts = rw (p) in
      subst (All (λ k. k < n)) (sym r) (below_without n x ts h.1)
  | inr p ↦
      let r : without x (t ∷ ts) ≡ t ∷ without x ts = rw (p) in
      subst (All (λ k. k < n)) (sym r) (h.0, below_without n x ts h.1)
]

module _ (R : RatioOps) (Φ : Op → List Value → Value) (a : TermArena) (I : Interp) (w : IsArena a)
    (m : IsModel R Φ a I) (sorts : SortArena) where
  false_among :
      (ts : List TermId) (c : Bool)
      → contains a.false_id ts ≡ true
      → bool_and (map I ts) ≡ some c
      → false ≡ c
  false_among [] c h e = absurd (cc)
  false_among (t ∷ ts) c h e =
      let (b, v, d, f, g) = bool_and-cons (I t) (map I ts) c e in
      elim (Bool-cases (t == a.false_id)) [
        | inl p ↦ let r = read_false R Φ a I w m t b p v in ground arith
        | inr p ↦ let r = false_among ts d (sym (rw (p)) ∙ h) f in ground arith
      ]

  without_true :
      (ts : List TermId) (c : Bool)
      → bool_and (map I ts) ≡ some c
      → bool_and (map I (without a.true_id ts)) ≡ some c
  without_true [] c e = e
  without_true (t ∷ ts) c e =
      let (b, v, d, f, g) = bool_and-cons (I t) (map I ts) c e in
      let rest = without_true ts d f in
      elim (Bool-cases (t == a.true_id)) [
        | inl p ↦ rw (p) (rest ∙ ap some (let r = read_true R Φ a I w m t b p v in ground arith))
        | inr p ↦ rw (p, v, rest, g) refl
      ]

  collect_and-Good :
      (ts : List TermId) (c : Bool)
      → All (λ k. k < length a.terms) ts
      → bool_and (map I ts) ≡ some c
      → Good R Φ a I (bool c) (collect and_op a.true_id ts sorts a)
  collect_and-Good [] c h e = join_and-Yields R Φ a I w m [] sorts.bool_sort c h e
  collect_and-Good (t ∷ []) c h e = join_and-Yields R Φ a I w m (t ∷ []) sorts.bool_sort c h e
  collect_and-Good (t ∷ (u ∷ ts)) c h e =
      join_and-Yields R Φ a I w m (t ∷ (u ∷ ts)) sorts.bool_sort c h e

  pub fold_and-Good :
      (args : List TermId) (v : Value)
      → All (λ k. k < length a.terms) args
      → denote R Φ and_op (map I args) ≡ some v
      → Good R Φ a I v (fold_and args sorts a)
  unfolding fold_and
  fold_and-Good args v h e =
      let (c, f, g) = and_value R Φ (map I args) v e in
      elim (Bool-cases (contains a.false_id args)) [
        | inl p ↦
            let r : fold_and args sorts a ≡ gives sorts a a.false_id = rw (fold_and, p) in
            subst (Good R Φ a I v) (sym r) (
              subst (λ x. Yields R Φ a I x (a, a.false_id)) (ap bool (false_among args c p f) ∙ g)
                (here_false R Φ a I w m))
        | inr p ↦
            let ts = without a.true_id args in
            let r : fold_and args sorts a ≡ collect and_op a.true_id ts sorts a =
              rw (fold_and, p) in
            subst (Good R Φ a I v) (sym r) (
              subst (λ x. Good R Φ a I x (collect and_op a.true_id ts sorts a)) g
                (collect_and-Good ts c (below_without (length a.terms) a.true_id args h)
                  (without_true args c f)))
      ]

  true_among :
      (ts : List TermId) (c : Bool)
      → contains a.true_id ts ≡ true
      → bool_or (map I ts) ≡ some c
      → true ≡ c
  true_among [] c h e = absurd (cc)
  true_among (t ∷ ts) c h e =
      let (b, v, d, f, g) = bool_or-cons (I t) (map I ts) c e in
      elim (Bool-cases (t == a.true_id)) [
        | inl p ↦ let r = read_true R Φ a I w m t b p v in ground arith
        | inr p ↦ let r = true_among ts d (sym (rw (p)) ∙ h) f in ground arith
      ]

  without_false :
      (ts : List TermId) (c : Bool)
      → bool_or (map I ts) ≡ some c
      → bool_or (map I (without a.false_id ts)) ≡ some c
  without_false [] c e = e
  without_false (t ∷ ts) c e =
      let (b, v, d, f, g) = bool_or-cons (I t) (map I ts) c e in
      let rest = without_false ts d f in
      elim (Bool-cases (t == a.false_id)) [
        | inl p ↦ rw (p) (rest ∙ ap some (let r = read_false R Φ a I w m t b p v in ground arith))
        | inr p ↦ rw (p, v, rest, g) refl
      ]

  collect_or-Good :
      (ts : List TermId) (c : Bool)
      → All (λ k. k < length a.terms) ts
      → bool_or (map I ts) ≡ some c
      → Good R Φ a I (bool c) (collect or_op a.false_id ts sorts a)
  collect_or-Good [] c h e = join_or-Yields R Φ a I w m [] sorts.bool_sort c h e
  collect_or-Good (t ∷ []) c h e = join_or-Yields R Φ a I w m (t ∷ []) sorts.bool_sort c h e
  collect_or-Good (t ∷ (u ∷ ts)) c h e =
      join_or-Yields R Φ a I w m (t ∷ (u ∷ ts)) sorts.bool_sort c h e

  pub fold_or-Good :
      (args : List TermId) (v : Value)
      → All (λ k. k < length a.terms) args
      → denote R Φ or_op (map I args) ≡ some v
      → Good R Φ a I v (fold_or args sorts a)
  unfolding fold_or
  fold_or-Good args v h e =
      let (c, f, g) = or_value R Φ (map I args) v e in
      elim (Bool-cases (contains a.true_id args)) [
        | inl p ↦
            let r : fold_or args sorts a ≡ gives sorts a a.true_id = rw (fold_or, p) in
            subst (Good R Φ a I v) (sym r) (
              subst (λ x. Yields R Φ a I x (a, a.true_id)) (ap bool (true_among args c p f) ∙ g)
                (here_true R Φ a I w m))
        | inr p ↦
            let ts = without a.false_id args in
            let r : fold_or args sorts a ≡ collect or_op a.false_id ts sorts a = rw (fold_or, p) in
            subst (Good R Φ a I v) (sym r) (
              subst (λ x. Good R Φ a I x (collect or_op a.false_id ts sorts a)) g
                (collect_or-Good ts c (below_without (length a.terms) a.false_id args h)
                  (without_false args c f)))
      ]
