-- ===== src/Core/Meaning/Terms.antt =====
-- crates/smt-core/src/term.rs: the constructors of terms and the values of what they make.
use mathlib.Core.Path.{subst}
use mathlib.Core.Option.{some-injective}
use smt_solver_rust.Common.{
  ◌<◌, ◌≡◌, refl, sym, ap, ◌∙◌, Bool, true, false, not, ◌&&◌, ◌||◌, Option, none, some, List, [],
  ◌∷◌, ◌==◌, if◌then◌else◌, map, length, All, arith, Option-cases, Bool-cases, inl, inr, ==→≡,
  ==-refl, ◌⊎◌, get_elem?-of_lt, get_or,
}
use smt_solver_rust.Common.Int.{eqb_ℤ_iff}
use smt_solver_rust.Core.Sort.{SortId, SortArena}
use smt_solver_rust.Core.Op.{Op, true_op, false_op, not_op, and_op, or_op, ite_op, eq_op}
use smt_solver_rust.Core.Term.{
  TermId, TermData, TermArena, Alloc, intern, get_term, sort_of, drop_units, join, and, or, ite, eq,
}
use smt_solver_rust.Core.Term
use smt_solver_rust.Core.Term.Pool.{IsArena}
use smt_solver_rust.Core.Meaning.{
  RatioOps, Value, bool, bits, int, real, other, bool_and, bool_or, same, denote,
}
use smt_solver_rust.Core.Meaning.Model.{
  Interp, IsModel, Yields, Yields-here, Stands-value, intern-Yields,
}

-- A call that may panic returns, and what it returns yields the value.
abbrev pub Returns :
    (R : RatioOps) → (Op → List Value → Value) → TermArena → Interp → Value → Option Alloc → Type 0
Returns R Φ a I v o = (r : Alloc) × (o ≡ some r) × Yields R Φ a I v r

-- A value is the same as itself.
pub same_self : (R : RatioOps) (v : Value) → same R.eq_r v v ≡ some true
same_self R (bool true) = refl
same_self R (bool false) = refl
same_self R (bits x w) = rw (==-refl w, ==-refl x)
same_self R (int i) = ap some ((eqb_ℤ_iff i i).1 refl)
same_self R (real r) = ap some (R.eq_r_self r)
same_self R (other n) = ap some (==-refl n)

-- Lists of truth values.
pub bool_and-cons :
    (v : Value) (vs : List Value) (c : Bool)
    → bool_and (v ∷ vs) ≡ some c
    → (b : Bool) × (v ≡ bool b) × (d : Bool) × (bool_and vs ≡ some d) × ((b && d) ≡ c)
bool_and-cons (bool b) vs c e = elim (Option-cases (bool_and vs)) [
  | inl p ↦ absurd (let bad : none ≡ some c = sym (rw (p)) ∙ e in cc)
  | inr (d, p) ↦ (b, refl, d, p, some-injective _ _ (sym (rw (p)) ∙ e))
]
bool_and-cons _ vs c e = absurd (cc)

pub bool_or-cons :
    (v : Value) (vs : List Value) (c : Bool)
    → bool_or (v ∷ vs) ≡ some c
    → (b : Bool) × (v ≡ bool b) × (d : Bool) × (bool_or vs ≡ some d) × ((b || d) ≡ c)
bool_or-cons (bool b) vs c e = elim (Option-cases (bool_or vs)) [
  | inl p ↦ absurd (let bad : none ≡ some c = sym (rw (p)) ∙ e in cc)
  | inr (d, p) ↦ (b, refl, d, p, some-injective _ _ (sym (rw (p)) ∙ e))
]
bool_or-cons _ vs c e = absurd (cc)

module _ (R : RatioOps) (Φ : Op → List Value → Value) (a : TermArena) (I : Interp) (w : IsArena a)
    (m : IsModel R Φ a I) where
  pub true_value : (I a.true_id ≡ bool true) × (a.true_id < length a.terms)
  unfolding denote
  true_value =
      let (e, h) = Stands-value R Φ a I a.true_id true_op [] m w.true_at in
      (sym (some-injective _ _ e), h)

  pub false_value : (I a.false_id ≡ bool false) × (a.false_id < length a.terms)
  unfolding denote
  false_value =
      let (e, h) = Stands-value R Φ a I a.false_id false_op [] m w.false_at in
      (sym (some-injective _ _ e), h)

  pub here_true : Yields R Φ a I (bool true) (a, a.true_id)
  here_true = Yields-here R Φ a I a.true_id (bool true) w m true_value.1 true_value.0

  pub here_false : Yields R Φ a I (bool false) (a, a.false_id)
  here_false = Yields-here R Φ a I a.false_id (bool false) w m false_value.1 false_value.0

  sort_of-exists : (t : TermId) → t < length a.terms → (s : SortId) × (sort_of a t ≡ some s)
  unfolding sort_of get_term
  sort_of-exists t h =
      let d : TermData = record { op = true_op; args = []; sort = 0 } in
      ((get_or a.terms t d).sort, rw (get_elem?-of_lt a.terms t d h))

  pub read_true : (t : TermId) (b : Bool) → (t == a.true_id) ≡ true → I t ≡ bool b → true ≡ b
  read_true t b p e =
      let q : bool true ≡ bool b = sym true_value.0 ∙ ap I (sym (==→≡ t a.true_id p)) ∙ e in cc

  pub read_false : (t : TermId) (b : Bool) → (t == a.false_id) ≡ true → I t ≡ bool b → false ≡ b
  read_false t b p e =
      let q : bool false ≡ bool b = sym false_value.0 ∙ ap I (sym (==→≡ t a.false_id p)) ∙ e in cc

  -- Negating a term of truth value `b` returns, and yields the negation of `b`.
  pub not-Returns :
      (t : TermId) (b : Bool)
      → t < length a.terms
      → I t ≡ bool b
      → Returns R Φ a I (bool (not b)) (Term.not t a)
  unfolding Term.not denote
  not-Returns t b h e = elim (Bool-cases (t == a.true_id)) [
    | inl p ↦ (
      (a, a.false_id),
      rw (p),
      subst (λ c. Yields R Φ a I (bool (not c)) (a, a.false_id)) (read_true t b p e) here_false,
    )
    | inr p ↦ elim (Bool-cases (t == a.false_id)) [
      | inl q ↦ (
        (a, a.true_id),
        rw (p, q),
        subst (λ c. Yields R Φ a I (bool (not c)) (a, a.true_id)) (read_false t b q e) here_true,
      )
      | inr q ↦
          let (s, f) = sort_of-exists t h in
          (
            intern not_op (t ∷ []) s a,
            rw (p, q, f),
            intern-Yields R Φ not_op (t ∷ []) s a I (bool (not b)) w m (h, tt) (rw (e)),
          )
    ]
  ]

  -- What the loop of `and` leaves has the conjunction of what it was given.
  drop_false :
      (ts : List TermId) (c : Bool)
      → All (λ k. k < length a.terms) ts
      → bool_and (map I ts) ≡ some c
      → (drop_units a.false_id a.true_id ts ≡ none × false ≡ c)
        ⊎ ((flat : List TermId) × (drop_units a.false_id a.true_id ts ≡ some flat)
            × All (λ k. k < length a.terms) flat
            × (bool_and (map I flat) ≡ some c))
  unfolding drop_units
  drop_false [] c h e = inr ([], refl, tt, e)
  drop_false (t ∷ ts) c h e =
      let (b, v, d, f, g) = bool_and-cons (I t) (map I ts) c e in
      elim (Bool-cases (t == a.false_id)) [
        | inl p ↦ inl (rw (p, drop_units), let q = read_false t b p v in ground arith)
        | inr p ↦ elim (drop_false ts d h.1 f) [
          | inl (q, z) ↦ inl (rw (p, q, drop_units), ground arith)
          | inr (flat, q, below, val) ↦ elim (Bool-cases (t == a.true_id)) [
            | inl r ↦ inr (
              flat,
              rw (p, q, r, drop_units),
              below,
              val ∙ ap some (let q = read_true t b r v in ground arith),
            )
            | inr r ↦ inr (t ∷ flat, rw (p, q, r, drop_units), (h.0, below), rw (v, val, g))
          ]
        ]
      ]

  pub join_and-Yields :
      (flat : List TermId) (sort : SortId) (c : Bool)
      → All (λ k. k < length a.terms) flat
      → bool_and (map I flat) ≡ some c
      → Yields R Φ a I (bool c) (join and_op a.true_id flat sort a)
  unfolding denote
  join_and-Yields [] sort c h e =
      subst (λ x. Yields R Φ a I (bool x) (a, a.true_id)) (some-injective _ _ e) here_true
  join_and-Yields (t ∷ []) sort c h e =
      let (b, v, d, f, g) = bool_and-cons (I t) [] c e in
      Yields-here R Φ a I t (bool c) w m h.0
        (v ∙ ap bool (let q = some-injective _ _ f in ground arith))
  join_and-Yields (t ∷ (u ∷ ts)) sort c h e =
      intern-Yields R Φ and_op (t ∷ (u ∷ ts)) sort a I (bool c) w m h (rw (e))

  -- The conjunction of terms that have truth values yields their conjunction, whatever it drops.
  pub and-Yields :
      (args : List TermId) (sorts : SortArena) (c : Bool)
      → All (λ k. k < length a.terms) args
      → bool_and (map I args) ≡ some c
      → Yields R Φ a I (bool c) (and args sorts a)
  unfolding and
  and-Yields args sorts c h e = elim (drop_false args c h e) [
    | inl (p, z) ↦
        subst (λ (x : Alloc). Yields R Φ a I (bool c) x) (sym (rw (p, and)))
          (subst (λ x. Yields R Φ a I (bool x) (a, a.false_id)) z here_false)
    | inr (flat, p, below, val) ↦
        subst (λ (x : Alloc). Yields R Φ a I (bool c) x) (sym (rw (p, and)))
          (join_and-Yields flat sorts.bool_sort c below val)
  ]

  -- What the loop of `or` leaves has the disjunction of what it was given.
  drop_true :
      (ts : List TermId) (c : Bool)
      → All (λ k. k < length a.terms) ts
      → bool_or (map I ts) ≡ some c
      → (drop_units a.true_id a.false_id ts ≡ none × true ≡ c)
        ⊎ ((flat : List TermId) × (drop_units a.true_id a.false_id ts ≡ some flat)
            × All (λ k. k < length a.terms) flat
            × (bool_or (map I flat) ≡ some c))
  unfolding drop_units
  drop_true [] c h e = inr ([], refl, tt, e)
  drop_true (t ∷ ts) c h e =
      let (b, v, d, f, g) = bool_or-cons (I t) (map I ts) c e in
      elim (Bool-cases (t == a.true_id)) [
        | inl p ↦ inl (rw (p, drop_units), let q = read_true t b p v in ground arith)
        | inr p ↦ elim (drop_true ts d h.1 f) [
          | inl (q, z) ↦ inl (rw (p, q, drop_units), ground arith)
          | inr (flat, q, below, val) ↦ elim (Bool-cases (t == a.false_id)) [
            | inl r ↦ inr (
              flat,
              rw (p, q, r, drop_units),
              below,
              val ∙ ap some (let q = read_false t b r v in ground arith),
            )
            | inr r ↦ inr (t ∷ flat, rw (p, q, r, drop_units), (h.0, below), rw (v, val, g))
          ]
        ]
      ]

  pub join_or-Yields :
      (flat : List TermId) (sort : SortId) (c : Bool)
      → All (λ k. k < length a.terms) flat
      → bool_or (map I flat) ≡ some c
      → Yields R Φ a I (bool c) (join or_op a.false_id flat sort a)
  unfolding denote
  join_or-Yields [] sort c h e =
      subst (λ x. Yields R Φ a I (bool x) (a, a.false_id)) (some-injective _ _ e) here_false
  join_or-Yields (t ∷ []) sort c h e =
      let (b, v, d, f, g) = bool_or-cons (I t) [] c e in
      Yields-here R Φ a I t (bool c) w m h.0
        (v ∙ ap bool (let q = some-injective _ _ f in ground arith))
  join_or-Yields (t ∷ (u ∷ ts)) sort c h e =
      intern-Yields R Φ or_op (t ∷ (u ∷ ts)) sort a I (bool c) w m h (rw (e))

  -- The disjunction of terms that have truth values yields their disjunction, whatever it drops.
  pub or-Yields :
      (args : List TermId) (sorts : SortArena) (c : Bool)
      → All (λ k. k < length a.terms) args
      → bool_or (map I args) ≡ some c
      → Yields R Φ a I (bool c) (or args sorts a)
  unfolding or
  or-Yields args sorts c h e = elim (drop_true args c h e) [
    | inl (p, z) ↦
        subst (λ (x : Alloc). Yields R Φ a I (bool c) x) (sym (rw (p, or)))
          (subst (λ x. Yields R Φ a I (bool x) (a, a.true_id)) z here_true)
    | inr (flat, p, below, val) ↦
        subst (λ (x : Alloc). Yields R Φ a I (bool c) x) (sym (rw (p, or)))
          (join_or-Yields flat sorts.bool_sort c below val)
  ]

  -- An if-then-else of a term of truth value `b` and two other terms returns, and yields the
  -- value of the branch that `b` chooses.
  pub ite-Returns :
      (t x y : TermId) (b : Bool)
      → t < length a.terms
      → x < length a.terms
      → y < length a.terms
      → I t ≡ bool b
      → Returns R Φ a I (if b then I x else I y) (ite t x y a)
  unfolding ite denote
  ite-Returns t x y b h hx hy e = elim (Bool-cases (t == a.true_id)) [
    | inl p ↦ (
      (a, x),
      rw (p, ite),
      Yields-here R Φ a I x _ w m hx (let q = read_true t b p e in rw (sym q)),
    )
    | inr p ↦ elim (Bool-cases (t == a.false_id)) [
      | inl q ↦ (
        (a, y),
        rw (p, q, ite),
        Yields-here R Φ a I y _ w m hy (let r = read_false t b q e in rw (sym r)),
      )
      | inr q ↦ elim (Bool-cases (x == y)) [
        | inl r ↦ (
          (a, x),
          rw (p, q, r, ite),
          Yields-here R Φ a I x _ w m hx (
              let z = ==→≡ x y r in
              (elim (Bool-cases b) [ inl u ↦ rw (u) | inr u ↦ rw (u, ap I z) ])),
        )
        | inr r ↦
            let (s, f) = sort_of-exists x hx in
            (
              intern ite_op (t ∷ (x ∷ (y ∷ []))) s a,
              rw (p, q, r, f, ite),
              intern-Yields R Φ ite_op (t ∷ (x ∷ (y ∷ []))) s a I _ w m (h, (hx, (hy, tt)))
                  (rw (e)),
            )
      ]
    ]
  ]

  -- An equation of two terms whose values are of one kind yields whether they are the same.
  pub eq-Yields :
      (x y : TermId) (sorts : SortArena) (c : Bool)
      → x < length a.terms
      → y < length a.terms
      → same R.eq_r (I x) (I y) ≡ some c
      → Yields R Φ a I (bool c) (eq x y sorts a)
  unfolding eq denote
  eq-Yields x y sorts c hx hy e = elim (Bool-cases (x == y)) [
    | inl p ↦
        subst (λ (r : Alloc). Yields R Φ a I (bool c) r) (sym (rw (p, eq)))
          (subst (λ b. Yields R Φ a I (bool b) (a, a.true_id))
            (some-injective _ _
              (sym (same_self R (I x)) ∙ ap (λ k. same R.eq_r (I x) (I k)) (==→≡ x y p) ∙ e))
            here_true)
    | inr p ↦
        subst (λ (r : Alloc). Yields R Φ a I (bool c) r) (sym (rw (p, eq)))
          (intern-Yields R Φ eq_op (x ∷ (y ∷ [])) sorts.bool_sort a I (bool c) w m (hx, (hy, tt))
            (rw (e)))
  ]
