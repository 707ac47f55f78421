-- ===== src/Core/Meaning/Model.antt =====
-- Models of an arena of terms (crates/smt-core/src/term.rs), and extensions of them to an arena
-- that an operation returns.
use mathlib.Core.Path.{subst}
use mathlib.Core.Option.{some-injective}
use smt_solver_rust.Common.{
  ℕ, ◌≤◌, ◌<◌, ◌≡◌, refl, sym, ap, ◌∙◌, none, some, List, [], ◌∷◌, ◌==◌, if◌then◌else◌, map, length,
  get_elem?, All, arith, Option-cases, inl, inr, ==-refl, ≢→==, get_elem?-lt, length-append,
}
use smt_solver_rust.Common.Dict.{get}
use smt_solver_rust.Core.Sort.{SortId}
use smt_solver_rust.Core.Op.{Op}
use smt_solver_rust.Core.Term.{TermId, TermData, Key-discrete, TermArena, Alloc, push_term, intern}
use smt_solver_rust.Core.Term.Pool.{
  IsArena, Stands, intern-old, intern-new, pushed-cases, push-IsArena,
}
use smt_solver_rust.Core.Meaning.{RatioOps, Value, denote}

abbrev pub Interp : Type 0
Interp = TermId → Value

abbrev pub override : Interp → TermId → Value → Interp
override I n v k = if k == n then v else I k

pub map_agree :
    (I J : Interp) (n : ℕ) (ks : List TermId)
    → ((k : TermId) → k < n → J k ≡ I k)
    → All (λ k. k < n) ks
    → map J ks ≡ map I ks
map_agree I J n [] h b = refl
map_agree I J n (k ∷ ks) h b = λ i. h k b.0 i ∷ map_agree I J n ks h b.1 i

below_widen : (m n : ℕ) (ks : List TermId) → m ≤ n → All (λ k. k < m) ks → All (λ k. k < n) ks
below_widen m n [] h b = tt
below_widen m n (k ∷ ks) h b = (omega arith, below_widen m n ks h b.1)

module _ (R : RatioOps) (Φ : Op → List Value → Value) where
  -- Each term has the value of its operator at its arguments' values.
  abbrev pub IsModel : TermArena → Interp → Type 0
  IsModel a I =
      (id : TermId) (t : TermData)
      → get_elem? a.terms id ≡ some t
      → denote R Φ t.op (map I t.args) ≡ some (I id)

  pub record Extends (a : TermArena) (I : Interp) (b : TermArena) (J : Interp) : Type 0 where
    pub arena : IsArena b
    pub model : IsModel b J
    pub agrees : (k : TermId) → k < length a.terms → J k ≡ I k
    pub grows : length a.terms ≤ length b.terms
    pub same_true : b.true_id ≡ a.true_id
    pub same_false : b.false_id ≡ a.false_id

  -- The model extends, and the identifier is one of the new arena with this value.
  abbrev pub Yields : TermArena → Interp → Value → Alloc → Type 0
  Yields a I v (b, id) = (J : Interp) × Extends a I b J × (id < length b.terms) × (J id ≡ v)

  pub Extends-refl : (a : TermArena) (I : Interp) → IsArena a → IsModel a I → Extends a I a I
  Extends-refl a I w m = record {
    arena = w;
    model = m;
    agrees = λ k h. refl;
    grows = omega arith;
    same_true = refl;
    same_false = refl;
  }

  pub Extends-trans :
      {a b c : TermArena} {I J K : Interp} → Extends a I b J → Extends b J c K → Extends a I c K
  Extends-trans e f = record {
    arena = f.arena;
    model = f.model;
    agrees = λ k h. f.agrees k (omega (arith, e.grows)) ∙ e.agrees k h;
    grows = omega (arith, e.grows, f.grows);
    same_true = f.same_true ∙ e.same_true;
    same_false = f.same_false ∙ e.same_false;
  }

  -- An identifier that is already there.
  pub Yields-here :
      (a : TermArena) (I : Interp) (id : TermId) (v : Value)
      → IsArena a
      → IsModel a I
      → id < length a.terms
      → I id ≡ v
      → Yields a I v (a, id)
  Yields-here a I id v w m h e = (I, Extends-refl a I w m, h, e)

  pub Stands-value :
      (a : TermArena) (I : Interp) (id : TermId) (op : Op) (args : List TermId)
      → IsModel a I
      → Stands a id op args
      → (denote R Φ op (map I args) ≡ some (I id)) × (id < length a.terms)
  Stands-value a I id op args m (t, at, k) = (
    ap (λ (p : Op × List TermId). denote R Φ p.0 (map I p.1)) (sym k) ∙ m id t at,
    get_elem?-lt a.terms id at,
  )

  push-IsModel :
      (op : Op) (args : List TermId) (sort : SortId) (a : TermArena) (I : Interp) (v : Value)
      → IsArena a
      → IsModel a I
      → All (λ k. k < length a.terms) args
      → denote R Φ op (map I args) ≡ some v
      → IsModel (push_term op args sort a).0 (override I (length a.terms) v)
  push-IsModel op args sort a I v w m below d id u e =
      let n = length a.terms in
      let J = override I n v in
      let t : TermData = record { op = op; args = args; sort = sort } in
      let agree : (k : TermId) → k < n → J k ≡ I k = λ k h. rw (≢→== k n (omega arith)) in
      elim (pushed-cases a.terms t id u e) [
        | inl old ↦
            let h = get_elem?-lt a.terms id old in
            ap (denote R Φ u.op) (
              map_agree I J n u.args agree
                (below_widen id n u.args (omega (arith, h)) (w.acyclic id u old)))
            ∙ m id u old
            ∙ ap some (sym (agree id h))
        | inr (at_end, same) ↦
            subst (λ (s : TermData). denote R Φ s.op (map J s.args) ≡ some (J id)) same
              (ap (denote R Φ op) (map_agree I J n args agree below)
                ∙ d
                ∙ ap some (sym (ap J at_end ∙ rw (==-refl n))))
      ]

  push-Yields :
      (op : Op) (args : List TermId) (sort : SortId) (a : TermArena) (I : Interp) (v : Value)
      → IsArena a
      → IsModel a I
      → All (λ k. k < length a.terms) args
      → denote R Φ op (map I args) ≡ some v
      → get Key-discrete (op, args) a.lookup ≡ none
      → Yields a I v (push_term op args sort a)
  push-Yields op args sort a I v w m below d e =
      let n = length a.terms in
      let t : TermData = record { op = op; args = args; sort = sort } in
      let size = length-append a.terms (t ∷ []) in
      (
        override I n v,
        record {
          arena = push-IsArena op args sort a w e below;
          model = push-IsModel op args sort a I v w m below d;
          agrees = λ k h. rw (≢→== k n (omega arith));
          grows = omega (arith, size);
          same_true = refl;
          same_false = refl;
        },
        omega (arith, size),
        rw (==-refl n),
      )

  -- Interning an application of old terms that has a value yields that value.
  pub intern-Yields :
      (op : Op) (args : List TermId) (sort : SortId) (a : TermArena) (I : Interp) (v : Value)
      → IsArena a
      → IsModel a I
      → All (λ k. k < length a.terms) args
      → denote R Φ op (map I args) ≡ some v
      → Yields a I v (intern op args sort a)
  intern-Yields op args sort a I v w m below d =
      elim (Option-cases (get Key-discrete (op, args) a.lookup)) [
        | inl e ↦
            subst (Yields a I v) (sym (intern-new op args sort a e))
              (push-Yields op args sort a I v w m below d e)
        | inr (id, e) ↦
            let st = w.pool.found (op, args) id e in
            let (val, h) = Stands-value a I id op args m st in
            subst (Yields a I v) (sym (intern-old op args sort a id e))
              (Yields-here a I id v w m h (some-injective _ _ (sym val ∙ d)))
      ]
