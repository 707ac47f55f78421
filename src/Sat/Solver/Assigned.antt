-- ===== src/Sat/Solver/Assigned.antt =====
-- crates/smt-sat/src/solver.rs: the literals that propagation assigns, with their reasons, and what
-- the value of a literal says of the trail.
use mathlib.Core.Path.{subst}
use mathlib.Core.Option.{some-injective}
use native.Mathlib.Decide.{ℕ_discrete}
use smt_solver_rust.Common.{
  ℕ, suc, ◌<◌, ◌≡◌, ◌≢◌, refl, sym, ap, ◌∙◌, Bool, true, false, some, List, [], ◌∷◌, ◌==◌,
  if◌then◌else◌, length, get_elem?, arith, All, Bool-cases, ◌⊎◌, inl, inr, get_elem?-lt,
  get_elem?-of_lt, get_elem?-append_old, get_elem?-append_new, get_elem?-set_self, get_elem?-set_ne,
  length-append, ==→≡,
}
use smt_solver_rust.Sat.Lit.{Lit, var, is_pos, negate, LBool, undef, is_false, not_val}
use smt_solver_rust.Sat.Lit.Laws.{var-negate, is_pos-negate, literal_ext}
use smt_solver_rust.Sat.Trail.{
  Trail, Reason, ClauseId, clause, assigned, lit_value, var_value, reason_of, decision_level,
}
use smt_solver_rust.Sat.Trail.View.{value_in, sign_val}
use smt_solver_rust.Sat.Trail.Valid.{IsValid, value_of, value_in-get}
use smt_solver_rust.Sat.Clause.{Clause, ClauseArena, get_clause}
use smt_solver_rust.Sat.Float.{F64}
use smt_solver_rust.Sat.Solver.Position.{FalseBefore}
use smt_solver_rust.Sat.Solver.Learn.{IsImplied, is_clause}

sign_val-injective : (a b : Bool) → sign_val a ≡ sign_val b → a ≡ b
sign_val-injective a b h = ground arith

sign_val-defined : (b : Bool) → undef ≢ sign_val b
sign_val-defined b h = ground arith

-- A literal that a list makes true stands in it.
true-position :
    (ls : List Lit) (m : Lit)
    → value_in ls (var m) ≡ sign_val (is_pos m)
    → (j : ℕ) × (get_elem? ls j ≡ some m)
unfolding value_in
true-position [] m h = absurd (sign_val-defined (is_pos m) h)
true-position (l ∷ ls) m h = elim (Bool-cases (var l == var m)) [
  | inl p ↦ (
    0,
    ap some (
        literal_ext l m (==→≡ (var l) (var m) p)
          (sign_val-injective (is_pos l) (is_pos m) (rw p at h))),
  )
  | inr p ↦ let (j, at) = true-position ls m (rw p at h) in (suc j, at)
]

abbrev id_of : Reason → ClauseId
id_of (clause id) = id
id_of _ = 0

module _ (t : Trail) (v : IsValid t) where
  pub lit_value_returns :
      (l : Lit)
      → var l < length t.assigns
      → lit_value t l ≡ some (if is_pos l then value_of t (var l) else not_val (value_of t (var l)))
  unfolding lit_value var_value
  lit_value_returns l h = rw (get_elem?-of_lt t.assigns (var l) undef h) refl

  -- A false literal has its complement on the trail.
  pub is_false-FalseBefore :
      (l : Lit) (x : LBool)
      → var l < length t.assigns
      → lit_value t l ≡ some x
      → is_false x ≡ true
      → FalseBefore t (length t.trail) l
  unfolding is_false not_val
  is_false-FalseBefore l x h e f =
      let r = some-injective _ _ (sym (lit_value_returns l h) ∙ e) in
      let w : value_of t (var l) ≡ sign_val (is_pos (negate l)) = ground (arith, is_pos-negate l) in
      let q : value_in t.trail (var (negate l)) ≡ sign_val (is_pos (negate l)) =
        ap (value_in t.trail) (var-negate l) ∙ sym (v.core.values (var l) h) ∙ w in
      let (j, at) = true-position t.trail (negate l) q in (j, get_elem?-lt t.trail j at, at)

  -- A literal with no value has an unassigned variable.
  pub undef-value :
      (l : Lit) → var l < length t.assigns → lit_value t l ≡ some undef → value_of t (var l) ≡ undef
  unfolding not_val
  undef-value l h e = let r = some-injective _ _ (sym (lit_value_returns l h) ∙ e) in ground arith

  module _ (l : Lit) (id : ClauseId) (free : value_of t (var l) ≡ undef)
      (h : var l < length t.assigns) (a : ClauseArena F64) (w : IsImplied t a) (c : Clause F64)
      (e : get_clause a id ≡ some c)
      (fs : All (λ m. (m ≡ l) ⊎ FalseBefore t (length t.trail) m) c.lits) where
    abbrev next : Trail
    next = assigned t l (clause id)

    older :
        (i : ℕ) (m : Lit)
        → get_elem? next.trail i ≡ some m
        → i ≢ length t.trail
        → get_elem? t.trail i ≡ some m
    older i m at ne =
        let b = get_elem?-lt next.trail i at in
        sym
          (get_elem?-append_old t.trail (l ∷ []) i (omega (arith, length-append t.trail (l ∷ []))))
        ∙ at

    newest : (i : ℕ) (m : Lit) → get_elem? next.trail i ≡ some m → i ≡ length t.trail → m ≡ l
    newest i m at p =
        some-injective _ _ (sym at ∙ ap (get_elem? next.trail) p ∙ get_elem?-append_new t.trail l)

    -- An older literal's variable is another.
    other_var : (i : ℕ) (m : Lit) → get_elem? t.trail i ≡ some m → var l ≢ var m
    other_var i m at p =
        value_in-get t.trail i m at
          (ap (value_in t.trail) (sym p) ∙ sym (v.core.values (var l) h) ∙ free)

    pub grown_FalseBefore : (b : ℕ) (m : Lit) → FalseBefore t b m → FalseBefore next b m
    grown_FalseBefore b m (j, below, at) =
        (j, below, get_elem?-append_old t.trail (l ∷ []) j (get_elem?-lt t.trail j at) ∙ at)

    widen :
        (b : ℕ) (k : Lit) (ms : List Lit)
        → All (λ x. (x ≡ k) ⊎ FalseBefore t b x) ms
        → All (λ x. (x ≡ k) ⊎ FalseBefore next b x) ms
    widen b k [] h = tt
    widen b k (x ∷ ms) (inl p, h) = (inl p, widen b k ms h)
    widen b k (x ∷ ms) (inr f, h) = (inr (grown_FalseBefore b x f), widen b k ms h)

    older_reason :
        (i : ℕ) (m : Lit)
        → get_elem? t.trail i ≡ some m
        → reason_of next (var m) ≡ reason_of t (var m)
    unfolding reason_of
    older_reason i m at =
        rw
          (get_elem?-set_ne t.var_data (var l) (var m)
            (record { level = decision_level t; reason = clause id }) (other_var i m at))
          refl

    newest_reason : (r : Reason) → reason_of next (var l) ≡ some r → r ≡ clause id
    unfolding reason_of
    newest_reason r f =
        let s =
          get_elem?-set_self t.var_data (var l)
            (record { level = decision_level t; reason = clause id })
            (let n = v.core.data_length in omega arith) in
        sym (some-injective _ _ (rw (s) at f))

    -- The literals stay implied.
    pub assigned-IsImplied : IsImplied next a
    assigned-IsImplied = record {
      reasons = λ i m d at r. elim (ℕ_discrete i (length t.trail)) [
        | no ne ↦
            let old = older i m at ne in
            let (f, g, all) = w.reasons i m d old (sym (older_reason i m old) ∙ r) in
            (f, g, widen i m f.lits all)
        | yes p ↦
            let same = newest i m at p in
            let q : clause d ≡ clause id =
              newest_reason (clause d) (ap (λ k. reason_of next (var k)) (sym same) ∙ r) in
            let q' : d ≡ id = ap id_of q in
            (
              c,
              ap (get_clause a) q' ∙ e,
              subst (λ k. All (λ x. (x ≡ k) ⊎ FalseBefore next i x) c.lits) (sym same)
                  (widen i l c.lits
                    (subst (λ k. All (λ x. (x ≡ l) ⊎ FalseBefore t k x) c.lits) (sym p) fs)),
            )
      ];
      openers = λ i m r at f none_clause up j h. elim (ℕ_discrete i (length t.trail)) [
        | no ne ↦
            let old = older i m at ne in
            w.openers i m r old (sym (older_reason i m old) ∙ f) none_clause up j h
        | yes p ↦
            let same = newest i m at p in
            let q = newest_reason r (ap (λ k. reason_of next (var k)) (sym same) ∙ f) in
            let bad : true ≡ false = ap is_clause (sym q) ∙ none_clause in absurd (cc)
      ];
    }
