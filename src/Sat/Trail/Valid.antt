-- ===== src/Sat/Trail/Valid.antt =====
-- crates/smt-sat/src/trail.rs: the invariant of the trail, for assigning and for opening a level.
use smt_solver_rust.Common.{
  ℕ, zero, suc, ◌≤◌, ◌<◌, ◌≡◌, ◌≢◌, refl, ap, sym, ◌∙◌, some, List, [], ◌∷◌, ◌++◌, ◌==◌,
  if◌then◌else◌, length, get_elem?, get_or, arith, All, All-append, ==-refl, length-append,
  length-set, get_or-set_self, get_or-set_ne, get_elem?-append_old, get_elem?-append_new,
  get_elem?-lt, get_elem?-of_lt, get_or-eq_of_some, get_elem?-set_self, lt→ltb, ◌>>=◌, Option,
  Option-cases, inl, inr,
}
use mathlib.Core.Path.{subst}
use mathlib.Core.Option.{some-injective}
use native.Mathlib.Decide.{ℕ_discrete, dec_lt}
use smt_solver_rust.Sat.Lit.{Var, Lit, var, is_pos, LBool, undef, true_val, false_val, not_val}
use smt_solver_rust.Sat.Trail.{
  Trail, VarData, Reason, decision_level, new_decision_level, assigned, assign, assign_if,
  lit_value, var_value,
}
use smt_solver_rust.Sat.Trail.View.{
  sign_val, value_in, Distinct, or_else, value_in-append, Distinct-snoc, Ascending, Ascending-widen,
  Ascending-snoc, level_at, level_at_top, level_at-snoc,
}

abbrev pub value_of : Trail → Var → LBool
value_of t v = get_or t.assigns v undef

-- What holds whatever the limits and the queue are.
pub record IsCore (t : Trail) : Type 0 where
  pub data_length : length t.var_data ≡ length t.assigns
  pub phase_length : length t.phase ≡ length t.assigns
  pub distinct : Distinct t.trail
  pub in_range : All (λ l. var l < length t.assigns) t.trail
  pub values : (v : Var) → v < length t.assigns → value_of t v ≡ value_in t.trail v
  pub levels :
      (i : ℕ) (l : Lit) (d : VarData)
      → get_elem? t.trail i ≡ some l
      → (get_or t.var_data (var l) d).level ≡ level_at t.trail_lim i

-- The assignment is exactly the literals on the trail, each variable at most once and with the
-- level that the limits say; the limits ascend and stay on the trail, and so does the queue.
pub record IsValid (t : Trail) : Type 0 where
  pub core : IsCore t
  pub limits : Ascending 0 (length t.trail) t.trail_lim
  pub queue : t.qhead ≤ length t.trail

sign-value : (l : Lit) → (if is_pos l then true_val else false_val) ≡ sign_val (is_pos l)
sign-value l = ground arith

value_in-snoc :
    (xs : List Lit) (l : Lit) (v : Var)
    → value_in (xs ++ l ∷ []) v
      ≡ or_else (value_in xs v) (if var l == v then sign_val (is_pos l) else undef)
value_in-snoc xs l v =
    value_in-append xs (l ∷ []) v ∙ ap (or_else (value_in xs v)) (unfold value_in in refl)

-- A variable that stands on the trail has a value.
pub value_in-get :
    (xs : List Lit) (i : ℕ) (l : Lit) → get_elem? xs i ≡ some l → value_in xs (var l) ≢ undef
unfolding value_in
value_in-get [] i l e = absurd (cc)
value_in-get (x ∷ xs) zero l e = ground (arith, ==-refl (var l))
value_in-get (x ∷ xs) (suc i) l e = ground (arith, value_in-get xs i l e)

module _ (t : Trail) (v : IsValid t) (l : Lit) (r : Reason) where
  -- `assign` does not fail on a variable in range that has no value,
  pub assign_free :
      var l < length t.assigns → value_of t (var l) ≡ undef → assign l r t ≡ some (assigned t l r)
  unfolding assign
  assign_free h e =
      let p = lt→ltb (var l) (length t.phase) (let n = v.core.phase_length in omega arith) in
      let d = lt→ltb (var l) (length t.var_data) (let n = v.core.data_length in omega arith) in
      rw (get_elem?-of_lt t.assigns (var l) undef h, e, p, d) refl

  assigned-levels :
      (h : var l < length t.assigns)
      → value_of t (var l) ≡ undef
      → (i : ℕ) (k : Lit) (d : VarData) → get_elem? (assigned t l r).trail i ≡ some k
      → (get_or (assigned t l r).var_data (var k) d).level ≡ level_at t.trail_lim i
  assigned-levels h e i k d g = elim (dec_lt i (length t.trail)) [
    | yes old ↦
        let g' : get_elem? t.trail i ≡ some k =
          sym (get_elem?-append_old t.trail (l ∷ []) i old) ∙ g in
        let ne : var l ≢ var k =
          λ p. value_in-get t.trail i k g' (rw (← p, ← v.core.values (var l) h) e) in
        rw (get_or-set_ne t.var_data (var l) (var k) _ d ne) (v.core.levels i k d g')
    | no new ↦
        let at_end : i ≡ length t.trail =
          omega (arith, get_elem?-lt (t.trail ++ l ∷ []) i g, length-append t.trail (l ∷ [])) in
        let same : l ≡ k = some-injective _ _ (
          sym (get_elem?-append_new t.trail l)
          ∙ ap (get_elem? (t.trail ++ l ∷ [])) (sym at_end)
          ∙ g) in
        rw (← same, get_or-set_self t.var_data (var l) _ d (omega (arith, v.core.data_length)))
          (unfold decision_level in
            sym (level_at_top 0 (length t.trail) t.trail_lim i v.limits (omega arith)))
  ]

  assigned-values :
      var l < length t.assigns
      → value_of t (var l) ≡ undef
      → (w : Var) → w < length t.assigns
      → value_of (assigned t l r) w ≡ value_in (t.trail ++ l ∷ []) w
  assigned-values h e w b = elim (ℕ_discrete (var l) w) [
    | yes p ↦ ground (
      arith,
      value_in-snoc t.trail l w,
      v.core.values w b,
      get_or-set_self t.assigns (var l) (if is_pos l then true_val else false_val) undef h,
    )
    | no p ↦ ground (
      arith,
      value_in-snoc t.trail l w,
      v.core.values w b,
      get_or-set_ne t.assigns (var l) w (if is_pos l then true_val else false_val) undef p,
    )
  ]

  -- and keeps the invariant.
  pub assigned-IsValid :
      var l < length t.assigns → value_of t (var l) ≡ undef → IsValid (assigned t l r)
  assigned-IsValid h e = record {
    core = record {
      data_length = simp length-set v.core.data_length;
      phase_length = simp length-set v.core.phase_length;
      distinct = Distinct-snoc t.trail l v.core.distinct (sym (v.core.values (var l) h) ∙ e);
      in_range =
          simp length-set
            (All-append (λ k. var k < length t.assigns) t.trail (l ∷ []) v.core.in_range (h, tt));
      values = λ w b. assigned-values h e w (simp length-set at b);
      levels = λ i k d g. assigned-levels h e i k d g;
    };
    limits =
        Ascending-widen 0 (length t.trail) t.trail_lim
          (omega (arith, length-append t.trail (l ∷ []))) v.limits;
    queue = omega (arith, v.queue, length-append t.trail (l ∷ []));
  }

-- Opening a decision level keeps the invariant.
pub new_decision_level-IsValid : {t : Trail} → IsValid t → IsValid (new_decision_level t)
unfolding new_decision_level
new_decision_level-IsValid {t} v = record {
  core = record {
    data_length = v.core.data_length;
    phase_length = v.core.phase_length;
    distinct = v.core.distinct;
    in_range = v.core.in_range;
    values = v.core.values;
    levels = λ i l d g.
        rw (level_at-snoc t.trail_lim (length t.trail) i (get_elem?-lt t.trail i g))
          (v.core.levels i l d g);
  };
  limits = Ascending-snoc 0 (length t.trail) t.trail_lim v.limits;
  queue = v.queue;
}

assign_if_free :
    (x : LBool) (t u : Trail) (f : Trail → Option Trail)
    → (assign_if x t >>= f) ≡ some u
    → x ≡ undef
assign_if_free undef t u f e = refl
assign_if_free true_val t u f e = absurd (cc)
assign_if_free false_val t u f e = absurd (cc)

-- `assign` succeeds exactly so.
assign-inversion :
    (t : Trail) (l : Lit) (r : Reason) (u : Trail)
    → IsValid t
    → assign l r t ≡ some u
    → (var l < length t.assigns) × (value_of t (var l) ≡ undef) × (assigned t l r ≡ u)
unfolding assign
assign-inversion t l r u v e = elim (Option-cases (get_elem? t.assigns (var l))) [
  | inl o ↦ absurd (let bad = rw (o) at e in cc)
  | inr (x, o) ↦
      let free = assign_if_free x (assigned t l r) u _ (rw (o) at e) in
      let h = get_elem?-lt t.assigns (var l) o in
      let none_yet = get_or-eq_of_some t.assigns (var l) undef o ∙ free in
      (h, none_yet, some-injective _ _ (sym (assign_free t v l r h none_yet) ∙ e))
]

-- A successful `assign` keeps the invariant, makes the literal true at the current decision level
-- with the reason given, and leaves every other variable's value as it was.
pub assign-IsValid :
    (t : Trail) (l : Lit) (r : Reason) (u : Trail)
    → IsValid t
    → assign l r t ≡ some u
    → IsValid u
      × (lit_value u l ≡ some true_val)
      × (get_elem? u.var_data (var l) ≡ some (record { level = decision_level t; reason = r }))
      × ((w : Var) → w ≢ var l → value_of u w ≡ value_of t w)
unfolding lit_value var_value not_val
assign-IsValid t l r u v e =
    let (h, free, same) = assign-inversion t l r u v e in
    subst
      (λ u.
        IsValid u
        × (lit_value u l ≡ some true_val)
        × (get_elem? u.var_data (var l) ≡ some (record { level = decision_level t; reason = r }))
        × ((w : Var) → w ≢ var l → value_of u w ≡ value_of t w))
      same
      (
        assigned-IsValid t v l r h free,
        ground (
          arith,
          get_elem?-set_self t.assigns (var l) (if is_pos l then true_val else false_val) h,
        ),
        get_elem?-set_self t.var_data (var l) _ (omega (arith, v.core.data_length)),
        λ w ne. get_or-set_ne t.assigns (var l) w _ undef (λ p. ne (sym p)),
      )
