-- ===== src/Sat/Trail/Backtrack.antt =====
-- crates/smt-sat/src/trail.rs: going back to a decision level.
use mathlib.Core.Path.{subst}
use native.Mathlib.Decide.{ℕ_discrete}
use smt_solver_rust.Common.{
  ℕ, zero, suc, ◌+◌, ◌-◌, ◌≤◌, ◌<◌, ◌≡◌, refl, ap, sym, ◌∙◌, some, List, [], ◌∷◌, ◌++◌, length,
  get_elem?, get_or, set, take, arith, All, length-append, length-set, get_or-set_self,
  get_or-set_ne, get_elem?-append_old, get_elem?-append_new, get_elem?-lt, get_elem?-of_lt, lt→ltb,
  snoc-view, All-init, take-append_le, take_all, length-take_le, take-length, get_elem?-take_lt,
  Option-cases, Bool-cases, inl, inr, ltb,
}
use mathlib.Core.Option.{some-injective}
use smt_solver_rust.Sat.Lit.{Var, Lit, var, undef}
use smt_solver_rust.Sat.Trail.{Trail, decision_level, unwind, backtrack_to_with, backtrack_to}
use smt_solver_rust.Sat.Trail.View.{
  value_in, Distinct, value_in-append, Distinct-init, Ascending, Ascending-take, level_at,
  level_at-take,
}
use smt_solver_rust.Sat.Trail.Valid.{value_of, IsCore, IsValid}

-- The literals above the first `n` undone: their variables lose their values, and nothing else
-- changes.
pub record IsUndone (n : ℕ) (t u : Trail) : Type 0 where
  pub core : IsCore u
  pub kept : u.trail ≡ take n t.trail
  pub same_data : u.var_data ≡ t.var_data
  pub same_phase : u.phase ≡ t.phase
  pub same_limits : u.trail_lim ≡ t.trail_lim
  pub same_size : length u.assigns ≡ length t.assigns

All-final {κ} : (P : Lit → Type κ) (init : List Lit) (l : Lit) → All P (init ++ l ∷ []) → P l
All-final P [] l h = h.0
All-final P (k ∷ init) l h = All-final P init l h.1

module _ {ℓ} {S : Type ℓ} (on_unassign : Var → S → S) where
  -- One round.
  abbrev popped : Trail → Lit → List Lit → Trail
  popped t l init = record t { assigns = set t.assigns (var l) undef; trail = init }

  unwind_step :
      (rounds : ℕ) (t : Trail) (s : S) (init : List Lit) (l : Lit)
      → t.trail ≡ init ++ l ∷ []
      → var l < length t.assigns
      → unwind on_unassign (suc rounds) t s
        ≡ unwind on_unassign rounds (popped t l init) (on_unassign (var l) s)
  unfolding unwind
  unwind_step rounds t s init l e b =
      let n : length t.trail - 1 ≡ length init =
        omega (arith, ap length e, length-append init (l ∷ [])) in
      let g : get_elem? t.trail (length init) ≡ some l =
        ap (λ xs. get_elem? xs (length init)) e ∙ get_elem?-append_new init l in
      let k : take (length init) t.trail ≡ init =
        ap (take (length init)) e ∙ take-length init (l ∷ []) in
      rw (n, g, lt→ltb (var l) (length t.assigns) b, k)

  last_in_range :
      (t : Trail) (init : List Lit) (l : Lit)
      → IsCore t
      → t.trail ≡ init ++ l ∷ []
      → var l < length t.assigns
  last_in_range t init l c e =
      (All-final (λ k. var k < length t.assigns) init l
        (subst (All (λ k. var k < length t.assigns)) e c.in_range))

  popped-values :
      (t : Trail) (init : List Lit) (l : Lit)
      → IsCore t
      → t.trail ≡ init ++ l ∷ []
      → (value_in init (var l) ≡ undef)
      → (w : Var) → w < length t.assigns
      → value_of (popped t l init) w ≡ value_in init w
  unfolding value_in
  popped-values t init l c e fresh w h = elim (ℕ_discrete (var l) w) [
    | yes p ↦ ground (arith, p, get_or-set_self t.assigns (var l) undef undef)
    | no p ↦ ground (
      arith,
      get_or-set_ne t.assigns (var l) w undef undef p,
      c.values w h,
      ap (λ xs. value_in xs w) e,
      value_in-append init (l ∷ []) w,
    )
  ]

  popped-IsCore :
      (t : Trail) (init : List Lit) (l : Lit)
      → IsCore t
      → t.trail ≡ init ++ l ∷ []
      → IsCore (popped t l init)
  popped-IsCore t init l c e =
      let (d, fresh) = Distinct-init init l (subst Distinct e c.distinct) in
      record {
        data_length = simp length-set c.data_length;
        phase_length = simp length-set c.phase_length;
        distinct = d;
        in_range = simp length-set (
            All-init (λ k. var k < length t.assigns) init (l ∷ [])
              (subst (All (λ k. var k < length t.assigns)) e c.in_range));
        values = λ w h. popped-values t init l c e fresh w (simp length-set at h);
        levels = λ i k d g. c.levels i k d (
            ap (λ xs. get_elem? xs i) e
            ∙ get_elem?-append_old init (l ∷ []) i (get_elem?-lt init i g)
            ∙ g);
      }

  unwind-IsUndone :
      (rounds : ℕ) (t : Trail) (s : S) (n : ℕ)
      → IsCore t
      → length t.trail ≡ n + rounds
      → (u : Trail) × (s' : S) × (unwind on_unassign rounds t s ≡ some (u, s')) × IsUndone n t u
  unwind-IsUndone zero t s n c e = (
    t,
    s,
    unfold unwind in refl,
    record {
      core = c;
      kept = sym (take_all n t.trail (omega arith));
      same_data = refl;
      same_phase = refl;
      same_limits = refl;
      same_size = refl;
    },
  )
  unwind-IsUndone (suc rounds) t s n c e =
      let (init, l, p, q) = snoc-view t.trail (n + rounds) (omega arith) in
      let (u, s', r, d) =
        unwind-IsUndone rounds (popped t l init) (on_unassign (var l) s) n
          (popped-IsCore t init l c p) q in
      (
        u,
        s',
        unwind_step rounds t s init l p (last_in_range t init l c p) ∙ r,
        record {
          core = d.core;
          kept = d.kept ∙ sym (ap (take n) p ∙ take-append_le n init (l ∷ []) (omega arith));
          same_data = d.same_data;
          same_phase = d.same_phase;
          same_limits = d.same_limits;
          same_size = d.same_size ∙ length-set t.assigns (var l) undef;
        },
      )

-- The limits and the queue brought down to the level, after the loop.
abbrev cut : ℕ → ℕ → Trail → Trail
cut level k u = record u { qhead = k; trail_lim = take level u.trail_lim }

cut-IsValid :
    (level k : ℕ) (t u : Trail)
    → IsValid t
    → get_elem? t.trail_lim level ≡ some k
    → IsUndone k t u
    → IsValid (cut level k u) × (length (take level u.trail_lim) ≡ level)
cut-IsValid level k t u v at_k d =
    let (below, fits) = Ascending-take 0 (length t.trail) t.trail_lim level k v.limits at_k in
    let size : length u.trail ≡ k = ap length d.kept ∙ length-take_le k t.trail fits in
    let lims : take level u.trail_lim ≡ take level t.trail_lim = ap (take level) d.same_limits in
    (
      record {
        core = record {
          data_length = d.core.data_length;
          phase_length = d.core.phase_length;
          distinct = d.core.distinct;
          in_range = d.core.in_range;
          values = d.core.values;
          levels = λ i l e g.
              d.core.levels i l e g
              ∙ ap (λ ks. level_at ks i) d.same_limits
              ∙ sym (
                  level_at-take 0 (length t.trail) t.trail_lim level k i v.limits at_k
                    (omega (arith, get_elem?-lt u.trail i g, size)))
              ∙ ap (λ ks. level_at ks i) (sym lims);
        };
        limits =
            subst (λ n. Ascending 0 n (take level u.trail_lim)) (sym size)
              (subst (Ascending 0 k) (sym lims) below);
        queue = omega (arith, size);
      },
      ap length lims
          ∙ length-take_le level t.trail_lim (omega (arith, get_elem?-lt t.trail_lim level at_k)),
    )

module _ {ℓ} {S : Type ℓ} (on_unassign : Var → S → S) where
  -- Backtracking to a lower level succeeds and keeps the invariant: it leaves the literals below
  -- the limit of that level, with their data, puts the queue at that limit, leaves `level`
  -- decision levels with the limits that they had, and changes no saved phase.
  pub backtrack_to_with-IsValid :
      (level : ℕ) (t : Trail) (s : S)
      → IsValid t
      → level < decision_level t
      → (u : Trail) × (s' : S) × (k : ℕ) × (backtrack_to_with on_unassign level t s ≡ some (u, s'))
        × IsValid u
        × (get_elem? t.trail_lim level ≡ some k)
        × (u.trail ≡ take k t.trail)
        × (u.qhead ≡ k)
        × (decision_level u ≡ level)
        × (u.phase ≡ t.phase)
        × (u.var_data ≡ t.var_data)
        × (u.trail_lim ≡ take level t.trail_lim)
        × (length u.assigns ≡ length t.assigns)
  unfolding decision_level
  backtrack_to_with-IsValid level t s v h =
      let k : ℕ = get_or t.trail_lim level 0 in
      let at_k = get_elem?-of_lt t.trail_lim level 0 h in
      let fits = (Ascending-take 0 (length t.trail) t.trail_lim level k v.limits at_k).1 in
      let (u, s', run, d) =
        unwind-IsUndone on_unassign (length t.trail - k) t s k v.core (omega (arith, fits)) in
      let (valid, level_is) = cut-IsValid level k t u v at_k d in
      (
        cut level k u,
        s',
        k,
        unfold backtrack_to_with in rw (lt→ltb _ _ h, at_k, run),
        valid,
        at_k,
        d.kept,
        refl,
        level_is,
        d.same_phase,
        d.same_data,
        ap (take level) d.same_limits,
        d.same_size,
      )

-- What the closure keeps of its state holds after the loop.
module _ {ℓ κ} {S : Type ℓ} (on_unassign : Var → S → S) (P : S → Type κ) (n : ℕ)
    (keeps : (v : Var) (s : S) → v < n → P s → P (on_unassign v s)) where
  unwind_keeps :
      (rounds : ℕ) (t : Trail) (s : S) (u : Trail) (s' : S)
      → ((i : ℕ) (l : Lit) → get_elem? t.trail i ≡ some l → var l < n)
      → P s
      → unwind on_unassign rounds t s ≡ some (u, s')
      → P s'
  unfolding unwind
  unwind_keeps zero t s u s' b h e = subst P (ap (λ x. x.1) (some-injective _ _ e)) h
  unwind_keeps (suc rounds) t s u s' b h e =
      let last = length t.trail - 1 in
      elim (Option-cases (get_elem? t.trail last)) [
        | inl z ↦ let bad = rw (z) at e in absurd (cc)
        | inr (l, z) ↦
            let e1 = rw (z) at e in
            let v = record t { assigns = set t.assigns (var l) undef; trail = take last t.trail } in
            elim (Bool-cases (ltb (var l) (length t.assigns))) [
              | inr y ↦ let bad = rw (y) at e1 in absurd (cc)
              | inl y ↦
                  unwind_keeps rounds v (on_unassign (var l) s) u s'
                    (λ i m f.
                      let size = length-take_le last t.trail (omega arith) in
                      let below : i < last =
                        let k = get_elem?-lt (take last t.trail) i f in omega arith in
                      b i m (sym (get_elem?-take_lt last t.trail i below) ∙ f))
                    (keeps (var l) s (b last l z) h) (rw (y) at e1)
            ]
      ]

  pub backtrack_to_with_keeps :
      (level : ℕ) (t : Trail) (s : S) (u : Trail) (s' : S)
      → ((i : ℕ) (l : Lit) → get_elem? t.trail i ≡ some l → var l < n)
      → P s
      → backtrack_to_with on_unassign level t s ≡ some (u, s')
      → P s'
  unfolding backtrack_to_with
  backtrack_to_with_keeps level t s u s' b h e = elim (Bool-cases (ltb level (decision_level t))) [
    | inr z ↦ subst P (ap (λ x. x.1) (some-injective _ _ (rw (z) at e))) h
    | inl z ↦
        let e1 = rw (z) at e in
        elim (Option-cases (get_elem? t.trail_lim level)) [
          | inl y ↦ let bad = rw (y) at e1 in absurd (cc)
          | inr (k, y) ↦
              let e2 = rw (y) at e1 in
              elim (Option-cases (unwind on_unassign (length t.trail - k) t s)) [
                | inl x ↦ let bad = rw (x) at e2 in absurd (cc)
                | inr ((v, s2), x) ↦
                    let r = unwind_keeps (length t.trail - k) t s v s2 b h x in
                    subst P (ap (λ x. x.1) (some-injective _ _ (rw (x) at e2))) r
              ]
        ]
  ]

-- Backtracking to the current level or a higher one changes nothing.
pub backtrack_to_high :
    (level : ℕ) (t : Trail) → decision_level t ≤ level → backtrack_to level t ≡ some t
unfolding backtrack_to backtrack_to_with
backtrack_to_high level t h = ground arith
