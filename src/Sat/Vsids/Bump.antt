-- ===== src/Sat/Vsids/Bump.antt =====
-- crates/smt-sat/src/vsids.rs: `bump_var`, which raises an activity and moves the variable up.
use mathlib.Core.Option.{some-injective}
use native.Mathlib.Decide.{ℕ_discrete}
use smt_solver_rust.Common.{
  ℕ, zero, suc, ◌+◌, ◌<◌, ◌≡◌, refl, sym, ap, ◌∙◌, Bool, true, false, some, List, [], ◌∷◌, ◌==◌,
  if◌then◌else◌, ◌>>=◌, length, get_elem?, get_or, set, map, arith, Bool-cases, inl, inr,
  get_elem?-of_lt, get_elem?-lt, get_elem?-set_self, get_elem?-set_ne, length-set, ==→≢, ≢→==,
  ==-refl,
}
use smt_solver_rust.Sat.Lit.{Var}
use smt_solver_rust.Sat.Float.{F64, FloatOps}
use smt_solver_rust.Sat.Vsids.{Vsids, absent, rescale, bump_var}
use smt_solver_rust.Sat.Vsids.Indexed.{IsIndexed, Has}
use smt_solver_rust.Sat.Vsids.Sift.{sift_up-Sifted, reactivated, length-map}

-- A number after the rescaling, if there is one.
abbrev pub scaled : FloatOps → Bool → F64 → F64
scaled X down x = if down then X.mul_f x X.tiny_f else x

-- The heap after the bump of `v`, whose activity was `a`: it is indexed and has the variables of the
-- one before; the activity of `v` is raised by the increment and no other is, and all of them and
-- the increment are scaled down where the raised one is above the limit.
pub record IsBumped (X : FloatOps) (n : ℕ) (v : Var) (a : F64) (s t : Vsids) : Type 0 where
  pub indexed : IsIndexed n t
  pub same_length : length t.heap ≡ length s.heap
  pub keeps : (w : Var) → Has s w → Has t w
  pub activities :
      (w : Var) (x : F64)
      → get_elem? s.activity w ≡ some x
      → get_elem? t.activity w
        ≡ some (
            scaled X
              (X.gt_f (X.add_f a s.var_inc) X.huge_f)
              (if w == v then X.add_f a s.var_inc else x))
  pub increment : t.var_inc ≡ scaled X (X.gt_f (X.add_f a s.var_inc) X.huge_f) s.var_inc

get_elem?-map {ℓ} :
    {A B : Type ℓ}
    → (f : A → B) (xs : List A) (i : ℕ) (x : A) → get_elem? xs i ≡ some x
    → get_elem? (map f xs) i ≡ some (f x)
get_elem?-map f [] i x e = absurd (cc)
get_elem?-map f (y ∷ xs) zero x e = ap (λ z. some (f z)) (some-injective _ _ e)
get_elem?-map f (y ∷ xs) (suc i) x e = get_elem?-map f xs i x e

module _ (X : FloatOps) (n : ℕ) where
  -- The activities once one is written.
  raised :
      (s : Vsids) (v w : Var) (b x : F64)
      → v < length s.activity
      → get_elem? s.activity w ≡ some x
      → get_elem? (set s.activity v b) w ≡ some (if w == v then b else x)
  raised s v w b x h e = elim (ℕ_discrete v w) [
    | yes p ↦
        let q : (w == v) ≡ true = rw (p) (==-refl w) in
        rw (q) (ap (get_elem? (set s.activity v b)) (sym p) ∙ get_elem?-set_self s.activity v b h)
    | no ne ↦
        let q : (w == v) ≡ false = ≢→== w v (λ z. ne (sym z)) in
        rw (q) (get_elem?-set_ne s.activity v w b ne ∙ e)
  ]

  -- Rescaling keeps the heap, and scales everything or nothing.
  rescale_scales :
      (a : F64) (s : Vsids)
      → IsIndexed n s
      → IsIndexed n (rescale X a s)
        × ((rescale X a s).heap ≡ s.heap)
        × ((w : Var) (x : F64)
            → get_elem? s.activity w ≡ some x
            → get_elem? (rescale X a s).activity w ≡ some (scaled X (X.gt_f a X.huge_f) x))
        × ((rescale X a s).var_inc ≡ scaled X (X.gt_f a X.huge_f) s.var_inc)
  unfolding rescale
  rescale_scales a s k = elim (Bool-cases (X.gt_f a X.huge_f)) [
    | inl p ↦
        let f : F64 → F64 = λ x. X.mul_f x X.tiny_f in
        (
          rw (p) (
              reactivated X n s (map f s.activity) (f s.var_inc) k
                (length-map f s.activity ∙ k.activities)),
          rw (p) refl,
          (λ w x e. rw (p) (get_elem?-map f s.activity w x e)),
          rw (p) refl,
        )
    | inr p ↦ (rw (p) k, rw (p) refl, (λ w x e. rw (p) e), rw (p) refl)
  ]

  -- Bumping a variable in range returns: the heap stays indexed, as long, with its variables, and the
  -- activities and the increment are those that the bump should leave.
  pub bump_var-IsBumped :
      (v : Var) (s : Vsids)
      → IsIndexed n s
      → v < n
      → (t : Vsids) × (a : F64) × (bump_var X v s ≡ some t)
        × (get_elem? s.activity v ≡ some a)
        × IsBumped X n v a s t
  unfolding bump_var
  bump_var-IsBumped v s k h =
      let a = get_or s.activity v 0 in
      let inside : v < length s.activity = omega (arith, k.activities) in
      let at = get_elem?-of_lt s.activity v 0 inside in
      let b = X.add_f a s.var_inc in
      let r = record s { activity = set s.activity v b } in
      let k' =
        reactivated X n s (set s.activity v b) s.var_inc k
          (length-set s.activity v b ∙ k.activities) in
      let (kt, eh, acts, inc) = rescale_scales b r k' in
      let t = rescale X b r in
      let pos = get_or t.heap_pos v 0 in
      let here = get_elem?-of_lt t.heap_pos v 0 (omega (arith, kt.positions)) in
      let has : (w : Var) → Has s w → Has t w = λ w (i, e). (i, ap (λ xs. get_elem? xs i) eh ∙ e) in
      let done : (w : Var) (x : F64)
          → get_elem? s.activity w ≡ some x
          → get_elem? t.activity w ≡ some (scaled X (X.gt_f b X.huge_f) (if w == v then b else x)) =
        λ w x e. acts w (if w == v then b else x) (raised s v w b x inside e) in
      elim (Bool-cases (pos == absent)) [
        | inl p ↦ (
          t,
          a,
          rw (bump_var, at, here, ◌>>=◌, p) refl,
          at,
          record {
            indexed = kt;
            same_length = ap length eh;
            keeps = has;
            activities = done;
            increment = inc;
          },
        )
        | inr p ↦ elim (kt.found v pos here) [
          | inl gone ↦ absurd (==→≢ pos absent p gone)
          | inr standing ↦
              let (u, e, ku, l, same, m, i) =
                sift_up-Sifted X n (pos + 1) pos t kt (get_elem?-lt t.heap pos standing)
                  (omega arith) in
              (
                u,
                a,
                rw (bump_var, at, here, ◌>>=◌, p) e,
                at,
                record {
                  indexed = ku;
                  same_length = l ∙ ap length eh;
                  keeps = λ w z. m w (has w z);
                  activities = λ w x z. ap (λ xs. get_elem? xs w) same ∙ done w x z;
                  increment = i ∙ inc;
                },
              )
        ]
      ]
