-- ===== src/Sat/Solver/Position.antt =====
-- crates/smt-sat/src/trail.rs: positions on the trail, for the analysis of conflicts.
use mathlib.Core.Path.{subst}
use mathlib.Core.Option.{some-injective}
use smt_solver_rust.Common.{
  ℕ, zero, suc, ◌≤◌, ◌<◌, ◌≡◌, ◌≢◌, refl, sym, ap, ◌∙◌, true, false, some, List, [], ◌∷◌, ◌++◌,
  length, get_elem?, arith, All, ◌⊎◌, inl, inr, get_elem?-of_lt, get_elem?-lt, Bool-cases,
  get_elem?-append_old, get_elem?-append_new,
}
use smt_solver_rust.Sat.Lit.{Lit, var, negate}
use smt_solver_rust.Sat.Lit.Laws.{var-negate, is_pos-negate}
use smt_solver_rust.Sat.Models.{Valuation, holds, satisfies}
use smt_solver_rust.Sat.Trail.{Trail, VarData, unit, level_of}
use smt_solver_rust.Sat.Trail.View.{value_in, Distinct, level_at}
use smt_solver_rust.Sat.Trail.Valid.{IsValid, value_in-get}

-- The literal stands somewhere in the list.
abbrev pub In : Lit → List Lit → Type 0
In m ls = (i : ℕ) × (get_elem? ls i ≡ some m)

pub In-head : (m : Lit) (ls : List Lit) → In m (m ∷ ls)
In-head m ls = (0, refl)

pub In-tail : (m l : Lit) (ls : List Lit) → In m ls → In m (l ∷ ls)
In-tail m l ls (i, e) = (suc i, e)

pub In-old : (m : Lit) (ls ms : List Lit) → In m ls → In m (ls ++ ms)
In-old m ls ms (i, e) = (i, get_elem?-append_old ls ms i (get_elem?-lt ls i e) ∙ e)

pub In-new : (m : Lit) (ls : List Lit) → In m (ls ++ m ∷ [])
In-new m ls = (length ls, get_elem?-append_new ls m)

pub All-In {κ} : (P : Lit → Type κ) (ls : List Lit) → All P ls → (m : Lit) → In m ls → P m
All-In P [] h m (i, e) = absurd (cc)
All-In P (l ∷ ls) h m (zero, e) = subst P (some-injective _ _ e) h.0
All-In P (l ∷ ls) h m (suc i, e) = All-In P ls h.1 m (i, e)

pub In-snoc-cases : (ls : List Lit) (l m : Lit) → In m (ls ++ l ∷ []) → In m ls ⊎ (m ≡ l)
In-snoc-cases [] l m (zero, e) = inr (sym (some-injective _ _ e))
In-snoc-cases [] l m (suc i, e) = absurd (cc)
In-snoc-cases (x ∷ ls) l m (zero, e) = inl (zero, e)
In-snoc-cases (x ∷ ls) l m (suc i, e) = elim (In-snoc-cases ls l m (i, e)) [
  | inl (j, f) ↦ inl (suc j, f)
  | inr same ↦ inr same
]

pub In-satisfies :
    (α : Valuation) (m : Lit) (ls : List Lit) → In m ls → holds α m ≡ true → satisfies α ls ≡ true
unfolding satisfies
In-satisfies α m [] (i, e) h = absurd (cc)
In-satisfies α m (l ∷ ls) (zero, e) h = let q : l ≡ m = some-injective _ _ e in ground arith
In-satisfies α m (l ∷ ls) (suc i, e) h =
    let r = In-satisfies α m ls (i, e) h in
    elim (Bool-cases (holds α l)) [ inl p ↦ rw (p) refl | inr p ↦ rw (p) r ]

pub satisfies-In :
    (α : Valuation) (ls : List Lit)
    → satisfies α ls ≡ true
    → (m : Lit) × In m ls × (holds α m ≡ true)
unfolding satisfies
satisfies-In α [] h = absurd (cc)
satisfies-In α (l ∷ ls) h = elim (Bool-cases (holds α l)) [
  | inl p ↦ (l, (0, refl), p)
  | inr p ↦ let (m, (i, e), k) = satisfies-In α ls (sym (rw (p)) ∙ h) in (m, (suc i, e), k)
]

-- A literal and its complement.
pub holds_not_both : (α : Valuation) (m : Lit) → holds α m ≡ true → holds α (negate m) ≡ false
unfolding holds
holds_not_both α m h = ground (arith, var-negate m, is_pos-negate m)

pub holds_one : (α : Valuation) (m : Lit) → holds α m ≡ false → holds α (negate m) ≡ true
unfolding holds
holds_one α m h = ground (arith, var-negate m, is_pos-negate m)

-- No variable stands twice.
value_in-Distinct :
    (ls : List Lit) (l m : Lit) (j : ℕ)
    → value_in ls (var l) ≡ value_in [] 0
    → get_elem? ls j ≡ some m
    → var l ≢ var m
unfolding value_in
value_in-Distinct ls l m j u e p = value_in-get ls j m e (ap (value_in ls) (sym p) ∙ u)

pub Distinct-position :
    (ls : List Lit) (i j : ℕ) (l m : Lit)
    → Distinct ls
    → get_elem? ls i ≡ some l
    → get_elem? ls j ≡ some m
    → var l ≡ var m
    → i ≡ j
unfolding value_in
Distinct-position [] i j l m d e f p = absurd (cc)
Distinct-position (x ∷ xs) zero zero l m d e f p = refl
Distinct-position (x ∷ xs) zero (suc j) l m d e f p =
    absurd (value_in-Distinct xs x m j d.0 f (ap var (some-injective _ _ e) ∙ p))
Distinct-position (x ∷ xs) (suc i) zero l m d e f p =
    absurd (value_in-Distinct xs x l i d.0 e (ap var (some-injective _ _ f) ∙ sym p))
Distinct-position (x ∷ xs) (suc i) (suc j) l m d e f p =
    ap suc (Distinct-position xs i j l m d.1 e f p)

-- The complement of the literal stands on the trail before the position.
abbrev pub FalseBefore : Trail → ℕ → Lit → Type 0
FalseBefore t b m = (j : ℕ) × (j < b) × (get_elem? t.trail j ≡ some (negate m))

-- Levels do not fall along the trail, and the last is the number of limits.
pub level_at_mono : (ks : List ℕ) (i j : ℕ) → i ≤ j → level_at ks i ≤ level_at ks j
unfolding level_at
level_at_mono [] i j h = omega arith
level_at_mono (k ∷ ks) i j h = ground (arith, level_at_mono ks i j h)

pub level_at-le : (ks : List ℕ) (i : ℕ) → level_at ks i ≤ length ks
unfolding level_at
level_at-le [] i = omega arith
level_at-le (k ∷ ks) i = ground (arith, level_at-le ks i)

in_range_at :
    (n : ℕ) (ls : List Lit) (i : ℕ) (l : Lit)
    → All (λ k. var k < n) ls
    → get_elem? ls i ≡ some l
    → var l < n
in_range_at n [] i l h e = absurd (cc)
in_range_at n (x ∷ xs) zero l h e =
    let q : x ≡ l = some-injective _ _ e in subst (λ k. var k < n) q h.0
in_range_at n (x ∷ xs) (suc i) l h e = in_range_at n xs i l h.1 e

module _ (t : Trail) (v : IsValid t) where
  pub trail_in_range : (i : ℕ) (l : Lit) → get_elem? t.trail i ≡ some l → var l < length t.assigns
  trail_in_range i l e = in_range_at (length t.assigns) t.trail i l v.core.in_range e

  -- The level of a variable on the trail is that of its position.
  pub level_of-position :
      (i : ℕ) (l : Lit)
      → get_elem? t.trail i ≡ some l
      → level_of t (var l) ≡ some (level_at t.trail_lim i)
  unfolding level_of
  level_of-position i l e =
      let d : VarData = record { level = 0; reason = unit } in
      let at =
        get_elem?-of_lt t.var_data (var l) d
          (omega (arith, trail_in_range i l e, v.core.data_length)) in
      rw (at) (ap some (v.core.levels i l d e))
