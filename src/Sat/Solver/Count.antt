-- ===== src/Sat/Solver/Count.antt =====
-- crates/smt-sat/src/solver.rs: what `path_count` of `analyze_conflict` counts, the marked variables
-- of the current level below a position of the trail.
use smt_solver_rust.Common.{
  ℕ, zero, suc, ◌+◌, ◌≤◌, ◌<◌, ◌≡◌, ◌≢◌, refl, sym, ap, ◌∙◌, Bool, true, false, ◌&&◌, some, List,
  ◌==◌, ltb, if◌then◌else◌, length, get_elem?, get_or, set, arith, Bool-cases, inl, inr,
  get_or-set_self, get_or-set_ne, get_elem?-of_lt, get_or-eq_of_some, lt→ltb, ==-refl,
}
use native.Mathlib.Decide.{ℕ_discrete}
use smt_solver_rust.Sat.Lit.{Lit, var}
use smt_solver_rust.Sat.Trail.{Trail}
use smt_solver_rust.Sat.Trail.View.{level_at}
use smt_solver_rust.Sat.Trail.Valid.{IsValid}
use smt_solver_rust.Sat.Solver.Position.{Distinct-position, trail_in_range}

abbrev pub lit_at : Trail → ℕ → Lit
lit_at t i = get_or t.trail i 0

abbrev pub seen_at : Trail → List Bool → ℕ → Bool
seen_at t seen i = get_or seen (var (lit_at t i)) false

abbrev pub counts : Trail → ℕ → List Bool → ℕ → Bool
counts t current seen i = seen_at t seen i && level_at t.trail_lim i == current

unfoldable pub count : Trail → ℕ → List Bool → ℕ → ℕ
count t current seen zero = 0
count t current seen (suc i) = count t current seen i + (if counts t current seen i then 1 else 0)

module _ (t : Trail) (v : IsValid t) (current : ℕ) (seen : List Bool)
    (size : length seen ≡ length t.assigns) where
  lit_at_position : (i : ℕ) → i < length t.trail → get_elem? t.trail i ≡ some (lit_at t i)
  lit_at_position i h = get_elem?-of_lt t.trail i 0 h

  -- Marking or unmarking the variable at one position changes no other position.
  seen_at-set_ne :
      (i j : ℕ) (b : Bool)
      → i < length t.trail
      → j < length t.trail
      → i ≢ j
      → seen_at t (set seen (var (lit_at t j)) b) i ≡ seen_at t seen i
  seen_at-set_ne i j b h k ne =
      get_or-set_ne seen (var (lit_at t j)) (var (lit_at t i)) b false (λ p. ne (
        sym (
          Distinct-position t.trail j i (lit_at t j) (lit_at t i) v.core.distinct
            (lit_at_position j k) (lit_at_position i h) p)))

  seen_at-set_self :
      (j : ℕ) (b : Bool) → j < length t.trail → seen_at t (set seen (var (lit_at t j)) b) j ≡ b
  seen_at-set_self j b h =
      get_or-set_self seen (var (lit_at t j)) b false
        (let r = trail_in_range t v j (lit_at t j) (lit_at_position j h) in omega arith)

  -- Below a position and at it, nothing changes by unmarking there.
  pub count-unmark :
      (i j : ℕ) (b : Bool)
      → i ≤ j
      → j < length t.trail
      → count t current (set seen (var (lit_at t j)) b) i ≡ count t current seen i
  unfolding count
  count-unmark zero j b h k = refl
  count-unmark (suc i) j b h k =
      let same = seen_at-set_ne i j b (omega arith) k (omega arith) in
      let rest = count-unmark i j b (omega arith) k in rw (same, rest) refl

  -- Marking an unmarked variable adds one where it counts.
  pub count-mark :
      (i j : ℕ)
      → j < length t.trail
      → i ≤ length t.trail
      → seen_at t seen j ≡ false
      → count t current (set seen (var (lit_at t j)) true) i
        ≡ count t current seen i + (if ltb j i && level_at t.trail_lim j == current then 1 else 0)
  unfolding count
  count-mark zero j k h u = ground arith
  count-mark (suc i) j k h u = elim (ℕ_discrete i j) [
    | yes p ↦
        let kept = count-unmark j j true (omega arith) k in
        let now = seen_at-set_self j true k in
        let inside = lt→ltb j (suc j) (omega arith) in rw (p, kept, now, u, inside) (ground arith)
    | no ne ↦
        let same = seen_at-set_ne i j true (omega arith) k ne in
        let rest = count-mark i j k (omega arith) u in rw (same, rest) (ground arith)
  ]

-- Where something is counted, it stands at a position.
pub count_pos :
    (t : Trail) (current : ℕ) (seen : List Bool) (i : ℕ)
    → 0 < count t current seen i
    → (j : ℕ) × (j < i) × (seen_at t seen j ≡ true) × (level_at t.trail_lim j ≡ current)
unfolding count
count_pos t current seen zero h = absurd (omega arith)
count_pos t current seen (suc i) h = elim (Bool-cases (counts t current seen i)) [
  | inl p ↦ (i, omega arith, ground arith, ground arith)
  | inr p ↦
      let (j, below, s, l) = count_pos t current seen i (let h' = rw p at h in omega arith) in
      (j, omega arith, s, l)
]

-- The variable at one position counts, or does not.
module _ (t : Trail) (current : ℕ) (seen : List Bool) where
  pub count_none : count t current seen 0 ≡ 0
  unfolding count
  count_none = refl

  pub count-skip :
      (i : ℕ) (l : Lit)
      → get_elem? t.trail i ≡ some l
      → get_or seen (var l) false ≡ false
      → count t current seen (suc i) ≡ count t current seen i
  unfolding count
  count-skip i l at u =
      let p : lit_at t i ≡ l = get_or-eq_of_some t.trail i 0 at in
      let z : seen_at t seen i ≡ false = ap (λ k. get_or seen (var k) false) p ∙ u in
      rw (z) (omega arith)

  pub count-here :
      (i : ℕ) (l : Lit)
      → get_elem? t.trail i ≡ some l
      → get_or seen (var l) false ≡ true
      → level_at t.trail_lim i ≡ current
      → count t current seen (suc i) ≡ count t current seen i + 1
  unfolding count
  count-here i l at s lv =
      let p : lit_at t i ≡ l = get_or-eq_of_some t.trail i 0 at in
      let z : seen_at t seen i ≡ true = ap (λ k. get_or seen (var k) false) p ∙ s in
      let e : (level_at t.trail_lim i == current) ≡ true = rw (lv) (==-refl current) in
      rw (z, e) refl

  pub counted_below :
      (i j : ℕ) (l : Lit)
      → j < i
      → get_elem? t.trail j ≡ some l
      → get_or seen (var l) false ≡ true
      → level_at t.trail_lim j ≡ current
      → 0 < count t current seen i
  unfolding count
  counted_below zero j l h at s lv = absurd (omega arith)
  counted_below (suc i) j l h at s lv = elim (ℕ_discrete j i) [
    | yes p ↦
        let at' : get_elem? t.trail i ≡ some l = ap (get_elem? t.trail) (sym p) ∙ at in
        let lv' : level_at t.trail_lim i ≡ current = ap (level_at t.trail_lim) (sym p) ∙ lv in
        let c = count-here i l at' s lv' in omega arith
    | no ne ↦ let r = counted_below i j l (omega arith) at s lv in omega arith
  ]
