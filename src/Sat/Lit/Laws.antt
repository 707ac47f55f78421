-- ===== src/Sat/Lit/Laws.antt =====
-- crates/smt-sat/src/lit.rs: laws of the encoding of literals.
use smt_solver_rust.Common.{
  zero, suc, ◌+◌, ◌-◌, ◌*◌, ◌/◌, ◌%◌, ◌^◌, ◌<◌, ◌≡◌, ◌≢◌, refl, Bool, true, false, not, none, some,
  arith, bit_and-one, bit_xor-one, bit_or-one, bit_or-zero, bit_xor,
}
use smt_solver_rust.Common.Int.{ℤ, pos, negsuc, magnitude}
use smt_solver_rust.Sat.Lit.{
  Var, Lit, to_lit, to_neg_lit, new, var, is_pos, is_neg, negate, to_dimacs, from_dimacs,
}

pub var-negate : (l : Lit) → var (negate l) ≡ var l
unfolding var negate
var-negate l = omega (arith, bit_xor-one l)

pub is_pos-negate : (l : Lit) → is_pos (negate l) ≡ not (is_pos l)
unfolding is_pos negate
is_pos-negate l = ground (arith, bit_xor-one l, bit_and-one l, bit_and-one (bit_xor l 1))

pub is_neg-not-is_pos : (l : Lit) → is_neg l ≡ not (is_pos l)
unfolding is_pos is_neg
is_neg-not-is_pos l = ground (arith, bit_and-one l)

pub negate-negate : (l : Lit) → negate (negate l) ≡ l
unfolding negate
negate-negate l = omega (arith, bit_xor-one l, bit_xor-one (bit_xor l 1))

pub literal_ext : (l m : Lit) → var l ≡ var m → is_pos l ≡ is_pos m → l ≡ m
unfolding var is_pos
literal_ext l m h k = ground (arith, bit_and-one l, bit_and-one m)

pub negate_ne_self : (l : Lit) → negate l ≢ l
unfolding negate
negate_ne_self l = omega (arith, bit_xor-one l)

new-true : (v : Var) → v < 2 ^ 31 → new v true ≡ v * 2 + 1
unfolding new
new-true v h = let e : v * 2 % 2 ^ 32 ≡ v * 2 = omega arith in rw e (bit_or-one v)

new-false : (v : Var) → v < 2 ^ 31 → new v false ≡ v * 2
unfolding new
new-false v h = let e : v * 2 % 2 ^ 32 ≡ v * 2 = omega arith in rw e (bit_or-zero (v * 2))

-- For a variable below 2 ^ 31, `new` gives a 32-bit literal from which `var` and `is_neg` read
-- the variable and the sign back, and which `to_lit` and `to_neg_lit` build as well.
pub new_fields :
    (v : Var) (b : Bool)
    → v < 2 ^ 31
    → (var (new v b) ≡ v)
      × (is_neg (new v b) ≡ b)
      × (new v b < 2 ^ 32)
      × (to_lit v ≡ new v false)
      × (to_neg_lit v ≡ new v true)
unfolding var is_neg to_lit to_neg_lit
new_fields v true h = (
  omega (arith, new-true v h),
  ground (arith, new-true v h, bit_and-one (new v true)),
  omega (arith, new-true v h),
  omega (arith, new-false v h),
  unfold new in refl,
)
new_fields v false h = (
  omega (arith, new-false v h),
  ground (arith, new-false v h, bit_and-one (new v false)),
  omega (arith, new-false v h),
  omega (arith, new-false v h),
  unfold new in refl,
)

-- A 32-bit literal is the one that `new` builds from its variable and its sign.
pub new-var-is_neg : (l : Lit) → l < 2 ^ 32 → new (var l) (is_neg l) ≡ l
unfolding var is_neg
new-var-is_neg l h =
    ground (arith, bit_and-one l, new-true (l / 2) (omega arith), new-false (l / 2) (omega arith))

-- Negation exchanges the two literals of a variable.
pub negate-new : (v : Var) (b : Bool) → v < 2 ^ 31 → negate (new v b) ≡ new v (not b)
unfolding negate
negate-new v true h = omega (arith, new-true v h, new-false v h, bit_xor-one (new v true))
negate-new v false h = omega (arith, new-true v h, new-false v h, bit_xor-one (new v false))

-- A literal whose variable is below 2 ^ 31 - 1 comes back from its DIMACS integer.
pub from_dimacs-to_dimacs : (l : Lit) → l < 2 ^ 32 - 2 → from_dimacs (to_dimacs l) ≡ some l
unfolding from_dimacs to_dimacs var is_pos
from_dimacs-to_dimacs l h =
    ground (arith, bit_and-one l, new-true (l / 2) (omega arith), new-false (l / 2) (omega arith))

-- A nonzero DIMACS integer other than the least `i32` comes back from the literal it names, and
-- zero names none.
pub to_dimacs-from_dimacs :
    (d : ℤ)
    → magnitude d < 2 ^ 31
    → (from_dimacs (pos 0) ≡ none)
      × (d ≢ pos 0 → (l : Lit) × (from_dimacs d ≡ some l) × (to_dimacs l ≡ d))
unfolding from_dimacs to_dimacs var is_pos
to_dimacs-from_dimacs (pos zero) h = (refl, λ ne. absurd (ne refl))
to_dimacs-from_dimacs (pos (suc n)) h = (
  refl,
  λ _. (new n false, refl, ground (arith, new-false n (omega arith), bit_and-one (new n false))),
)
to_dimacs-from_dimacs (negsuc n) h = (
  refl,
  λ _. (new n true, refl, ground (arith, new-true n (omega arith), bit_and-one (new n true))),
)
