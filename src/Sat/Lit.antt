-- ===== src/Sat/Lit.antt =====
-- crates/smt-sat/src/lit.rs: variables, literals with the sign in the lowest bit, and the
-- three-valued assignment. `Var(u32)` and `Lit(u32)` are the numbers that they hold; a shift to
-- the left drops the bits above 32. An `i32` is an integer whose range the laws state. Arithmetic
-- wraps, as in the release profile, which has no overflow checks.
pub mod Laws
mod Tests
use smt_solver_rust.Common.{
  ℕ, zero, suc, ◌+◌, ◌-◌, ◌*◌, ◌/◌, ◌%◌, ◌^◌, Bool, true, false, Option, none, some, ◌==◌, ltb,
  if◌then◌else◌, bit_and, bit_or, bit_xor,
}
use smt_solver_rust.Common.Int.{ℤ, pos, negsuc}

abbrev pub Var : Type 0
Var = ℕ

abbrev pub Lit : Type 0
Lit = ℕ

abbrev pub u32 : ℕ → ℕ
u32 n = n % 2 ^ 32

unfoldable pub to_lit : Var → Lit
to_lit v = u32 (v * 2)

unfoldable pub to_neg_lit : Var → Lit
to_neg_lit v = bit_or (u32 (v * 2)) 1

-- `negated as u32`
abbrev as_u32 : Bool → ℕ
as_u32 true = 1
as_u32 false = 0

unfoldable pub new : Var → Bool → Lit
new v negated = bit_or (u32 (v * 2)) (as_u32 negated)

unfoldable pub var : Lit → Var
var l = l / 2 ^ 1

unfoldable pub is_pos : Lit → Bool
is_pos l = bit_and l 1 == 0

unfoldable pub is_neg : Lit → Bool
is_neg l = bit_and l 1 == 1

-- `!lit`
unfoldable pub negate : Lit → Lit
negate l = bit_xor l 1

-- A `u32` cast to `i32` keeps the bit pattern.
abbrev as_i32 : ℕ → ℤ
as_i32 n = if ltb n (2 ^ 31) then pos n else negsuc (2 ^ 32 - n - 1)

-- `-v` on an `i32`, which leaves the least one as it is.
abbrev neg_i32 : ℤ → ℤ
neg_i32 (pos zero) = pos zero
neg_i32 (pos (suc n)) = negsuc n
neg_i32 (negsuc n) = if n == 2 ^ 31 - 1 then negsuc n else pos (suc n)

unfoldable pub to_dimacs : Lit → ℤ
unfolding var is_pos
to_dimacs l = let v = as_i32 (u32 (var l + 1)) in if is_pos l then v else neg_i32 v

-- `none` is the failed assertion on zero. Of the least `i32`, `d.abs()` wraps to itself and `- 1`
-- then to 2 ^ 31 - 1, which is also its magnitude less one.
unfoldable pub from_dimacs : ℤ → Option Lit
unfolding new
from_dimacs (pos zero) = none
from_dimacs (pos (suc n)) = some (new n false)
from_dimacs (negsuc n) = some (new n true)

pub data LBool : Type 0 where
  undef true_val false_val : LBool

unfoldable pub from_bool : Bool → LBool
from_bool b = if b then true_val else false_val

unfoldable pub is_defined : LBool → Bool
is_defined undef = false
is_defined _ = true

unfoldable pub is_true : LBool → Bool
is_true true_val = true
is_true _ = false

unfoldable pub is_false : LBool → Bool
is_false false_val = true
is_false _ = false

-- `!value`
unfoldable pub not_val : LBool → LBool
not_val true_val = false_val
not_val false_val = true_val
not_val undef = undef
