-- ===== src/Core/Meaning.antt =====
-- What terms mean: an independent reading of operators of SMT-LIB over values. Nothing of this
-- is code. Bit-vectors are numbers below 2 ^ width; a value that no operator of the fragment
-- takes apart is `other`. Comparisons, equations, `xor`, implications and the binary operators on
-- bit-vectors are read on two arguments only: `none` is an ill-typed application, and one of these
-- to another number of arguments, a chained comparison for example.
pub mod Model
pub mod Terms
pub mod Checked
pub mod Fresh
pub mod Sample
mod Tests
use smt_solver_rust.Common.{
  ℕ, zero, suc, ◌+◌, ◌-◌, ◌*◌, ◌/◌, ◌%◌, ◌^◌, ◌≡◌, refl, Bool, true, false, not, ◌&&◌, ◌||◌, Option,
  none, some, List, [], ◌∷◌, ◌==◌, ltb, leb, if◌then◌else◌, ◌>>=◌, bit_and, bit_or, bit_xor,
  bool_eq,
}
use smt_solver_rust.Common.Int.{ℤ, pos, ◌+ℤ◌, ◌-ℤ◌, ◌*ℤ◌, ltb_ℤ, leb_ℤ, eqb_ℤ}
use smt_solver_rust.Core.Op.{
  Op, true_op, false_op, not_op, and_op, or_op, xor_op, implies, ite_op, eq_op, bv_const, bv_add,
  bv_sub, bv_mul, bv_udiv, bv_urem, bv_and, bv_or, bv_xor, bv_not, bv_shl, bv_lshr, bv_ashr,
  bv_concat, bv_extract, bv_ult, bv_ule, bv_ugt, bv_uge, int_const, real_const, add_op, sub_op,
  mul_op, lt_op, le_op, gt_op, ge_op,
}

-- The rationals of `num_rational`: a numerator and a denominator, and the operations that the
-- source calls. Comparing a number with itself is all that is asked of them.
pub record Ratio : Type 0 where
  pub numer : ℤ
  pub denom : ℕ

pub record RatioOps : Type 0 where
  pub zero_r : Ratio
  pub one_r : Ratio
  pub add_r : Ratio → Ratio → Ratio
  pub sub_r : Ratio → Ratio → Ratio
  pub mul_r : Ratio → Ratio → Ratio
  pub eq_r : Ratio → Ratio → Bool
  pub lt_r : Ratio → Ratio → Bool
  pub le_r : Ratio → Ratio → Bool
  pub eq_r_self : (r : Ratio) → eq_r r r ≡ true

pub data Value : Type 0 where
  bool : Bool → Value
  bits : ℕ → ℕ → Value
  int : ℤ → Value
  real : Ratio → Value
  other : ℕ → Value

-- A bit-vector has a positive width that the sorts allow, and fits it.
abbrev pub fits : ℕ → ℕ → Bool
fits x w = ltb 0 w && (leb w 65536 && ltb x (2 ^ w))

abbrev pub checked : Value → Option Value
checked (bits x w) = if fits x w then some (bits x w) else none
checked v = some v

abbrev pub bool_and : List Value → Option Bool
bool_and [] = some true
bool_and (bool b ∷ vs) = bool_and vs >>= λ c. some (b && c)
bool_and (_ ∷ vs) = none

abbrev pub bool_or : List Value → Option Bool
bool_or [] = some false
bool_or (bool b ∷ vs) = bool_or vs >>= λ c. some (b || c)
bool_or (_ ∷ vs) = none

-- Two bit-vectors of one width.
abbrev pub bits_op : (ℕ → ℕ → ℕ → ℕ) → List Value → Option Value
bits_op f (bits x w ∷ (bits y u ∷ [])) = if w == u then some (bits (f w x y) w) else none
bits_op f _ = none

abbrev pub bits_test : (ℕ → ℕ → Bool) → List Value → Option Value
bits_test f (bits x w ∷ (bits y u ∷ [])) = if w == u then some (bool (f x y)) else none
bits_test f _ = none

-- Division by zero gives all ones, and the remainder by zero is the dividend.
abbrev pub udiv : ℕ → ℕ → ℕ → ℕ
udiv w x zero = 2 ^ w - 1
udiv w x (suc y) = x / suc y

abbrev pub urem : ℕ → ℕ → ℕ → ℕ
urem w x zero = x
urem w x (suc y) = x % suc y

-- The sign is the top bit; a negative number is shifted as its distance from all ones.
abbrev pub ashr : ℕ → ℕ → ℕ → ℕ
ashr w x y = if ltb x (2 ^ (w - 1)) then x / 2 ^ y else 2 ^ w - 1 - (2 ^ w - 1 - x) / 2 ^ y

abbrev pub same : (Ratio → Ratio → Bool) → Value → Value → Option Bool
same eq_r (bool b) (bool c) = some (bool_eq b c)
same eq_r (bits x w) (bits y u) = if w == u then some (x == y) else none
same eq_r (int i) (int j) = some (eqb_ℤ i j)
same eq_r (real r) (real s) = some (eq_r r s)
same eq_r (other m) (other n) = some (m == n)
same eq_r _ _ = none

-- A chain of sums or products, from the left, over numbers of one kind.
abbrev pub ints_from : (ℤ → ℤ → ℤ) → ℤ → List Value → Option Value
ints_from f acc [] = some (int acc)
ints_from f acc (int i ∷ vs) = ints_from f (f acc i) vs
ints_from f acc (_ ∷ vs) = none

abbrev pub reals_from : (Ratio → Ratio → Ratio) → Ratio → List Value → Option Value
reals_from f acc [] = some (real acc)
reals_from f acc (real r ∷ vs) = reals_from f (f acc r) vs
reals_from f acc (_ ∷ vs) = none

abbrev pub chain : (ℤ → ℤ → ℤ) → ℤ → (Ratio → Ratio → Ratio) → Ratio → List Value → Option Value
chain f i g r (int j ∷ vs) = ints_from f i (int j ∷ vs)
chain f i g r (real s ∷ vs) = reals_from g r (real s ∷ vs)
chain f i g r _ = none

abbrev pub compare_by : (ℤ → ℤ → Bool) → (Ratio → Ratio → Bool) → List Value → Option Value
compare_by f g (int i ∷ (int j ∷ [])) = some (bool (f i j))
compare_by f g (real r ∷ (real s ∷ [])) = some (bool (g r s))
compare_by f g _ = none

-- Sums, differences, products and comparisons, of which the source knows the constants.
module _ (R : RatioOps) (Φ : Op → List Value → Value) where
  open R use {zero_r, one_r, add_r, sub_r, mul_r, eq_r, lt_r, le_r}

  -- `Φ` gives the variables, the functions and every operator that is not read here.
  unfoldable pub denote : Op → List Value → Option Value
  denote true_op [] = some (bool true)
  denote true_op _ = none
  denote false_op [] = some (bool false)
  denote false_op _ = none
  denote not_op (bool b ∷ []) = some (bool (not b))
  denote not_op _ = none
  denote and_op vs = bool_and vs >>= λ b. some (bool b)
  denote or_op vs = bool_or vs >>= λ b. some (bool b)
  denote xor_op (bool b ∷ (bool c ∷ [])) = some (bool (not (bool_eq b c)))
  denote xor_op _ = none
  denote implies (bool b ∷ (bool c ∷ [])) = some (bool (not b || c))
  denote implies _ = none
  denote ite_op (bool b ∷ (v ∷ (w ∷ []))) = some (if b then v else w)
  denote ite_op _ = none
  denote eq_op (v ∷ (w ∷ [])) = same eq_r v w >>= λ b. some (bool b)
  denote eq_op _ = none
  denote (bv_const x w) [] = checked (bits x w)
  denote (bv_const x w) _ = none
  denote bv_add vs = bits_op (λ w x y. (x + y) % 2 ^ w) vs
  denote bv_sub vs = bits_op (λ w x y. (x + 2 ^ w - y) % 2 ^ w) vs
  denote bv_mul vs = bits_op (λ w x y. x * y % 2 ^ w) vs
  denote bv_udiv vs = bits_op udiv vs
  denote bv_urem vs = bits_op urem vs
  denote bv_and vs = bits_op (λ w x y. bit_and x y) vs
  denote bv_or vs = bits_op (λ w x y. bit_or x y) vs
  denote bv_xor vs = bits_op (λ w x y. bit_xor x y) vs
  denote bv_not (bits x w ∷ []) = some (bits (2 ^ w - 1 - x) w)
  denote bv_not _ = none
  denote bv_shl vs = bits_op (λ w x y. x * 2 ^ y % 2 ^ w) vs
  denote bv_lshr vs = bits_op (λ w x y. x / 2 ^ y) vs
  denote bv_ashr vs = bits_op ashr vs
  denote bv_concat (bits x w ∷ (bits y u ∷ [])) = checked (bits (x * 2 ^ u + y) (w + u))
  denote bv_concat _ = none
  denote (bv_extract high low) (bits x w ∷ []) =
      if leb low high && ltb high w
      then some (bits (x / 2 ^ low % 2 ^ (high - low + 1)) (high - low + 1))
      else none
  denote (bv_extract high low) _ = none
  denote bv_ult vs = bits_test (λ x y. ltb x y) vs
  denote bv_ule vs = bits_test (λ x y. leb x y) vs
  denote bv_ugt vs = bits_test (λ x y. ltb y x) vs
  denote bv_uge vs = bits_test (λ x y. leb y x) vs
  denote (int_const i) [] = some (int i)
  denote (int_const i) _ = none
  denote (real_const n d) [] = some (real (record { numer = n; denom = d }))
  denote (real_const n d) _ = none
  denote add_op vs = chain ◌+ℤ◌ (pos 0) add_r zero_r vs
  denote mul_op vs = chain ◌*ℤ◌ (pos 1) mul_r one_r vs
  denote sub_op (int i ∷ (int j ∷ [])) = some (int (i -ℤ j))
  denote sub_op (real r ∷ (real s ∷ [])) = some (real (sub_r r s))
  denote sub_op vs = checked (Φ sub_op vs)
  denote lt_op vs = compare_by (λ i j. ltb_ℤ i j) lt_r vs
  denote le_op vs = compare_by (λ i j. leb_ℤ i j) le_r vs
  denote gt_op vs = compare_by (λ i j. ltb_ℤ j i) (λ r s. lt_r s r) vs
  denote ge_op vs = compare_by (λ i j. leb_ℤ j i) (λ r s. le_r s r) vs
  denote op vs = checked (Φ op vs)
