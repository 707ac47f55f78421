-- ===== src/Preprocess/Fold.antt =====
-- crates/smt-preprocess/src/constant_folding.rs: the constant folder. The operations on rationals,
-- which are those of `num_rational`, are the parameter `R`. A `usize` has 64 bits.
pub mod Numbers
pub mod Digits
pub mod Arms
pub mod BitArms
pub mod Shapes
pub mod JunctionArms
pub mod TruthArms
pub mod NumberArms
pub mod Sound
mod Tests
pub mod Run
use smt_solver_rust.Common.{
  ℕ, zero, suc, ◌+◌, ◌-◌, ◌*◌, ◌/◌, ◌%◌, ◌^◌, Bool, true, false, ◌&&◌, ◌||◌, Option, none, some,
  List, [], ◌∷◌, ◌==◌, ltb, leb, if◌then◌else◌, ◌>>=◌, bit_and, bit_or, bit_xor,
}
use smt_solver_rust.Common.Int.{ℤ, pos, negsuc, ◌+ℤ◌, ◌-ℤ◌, ◌*ℤ◌, ltb_ℤ, leb_ℤ, eqb_ℤ}
use smt_solver_rust.Core.Sort.{SortId, SortArena}
use smt_solver_rust.Core.Op.{
  Op, not_op, and_op, or_op, xor_op, implies, ite_op, eq_op, bv_const, bv_add, bv_sub, bv_mul,
  bv_udiv, bv_urem, bv_and, bv_or, bv_xor, bv_not, bv_shl, bv_lshr, bv_ashr, bv_concat, bv_extract,
  bv_ult, bv_ule, bv_ugt, bv_uge, int_const, real_const, add_op, sub_op, mul_op, lt_op, le_op,
  gt_op, ge_op,
}
use smt_solver_rust.Core.Term
use smt_solver_rust.Core.Term.{
  TermId, TermData, TermArena, Alloc, intern, get_term, op_of, args_of, mask, bv_const_term,
  int_const_term, real_const_term,
}
use smt_solver_rust.Core.Meaning.{Ratio, RatioOps}

pub record ConstantFolder : Type 0 where
  pub terms : TermArena
  pub sorts : SortArena
  pub steps : ℕ
  pub max_steps : ℕ

unfoldable pub new : TermArena → SortArena → ConstantFolder
new terms sorts = record { terms = terms; sorts = sorts; steps = 0; max_steps = 100000 }

-- How an arm of the `match` ends: it panics, falls through to the final `intern`, or returns.
pub data Arm : Type 0 where
  panics falls : Arm
  gives : SortArena → TermArena → TermId → Arm

abbrev pub gives_some : SortArena → Option Alloc → Arm
gives_some sorts none = panics
gives_some sorts (some (a, id)) = gives sorts a id

abbrev pub gives_bv : Option (SortArena × TermArena × TermId) → Arm
gives_bv none = panics
gives_bv (some (sorts, a, id)) = gives sorts a id

abbrev pub truth : Bool → SortArena → TermArena → Arm
truth b sorts a = gives sorts a (if b then a.true_id else a.false_id)

-- The patterns that the arms match an operator against.
abbrev pub is_not : Op → Bool
is_not not_op = true
is_not _ = false

abbrev pub bv_of : Op → Option (ℕ × ℕ)
bv_of (bv_const value width) = some (value, width)
bv_of _ = none

abbrev pub int_of : Op → Option ℤ
int_of (int_const i) = some i
int_of _ = none

abbrev pub real_of : Op → Option Ratio
real_of (real_const n d) = some (record { numer = n; denom = d })
real_of _ = none

-- `none` is a panic, `some none` a pattern that does not match.
unfoldable pub look {ℓ} : {A : Type ℓ} → (Op → Option A) → TermArena → TermId → Option (Option A)
look f a x = do o ← op_of a x; some (f o)

abbrev pub both {ℓ} : {A : Type ℓ} → Option A → Option A → Option (A × A)
both (some u) (some v) = some (u, v)
both _ _ = none

unfoldable pub look_two {ℓ} :
    {A : Type ℓ} → (Op → Option A) → TermArena → TermId → TermId → Option (Option (A × A))
look_two f a x y = do u ← look f a x; v ← look f a y; some (both u v)

-- An `if let` on what was looked up: its body, and the code after it.
abbrev pub if_let {ℓ} : {A : Type ℓ} → Option (Option A) → (A → Arm) → Arm → Arm
if_let none body rest = panics
if_let (some none) body rest = rest
if_let (some (some u)) body rest = body u

abbrev pub first_arg : List TermId → SortArena → TermArena → Arm
first_arg [] sorts a = panics
first_arg (x ∷ _) sorts a = gives sorts a x

unfoldable pub fold_not : List TermId → SortArena → TermArena → Arm
fold_not [] sorts a = panics
fold_not (x ∷ _) sorts a =
    if x == a.true_id
    then gives sorts a a.false_id
    else if x == a.false_id
    then gives sorts a a.true_id
    else elim (get_term a x) [
      | none ↦ panics
      | some t ↦ if is_not t.op then first_arg t.args sorts a else falls
    ]

abbrev pub contains : TermId → List TermId → Bool
contains x [] = false
contains x (y ∷ ys) = y == x || contains x ys

abbrev pub without : TermId → List TermId → List TermId
without x [] = []
without x (y ∷ ys) = if y == x then without x ys else y ∷ without x ys

abbrev pub collect : Op → TermId → List TermId → SortArena → TermArena → Arm
collect op unit [] sorts a = gives sorts a unit
collect op unit (x ∷ []) sorts a = gives sorts a x
collect op unit (x ∷ (y ∷ zs)) sorts a =
    let (b, id) = intern op (x ∷ (y ∷ zs)) sorts.bool_sort a in gives sorts b id

unfoldable pub fold_and : List TermId → SortArena → TermArena → Arm
fold_and args sorts a =
    if contains a.false_id args
    then gives sorts a a.false_id
    else collect and_op a.true_id (without a.true_id args) sorts a

unfoldable pub fold_or : List TermId → SortArena → TermArena → Arm
fold_or args sorts a =
    if contains a.true_id args
    then gives sorts a a.true_id
    else collect or_op a.false_id (without a.false_id args) sorts a

unfoldable pub fold_xor : List TermId → SortArena → TermArena → Arm
fold_xor (x ∷ (y ∷ _)) sorts a =
    if x == y
    then gives sorts a a.false_id
    else if x == a.false_id
    then gives sorts a y
    else if y == a.false_id
    then gives sorts a x
    else if x == a.true_id
    then gives_some sorts (Term.not y a)
    else if y == a.true_id
    then gives_some sorts (Term.not x a)
    else falls
fold_xor _ sorts a = panics

unfoldable pub fold_implies : List TermId → SortArena → TermArena → Arm
fold_implies (x ∷ (y ∷ _)) sorts a =
    if x == a.false_id || y == a.true_id
    then gives sorts a a.true_id
    else if x == a.true_id
    then gives sorts a y
    else falls
fold_implies _ sorts a = panics

unfoldable pub fold_ite : List TermId → SortArena → TermArena → Arm
fold_ite (cond ∷ (then_b ∷ (else_b ∷ _))) sorts a =
    if cond == a.true_id
    then gives sorts a then_b
    else if cond == a.false_id
    then gives sorts a else_b
    else if then_b == else_b
    then gives sorts a then_b
    else falls
fold_ite _ sorts a = panics

-- The arms for two bit-vectors, which differ in the number that they compute.
unfoldable pub fold_bits : (ℕ → ℕ → ℕ → ℕ) → List TermId → SortArena → TermArena → Arm
fold_bits f (x ∷ (y ∷ _)) sorts a =
    if_let (look_two bv_of a x y)
      (λ p. gives_bv (bv_const_term (f p.0.1 p.0.0 p.1.0) p.0.1 sorts a)) falls
fold_bits f _ sorts a = panics

unfoldable pub fold_test : (ℕ → ℕ → Bool) → List TermId → SortArena → TermArena → Arm
fold_test f (x ∷ (y ∷ _)) sorts a =
    if_let (look_two bv_of a x y) (λ p. truth (f p.0.0 p.1.0) sorts a) falls
fold_test f _ sorts a = panics

abbrev pub udiv_at : ℕ → ℕ → ℕ → ℕ
udiv_at w x zero = mask w
udiv_at w x (suc y) = bit_and (x / suc y) (mask w)

abbrev pub urem_at : ℕ → ℕ → ℕ → ℕ
urem_at w x zero = x
urem_at w x (suc y) = bit_and (x % suc y) (mask w)

-- `to_usize().unwrap_or(w)`.
abbrev pub shift_at : ℕ → ℕ → ℕ
shift_at w y = if ltb y (2 ^ 64) then y else w

abbrev pub shl_at : ℕ → ℕ → ℕ → ℕ
shl_at w x y = if leb w (shift_at w y) then 0 else bit_and (x * 2 ^ shift_at w y) (mask w)

abbrev pub lshr_at : ℕ → ℕ → ℕ → ℕ
lshr_at w x y = if leb w (shift_at w y) then 0 else bit_and (x / 2 ^ shift_at w y) (mask w)

abbrev pub ashr_at : ℕ → ℕ → ℕ → ℕ
ashr_at w x y =
    let shift = shift_at w y in
    let is_neg = bit_and (x / 2 ^ (w - 1)) 1 == 1 in
    let r = bit_and (x / 2 ^ shift) (mask w) in
    let fill = (2 ^ shift - 1) * 2 ^ (w - shift) in
    if leb w shift
    then (if is_neg then mask w else 0)
    else if is_neg
    then bit_and (bit_or r fill) (mask w)
    else r

unfoldable pub fold_bv_not : List TermId → SortArena → TermArena → Arm
fold_bv_not [] sorts a = panics
fold_bv_not (x ∷ _) sorts a =
    if_let (look bv_of a x) (λ p. gives_bv (bv_const_term (bit_xor (mask p.1) p.0) p.1 sorts a))
      falls

unfoldable pub fold_concat : List TermId → SortArena → TermArena → Arm
fold_concat (x ∷ (y ∷ _)) sorts a =
    if_let (look_two bv_of a x y)
      (λ p.
        let w = p.0.1 + p.1.1 in
        gives_bv (bv_const_term (bit_and (bit_or (p.0.0 * 2 ^ p.1.1) p.1.0) (mask w)) w sorts a))
      falls
fold_concat _ sorts a = panics

-- `high - low` below zero is a panic.
unfoldable pub fold_extract : ℕ → ℕ → List TermId → SortArena → TermArena → Arm
fold_extract high low [] sorts a = panics
fold_extract high low (x ∷ _) sorts a =
    let width = high - low + 1 in
    if_let (look bv_of a x)
      (λ p.
        if ltb high low
        then panics
        else gives_bv (bv_const_term (bit_and (p.0 / 2 ^ low) (mask width)) width sorts a))
      falls
