-- ===== src/Preprocess/Fold/Shapes.antt =====
-- What the values of a Boolean operator's arguments are where the operator has one.
use mathlib.Core.Option.{some-injective}
use smt_solver_rust.Common.{
  ◌≡◌, refl, Bool, true, false, not, ◌||◌, some, List, [], ◌∷◌, if◌then◌else◌, arith, bool_eq,
}
use smt_solver_rust.Core.Op.{Op, not_op, xor_op, implies, ite_op}
use smt_solver_rust.Core.Meaning.{RatioOps, Value, bool, denote}

pub not_shape :
    (R : RatioOps) (Φ : Op → List Value → Value) (vs : List Value) (v : Value)
    → denote R Φ not_op vs ≡ some v
    → (b : Bool) × (vs ≡ bool b ∷ []) × (bool (not b) ≡ v)
unfolding denote
not_shape R Φ (bool b ∷ []) v e = (b, refl, some-injective _ _ e)
not_shape R Φ _ v e = absurd (cc)

pub xor_shape :
    (R : RatioOps) (Φ : Op → List Value → Value) (vs : List Value) (v : Value)
    → denote R Φ xor_op vs ≡ some v
    → (b c : Bool) × (vs ≡ bool b ∷ (bool c ∷ [])) × (bool (not (bool_eq b c)) ≡ v)
unfolding denote
xor_shape R Φ (bool b ∷ (bool c ∷ [])) v e = (b, c, refl, some-injective _ _ e)
xor_shape R Φ _ v e = absurd (cc)

pub implies_shape :
    (R : RatioOps) (Φ : Op → List Value → Value) (vs : List Value) (v : Value)
    → denote R Φ implies vs ≡ some v
    → (b c : Bool) × (vs ≡ bool b ∷ (bool c ∷ [])) × (bool (not b || c) ≡ v)
unfolding denote
implies_shape R Φ (bool b ∷ (bool c ∷ [])) v e = (b, c, refl, some-injective _ _ e)
implies_shape R Φ _ v e = absurd (cc)

pub ite_shape :
    (R : RatioOps) (Φ : Op → List Value → Value) (vs : List Value) (v : Value)
    → denote R Φ ite_op vs ≡ some v
    → (b : Bool) × (x y : Value) × (vs ≡ bool b ∷ (x ∷ (y ∷ []))) × ((if b then x else y) ≡ v)
unfolding denote
ite_shape R Φ (bool b ∷ (x ∷ (y ∷ []))) v e = (b, x, y, refl, some-injective _ _ e)
ite_shape R Φ _ v e = absurd (cc)

pub not_back : (b c : Bool) → not c ≡ b → c ≡ not b
not_back b c e = ground arith

pub xor_same : (b c : Bool) → b ≡ c → false ≡ not (bool_eq b c)
xor_same b c e = ground arith

pub xor_left : (b c : Bool) → false ≡ b → c ≡ not (bool_eq b c)
xor_left b c e = ground arith

pub xor_right : (b c : Bool) → false ≡ c → b ≡ not (bool_eq b c)
xor_right b c e = ground arith

pub not_left : (b c : Bool) → true ≡ b → not c ≡ not (bool_eq b c)
not_left b c e = ground arith

pub not_right : (b c : Bool) → true ≡ c → not b ≡ not (bool_eq b c)
not_right b c e = ground arith

pub from_false : (b c : Bool) → false ≡ b → true ≡ (not b || c)
from_false b c e = ground arith

pub to_true : (b c : Bool) → true ≡ c → true ≡ (not b || c)
to_true b c e = ground arith

pub from_true : (b c : Bool) → true ≡ b → c ≡ (not b || c)
from_true b c e = ground arith

pub either : (b : Bool) (s t : Value) → s ≡ t → s ≡ (if b then s else t)
either true s t e = refl
either false s t e = e

pub not_panics :
    (R : RatioOps) (Φ : Op → List Value → Value) (v : Value) → denote R Φ not_op [] ≡ some v → ⊥
unfolding denote
not_panics R Φ v e = cc
