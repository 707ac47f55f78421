-- ===== src/Core/Term.antt =====
-- crates/smt-core/src/term.rs: the arena of terms and the constructors that simplify nothing or
-- only against `true` and `false`. `none` is an index out of range.
pub mod Result
pub mod Pool
pub mod Fresh
use smt_solver_rust.Common.{
  ℕ, zero, suc, ◌+◌, ◌-◌, ◌%◌, ◌^◌, ◌≡◌, Bool, true, false, ◌&&◌, ◌||◌, Option, none, some, List,
  [], ◌∷◌, ◌++◌, ◌==◌, ltb, leb, if◌then◌else◌, length, get_elem?, ◌>>=◌, bit_and,
}
use Prim.Native.String.{String}
use native.Mathlib.Decide.{ℕ_discrete}
use smt_solver_rust.Common.Int.{ℤ}
use smt_solver_rust.Common.Dict.{get, insert}
use smt_solver_rust.Core.Sort.{SortId, SortArena, bv}
use smt_solver_rust.Core.Op.{
  Op, Op-discrete, true_op, false_op, not_op, and_op, or_op, xor_op, implies, ite_op, eq_op,
  distinct, bv_const, int_const, real_const, var_op, apply_op,
}

abbrev pub TermId : Type 0
TermId = ℕ

pub record TermData : Type 0 where
  pub op : Op
  pub args : List TermId
  pub sort : SortId

abbrev pub Key : Type 0
Key = Op × List TermId

unfoldable pub Key-discrete : Discrete Key
Key-discrete = hlevel (Op-discrete, ℕ_discrete)

pub record TermArena : Type 0 where
  pub terms : List TermData
  pub lookup : List (Key × TermId)
  pub true_id : TermId
  pub false_id : TermId

abbrev pub Alloc : Type 0
Alloc = TermArena × TermId

abbrev pub push_term : Op → List TermId → SortId → TermArena → Alloc
push_term op args sort a =
    let id = length a.terms in
    (
      record a {
        terms = a.terms ++ record { op = op; args = args; sort = sort } ∷ [];
        lookup = insert Key-discrete (op, args) id a.lookup;
      },
      id,
    )

unfoldable pub intern : Op → List TermId → SortId → TermArena → Alloc
intern op args sort a = elim (get Key-discrete (op, args) a.lookup) [
  | some id ↦ (a, id)
  | none ↦ push_term op args sort a
]

unfoldable pub new : SortArena → TermArena
unfolding intern
new sorts =
    let blank : TermArena = record { terms = []; lookup = []; true_id = 0; false_id = 0 } in
    let (a, t) = intern true_op [] sorts.bool_sort blank in
    let (b, f) = intern false_op [] sorts.bool_sort (record a { true_id = t }) in
    record b { false_id = f }

unfoldable pub get_term : TermArena → TermId → Option TermData
get_term a id = get_elem? a.terms id

unfoldable pub op_of : TermArena → TermId → Option Op
unfolding get_term
op_of a id = do t ← get_term a id; some t.op

unfoldable pub args_of : TermArena → TermId → Option (List TermId)
unfolding get_term
args_of a id = do t ← get_term a id; some t.args

unfoldable pub sort_of : TermArena → TermId → Option SortId
unfolding get_term
sort_of a id = do t ← get_term a id; some t.sort

unfoldable pub var : String → SortId → TermArena → Alloc
var name sort a = intern (var_op name) [] sort a

unfoldable pub not : TermId → TermArena → Option Alloc
not t a =
    if t == a.true_id
    then some (a, a.false_id)
    else if t == a.false_id
    then some (a, a.true_id)
    else (do sort ← sort_of a t; some (intern not_op (t ∷ []) sort a))

-- The loop over the arguments of `and` and `or`: `none` is its early return on `stop`.
unfoldable pub drop_units : TermId → TermId → List TermId → Option (List TermId)
drop_units stop drop [] = some []
drop_units stop drop (t ∷ ts) = elim (t == stop) [
  | true ↦ none
  | false ↦ elim (drop_units stop drop ts) [
    | none ↦ none
    | some flat ↦ if t == drop then some flat else some (t ∷ flat)
  ]
]

abbrev pub join : Op → TermId → List TermId → SortId → TermArena → Alloc
join op unit [] sort a = (a, unit)
join op unit (t ∷ []) sort a = (a, t)
join op unit (t ∷ (u ∷ ts)) sort a = intern op (t ∷ (u ∷ ts)) sort a

unfoldable pub and : List TermId → SortArena → TermArena → Alloc
unfolding drop_units
and args sorts a = elim (drop_units a.false_id a.true_id args) [
  | none ↦ (a, a.false_id)
  | some flat ↦ join and_op a.true_id flat sorts.bool_sort a
]

unfoldable pub or : List TermId → SortArena → TermArena → Alloc
unfolding drop_units
or args sorts a = elim (drop_units a.true_id a.false_id args) [
  | none ↦ (a, a.true_id)
  | some flat ↦ join or_op a.false_id flat sorts.bool_sort a
]

unfoldable pub xor : TermId → TermId → SortArena → TermArena → Alloc
xor x y sorts a = intern xor_op (x ∷ (y ∷ [])) sorts.bool_sort a

unfoldable pub implies_term : TermId → TermId → SortArena → TermArena → Alloc
implies_term x y sorts a = intern implies (x ∷ (y ∷ [])) sorts.bool_sort a

unfoldable pub ite : TermId → TermId → TermId → TermArena → Option Alloc
ite cond then_b else_b a =
    if cond == a.true_id
    then some (a, then_b)
    else if cond == a.false_id
    then some (a, else_b)
    else if then_b == else_b
    then some (a, then_b)
    else (do sort ← sort_of a then_b; some (intern ite_op (cond ∷ (then_b ∷ (else_b ∷ []))) sort a))

unfoldable pub eq : TermId → TermId → SortArena → TermArena → Alloc
eq x y sorts a = if x == y then (a, a.true_id) else intern eq_op (x ∷ (y ∷ [])) sorts.bool_sort a

unfoldable pub distinct_term : List TermId → SortArena → TermArena → Alloc
distinct_term args sorts a = intern distinct args sorts.bool_sort a

-- `width > 0` fails only where `bv` panics as well.
abbrev pub mask : ℕ → ℕ
mask width = if ltb 0 width then 2 ^ width - 1 else 0

unfoldable pub bv_const_term :
    ℕ → ℕ → SortArena → TermArena → Option (SortArena × TermArena × TermId)
bv_const_term value width sorts a = do
  (sorts', sort) ← bv width sorts
  let (a', id) = intern (bv_const (bit_and value (mask width)) width) [] sort a
  some (sorts', a', id)

unfoldable pub int_const_term : ℤ → SortArena → TermArena → Alloc
int_const_term value sorts a = intern (int_const value) [] sorts.int_sort a

unfoldable pub real_const_term : ℤ → ℕ → SortArena → TermArena → Alloc
real_const_term numer denom sorts a = intern (real_const numer denom) [] sorts.real_sort a

unfoldable pub apply : String → List TermId → SortId → TermArena → Alloc
apply name args return_sort a = intern (apply_op name) args return_sort a
