-- ===== src/Core/Sort.antt =====
-- crates/smt-core/src/sort.rs: sorts and their arena. `none` is a panic, an index out of range or
-- the failed assertion of `bv`. A `SortId(u32)` is its number; the arenas stay below 2 ^ 32.
pub mod Laws
use Prim.Native.String.{String}
use native.Mathlib.Decide.{ℕ_discrete}
use smt_solver_rust.Common.{
  ℕ, zero, suc, ◌+◌, ◌%◌, ◌^◌, ◌≡◌, Bool, true, false, ◌&&◌, Option, none, some, List, [], ◌∷◌,
  ◌++◌, ◌==◌, ltb, leb, if◌then◌else◌, length, get_elem?,
}
use smt_solver_rust.Common.Names.{String-discrete}
use smt_solver_rust.Common.Dict.{get, insert}

abbrev pub SortId : Type 0
SortId = ℕ

-- `bool_s`, `int_s` and `real_s` are `Bool`, `Int` and `Real`.
pub data Sort : Type 0 where
  bool_s int_s real_s : Sort
  bit_vec : ℕ → Sort
  array_s : SortId → SortId → Sort
  uninterpreted_s : String → Sort

unfoldable pub Sort-discrete : Discrete Sort
Sort-discrete = hlevel (ℕ_discrete, String-discrete)

pub record SortArena : Type 0 where
  pub sorts : List Sort
  pub lookup : List (Sort × SortId)
  pub bool_sort : SortId
  pub int_sort : SortId
  pub real_sort : SortId

-- A method that allocates returns the new arena and the identifier.
abbrev pub Alloc : Type 0
Alloc = SortArena × SortId

abbrev pub push_sort : Sort → SortArena → Alloc
push_sort s a =
    let id = length a.sorts in
    (record a { sorts = a.sorts ++ s ∷ []; lookup = insert Sort-discrete s id a.lookup }, id)

unfoldable pub intern : Sort → SortArena → Alloc
intern s a = elim (get Sort-discrete s a.lookup) [ some id ↦ (a, id) | none ↦ push_sort s a ]

unfoldable pub new : SortArena
unfolding intern
new =
    let blank : SortArena = record {
      sorts = [];
      lookup = [];
      bool_sort = 0;
      int_sort = 0;
      real_sort = 0;
    } in
    let (a, b) = intern bool_s blank in
    let (c, i) = intern int_s (record a { bool_sort = b }) in
    let (d, r) = intern real_s (record c { int_sort = i }) in record d { real_sort = r }

abbrev pub max_bv_width : ℕ
max_bv_width = 65536

unfoldable pub bv : ℕ → SortArena → Option Alloc
bv width a = if ltb 0 width && leb width max_bv_width then some (intern (bit_vec width) a) else none

unfoldable pub array : SortId → SortId → SortArena → Alloc
array index element a = intern (array_s index element) a

unfoldable pub uninterpreted : String → SortArena → Alloc
uninterpreted name a = intern (uninterpreted_s name) a

unfoldable pub get_sort : SortArena → SortId → Option Sort
get_sort a id = get_elem? a.sorts id

unfoldable pub len : SortArena → ℕ
len a = length a.sorts
