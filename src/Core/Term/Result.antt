-- ===== src/Core/Term/Result.antt =====
-- crates/smt-core/src/term.rs: the constructors that check the sorts of their arguments. A type
-- error is the `context` of `SmtError::Type`; its two formatted texts are left out.
use Prim.Native.String.{String}
use smt_solver_rust.Common.{
  ℕ, ◌+◌, ◌-◌, ◌||◌, Option, none, some, List, [], ◌∷◌, ◌==◌, ltb, leb, if◌then◌else◌,
}
use smt_solver_rust.Core.Sort.{SortId, Sort, bit_vec, array_s, SortArena, get_sort, bv}
use smt_solver_rust.Core.Op.{Op, bv_extract, bv_concat, select, store}
use smt_solver_rust.Core.Term.{TermId, TermArena, intern, sort_of}

pub data Outcome : Type 0 where
  panics : Outcome
  type_error : String → Outcome
  done : SortArena → TermArena → TermId → Outcome

abbrev pub bv_width : Sort → Option ℕ
bv_width (bit_vec w) = some w
bv_width _ = none

abbrev pub array_sorts : Sort → Option (SortId × SortId)
array_sorts (array_s index element) = some (index, element)
array_sorts _ = none

abbrev pub finish : Op → List TermId → SortId → SortArena → TermArena → Outcome
finish op args sort sorts a = let (b, id) = intern op args sort a in done sorts b id

-- The sort of the result is allocated first, and a width that is not allowed is a panic.
abbrev pub finish_bv : Option (SortArena × SortId) → Op → List TermId → TermArena → Outcome
finish_bv none op args a = panics
finish_bv (some (sorts, sort)) op args a = finish op args sort sorts a

abbrev pub with_sort : Option SortId → (SortId → Outcome) → Outcome
with_sort none k = panics
with_sort (some s) k = k s

abbrev pub with_sort_data : Option Sort → (Sort → Outcome) → Outcome
with_sort_data none k = panics
with_sort_data (some s) k = k s

unfoldable pub bv_binop : Op → TermId → TermId → SortArena → TermArena → Outcome
bv_binop op x y sorts a = with_sort (sort_of a x) (λ s. with_sort (sort_of a y) (λ t.
    if s == t
    then finish op (x ∷ (y ∷ [])) s sorts a
    else type_error "BitVector binary operation sort match"))

unfoldable pub bv_unop : Op → TermId → SortArena → TermArena → Outcome
bv_unop op x sorts a = with_sort (sort_of a x) (λ s. finish op (x ∷ []) s sorts a)

abbrev pub extract_from : Option ℕ → ℕ → ℕ → TermId → SortArena → TermArena → Outcome
extract_from none high low arg sorts a = type_error "bv_extract operand"
extract_from (some w) high low arg sorts a =
    if leb w high || ltb high low
    then type_error "bv_extract bounds"
    else finish_bv (bv (high - low + 1) sorts) (bv_extract high low) (arg ∷ []) a

unfoldable pub extract_term : ℕ → ℕ → TermId → SortArena → TermArena → Outcome
extract_term high low arg sorts a =
    with_sort (sort_of a arg)
      (λ s. with_sort_data (get_sort sorts s) (λ k. extract_from (bv_width k) high low arg sorts a))

abbrev pub concat_of : Option ℕ → Option ℕ → TermId → TermId → SortArena → TermArena → Outcome
concat_of none _ x y sorts a = type_error "concat left arg"
concat_of (some w) none x y sorts a = type_error "concat right arg"
concat_of (some w) (some u) x y sorts a = finish_bv (bv (w + u) sorts) bv_concat (x ∷ (y ∷ [])) a

unfoldable pub concat_term : TermId → TermId → SortArena → TermArena → Outcome
concat_term x y sorts a = with_sort (sort_of a x) (λ s. with_sort (sort_of a y) (λ t.
    with_sort_data (get_sort sorts s) (λ k.
      with_sort_data (get_sort sorts t) (λ l. concat_of (bv_width k) (bv_width l) x y sorts a))))

abbrev pub select_from :
    Option (SortId × SortId) → TermId → TermId → SortArena → TermArena → Outcome
select_from none x y sorts a = type_error "array select base"
select_from (some (index, element)) x y sorts a = with_sort (sort_of a y) (λ t.
    if index == t
    then finish select (x ∷ (y ∷ [])) element sorts a
    else type_error "array select index")

unfoldable pub select_term : TermId → TermId → SortArena → TermArena → Outcome
select_term x y sorts a =
    with_sort (sort_of a x)
      (λ s. with_sort_data (get_sort sorts s) (λ k. select_from (array_sorts k) x y sorts a))

abbrev pub store_from :
    Option (SortId × SortId) → SortId → TermId → TermId → TermId → SortArena → TermArena → Outcome
store_from none s x y z sorts a = type_error "array store base"
store_from (some (index, element)) s x y z sorts a = with_sort (sort_of a y) (λ t.
    with_sort (sort_of a z) (λ u.
      if index == t
      then (if element == u
          then finish store (x ∷ (y ∷ (z ∷ []))) s sorts a
          else type_error "array store value")
      else type_error "array store index"))

unfoldable pub store_term : TermId → TermId → TermId → SortArena → TermArena → Outcome
store_term x y z sorts a =
    with_sort (sort_of a x)
      (λ s. with_sort_data (get_sort sorts s) (λ k. store_from (array_sorts k) s x y z sorts a))
