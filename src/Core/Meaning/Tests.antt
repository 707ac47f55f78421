-- ===== src/Core/Meaning/Tests.antt =====
-- The laws of the arenas of sorts and terms at small arenas.
use native.Mathlib.Decide.{ℕ_discrete}
use smt_solver_rust.Common.{
  ◌≡◌, refl, true, false, [], ◌∷◌, arith, ◌≤◌, ◌<◌, ◌+◌, ◌*◌, ◌-◌, ◌/◌, ◌%◌, ◌^◌, ◌⊎◌,
}
use smt_solver_rust.Common.Dict.{get}
use smt_solver_rust.Core.Sort
use smt_solver_rust.Core.Sort.{SortArena, bit_vec, get_sort, bool_s, int_s}
use smt_solver_rust.Core.Sort.Laws.{Interned, intern-Interned, new-IsValid}
use smt_solver_rust.Core.Op.{Op-discrete, bv_const}
use smt_solver_rust.Core.Term
use smt_solver_rust.Core.Term.{
  TermId, TermArena, Key-discrete, intern, new, and, eq, ite, drop_units, sort_of, get_term,
}
use smt_solver_rust.Core.Term.Pool.{IsArena}
use smt_solver_rust.Core.Term.Fresh.{new-IsArena}
use smt_solver_rust.Core.Term.Result.{panics, type_error, extract_term, concat_term}
use smt_solver_rust.Core.Meaning.Checked.{Makes, extract_term-Makes, concat_term-Makes}
use smt_solver_rust.Core.Meaning.{bool, bits, denote}
use smt_solver_rust.Core.Meaning.Model.{Yields, Interp, intern-Yields}
use smt_solver_rust.Core.Meaning.Fresh.{constants, new-IsModel}
use smt_solver_rust.Core.Meaning.Sample.{fractions, all_true, empty}
use smt_solver_rust.Core.Meaning.Terms.{
  Returns, not-Returns, and-Yields, or-Yields, ite-Returns, eq-Yields,
}

intern-Interned_example :
    Interned
      (bit_vec 8)
      Sort.new
      (Sort.intern (bit_vec 8) Sort.new).0
      (Sort.intern (bit_vec 8) Sort.new).1
intern-Interned_example = intern-Interned (bit_vec 8) Sort.new new-IsValid.0

not-Returns_example : Returns fractions all_true empty constants (bool false) (Term.not 0 empty)
unfolding constants new intern Key-discrete Op-discrete get
not-Returns_example =
    not-Returns fractions all_true empty constants (new-IsArena Sort.new)
      (new-IsModel fractions all_true Sort.new) 0 true (omega arith) refl

and-Yields_example :
    Yields fractions all_true empty constants (bool false) (and (0 ∷ (1 ∷ (0 ∷ []))) Sort.new empty)
unfolding constants new intern Key-discrete Op-discrete get
and-Yields_example =
    and-Yields fractions all_true empty constants (new-IsArena Sort.new)
      (new-IsModel fractions all_true Sort.new) (0 ∷ (1 ∷ (0 ∷ []))) Sort.new false
      (omega arith, (omega arith, (omega arith, tt))) refl

or-Yields_example :
    Yields fractions all_true empty constants (bool true) (Term.or (1 ∷ (0 ∷ [])) Sort.new empty)
unfolding constants new intern Key-discrete Op-discrete get
or-Yields_example =
    or-Yields fractions all_true empty constants (new-IsArena Sort.new)
      (new-IsModel fractions all_true Sort.new) (1 ∷ (0 ∷ [])) Sort.new true
      (omega arith, (omega arith, tt)) refl

ite-Returns_example : Returns fractions all_true empty constants (bool false) (ite 1 0 1 empty)
unfolding constants new intern Key-discrete Op-discrete get
ite-Returns_example =
    ite-Returns fractions all_true empty constants (new-IsArena Sort.new)
      (new-IsModel fractions all_true Sort.new) 1 0 1 false (omega arith) (omega arith)
      (omega arith) refl

eq-Yields_example : Yields fractions all_true empty constants (bool false) (eq 0 1 Sort.new empty)
unfolding constants new intern Key-discrete Op-discrete get
eq-Yields_example =
    eq-Yields fractions all_true empty constants (new-IsArena Sort.new)
      (new-IsModel fractions all_true Sort.new) 0 1 Sort.new false (omega arith) (omega arith) refl

new-IsArena_example : IsArena (new Sort.new)
new-IsArena_example = new-IsArena Sort.new

-- An arena with the byte 200, and the sorts that name its sort.
abbrev with_byte : TermArena
with_byte = (intern (bv_const 200 8) [] 3 empty).0

abbrev bytes : SortArena
bytes = (Sort.intern (bit_vec 8) Sort.new).0

byte-Yields :
    Yields fractions all_true empty constants (bits 200 8) (intern (bv_const 200 8) [] 3 empty)
unfolding denote
byte-Yields =
    intern-Yields fractions all_true (bv_const 200 8) [] 3 empty constants (bits 200 8)
      (new-IsArena Sort.new) (new-IsModel fractions all_true Sort.new) tt refl

abbrev byte_model : Interp
byte_model = byte-Yields.0

extract_term-Makes_example :
    ((2 ≤ 5)
      × (5 < 8)
      × Makes fractions all_true with_byte byte_model
          (bits (200 / 2 ^ 2 % 2 ^ (5 - 2 + 1)) (5 - 2 + 1))
          (extract_term 5 2 2 bytes with_byte))
    ⊎ (((8 ≤ 5) ⊎ (5 < 2)) × (extract_term 5 2 2 bytes with_byte ≡ type_error "bv_extract bounds"))
unfolding constants new Sort.new intern Sort.intern Key-discrete Op-discrete Sort.Sort-discrete get
    sort_of get_term get_sort ℕ_discrete
extract_term-Makes_example =
    let (J, e, h, v) = byte-Yields in
    extract_term-Makes fractions all_true with_byte J e.arena e.model bytes 5 2 2 3 8 200 h refl
      refl (omega arith) v

concat_term-Makes_example :
    ((8 + 8 ≤ 65536)
      × Makes fractions all_true with_byte byte_model
          (bits (200 * 2 ^ 8 + 200) (8 + 8))
          (concat_term 2 2 bytes with_byte))
    ⊎ ((65536 < 8 + 8) × (concat_term 2 2 bytes with_byte ≡ panics))
unfolding constants new Sort.new intern Sort.intern Key-discrete Op-discrete Sort.Sort-discrete get
    sort_of get_term get_sort ℕ_discrete
concat_term-Makes_example =
    let (J, e, h, v) = byte-Yields in
    concat_term-Makes fractions all_true with_byte J e.arena e.model bytes 2 2 3 3 8 8 200 200 h h
      (refl, refl, v) (refl, refl, v) (omega arith, omega arith, omega arith)
