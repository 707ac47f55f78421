-- ===== src/Core/Sort/Laws.antt =====
-- crates/smt-core/src/sort.rs: laws of the arena of sorts.
use smt_solver_rust.Common.{
  ◌≡◌, refl, ◌∙◌, sym, ap, none, some, [], ◌∷◌, length, Option-cases, inl, inr,
  get_elem?-append_old, get_elem?-append_new, get_elem?-lt,
}
use mathlib.Core.Path.{subst}
use smt_solver_rust.Common.Dict.{get, get-insert_self}
use smt_solver_rust.Common.Pool.{IsPool, push-IsPool}
use smt_solver_rust.Core.Sort.{
  Alloc, Sort, bool_s, int_s, real_s, SortId, Sort-discrete, SortArena, push_sort, intern, new,
  get_sort,
}

abbrev pub IsValid : SortArena → Type 0
IsValid a = IsPool Sort-discrete (λ (s : Sort). s) a.sorts a.lookup

-- What interning a sort promises: the arena stays valid, the identifier names the sort, the
-- identifiers given before name what they named, and interning again changes nothing.
pub record Interned (s : Sort) (a b : SortArena) (id : SortId) : Type 0 where
  pub valid : IsValid b
  pub names : get_sort b id ≡ some s
  pub keeps : (j : SortId) (x : Sort) → get_sort a j ≡ some x → get_sort b j ≡ some x
  pub again : intern s b ≡ (b, id)

intern-new :
    (s : Sort) (a : SortArena) → get Sort-discrete s a.lookup ≡ none → intern s a ≡ push_sort s a
unfolding intern
intern-new s a e = rw (e, intern)

intern-old :
    (s : Sort) (a : SortArena) (id : SortId)
    → get Sort-discrete s a.lookup ≡ some id
    → intern s a ≡ (a, id)
unfolding intern
intern-old s a id e = rw (e, intern)

push_sort-Interned :
    (s : Sort) (a : SortArena)
    → IsValid a
    → get Sort-discrete s a.lookup ≡ none
    → Interned s a (push_sort s a).0 (push_sort s a).1
unfolding get_sort
push_sort-Interned s a v e = record {
  valid = push-IsPool Sort-discrete (λ x. x) a.sorts a.lookup s v e;
  names = get_elem?-append_new a.sorts s;
  keeps = λ j x g. get_elem?-append_old a.sorts (s ∷ []) j (get_elem?-lt a.sorts j g) ∙ g;
  again =
      intern-old s (push_sort s a).0 (push_sort s a).1
        (get-insert_self Sort-discrete s (length a.sorts) a.lookup);
}

-- Interning a sort in a valid arena keeps it valid; the identifier names the sort, the earlier
-- identifiers keep their sorts, and interning the sort again changes nothing.
pub intern-Interned :
    (s : Sort) (a : SortArena) → IsValid a → Interned s a (intern s a).0 (intern s a).1
intern-Interned s a v = elim (Option-cases (get Sort-discrete s a.lookup)) [
  | inl e ↦
      subst (λ (r : Alloc). Interned s a r.0 r.1) (sym (intern-new s a e))
        (push_sort-Interned s a v e)
  | inr (id, e) ↦
      let (x, at, same) = v.found s id e in
      subst (λ (r : Alloc). Interned s a r.0 r.1) (sym (intern-old s a id e))
        (record {
          valid = v;
          names = unfold get_sort in (at ∙ ap some same);
          keeps = λ j y g. g;
          again = intern-old s a id e;
        })
]

blank : SortArena
blank = record { sorts = []; lookup = []; bool_sort = 0; int_sort = 0; real_sort = 0 }

blank-IsValid : IsValid blank
unfolding blank get
blank-IsValid = record { found = λ k id e. absurd (cc); listed = λ id v e. absurd (cc) }

new_pool : IsValid new
unfolding new blank
new_pool =
    let v = (intern-Interned bool_s blank blank-IsValid).valid in
    let a = record (intern bool_s blank).0 { bool_sort = (intern bool_s blank).1 } in
    let w = (intern-Interned int_s a v).valid in
    (intern-Interned real_s (record (intern int_s a).0 { int_sort = (intern int_s a).1 }) w).valid

-- A new arena is valid, and its three fields name the primitive sorts.
pub new-IsValid :
    IsValid new
    × (get_sort new new.bool_sort ≡ some bool_s)
    × (get_sort new new.int_sort ≡ some int_s)
    × (get_sort new new.real_sort ≡ some real_s)
unfolding new intern get_sort get Sort-discrete
new-IsValid = (new_pool, refl, refl, refl)
