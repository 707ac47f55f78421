-- ===== src/Core/Term/Fresh.antt =====
-- crates/smt-core/src/term.rs: the arena that `TermArena::new` makes.
use mathlib.Core.Path.{subst}
use mathlib.Core.Option.{some-injective}
use smt_solver_rust.Common.{◌<◌, All, zero, suc, ◌≡◌, refl, some, [], ◌∷◌, get_elem?}
use smt_solver_rust.Common.Dict.{get}
use smt_solver_rust.Common.Pool.{IsPool, push-IsPool}
use smt_solver_rust.Core.Sort.{SortId, SortArena}
use smt_solver_rust.Core.Op.{Op-discrete, true_op, false_op}
use smt_solver_rust.Core.Term.{TermId, TermData, TermArena, Key-discrete, intern, new}
use smt_solver_rust.Core.Term.Pool.{key_of, IsArena}

constant_args :
    (s : SortId) (id : TermId) (u : TermData)
    → get_elem?
        (record { op = true_op; args = []; sort = s }
          ∷ (record { op = false_op; args = []; sort = s } ∷ []))
        id
      ≡ some u
    → All (λ k. k < id) u.args
constant_args s zero u e =
    subst (λ (v : TermData). All (λ k. k < 0) v.args) (some-injective _ _ e) tt
constant_args s (suc zero) u e =
    subst (λ (v : TermData). All (λ k. k < 1) v.args) (some-injective _ _ e) tt
constant_args s (suc (suc id)) u e = absurd (cc)

blank : TermArena
blank = record { terms = []; lookup = []; true_id = 0; false_id = 0 }

blank-IsPool : IsPool Key-discrete key_of blank.terms blank.lookup
unfolding blank get
blank-IsPool = record { found = λ k id e. absurd (cc); listed = λ id v e. absurd (cc) }

-- Whatever sorts it is given, a new arena is hash-consed and holds `true` and `false`.
pub new-IsArena : (sorts : SortArena) → IsArena (new sorts)
unfolding new intern blank get Key-discrete Op-discrete
new-IsArena sorts =
    let t : TermData = record { op = true_op; args = []; sort = sorts.bool_sort } in
    let f : TermData = record { op = false_op; args = []; sort = sorts.bool_sort } in
    let p = push-IsPool Key-discrete key_of [] [] t blank-IsPool refl in
    record {
      pool = push-IsPool Key-discrete key_of (t ∷ []) _ f p refl;
      acyclic = λ id u e. constant_args sorts.bool_sort id u e;
      true_at = (t, refl, refl);
      false_at = (f, refl, refl);
    }
