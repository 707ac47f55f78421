-- ===== src/Core/Term/Pool.antt =====
-- crates/smt-core/src/term.rs: the invariant of the arena of terms.
use mathlib.Core.Path.{subst}
use smt_solver_rust.Common.{
  ◌<◌, ◌≡◌, sym, ap, ◌∙◌, none, some, List, [], ◌∷◌, ◌++◌, length, get_elem?, All, arith, ◌⊎◌, inl,
  inr, get_elem?-append_old, get_elem?-append_new, get_elem?-lt, length-append,
}
use mathlib.Core.Option.{some-injective}
use native.Mathlib.Decide.{dec_lt}
use smt_solver_rust.Common.Dict.{get}
use smt_solver_rust.Common.Pool.{IsPool, push-IsPool}
use smt_solver_rust.Core.Sort.{SortId}
use smt_solver_rust.Core.Op.{Op, true_op, false_op}
use smt_solver_rust.Core.Term.{TermId, TermData, Key, Key-discrete, TermArena, push_term, intern}

abbrev pub key_of : TermData → Key
key_of t = (t.op, t.args)

-- A term with this operator and these arguments stands at the identifier.
abbrev pub Stands : TermArena → TermId → Op → List TermId → Type 0
Stands a id op args = (t : TermData) × (get_elem? a.terms id ≡ some t) × (key_of t ≡ (op, args))

pub record IsArena (a : TermArena) : Type 0 where
  pub pool : IsPool Key-discrete key_of a.terms a.lookup
  pub acyclic :
      (id : TermId) (t : TermData) → get_elem? a.terms id ≡ some t → All (λ k. k < id) t.args
  pub true_at : Stands a a.true_id true_op []
  pub false_at : Stands a a.false_id false_op []

pub intern-old :
    (op : Op) (args : List TermId) (sort : SortId) (a : TermArena) (id : TermId)
    → get Key-discrete (op, args) a.lookup ≡ some id
    → intern op args sort a ≡ (a, id)
unfolding intern
intern-old op args sort a id e = rw (e, intern)

pub intern-new :
    (op : Op) (args : List TermId) (sort : SortId) (a : TermArena)
    → get Key-discrete (op, args) a.lookup ≡ none
    → intern op args sort a ≡ push_term op args sort a
unfolding intern
intern-new op args sort a e = rw (e, intern)

Stands-push :
    (op : Op) (args : List TermId) (sort : SortId) (a : TermArena) (id : TermId) (o : Op)
    (xs : List TermId)
    → Stands a id o xs
    → Stands (push_term op args sort a).0 id o xs
Stands-push op args sort a id o xs (t, at, k) =
    (t, get_elem?-append_old a.terms _ id (get_elem?-lt a.terms id at) ∙ at, k)

-- A term of the longer vector is an old one, or the one that was pushed.
pub pushed-cases :
    (ts : List TermData) (t : TermData) (id : TermId) (u : TermData)
    → get_elem? (ts ++ t ∷ []) id ≡ some u
    → (get_elem? ts id ≡ some u) ⊎ ((id ≡ length ts) × (t ≡ u))
pushed-cases ts t id u e = elim (dec_lt id (length ts)) [
  | yes old ↦ inl (sym (get_elem?-append_old ts (t ∷ []) id old) ∙ e)
  | no new ↦
      let at_end : id ≡ length ts =
        omega (arith, get_elem?-lt (ts ++ t ∷ []) id e, length-append ts (t ∷ [])) in
      inr (
        at_end,
        some-injective _ _
            (sym (get_elem?-append_new ts t) ∙ ap (get_elem? (ts ++ t ∷ [])) (sym at_end) ∙ e),
      )
]

pub push-IsArena :
    (op : Op) (args : List TermId) (sort : SortId) (a : TermArena)
    → IsArena a
    → get Key-discrete (op, args) a.lookup ≡ none
    → All (λ k. k < length a.terms) args
    → IsArena (push_term op args sort a).0
push-IsArena op args sort a w fresh below =
    let t : TermData = record { op = op; args = args; sort = sort } in
    record {
      pool = push-IsPool Key-discrete key_of a.terms a.lookup t w.pool fresh;
      acyclic = λ id u e. elim (pushed-cases a.terms t id u e) [
        | inl old ↦ w.acyclic id u old
        | inr (at_end, same) ↦
            subst (λ (s : TermData). All (λ k. k < id) s.args) same
              (subst (λ n. All (λ k. k < n) args) (sym at_end) below)
      ];
      true_at = Stands-push op args sort a a.true_id true_op [] w.true_at;
      false_at = Stands-push op args sort a a.false_id false_op [] w.false_at;
    }
