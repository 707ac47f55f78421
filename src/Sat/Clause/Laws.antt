-- ===== src/Sat/Clause/Laws.antt =====
-- crates/smt-sat/src/clause.rs: laws of the arena and of its identifiers.
use smt_solver_rust.Common.{
  ℕ, ◌≡◌, refl, ◌∙◌, none, some, List, [], ◌∷◌, ◌++◌, length, get_elem?, get_elem?-append_old,
  get_elem?-append_new, get_elem?-lt,
}
use smt_solver_rust.Sat.Lit.{Lit}
use smt_solver_rust.Sat.Trail.{ClauseId}
use smt_solver_rust.Sat.Clause.{
  Clause, ClauseArena, get_clause, new_original, new_learned, alloc_original, alloc_learned,
}

-- What an allocation promises of the clause it was given.
pub record Stored {F : Type 0} (a b : ClauseArena F) (id : ClauseId) (c : Clause F) : Type 0 where
  pub found : get_clause b id ≡ some c
  pub fresh : get_clause a id ≡ none
  pub keeps : (j : ClauseId) (d : Clause F) → get_clause a j ≡ some d → get_clause b j ≡ some d

module _ {F : Type 0} where
  get_elem?-end : (xs : List (Clause F)) → get_elem? xs (length xs) ≡ none
  get_elem?-end [] = refl
  get_elem?-end (x ∷ xs) = get_elem?-end xs

  push-Stored :
      (a : ClauseArena F) (c : Clause F)
      → Stored a (record { clauses = a.clauses ++ c ∷ [] }) (length a.clauses) c
  unfolding get_clause
  push-Stored a c = record {
    found = get_elem?-append_new a.clauses c;
    fresh = get_elem?-end a.clauses;
    keeps = λ j d e. get_elem?-append_old a.clauses (c ∷ []) j (get_elem?-lt a.clauses j e) ∙ e;
  }

  -- Both allocations give an identifier that was not in use and now names the clause, unlearned
  -- or learned with its distance, and the identifiers in use keep their clauses.
  pub alloc-Stored :
      (zero_f : F) (lits : List Lit) (lbd : ℕ) (a : ClauseArena F)
      → Stored a
          (alloc_original zero_f lits a).0
          (alloc_original zero_f lits a).1
          (new_original zero_f lits)
        × Stored a
            (alloc_learned zero_f lits lbd a).0
            (alloc_learned zero_f lits lbd a).1
            (new_learned zero_f lits lbd)
  unfolding alloc_original alloc_learned
  alloc-Stored zero_f lits lbd a =
      (push-Stored a (new_original zero_f lits), push-Stored a (new_learned zero_f lits lbd))
