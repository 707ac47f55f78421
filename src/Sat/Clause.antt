-- ===== src/Sat/Clause.antt =====
-- crates/smt-sat/src/clause.rs: clauses and their arena. `F` is the type of `f64`, of which the
-- arena uses `zero_f`, that is 0.0; `none` is an index out of range.
pub mod Laws
use smt_solver_rust.Common.{
  ℕ, zero, suc, ◌+◌, ◌-◌, Bool, true, false, Option, none, some, List, [], ◌∷◌, ◌++◌, ltb,
  if◌then◌else◌, ◌>>=◌, length, get_elem?, set,
}
use smt_solver_rust.Sat.Lit.{Lit}
use smt_solver_rust.Sat.Trail.{ClauseId}

pub record Clause (F : Type 0) : Type 0 where
  pub lits : List Lit
  pub lbd : ℕ
  pub activity : F
  pub learned : Bool
  pub deleted : Bool

pub record ClauseArena (F : Type 0) : Type 0 where
  pub clauses : List (Clause F)

-- `n` numbers in order.
abbrev pub range : ℕ → ℕ → List ℕ
range from zero = []
range from (suc n) = from ∷ range (from + 1) n

module _ {F : Type 0} where
  unfoldable pub new : ClauseArena F
  new = record { clauses = [] }

  unfoldable pub clause_len : Clause F → ℕ
  clause_len c = length c.lits

  unfoldable pub index : Clause F → ℕ → Option Lit
  index c i = get_elem? c.lits i

  -- `c[i] = l`.
  unfoldable pub index_mut : Clause F → ℕ → Lit → Option (Clause F)
  index_mut c i l =
      if ltb i (length c.lits) then some (record c { lits = set c.lits i l }) else none

  unfoldable pub get_clause : ClauseArena F → ClauseId → Option (Clause F)
  get_clause a id = get_elem? a.clauses id

  -- `get_mut` hands out the clause; what the caller leaves there is written back.
  unfoldable pub update_clause :
      ClauseId → (Clause F → Clause F) → ClauseArena F → Option (ClauseArena F)
  update_clause id f a = do
    c ← get_elem? a.clauses id
    some (record { clauses = set a.clauses id (f c) })

  unfoldable pub iter_ids : ClauseArena F → List ClauseId
  iter_ids a = range 0 (length a.clauses)

  module _ (zero_f : F) where
    unfoldable pub new_original : List Lit → Clause F
    new_original lits = record {
      lits = lits;
      lbd = 0;
      activity = zero_f;
      learned = false;
      deleted = false;
    }

    unfoldable pub new_learned : List Lit → ℕ → Clause F
    new_learned lits lbd = record {
      lits = lits;
      lbd = lbd;
      activity = zero_f;
      learned = true;
      deleted = false;
    }

    unfoldable pub alloc_original : List Lit → ClauseArena F → ClauseArena F × ClauseId
    alloc_original lits a =
        (record { clauses = a.clauses ++ new_original lits ∷ [] }, length a.clauses)

    unfoldable pub alloc_learned : List Lit → ℕ → ClauseArena F → ClauseArena F × ClauseId
    alloc_learned lits lbd a =
        (record { clauses = a.clauses ++ new_learned lits lbd ∷ [] }, length a.clauses)
