-- ===== src/Sat/Solver/Watched.antt =====
-- crates/smt-sat/src/solver.rs: the watchers that `bcp` relies on, and the clauses it rewrites.
use mathlib.Core.Path.{subst}
use mathlib.Core.Option.{some-injective}
use native.Mathlib.Decide.{ℕ_discrete}
use smt_solver_rust.Common.{
  ℕ, ◌≤◌, ◌<◌, ◌≡◌, ◌≢◌, refl, sym, ap, ◌∙◌, some, List, length, get_elem?, set, arith, All, ◌⊎◌,
  inl, inr, get_elem?-lt, get_elem?-set_self, get_elem?-set_ne,
}
use smt_solver_rust.Sat.Lit.{Lit, var, negate}
use smt_solver_rust.Sat.Trail.{Trail, ClauseId}
use smt_solver_rust.Sat.Clause.{Clause, ClauseArena, get_clause, update_clause}
use smt_solver_rust.Sat.Watch
use smt_solver_rust.Sat.Watch.{Watcher, WatchList}
use smt_solver_rust.Sat.Float.{F64}
use smt_solver_rust.Sat.Solver.Position.{FalseBefore}
use smt_solver_rust.Sat.Solver.Learn.{IsImplied}
use smt_solver_rust.Sat.Solver.Rearrange.{IsRearranged, rearranged-All}
use smt_solver_rust.Sat.Solver.Listed.{NoDup}

-- A clause of two literals at least, of variables in range, none of them twice.
pub record IsProper (n : ℕ) (c : Clause F64) : Type 0 where
  pub long : 2 ≤ length c.lits
  pub bounded : All (λ l. var l < n) c.lits
  pub distinct :
      (i j : ℕ) (l : Lit) → get_elem? c.lits i ≡ some l → get_elem? c.lits j ≡ some l → i ≡ j

-- The literal is one of the first two.
abbrev pub Watches : Lit → List Lit → Type 0
Watches l ls = (get_elem? ls 0 ≡ some l) ⊎ (get_elem? ls 1 ≡ some l)

-- A watcher for a literal is of a proper clause that has its complement among the first two.
abbrev pub Watching : ℕ → ClauseArena F64 → Lit → Watcher → Type 0
Watching n a p w =
    (c : Clause F64) × (get_clause a w.clause_id ≡ some c)
    × IsProper n c
    × Watches (negate p) c.lits
    × (var w.blocker < n)

abbrev pub IsListed : ℕ → ClauseArena F64 → Lit → List Watcher → Type 0
IsListed n a p ws = All (Watching n a p) ws × NoDup ws

-- Every literal's list is of watchers for it, one for each clause at most.
abbrev pub IsWatched : ℕ → ClauseArena F64 → WatchList → Type 0
IsWatched n a ws = (p : Lit) → IsListed n a p (Watch.get ws p)

module _ (a : ClauseArena F64) (id : ClauseId) (c : Clause F64) (ms : List Lit)
    (e : get_clause a id ≡ some c) (r : IsRearranged c.lits ms) where
  abbrev pub rewritten : Clause F64
  rewritten = record c { lits = ms }

  abbrev pub written : ClauseArena F64
  written = record { clauses = set a.clauses id rewritten }

  pub update-written : update_clause id (λ d. record d { lits = ms }) a ≡ some written
  unfolding update_clause get_clause
  update-written = rw (e) refl

  pub written_at : get_clause written id ≡ some rewritten
  unfolding get_clause
  written_at = get_elem?-set_self a.clauses id rewritten (get_elem?-lt a.clauses id e)

  pub written_other : (j : ClauseId) → id ≢ j → get_clause written j ≡ get_clause a j
  unfolding get_clause
  written_other j ne = get_elem?-set_ne a.clauses id j rewritten ne

  pub rewritten-IsProper : (n : ℕ) → IsProper n c → IsProper n rewritten
  rewritten-IsProper n k = record {
    long = let s = r.size in let l = k.long in omega arith;
    bounded = rearranged-All c.lits ms r (λ l. var l < n) k.bounded;
    distinct = λ i j l at other.
        r.injective i j
          (k.distinct (r.source i) (r.source j) l (sym (r.moved i) ∙ at) (sym (r.moved j) ∙ other));
  }

  pub written-IsImplied : (t : Trail) → IsImplied t a → IsImplied t written
  written-IsImplied t w = record {
    reasons = λ i l d at f.
        let (b, g, all) = w.reasons i l d at f in
        elim (ℕ_discrete id d) [
          | no ne ↦ (b, written_other d ne ∙ g, all)
          | yes p ↦
              let same : b ≡ c = some-injective _ _ (sym g ∙ ap (get_clause a) (sym p) ∙ e) in
              (
                rewritten,
                ap (get_clause written) (sym p) ∙ written_at,
                rearranged-All c.lits ms r (λ m. (m ≡ l) ⊎ FalseBefore t i m)
                    (subst (λ (x : Clause F64). All (λ m. (m ≡ l) ⊎ FalseBefore t i m) x.lits) same
                      all),
              )
        ];
    openers = w.openers;
  }

  -- A watcher stays one, of this clause if its literal is still in front.
  pub written-Watching :
      (n : ℕ) (q : Lit) (w : Watcher)
      → Watching n a q w
      → (Watches (negate q) c.lits → Watches (negate q) ms) ⊎ (w.clause_id ≢ id)
      → Watching n written q w
  written-Watching n q w (d, f, k, at, b) o = elim (ℕ_discrete id w.clause_id) [
    | no ne ↦ (d, written_other w.clause_id ne ∙ f, k, at, b)
    | yes p ↦
        let same : d ≡ c = some-injective _ _ (sym f ∙ ap (get_clause a) (sym p) ∙ e) in
        elim o [
          | inr ne ↦ absurd (ne (sym p))
          | inl keeps ↦ (
            rewritten,
            ap (get_clause written) (sym p) ∙ written_at,
            rewritten-IsProper n (subst (IsProper n) same k),
            keeps (subst (λ (x : Clause F64). Watches (negate q) x.lits) same at),
            b,
          )
        ]
  ]
