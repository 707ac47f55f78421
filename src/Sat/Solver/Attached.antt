-- ===== src/Sat/Solver/Attached.antt =====
-- crates/smt-sat/src/solver.rs: clauses that `bcp` finds through the watchers of their first two
-- literals, and the steps of the inner loop that keep them so.
use mathlib.Core.Path.{subst}
use mathlib.Core.Option.{some-injective}
use native.Mathlib.Decide.{ℕ_discrete}
use smt_solver_rust.Common.{
  ℕ, ◌≡◌, ◌≢◌, sym, ap, ◌∙◌, true, false, some, List, [], ◌∷◌, ◌++◌, ◌⊎◌, inl, inr,
}
use smt_solver_rust.Sat.Lit.{Lit, negate}
use smt_solver_rust.Sat.Trail.{ClauseId}
use smt_solver_rust.Sat.Clause.{Clause, get_clause}
use smt_solver_rust.Sat.Watch
use smt_solver_rust.Sat.Watch.Laws.{add-get}
use smt_solver_rust.Sat.Watch.{Watcher, WatchList}
use smt_solver_rust.Sat.Float.{F64}
use smt_solver_rust.Sat.Solver.{Kernel}
use smt_solver_rust.Sat.Solver.Rearrange.{IsRearranged, same-IsRearranged, chain-IsRearranged}
use smt_solver_rust.Sat.Solver.Watched.{
  IsProper, Watches, written, written_at, written_other, rewritten, rewritten-IsProper,
}

-- A watcher of the clause stands in the list.
abbrev pub Has : ClauseId → List Watcher → Type 0
Has id [] = ⊥
Has id (w ∷ ws) = (w.clause_id ≡ id) ⊎ Has id ws

module _ (id : ClauseId) where
  pub Has-drop :
      (keep ws : List Watcher) (w : Watcher)
      → w.clause_id ≢ id
      → Has id (keep ++ w ∷ ws)
      → Has id (keep ++ ws)
  Has-drop [] ws w ne (inl e) = absurd (ne e)
  Has-drop [] ws w ne (inr h) = h
  Has-drop (x ∷ keep) ws w ne (inl e) = inl e
  Has-drop (x ∷ keep) ws w ne (inr h) = inr (Has-drop keep ws w ne h)

  pub Has-replace :
      (keep ws : List Watcher) (w x : Watcher)
      → x.clause_id ≡ w.clause_id
      → Has id (keep ++ w ∷ ws)
      → Has id (keep ++ x ∷ ws)
  Has-replace [] ws w x same (inl e) = inl (same ∙ e)
  Has-replace [] ws w x same (inr h) = inr h
  Has-replace (y ∷ keep) ws w x same (inl e) = inl e
  Has-replace (y ∷ keep) ws w x same (inr h) = inr (Has-replace keep ws w x same h)

  pub Has-old : (ws : List Watcher) (x : Watcher) → Has id ws → Has id (ws ++ x ∷ [])
  Has-old [] x h = absurd h
  Has-old (w ∷ ws) x (inl e) = inl e
  Has-old (w ∷ ws) x (inr h) = inr (Has-old ws x h)

  pub Has-last : (ws : List Watcher) (x : Watcher) → x.clause_id ≡ id → Has id (ws ++ x ∷ [])
  Has-last [] x e = inl e
  Has-last (w ∷ ws) x e = inr (Has-last ws x e)

  pub Has-add :
      (l q : Lit) (x : Watcher) (ws : WatchList)
      → Has id (Watch.get ws q)
      → Has id (Watch.get (Watch.add l x ws) q)
  Has-add l q x ws h =
      let (mine, rest) = add-get l x ws in
      elim (ℕ_discrete l q) [
        | no ne ↦ subst (Has id) (sym (rest q ne)) h
        | yes e ↦
            let old = subst (λ r. Has id (Watch.get ws r)) (sym e) h in
            subst (λ r. Has id (Watch.get (Watch.add l x ws) r)) e
              (subst (Has id) (sym mine) (Has-old (Watch.get ws l) x old))
      ]

-- While the watchers of `p` are in a list of their own, a watcher of the clause stands among those
-- of `q`.
abbrev pub Stands : Lit → List Watcher → WatchList → ClauseId → Lit → Type 0
Stands p mine ws id q = (p ≡ q → Has id mine) × (p ≢ q → Has id (Watch.get ws q))

-- The clause is the other one but for the order of its literals.
abbrev pub IsVersion : Clause F64 → Clause F64 → Type 0
IsVersion base c = (c ≡ record base { lits = c.lits }) × IsRearranged base.lits c.lits

pub same-IsVersion : (c : Clause F64) → IsVersion c c
same-IsVersion c = (λ i. c, same-IsRearranged c.lits)

pub rearranged-IsVersion :
    (base d c : Clause F64) (ms : List Lit)
    → d ≡ c
    → IsRearranged c.lits ms
    → IsVersion base d
    → IsVersion base (record c { lits = ms })
rearranged-IsVersion base d c ms z r (q, v) = (
  ap (λ (x : Clause F64). record x { lits = ms }) (sym z ∙ q),
  chain-IsRearranged base.lits c.lits ms
      (subst (λ (x : Clause F64). IsRearranged base.lits x.lits) z v) r,
)

-- The clause is stored, up to the order of its literals; it is proper and, unless it is deleted, has
-- a watcher for each of its first two literals.
abbrev pub Attached : ℕ → Lit → Kernel → List Watcher → ClauseId → Clause F64 → Type 0
Attached n p k mine id base =
    (c : Clause F64) × (get_clause k.arena id ≡ some c)
    × IsVersion base c
    × IsProper n c
    × (c.deleted ≡ false → (l : Lit) → Watches l c.lits → Stands p mine k.watches id (negate l))

-- Clauses that have their watchers keep them.
abbrev pub Keeps : ℕ → Lit → Kernel → List Watcher → Kernel → List Watcher → Type 0
Keeps n p k mine j left =
    (id : ClauseId) (base : Clause F64) → Attached n p k mine id base → Attached n p j left id base

module _ (n : ℕ) (p : Lit) (k : Kernel) (keep ws : List Watcher) (w : Watcher) where
  pub replace-Keeps :
      (x : Watcher) → x.clause_id ≡ w.clause_id → Keeps n p k (keep ++ w ∷ ws) k (keep ++ x ∷ ws)
  replace-Keeps x same id base (c, e, v, proper, f) = (
    c,
    e,
    v,
    proper,
    λ d l at.
        let (here, there) = f d l at in ((λ q. Has-replace id keep ws w x same (here q)), there),
  )

  -- Of a deleted clause the watcher is dropped.
  pub drop-Keeps :
      (c : Clause F64)
      → get_clause k.arena w.clause_id ≡ some c
      → c.deleted ≡ true
      → Keeps n p k (keep ++ w ∷ ws) k (keep ++ ws)
  drop-Keeps c e gone id base (d, g, v, proper, f) = (
    d,
    g,
    v,
    proper,
    λ alive l at.
        let apart : w.clause_id ≢ id = λ same.
          let z : d ≡ c = some-injective _ _ (sym g ∙ ap (get_clause k.arena) (sym same) ∙ e) in
          let both : true ≡ false = sym gone ∙ ap (λ (x : Clause F64). x.deleted) (sym z) ∙ alive in
          absurd (cc) in
        let (here, there) = f alive l at in ((λ q. Has-drop id keep ws w apart (here q)), there),
  )

-- A clause may be rearranged if no other literal comes to the front.
pub written-Keeps :
    (n : ℕ) (p : Lit) (k : Kernel) (mine : List Watcher) (id : ClauseId) (c : Clause F64)
    (ms : List Lit) (e : get_clause k.arena id ≡ some c) (r : IsRearranged c.lits ms)
    → ((m : Lit) → Watches m ms → Watches m c.lits)
    → Keeps n p k mine (record k { arena = written k.arena id c ms e r }) mine
written-Keeps n p k mine id c ms e r back i base (d, g, v, proper, f) = elim (ℕ_discrete id i) [
  | no ne ↦ (d, written_other k.arena id c ms e r i ne ∙ g, v, proper, f)
  | yes same ↦
      let z : d ≡ c = some-injective _ _ (sym g ∙ ap (get_clause k.arena) (sym same) ∙ e) in
      (
        rewritten k.arena id c ms e r,
        ap (get_clause (written k.arena id c ms e r)) (sym same) ∙ written_at k.arena id c ms e r,
        rearranged-IsVersion base d c ms z r v,
        rewritten-IsProper k.arena id c ms e r n (subst (IsProper n) z proper),
        λ alive l at.
            f (ap (λ (x : Clause F64). x.deleted) z ∙ alive) l
              (subst (λ (x : Clause F64). Watches l x.lits) (sym z) (back l at)),
      )
]
