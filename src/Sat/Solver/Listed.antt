-- ===== src/Sat/Solver/Listed.antt =====
-- crates/smt-sat/src/solver.rs: the list of watchers that `bcp` takes, visits and writes back.
use smt_solver_rust.Common.{◌≡◌, ◌≢◌, refl, sym, ap, List, [], ◌∷◌, ◌++◌, All}
use smt_solver_rust.Sat.Trail.{ClauseId}
use smt_solver_rust.Sat.Watch.{Watcher}

module _ {κ} (P : Watcher → Type κ) where
  pub All-drop :
      (keep ws : List Watcher) (w : Watcher) → All P (keep ++ w ∷ ws) → All P (keep ++ ws)
  All-drop [] ws w h = h.1
  All-drop (x ∷ keep) ws w h = (h.0, All-drop keep ws w h.1)

  pub All-replace :
      (keep ws : List Watcher) (w x : Watcher)
      → P x
      → All P (keep ++ w ∷ ws)
      → All P (keep ++ x ∷ ws)
  All-replace [] ws w x p h = (p, h.1)
  All-replace (y ∷ keep) ws w x p h = (h.0, All-replace keep ws w x p h.1)

  pub All-middle : (keep ws : List Watcher) (w : Watcher) → All P (keep ++ w ∷ ws) → P w
  All-middle [] ws w h = h.0
  All-middle (y ∷ keep) ws w h = All-middle keep ws w h.1

  pub All-insert :
      (keep ws : List Watcher) (w : Watcher) → P w → All P (keep ++ ws) → All P (keep ++ w ∷ ws)
  All-insert [] ws w p h = (p, h)
  All-insert (y ∷ keep) ws w p h = (h.0, All-insert keep ws w p h.1)

pub All-both {κ} :
    (P Q R : Watcher → Type κ) (ws : List Watcher)
    → ((w : Watcher) → P w → Q w → R w)
    → All P ws
    → All Q ws
    → All R ws
All-both P Q R [] f h k = tt
All-both P Q R (w ∷ ws) f h k = (f w h.0 k.0, All-both P Q R ws f h.1 k.1)

abbrev pub Apart : ClauseId → Watcher → Type 0
Apart id w = w.clause_id ≢ id

-- No two watchers are of one clause.
abbrev pub NoDup : List Watcher → Type 0
NoDup [] = Unit
NoDup (w ∷ ws) = All (Apart w.clause_id) ws × NoDup ws

pub NoDup-drop :
    (keep ws : List Watcher) (w : Watcher) → NoDup (keep ++ w ∷ ws) → NoDup (keep ++ ws)
NoDup-drop [] ws w h = h.1
NoDup-drop (x ∷ keep) ws w h =
    (All-drop (Apart x.clause_id) keep ws w h.0, NoDup-drop keep ws w h.1)

pub NoDup-middle :
    (keep ws : List Watcher) (w : Watcher)
    → NoDup (keep ++ w ∷ ws)
    → All (Apart w.clause_id) (keep ++ ws)
NoDup-middle [] ws w h = h.0
NoDup-middle (x ∷ keep) ws w h =
    ((λ e. All-middle (Apart x.clause_id) keep ws w h.0 (sym e)), NoDup-middle keep ws w h.1)

pub NoDup-insert :
    (keep ws : List Watcher) (w : Watcher)
    → All (Apart w.clause_id) (keep ++ ws)
    → NoDup (keep ++ ws)
    → NoDup (keep ++ w ∷ ws)
NoDup-insert [] ws w h k = (h, k)
NoDup-insert (x ∷ keep) ws w h k = (
  All-insert (Apart x.clause_id) keep ws w (λ e. h.0 (sym e)) k.0,
  NoDup-insert keep ws w h.1 k.1,
)

pub snoc-append : (keep ws : List Watcher) (w : Watcher) → (keep ++ w ∷ []) ++ ws ≡ keep ++ w ∷ ws
snoc-append [] ws w = refl
snoc-append (x ∷ keep) ws w = ap (λ ys. x ∷ ys) (snoc-append keep ws w)

pub append_nil : (keep : List Watcher) → keep ++ [] ≡ keep
append_nil [] = refl
append_nil (x ∷ keep) = ap (λ ys. x ∷ ys) (append_nil keep)
