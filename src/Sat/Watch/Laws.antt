-- ===== src/Sat/Watch/Laws.antt =====
-- crates/smt-sat/src/watch.rs: the watch lists as a map from literals to lists.
use mathlib.Core.Path.{subst}
use smt_solver_rust.Common.{
  ℕ, zero, suc, ◌+◌, ◌-◌, ◌*◌, ◌≤◌, ◌<◌, ◌≡◌, ◌≢◌, refl, sym, ap, ◌∙◌, List, [], ◌∷◌, ◌++◌, ltb,
  leb, length, get_or, replicate, arith, length-append, length-replicate, get_or-set_self,
  get_or-set_ne, Bool-cases, inl, inr,
}
use smt_solver_rust.Sat.Lit.{Lit}
use smt_solver_rust.Sat.Watch.{Watcher, WatchList, ensure_var, reach, add, get, update}

-- Beyond its end a vector reads as the empty list, before and after it grows.
get_or-replicate : (k i : ℕ) (e : List Watcher) → get_or (replicate k e) i e ≡ e
get_or-replicate zero i e = refl
get_or-replicate (suc k) zero e = refl
get_or-replicate (suc k) (suc i) e = get_or-replicate k i e

get_or-pad :
    (k : ℕ) (ws : List (List Watcher)) (i : ℕ) → get_or (ws ++ replicate k []) i [] ≡ get_or ws i []
get_or-pad k [] i = get_or-replicate k i []
get_or-pad k (w ∷ ws) zero = refl
get_or-pad k (w ∷ ws) (suc i) = get_or-pad k ws i

get_or-beyond : (ws : List (List Watcher)) (i : ℕ) → length ws ≤ i → get_or ws i [] ≡ []
get_or-beyond [] i h = refl
get_or-beyond (w ∷ ws) zero h = absurd (omega arith)
get_or-beyond (w ∷ ws) (suc i) h = get_or-beyond ws i (omega arith)

pub get-get_or : (w : WatchList) (l : Lit) → get w l ≡ get_or w.watches l []
unfolding get
get-get_or w l = elim (Bool-cases (ltb l (length w.watches))) [
  | inl e ↦ rw (e, get)
  | inr e ↦ rw (e, get) (sym (get_or-beyond w.watches l (ground arith)))
]

length-reach : (l : Lit) (ws : List (List Watcher)) → l < length (reach l ws)
length-reach l ws = elim (Bool-cases (leb (length ws) l)) [
  | inl e ↦
      let k = l + 1 - length ws in
      let size : length (reach l ws) ≡ length ws + k =
        rw (e)
          (length-append ws (replicate k []) ∙ ap (λ n. length ws + n) (length-replicate k [])) in
      omega arith
  | inr e ↦
      let same : reach l ws ≡ ws = rw (e) in
      subst (λ (v : List (List Watcher)). l < length v) (sym same) (ground arith)
]

get_or-reach : (l m : Lit) (ws : List (List Watcher)) → get_or (reach l ws) m [] ≡ get_or ws m []
get_or-reach l m ws = elim (Bool-cases (leb (length ws) l)) [
  | inl e ↦ rw (e) (get_or-pad (l + 1 - length ws) ws m)
  | inr e ↦ rw (e) refl
]

-- The list of a literal after `update` is what the function makes of the list before, and the
-- lists of the other literals stay.
pub update-get :
    (l : Lit) (f : List Watcher → List Watcher) (w : WatchList)
    → (get (update l f w) l ≡ f (get w l)) × ((m : Lit) → l ≢ m → get (update l f w) m ≡ get w m)
unfolding update
update-get l f w =
    let ws = reach l w.watches in
    (
      get-get_or (update l f w) l
          ∙ get_or-set_self ws l (f (get_or ws l [])) [] (length-reach l w.watches)
          ∙ ap f (get_or-reach l l w.watches ∙ sym (get-get_or w l)),
      λ m ne.
          get-get_or (update l f w) m
          ∙ get_or-set_ne ws l m (f (get_or ws l [])) [] ne
          ∙ get_or-reach l m w.watches
          ∙ sym (get-get_or w m),
    )

-- A watcher added to a literal stands last in its list, and no other list changes.
pub add-get :
    (l : Lit) (x : Watcher) (w : WatchList)
    → (get (add l x w) l ≡ get w l ++ x ∷ []) × ((m : Lit) → l ≢ m → get (add l x w) m ≡ get w m)
unfolding add update
add-get l x w = update-get l (λ ws. ws ++ x ∷ []) w

-- Making room for variables changes no list, and then each of their literals has one.
pub ensure_var-get :
    (n : ℕ) (w : WatchList)
    → (n * 2 ≤ length (ensure_var n w).watches) × ((m : Lit) → get (ensure_var n w) m ≡ get w m)
unfolding ensure_var
ensure_var-get n w = elim (Bool-cases (ltb (length w.watches) (n * 2))) [
  | inl e ↦
      let k = n * 2 - length w.watches in
      let size : length (ensure_var n w).watches ≡ length w.watches + k =
        rw (ensure_var, e)
          (length-append w.watches (replicate k [])
            ∙ ap (λ i. length w.watches + i) (length-replicate k [])) in
      (
        omega (arith, size),
        λ m.
            get-get_or (ensure_var n w) m
            ∙ rw (ensure_var, e) (get_or-pad k w.watches m)
            ∙ sym (get-get_or w m),
      )
  | inr e ↦
      let same : ensure_var n w ≡ w = rw (ensure_var, e) in
      (
        subst (λ (v : WatchList). n * 2 ≤ length v.watches) (sym same) (ground arith),
        λ m. ap (λ v. get v m) same,
      )
]
