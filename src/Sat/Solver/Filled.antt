-- ===== src/Sat/Solver/Filled.antt =====
-- crates/smt-sat/src/trail.rs: the number of variables without a value, beside the length of the trail.
use smt_solver_rust.Common.{
  ℕ, zero, suc, ◌+◌, ◌<◌, ◌≡◌, refl, sym, ap, ◌∙◌, true, false, List, [], ◌∷◌, ◌==◌, if◌then◌else◌,
  length, get_or, set, arith, All, get_or-set_self, get_or-set_ne, length-set, ==-refl, ≢→==,
}
use native.Mathlib.Decide.{ℕ_discrete}
use smt_solver_rust.Sat.Lit.{Var, Lit, var, is_pos, LBool, undef, is_defined}
use smt_solver_rust.Sat.Trail.{Trail}
use smt_solver_rust.Sat.Trail.View.{value_in, sign_val, Distinct}
use smt_solver_rust.Sat.Trail.Valid.{IsValid}
use smt_solver_rust.Sat.Solver.Loop.{undefs}

-- What a write takes from the count and adds to it.
undefs_write :
    (xs : List LBool) (i : ℕ) (y : LBool)
    → i < length xs
    → undefs (set xs i y) + (if is_defined (get_or xs i undef) then 0 else 1)
      ≡ undefs xs + (if is_defined y then 0 else 1)
undefs_write [] i y h = absurd (omega arith)
undefs_write (x ∷ xs) zero y h = omega arith
undefs_write (x ∷ xs) (suc i) y h = let r = undefs_write xs i y (omega arith) in omega arith

none_assigned :
    (xs : List LBool)
    → ((v : Var) → v < length xs → get_or xs v undef ≡ undef)
    → undefs xs ≡ length xs
unfolding is_defined
none_assigned [] h = refl
none_assigned (x ∷ xs) h =
    let e : x ≡ undef = h 0 (omega arith) in
    let r = none_assigned xs (λ v l. h (suc v) (omega arith)) in rw (e) (omega arith)

filled_by :
    (ls : List Lit) (xs : List LBool)
    → Distinct ls
    → All (λ l. var l < length xs) ls
    → ((v : Var) → v < length xs → get_or xs v undef ≡ value_in ls v)
    → undefs xs + length ls ≡ length xs
unfolding value_in is_defined
filled_by [] xs d r h = let e = none_assigned xs h in omega arith
filled_by (l ∷ ls) xs (fresh, d) (b, r) h =
    let ys = set xs (var l) undef in
    let size = length-set xs (var l) undef in
    let now : get_or xs (var l) undef ≡ sign_val (is_pos l) =
      h (var l) b ∙ rw (==-refl (var l)) refl in
    let defined : is_defined (get_or xs (var l) undef) ≡ true = rw (now) (ground arith) in
    let w = undefs_write xs (var l) undef b in
    let w' = rw (defined) at w in
    let rest = filled_by ls ys d (rw (size) r) (λ v k. elim (ℕ_discrete (var l) v) [
      | yes p ↦
          ap (λ k. get_or ys k undef) (sym p)
          ∙ get_or-set_self xs (var l) undef undef b
          ∙ sym fresh
          ∙ ap (value_in ls) p
      | no ne ↦
          let f : (var l == v) ≡ false = ≢→== (var l) v ne in
          get_or-set_ne xs (var l) v undef undef ne ∙ h v (omega arith) ∙ rw (f) refl
    ]) in
    omega arith

-- The count of those without a value and those on the trail.
pub trail_filled : (t : Trail) → IsValid t → undefs t.assigns + length t.trail ≡ length t.assigns
trail_filled t v = filled_by t.trail t.assigns v.core.distinct v.core.in_range v.core.values
