-- ===== src/Sat/Trail.antt =====
-- crates/smt-sat/src/trail.rs: the assignment trail. A `Vec` is a list in index order; a method
-- that mutates returns the new trail; `none` is a panic, an index out of range or the assertion
-- of `assign`.
pub mod View
pub mod Valid
pub mod Backtrack
mod Tests
use smt_solver_rust.Common.{
  ℕ, zero, suc, ◌+◌, ◌-◌, Bool, true, false, Option, none, some, List, [], ◌∷◌, ◌++◌, ◌==◌, ltb,
  if◌then◌else◌, ◌>>=◌, length, get_elem?, set, put, take, replicate,
}
use smt_solver_rust.Sat.Lit.{
  Var, Lit, var, is_pos, is_neg, LBool, undef, true_val, false_val, is_defined, not_val,
}

abbrev pub ClauseId : Type 0
ClauseId = ℕ

pub data Reason : Type 0 where
  decision unit : Reason
  clause : ClauseId → Reason
  theory : ℕ → Reason

pub record VarData : Type 0 where
  pub level : ℕ
  pub reason : Reason

pub record Trail : Type 0 where
  pub assigns : List LBool
  pub var_data : List VarData
  pub phase : List Bool
  pub trail : List Lit
  pub trail_lim : List ℕ
  pub qhead : ℕ

unfoldable pub new : Trail
new = record { assigns = []; var_data = []; phase = []; trail = []; trail_lim = []; qhead = 0 }

-- `Vec::resize` to a length that is no smaller.
abbrev pub grow {ℓ} : {A : Type ℓ} → ℕ → A → List A → List A
grow n a xs = xs ++ replicate (n - length xs) a

unfoldable pub ensure_var : ℕ → Trail → Trail
ensure_var var_count t =
    if ltb (length t.assigns) var_count
    then record t {
      assigns = grow var_count undef t.assigns;
      var_data = grow var_count (record { level = 0; reason = unit }) t.var_data;
      phase = grow var_count false t.phase;
    }
    else t

unfoldable pub decision_level : Trail → ℕ
decision_level t = length t.trail_lim

unfoldable pub var_value : Trail → Var → Option LBool
var_value t v = get_elem? t.assigns v

unfoldable pub is_assigned : Trail → Var → Option Bool
is_assigned t v = do x ← var_value t v; some (is_defined x)

unfoldable pub lit_value : Trail → Lit → Option LBool
lit_value t l = do x ← var_value t (var l); some (if is_pos l then x else not_val x)

unfoldable pub level_of : Trail → Var → Option ℕ
level_of t v = do d ← get_elem? t.var_data v; some d.level

unfoldable pub reason_of : Trail → Var → Option Reason
reason_of t v = do d ← get_elem? t.var_data v; some d.reason

unfoldable pub saved_phase : Trail → Var → Option Bool
saved_phase t v = get_elem? t.phase v

unfoldable pub new_decision_level : Trail → Trail
new_decision_level t = record t { trail_lim = t.trail_lim ++ length t.trail ∷ [] }

-- What `assign` leaves where its writes are in range and the variable is unassigned.
abbrev pub assigned : Trail → Lit → Reason → Trail
assigned t l r = record t {
  assigns = set t.assigns (var l) (if is_pos l then true_val else false_val);
  phase = set t.phase (var l) (is_neg l);
  var_data = set t.var_data (var l) (record { level = decision_level t; reason = r });
  trail = t.trail ++ l ∷ [];
}

abbrev pub assign_if : LBool → Trail → Option Trail
assign_if undef t = some t
assign_if _ t = none

unfoldable pub assign : Lit → Reason → Trail → Option Trail
assign l r t = do
  x ← get_elem? t.assigns (var l)
  u ← assign_if x (assigned t l r)
  phase ← put t.phase (var l) (is_neg l)
  var_data ← put t.var_data (var l) (record { level = decision_level t; reason = r })
  some (record u { phase = phase; var_data = var_data })

-- The `while` loop of `backtrack_to_with`, with its rounds left: pop a literal, clear its
-- variable, and hand that to `on_unassign`.
unfoldable pub unwind {ℓ} : {S : Type ℓ} → (Var → S → S) → ℕ → Trail → S → Option (Trail × S)
unwind on_unassign zero t s = some (t, s)
unwind on_unassign (suc rounds) t s = do
  let last = length t.trail - 1
  l ← get_elem? t.trail last
  assigns ← put t.assigns (var l) undef
  let u = record t { assigns = assigns; trail = take last t.trail }
  unwind on_unassign rounds u (on_unassign (var l) s)

-- `on_unassign` is a closure over a state of type `S`.
unfoldable pub backtrack_to_with {ℓ} :
    {S : Type ℓ} → (Var → S → S) → ℕ → Trail → S → Option (Trail × S)
backtrack_to_with on_unassign level t s =
    if ltb level (decision_level t)
    then (do
      target_len ← get_elem? t.trail_lim level
      (u, s') ← unwind on_unassign (length t.trail - target_len) t s
      some (record u { qhead = target_len; trail_lim = take level u.trail_lim }, s'))
    else some (t, s)

unfoldable pub backtrack_to : ℕ → Trail → Option Trail
backtrack_to level t = do (u, _) ← backtrack_to_with (λ _ (s : Unit {0}). s) level t tt; some u

-- The trail after the call, and the literal.
unfoldable pub next_unpropagated : Trail → Trail × Option Lit
next_unpropagated t =
    if ltb t.qhead (length t.trail)
    then (record t { qhead = t.qhead + 1 }, get_elem? t.trail t.qhead)
    else (t, none)

unfoldable pub has_unpropagated : Trail → Bool
has_unpropagated t = ltb t.qhead (length t.trail)
