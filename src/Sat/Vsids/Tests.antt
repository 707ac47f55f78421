-- ===== src/Sat/Vsids/Tests.antt =====
-- The heap of crates/smt-sat/src/vsids.rs on three variables, and its laws there.
use mathlib.Core.Option.{some-injective}
use smt_solver_rust.Common.{
  ℕ, zero, suc, ◌+◌, ◌*◌, ◌<◌, ◌≡◌, refl, sym, ap, true, false, some, [], ◌∷◌, ◌==◌, ltb, length,
  get_elem?, arith, ◌⊎◌, inl, inr,
}
use smt_solver_rust.Sat.Lit.{Var, undef, true_val}
use smt_solver_rust.Sat.Trail.{Trail, unit}
use smt_solver_rust.Sat.Float.{F64, FloatOps}
use smt_solver_rust.Sat.Vsids.{
  Vsids, absent, insert, bump_var, pop_max, select_decision_var, ensure_var, new, insert_range,
  sift_up, above, exchange,
}
use smt_solver_rust.Sat.Vsids.Indexed.{IsIndexed, Has}
use smt_solver_rust.Sat.Vsids.Bump.{IsBumped, bump_var-IsBumped}
use smt_solver_rust.Sat.Vsids.Insert.{insert-IsIndexed}
use smt_solver_rust.Sat.Vsids.Pop.{Popped, pop_max-Popped}
use smt_solver_rust.Sat.Vsids.Select.{Assigned, Chooses, select_decision_var-Chooses}

-- Numbers in place of `f64`.
abbrev pub numbers : FloatOps
numbers = record {
  zero_f = 0;
  one_f = 1;
  decay_f = 1;
  huge_f = 1000;
  tiny_f = 1;
  fast_f = 1;
  slow_f = 1;
  margin_f = 1;
  add_f = λ a b. a + b;
  sub_f = λ a b. a;
  mul_f = λ a b. a * b;
  div_f = λ a b. a;
  gt_f = λ a b. ltb b a;
  eq_f = λ a b. a == b;
  of_u32 = λ n. n;
}

-- x2 has the most activity and is at the root; x1 is not in the heap.
abbrev heap : Vsids
heap = record {
  activity = 1 ∷ (0 ∷ (3 ∷ []));
  var_inc = 5;
  var_decay = 1;
  heap = 2 ∷ (0 ∷ []);
  heap_pos = 1 ∷ (absent ∷ (0 ∷ []));
}

heap_placed :
    (i : ℕ) (v : Var) → get_elem? heap.heap i ≡ some v → get_elem? heap.heap_pos v ≡ some i
heap_placed zero v e = ap (get_elem? heap.heap_pos) (sym (some-injective _ _ e))
heap_placed (suc zero) v e = ap (get_elem? heap.heap_pos) (sym (some-injective _ _ e))
heap_placed (suc (suc i)) v e = absurd (cc)

heap_found :
    (v : Var) (p : ℕ)
    → get_elem? heap.heap_pos v ≡ some p
    → (p ≡ absent) ⊎ (get_elem? heap.heap p ≡ some v)
heap_found zero p e = inr (ap (get_elem? heap.heap) (sym (some-injective _ _ e)))
heap_found (suc zero) p e = inl (sym (some-injective _ _ e))
heap_found (suc (suc zero)) p e = inr (ap (get_elem? heap.heap) (sym (some-injective _ _ e)))
heap_found (suc (suc (suc v))) p e = absurd (cc)

heap-IsIndexed : IsIndexed 3 heap
heap-IsIndexed = record {
  activities = refl;
  positions = refl;
  placed = heap_placed;
  found = heap_found;
  filled = refl;
  small = omega arith;
}

-- x2 has a value, the others have none.
abbrev trail : Trail
trail = record {
  assigns = undef ∷ (undef ∷ (true_val ∷ []));
  var_data =
      record { level = 0; reason = unit }
      ∷ (record { level = 0; reason = unit } ∷ (record { level = 0; reason = unit } ∷ []));
  phase = false ∷ (false ∷ (false ∷ []));
  trail = 4 ∷ [];
  trail_lim = [];
  qhead = 0;
}

insert-IsIndexed_example :
    (t : Vsids) × (insert numbers 1 heap ≡ some t)
    × IsIndexed 3 t
    × (t.activity ≡ heap.activity)
    × Has t 1
    × ((t ≡ heap) ⊎ (length t.heap ≡ suc (length heap.heap)))
insert-IsIndexed_example = insert-IsIndexed numbers 3 heap 1 heap-IsIndexed (omega arith)

bump_var-IsBumped_example :
    (t : Vsids) × (a : F64) × (bump_var numbers 0 heap ≡ some t)
    × (get_elem? heap.activity 0 ≡ some a)
    × IsBumped numbers 3 0 a heap t
bump_var-IsBumped_example = bump_var-IsBumped numbers 3 0 heap heap-IsIndexed (omega arith)

pop_max-Popped_example : Popped 3 heap (pop_max numbers heap)
pop_max-Popped_example = pop_max-Popped numbers 3 heap heap-IsIndexed

select_decision_var-Chooses_example :
    Chooses 3 trail
      (select_decision_var numbers trail heap)
      ((w : Var) → w < 3 → Assigned trail true w)
select_decision_var-Chooses_example =
    select_decision_var-Chooses numbers 3 trail refl heap heap-IsIndexed

-- Three variables enter the heap in order.
three_variables :
    ensure_var numbers 3 (new numbers)
    ≡ some (record {
      activity = 0 ∷ (0 ∷ (0 ∷ []));
      var_inc = 1;
      var_decay = 1;
      heap = 0 ∷ (1 ∷ (2 ∷ []));
      heap_pos = 0 ∷ (1 ∷ (2 ∷ []));
    })
unfolding ensure_var new insert_range insert sift_up above exchange
three_variables = refl
