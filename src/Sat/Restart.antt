-- ===== src/Sat/Restart.antt =====
-- crates/smt-sat/src/restart.rs: when the search starts again.
pub mod Luby
mod Tests
use smt_solver_rust.Common.{
  ℕ, zero, suc, ◌+◌, ◌-◌, ◌*◌, ◌/◌, ◌%◌, ◌^◌, Bool, true, false, ◌&&◌, Option, none, some, ◌==◌,
  leb, if◌then◌else◌, ◌>>=◌,
}
use smt_solver_rust.Sat.Float.{F64, FloatOps}

pub record RestartStrategy : Type 0 where
  pub fast_lbd : F64
  pub slow_lbd : F64
  pub conflicts_since_restart : ℕ
  pub min_conflicts : ℕ
  pub restart_count : ℕ
  pub luby_index : ℕ
  pub luby_unit : ℕ

-- The first loop of `luby`: the least 2 ^ k - 1 above `i`, in a `usize`, which wraps. Each round at
-- least doubles the size, until 2 ^ 64 - 1, from which the loop does not move.
unfoldable pub luby_size : ℕ → ℕ → ℕ → Option ℕ
luby_size zero i size = none
luby_size (suc fuel) i size = elim (leb size i) [
  | true ↦ luby_size fuel i ((2 * size + 1) % 2 ^ 64)
  | false ↦ some size
]

-- The second loop, which halves the size in each round.
unfoldable pub luby_seek : ℕ → ℕ → ℕ → Option ℕ
luby_seek zero i size = none
luby_seek (suc fuel) i size = elim (size - 1 == i) [
  | true ↦ some ((size + 1) / 2)
  | false ↦ let half = (size - 1) / 2 in luby_seek fuel (if leb half i then i - half else i) half
]

unfoldable pub luby : ℕ → Option ℕ
luby i = luby_size (i + 2) i 1 >>= λ size. luby_seek (size + 1) i size

unfoldable pub on_restart : RestartStrategy → RestartStrategy
on_restart s = record s { conflicts_since_restart = 0; restart_count = s.restart_count + 1 }

module _ (X : FloatOps) where
  open X use {zero_f, fast_f, slow_f, margin_f, add_f, sub_f, mul_f, gt_f, eq_f, of_u32}

  unfoldable pub new : RestartStrategy
  new = record {
    fast_lbd = zero_f;
    slow_lbd = zero_f;
    conflicts_since_restart = 0;
    min_conflicts = 50;
    restart_count = 0;
    luby_index = 1;
    luby_unit = 100;
  }

  unfoldable pub average : ℕ → RestartStrategy → RestartStrategy
  average lbd s =
      let x = of_u32 lbd in
      if eq_f s.fast_lbd zero_f then record s { fast_lbd = x; slow_lbd = x } else record s {
        fast_lbd = add_f s.fast_lbd (mul_f fast_f (sub_f x s.fast_lbd));
        slow_lbd = add_f s.slow_lbd (mul_f slow_f (sub_f x s.slow_lbd));
      }

  unfoldable pub record_conflict : ℕ → RestartStrategy → Option (RestartStrategy × Bool)
  record_conflict lbd s = do
    let a = average lbd s
    let t = record a { conflicts_since_restart = a.conflicts_since_restart + 1 }
    if leb t.min_conflicts t.conflicts_since_restart && gt_f t.fast_lbd (mul_f margin_f t.slow_lbd)
        then some (on_restart t, true)
        else (do
          k ← luby t.luby_index
          if leb (k * t.luby_unit) t.conflicts_since_restart
              then some (on_restart (record t { luby_index = t.luby_index + 1 }), true)
              else some (t, false))
