-- ===== src/Sat/Restart/Tests.antt =====
-- The first terms of crates/smt-sat/src/restart.rs's sequence.
use smt_solver_rust.Common.{◌≡◌, refl, some, arith}
use smt_solver_rust.Sat.Restart.{luby, luby_size, luby_seek}
use smt_solver_rust.Sat.Restart.Luby.{luby_term, luby-luby_term}

luby-luby_term_example : luby 5 ≡ some (luby_term 4 5)
luby-luby_term_example = luby-luby_term 5 4 (omega arith) (omega arith)

fifth : luby_term 4 5 ≡ 2
unfolding luby_term
fifth = refl

-- The index that the strategy starts with is one, so the first term it uses is the second.
started : luby 1 ≡ some 1
unfolding luby luby_size luby_seek
started = refl
