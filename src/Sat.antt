-- ===== src/Sat.antt =====
-- crates/smt-sat: literals, the trail, clauses, watch lists and the DRAT checker.
pub mod Lit
pub mod Models
pub mod Drat
pub mod Trail
pub mod Watch
pub mod Clause
pub mod Float
pub mod Vsids
pub mod Restart
pub mod Proof
pub mod Solver
mod Tests
