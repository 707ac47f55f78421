-- ===== src/Sat/Solver.antt =====
-- crates/smt-sat/src/solver.rs: the state of the CDCL solver and the operations that do not search.
-- `none` is a panic. The three fields that propagation works on are the record `Kernel`.
pub mod Bcp
pub mod Add
pub mod Analyze
pub mod Search
pub mod Position
pub mod Count
pub mod Note
pub mod Mark
pub mod Learn
pub mod Walk
pub mod Conflict
pub mod Rearrange
pub mod Assigned
pub mod Attached
pub mod Listed
pub mod Watched
pub mod Loop
pub mod Settle
pub mod Move
pub mod Inspect
pub mod Round
pub mod Propagate
pub mod Resolve
pub mod Filled
pub mod Backtrack
pub mod Tests
mod QueueTests
use smt_solver_rust.Common.{
  ℕ, suc, ◌+◌, ◌-◌, Bool, true, false, Option, none, some, List, [], ◌∷◌, ◌++◌, ltb, if◌then◌else◌,
  ◌>>=◌, length, get_or,
}
use smt_solver_rust.Sat.Lit.{Var, Lit, var, is_pos, LBool, undef, not_val}
use smt_solver_rust.Sat.Trail
use smt_solver_rust.Sat.Trail.{Trail, backtrack_to_with}
use smt_solver_rust.Sat.Clause
use smt_solver_rust.Sat.Clause.{ClauseArena}
use smt_solver_rust.Sat.Watch
use smt_solver_rust.Sat.Watch.{WatchList}
use smt_solver_rust.Sat.Float.{F64, FloatOps}
use smt_solver_rust.Sat.Vsids
use smt_solver_rust.Sat.Vsids.{Vsids}
use smt_solver_rust.Sat.Restart
use smt_solver_rust.Sat.Restart.{RestartStrategy}
use smt_solver_rust.Sat.Proof
use smt_solver_rust.Sat.Proof.{DratProof}

pub record SolverStats : Type 0 where
  pub decisions : ℕ
  pub propagations : ℕ
  pub conflicts : ℕ
  pub restarts : ℕ
  pub clauses_learned : ℕ
  pub clauses_deleted : ℕ

pub record Kernel : Type 0 where
  pub arena : ClauseArena F64
  pub watches : WatchList
  pub trail : Trail

pub record SatSolver : Type 0 where
  pub kernel : Kernel
  pub vsids : Vsids
  pub restarts : RestartStrategy
  pub proof : DratProof
  pub stats : SolverStats
  pub ok : Bool
  pub num_vars : ℕ
  pub max_learned : ℕ
  pub max_conflicts : Option ℕ
  pub max_propagations : Option ℕ
  -- The `clause_count` of each `Scope`.
  pub scopes : List ℕ
  pub model : List LBool

unfoldable pub model_value : SatSolver → Var → LBool
model_value s v = get_or s.model v undef

unfoldable pub model_lit : SatSolver → Lit → LBool
model_lit s l = let v = model_value s (var l) in if is_pos l then v else not_val v

unfoldable pub enable_drat : Bool → SatSolver → SatSolver
enable_drat enable s = record s { proof = Proof.new enable }

unfoldable pub push : SatSolver → SatSolver
push s = record s { scopes = s.scopes ++ length s.kernel.arena.clauses ∷ [] }

module _ (X : FloatOps) where
  unfoldable pub new : SatSolver
  new = record {
    kernel = record { arena = Clause.new; watches = Watch.new; trail = Trail.new };
    vsids = Vsids.new X;
    restarts = Restart.new X;
    proof = Proof.new false;
    stats = record {
      decisions = 0;
      propagations = 0;
      conflicts = 0;
      restarts = 0;
      clauses_learned = 0;
      clauses_deleted = 0;
    };
    ok = true;
    num_vars = 0;
    max_learned = 4000;
    max_conflicts = none;
    max_propagations = none;
    scopes = [];
    model = [];
  }

  unfoldable pub new_var : SatSolver → Option (SatSolver × Var)
  new_var s = do
    let n = s.num_vars + 1
    let k = s.kernel
    h ← Vsids.ensure_var X n s.vsids
    some (
      record s {
        num_vars = n;
        vsids = h;
        kernel = record k {
          watches = Watch.ensure_var n k.watches;
          trail = Trail.ensure_var n k.trail;
        };
      },
      s.num_vars,
    )

  -- The closure puts the variable back into the heap.
  unfoldable pub reinsert : Var → Option Vsids → Option Vsids
  reinsert v h = h >>= λ u. Vsids.insert X v u

  unfoldable pub backtrack_to : ℕ → SatSolver → Option SatSolver
  backtrack_to level s = do
    let k = s.kernel
    (t, h) ← backtrack_to_with reinsert level k.trail (some s.vsids)
    u ← h
    some (record s { kernel = record k { trail = t }; vsids = u })
