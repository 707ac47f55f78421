-- ===== src/Lib.antt =====
-- A model of SMT-Solver-Rust, a solver for quantifier-free formulas over Booleans, bit-vectors,
-- arithmetic, arrays and uninterpreted functions.
--
-- The program is a workspace of crates. smt-core keeps sorts and terms in hash-consing arenas,
-- smt-preprocess rewrites terms before they are translated to clauses, smt-sat decides clauses and
-- checks refutations, smt-theories and smt-solver stand around it, and smt-parser, smt-api and
-- smt-cli in front. Modelled are:
--   * Core.Sort: crates/smt-core/src/sort.rs, the arena of sorts.
--   * Core.Op, Core.Term: crates/smt-core/src/term.rs, the operators, the arena of terms and its
--     constructors, of which Core.Term.Result has those that can return an error. Core.Meaning is no
--     code: it gives the value of an application at the arities that it lists (comparisons,
--     equations, `xor`, implications and binary bit-vector operators at two arguments only), none
--     to an ill-typed application, a chained comparison and the like, and says what a model of an
--     arena is: an arena with an application that has no value has no model.
--   * Preprocess.Fold: crates/smt-preprocess/src/constant_folding.rs, the constant folder, with one
--     definition for each kind of arm in the `match` of `fold_term`. Digits has the arithmetic of
--     the arms for bit-vectors, and the modules whose names end in Arms one lemma per arm.
--   * Sat.Lit: crates/smt-sat/src/lit.rs, literals and their DIMACS integers.
--   * Sat.Trail: crates/smt-sat/src/trail.rs, the assignment trail.
--   * Sat.Clause, Sat.Watch: crates/smt-sat/src/clause.rs and crates/smt-sat/src/watch.rs, the arena
--     of clauses and the watch lists.
--   * Sat.Vsids, Sat.Restart: crates/smt-sat/src/vsids.rs and crates/smt-sat/src/restart.rs, the
--     choice of the variable to decide and of the moment to restart. Sat.Float has the operations on
--     `f64`, which are a parameter without laws.
--   * Sat.Solver: crates/smt-sat/src/solver.rs and crates/smt-sat/src/theory.rs, the CDCL solver.
--     The root has its state, Add the clauses that are added, Bcp unit propagation, Analyze the
--     analysis of conflicts and the eviction of learned clauses, and Search the search with a
--     theory, which is an implementation of the trait. Position, Count, Note, Mark, Learn, Walk
--     and Conflict are about the analysis, and Rearrange, Assigned, Listed, Watched, Attached, Loop,
--     Settle, Move, Inspect, Round and Propagate about propagation: Watched says what a watcher that
--     is listed stands for, Attached which clauses have their watchers. Resolve puts the two
--     together, and Filled and Backtrack are about going back to a level.
--   * Sat.Proof: crates/smt-sat/src/drat.rs, the writer of certificates.
--   * Sat.Drat: crates/smt-sat/src/drat_checker.rs, the checker of DRAT certificates. Sat.Models
--     says what the models of a set of clauses are.
-- Common has the shared types and lemmas: lists, bits, association lists, pools.
--
-- A `Vec` is a list in index order, a `HashMap` an association list or a function, and `BigUint`
-- and `BigInt` are numbers and integers. An operation that mutates returns the new state; a panic
-- is `none` (or `panics` for an arm of the folder). Identifiers are numbers without the bound of
-- `u32`, which an arena that fits in memory stays below; literals keep their 32 bits. The
-- arithmetic on literals and the sizes of `luby` wrap, as in the release profile of Cargo.toml,
-- which has no overflow checks; statistics are counted without bound. The rationals of
-- num_rational are a parameter of the folder, `RatioOps`, whose one law says that a number equals
-- itself.
--
-- Fuel. `propagate` of the checker has one round more than there are literals in the clauses, each
-- round that continues assigning one more variable. `fold_term` has fuel for the depth of the
-- term, and more than the term's identifier is enough, since arguments have smaller identifiers;
-- the budget of 100000 steps is the code's own. The sifts of the heap have fuel for the heap's length,
-- `bcp` for the number of variables, since each round takes a literal off the trail, and `luby` for
-- its index. `solve` takes its fuel as an argument, one unit for each round of its loop.
--
-- Not modelled: Tseitin translation and rewriting; the crates smt-mba, smt-theories, smt-parser and
-- smt-solver; and text for people, input and output, and bindings.
pub mod Common
pub mod Core
pub mod Sat
pub mod Preprocess
