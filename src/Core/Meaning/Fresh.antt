-- ===== src/Core/Meaning/Fresh.antt =====
-- A model of the arena that `TermArena::new` makes (crates/smt-core/src/term.rs).
use mathlib.Core.Path.{subst}
use mathlib.Core.Option.{some-injective}
use smt_solver_rust.Common.{
  ℕ, zero, suc, ◌≡◌, refl, true, false, some, List, [], ◌∷◌, map, get_elem?,
}
use smt_solver_rust.Common.Dict.{get}
use smt_solver_rust.Core.Sort.{SortArena}
use smt_solver_rust.Core.Op.{Op, Op-discrete, true_op, false_op}
use smt_solver_rust.Core.Term.{TermId, TermData, Key-discrete, intern, new}
use smt_solver_rust.Core.Meaning.{RatioOps, Value, bool, denote}
use smt_solver_rust.Core.Meaning.Model.{Interp, IsModel}

unfoldable pub constants : Interp
constants zero = bool true
constants (suc _) = bool false

module _ (R : RatioOps) (Φ : Op → List Value → Value) where
  constant_values :
      (s : ℕ) (id : TermId) (u : TermData)
      → get_elem?
          (record { op = true_op; args = []; sort = s }
            ∷ (record { op = false_op; args = []; sort = s } ∷ []))
          id
        ≡ some u
      → denote R Φ u.op (map constants u.args) ≡ some (constants id)
  unfolding denote constants
  constant_values s zero u e =
      subst (λ (v : TermData). denote R Φ v.op (map constants v.args) ≡ some (bool true))
        (some-injective _ _ e) refl
  constant_values s (suc zero) u e =
      subst (λ (v : TermData). denote R Φ v.op (map constants v.args) ≡ some (bool false))
        (some-injective _ _ e) refl
  constant_values s (suc (suc id)) u e = absurd (cc)

  pub new-IsModel : (sorts : SortArena) → IsModel R Φ (new sorts) constants
  unfolding new intern Key-discrete Op-discrete get
  new-IsModel sorts id u e = constant_values sorts.bool_sort id u e
