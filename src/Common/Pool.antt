-- ===== src/Common/Pool.antt =====
-- Hash-consing: a vector of items and a map from each item's key to its position.
use mathlib.Core.Path.{◌≡◌, sym, ap, ◌∙◌}
use mathlib.Core.Logic.{◌≢◌}
use mathlib.Core.Option.{none, some, some-injective}
use mathlib.Core.List.{List, [], ◌∷◌, ◌++◌}
use Prim.Native.Nat.{ℕ}
use native.Mathlib.Decide.{dec_lt}
use native.Mathlib.Omega.{arith}
use smt_solver_rust.Common.Lists.{
  length, get_elem?, get_elem?-append_old, get_elem?-append_new, get_elem?-lt, length-append,
}
use smt_solver_rust.Common.Dict.{get, insert, get-insert_self, get-insert_ne}

module _ {ℓ κ} {K : Type ℓ} {V : Type κ} (dec : Discrete K) (key : V → K) where
  -- The map finds an item with the key at each position that it gives, and it gives for each
  -- item's key that item's position: no key stands twice.
  pub record IsPool (items : List V) (lookup : List (K × ℕ)) : Type (ℓ ⊔ κ) where
    pub found :
        (k : K) (id : ℕ)
        → get dec k lookup ≡ some id
        → (v : V) × (get_elem? items id ≡ some v) × (key v ≡ k)
    pub listed : (id : ℕ) (v : V) → get_elem? items id ≡ some v → get dec (key v) lookup ≡ some id

  pub push-IsPool :
      (items : List V) (lookup : List (K × ℕ)) (v : V)
      → IsPool items lookup
      → get dec (key v) lookup ≡ none
      → IsPool (items ++ v ∷ []) (insert dec (key v) (length items) lookup)
  push-IsPool items lookup v pool fresh = record {
    found = λ k id e. elim (dec (key v) k) [
      | yes p ↦
          let at_end : length items ≡ id = some-injective _ _ (
            sym (get-insert_self dec (key v) (length items) lookup)
            ∙ ap (λ j. get dec j (insert dec (key v) (length items) lookup)) p
            ∙ e) in
          (v, ap (get_elem? (items ++ v ∷ [])) (sym at_end) ∙ get_elem?-append_new items v, p)
      | no p ↦
          let (w, at, same) =
            pool.found k id (sym (get-insert_ne dec (key v) k (length items) lookup p) ∙ e) in
          (w, get_elem?-append_old items (v ∷ []) id (get_elem?-lt items id at) ∙ at, same)
    ];
    listed = λ id w e. elim (dec_lt id (length items)) [
      | yes old ↦
          let at : get_elem? items id ≡ some w =
            sym (get_elem?-append_old items (v ∷ []) id old) ∙ e in
          let here = pool.listed id w at in
          let ne : key v ≢ key w = λ p.
            absurd
              (let bad : none ≡ some id = sym fresh ∙ ap (λ j. get dec j lookup) p ∙ here in cc) in
          get-insert_ne dec (key v) (key w) (length items) lookup ne ∙ here
      | no new ↦
          let at_end : id ≡ length items =
            omega (arith, get_elem?-lt (items ++ v ∷ []) id e, length-append items (v ∷ [])) in
          let same : v ≡ w = some-injective _ _ (
            sym (get_elem?-append_new items v)
            ∙ ap (get_elem? (items ++ v ∷ [])) (sym at_end)
            ∙ e) in
          ap (λ x. get dec (key x) (insert dec (key v) (length items) lookup)) (sym same)
          ∙ get-insert_self dec (key v) (length items) lookup
          ∙ ap some (sym at_end)
    ];
  }
