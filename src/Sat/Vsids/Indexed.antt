-- ===== src/Sat/Vsids/Indexed.antt =====
-- crates/smt-sat/src/vsids.rs: the index of the heap by variable, and the sift towards the root.
use mathlib.Core.Path.{subst}
use mathlib.Core.Option.{some-injective}
use smt_solver_rust.Common.{
  ℕ, zero, suc, ◌+◌, ◌≤◌, ◌<◌, ◌≡◌, ◌≢◌, refl, sym, ap, ◌∙◌, false, some, List, [], ◌∷◌, ◌==◌,
  if◌then◌else◌, length, get_elem?, set, put, arith, ◌⊎◌, inl, inr, get_elem?-lt,
  get_elem?-set_self, get_elem?-set_ne, length-set, lt→ltb, ≢→==,
}
use native.Mathlib.Decide.{ℕ_discrete}
use smt_solver_rust.Sat.Lit.{Var}
use smt_solver_rust.Sat.Vsids.{Vsids, absent, exchange}

-- How many variables have a position.
abbrev pub present : List ℕ → ℕ
present [] = 0
present (p ∷ ps) = (if p == absent then 0 else 1) + present ps

-- For `n` variables, `heap` and `heap_pos` are inverse to each other.
pub record IsIndexed (n : ℕ) (s : Vsids) : Type 0 where
  pub activities : length s.activity ≡ n
  pub positions : length s.heap_pos ≡ n
  pub placed : (i : ℕ) (v : Var) → get_elem? s.heap i ≡ some v → get_elem? s.heap_pos v ≡ some i
  pub found :
      (v : Var) (p : ℕ)
      → get_elem? s.heap_pos v ≡ some p
      → (p ≡ absent) ⊎ (get_elem? s.heap p ≡ some v)
  pub filled : present s.heap_pos ≡ length s.heap
  pub small : n ≤ absent

-- The variable is in the heap.
abbrev pub Has : Vsids → Var → Type 0
Has s v = (i : ℕ) × (get_elem? s.heap i ≡ some v)

pub present-le : (ps : List ℕ) → present ps ≤ length ps
present-le [] = omega arith
present-le (p ∷ ps) = ground (arith, present-le ps)

-- What a position that is written adds, and what the one before took.
pub present-set :
    (ps : List ℕ) (i p q : ℕ)
    → get_elem? ps i ≡ some p
    → present (set ps i q) + (if p == absent then 0 else 1)
      ≡ present ps + (if q == absent then 0 else 1)
present-set [] i p q e = absurd (cc)
present-set (x ∷ ps) zero p q e = let h : x ≡ p = some-injective _ _ e in rw (h) (omega arith)
present-set (x ∷ ps) (suc i) p q e = omega (arith, present-set ps i p q e)

pub put-set {ℓ} :
    {A : Type ℓ} → (xs : List A) (i : ℕ) (x : A) → i < length xs → put xs i x ≡ some (set xs i x)
put-set xs i x h = rw (lt→ltb i (length xs) h) refl

module _ (n : ℕ) (s : Vsids) (k : IsIndexed n s) where
  pub heap-le : length s.heap ≤ n
  heap-le = omega (arith, k.filled, k.positions, present-le s.heap_pos)

  pub var-lt : (i : ℕ) (v : Var) → get_elem? s.heap i ≡ some v → v < n
  var-lt i v e =
      let h = get_elem?-lt s.heap_pos v (k.placed i v e) in let m = k.positions in omega arith

  pub not_absent : (i : ℕ) → i < length s.heap → (i == absent) ≡ false
  not_absent i h = ≢→== i absent (λ e.
      let l = heap-le in
      let m = k.small in
      let z : absent < absent = subst (λ j. j < absent) e (omega arith) in absurd (omega arith))

  pub same_position :
      (i j : ℕ) (v : Var) → get_elem? s.heap i ≡ some v → get_elem? s.heap j ≡ some v → i ≡ j
  same_position i j v e f = some-injective _ _ (sym (k.placed i v e) ∙ k.placed j v f)

module _ (n : ℕ) (s : Vsids) (k : IsIndexed n s) (i j : ℕ) (x y : Var) (ne : i ≢ j)
    (at : get_elem? s.heap i ≡ some x) (other : get_elem? s.heap j ≡ some y) where
  abbrev swapped : Vsids
  swapped = record s { heap = set (set s.heap i y) j x; heap_pos = set (set s.heap_pos x j) y i }

  distinct : x ≢ y
  distinct e = ne (same_position n s k i j x at (other ∙ ap some (sym e)))

  before-y : get_elem? (set s.heap_pos x j) y ≡ some j
  before-y = get_elem?-set_ne s.heap_pos x y j distinct ∙ k.placed j y other

  pos-y : get_elem? swapped.heap_pos y ≡ some i
  pos-y = get_elem?-set_self (set s.heap_pos x j) y i (get_elem?-lt (set s.heap_pos x j) y before-y)

  pos-x : get_elem? swapped.heap_pos x ≡ some j
  pos-x =
      get_elem?-set_ne (set s.heap_pos x j) y x i (λ e. distinct (sym e))
      ∙ get_elem?-set_self s.heap_pos x j (get_elem?-lt s.heap_pos x (k.placed i x at))

  pos-ne : (v : Var) → x ≢ v → y ≢ v → get_elem? swapped.heap_pos v ≡ get_elem? s.heap_pos v
  pos-ne v p q = get_elem?-set_ne (set s.heap_pos x j) y v i q ∙ get_elem?-set_ne s.heap_pos x v j p

  heap-j : get_elem? swapped.heap j ≡ some x
  heap-j =
      get_elem?-set_self (set s.heap i y) j x
        (omega (arith, length-set s.heap i y, get_elem?-lt s.heap j other))

  heap-i : get_elem? swapped.heap i ≡ some y
  heap-i =
      get_elem?-set_ne (set s.heap i y) j i x (λ e. ne (sym e))
      ∙ get_elem?-set_self s.heap i y (get_elem?-lt s.heap i at)

  heap-ne : (p : ℕ) → i ≢ p → j ≢ p → get_elem? swapped.heap p ≡ get_elem? s.heap p
  heap-ne p a b = get_elem?-set_ne (set s.heap i y) j p x b ∙ get_elem?-set_ne s.heap i p y a

  swapped-placed :
      (p : ℕ) (v : Var) → get_elem? swapped.heap p ≡ some v → get_elem? swapped.heap_pos v ≡ some p
  swapped-placed p v e = elim (ℕ_discrete j p) [
    | yes a ↦
        let q : x ≡ v = some-injective _ _ (sym heap-j ∙ ap (get_elem? swapped.heap) a ∙ e) in
        ap (get_elem? swapped.heap_pos) (sym q) ∙ pos-x ∙ ap some a
    | no a ↦ elim (ℕ_discrete i p) [
      | yes b ↦
          let q : y ≡ v = some-injective _ _ (sym heap-i ∙ ap (get_elem? swapped.heap) b ∙ e) in
          ap (get_elem? swapped.heap_pos) (sym q) ∙ pos-y ∙ ap some b
      | no b ↦
          let old = sym (heap-ne p b a) ∙ e in
          pos-ne v (λ q. b (same_position n s k i p x at (old ∙ ap some (sym q))))
            (λ q. a (same_position n s k j p y other (old ∙ ap some (sym q))))
          ∙ k.placed p v old
    ]
  ]

  swapped-found :
      (v : Var) (p : ℕ)
      → get_elem? swapped.heap_pos v ≡ some p
      → (p ≡ absent) ⊎ (get_elem? swapped.heap p ≡ some v)
  swapped-found v p e = elim (ℕ_discrete y v) [
    | yes a ↦
        let q : i ≡ p = some-injective _ _ (sym pos-y ∙ ap (get_elem? swapped.heap_pos) a ∙ e) in
        inr (ap (get_elem? swapped.heap) (sym q) ∙ heap-i ∙ ap some a)
    | no a ↦ elim (ℕ_discrete x v) [
      | yes b ↦
          let q : j ≡ p = some-injective _ _ (sym pos-x ∙ ap (get_elem? swapped.heap_pos) b ∙ e) in
          inr (ap (get_elem? swapped.heap) (sym q) ∙ heap-j ∙ ap some b)
      | no b ↦ elim (k.found v p (sym (pos-ne v b a) ∙ e)) [
        | inl gone ↦ inl gone
        | inr here ↦ inr (
            heap-ne p (λ c. b (some-injective _ _ (sym at ∙ ap (get_elem? s.heap) c ∙ here)))
              (λ c. a (some-injective _ _ (sym other ∙ ap (get_elem? s.heap) c ∙ here)))
            ∙ here)
      ]
    ]
  ]

  swapped-filled : present swapped.heap_pos ≡ length swapped.heap
  swapped-filled =
      let lx = get_elem?-lt s.heap i at in
      let ly = get_elem?-lt s.heap j other in
      let a = present-set s.heap_pos x i j (k.placed i x at) in
      let b = present-set (set s.heap_pos x j) y j i before-y in
      let a' = rw (not_absent n s k i lx, not_absent n s k j ly) at a in
      let b' = rw (not_absent n s k i lx, not_absent n s k j ly) at b in
      let l = length-set (set s.heap i y) j x in
      let l' = length-set s.heap i y in omega (arith, k.filled)

  swapped-Has : (v : Var) → Has s v → Has swapped v
  swapped-Has v (p, e) = elim (ℕ_discrete i p) [
    | yes q ↦ (j, heap-j ∙ sym at ∙ ap (get_elem? s.heap) q ∙ e)
    | no a ↦ elim (ℕ_discrete j p) [
      | yes q ↦ (i, heap-i ∙ sym other ∙ ap (get_elem? s.heap) q ∙ e)
      | no b ↦ (p, heap-ne p a b ∙ e)
    ]
  ]

  -- Exchanging two positions returns, and keeps the index and the variables of the heap.
  pub exchange-IsIndexed :
      (t : Vsids) × (exchange i j s ≡ some t)
      × IsIndexed n t
      × (length t.heap ≡ length s.heap)
      × (t.activity ≡ s.activity)
      × ((v : Var) → Has s v → Has t v)
      × (t.var_inc ≡ s.var_inc)
  unfolding exchange
  exchange-IsIndexed = (
    swapped,
    rw
        (
          at,
          other,
          put-set s.heap_pos x j (get_elem?-lt s.heap_pos x (k.placed i x at)),
          put-set (set s.heap_pos x j) y i (get_elem?-lt (set s.heap_pos x j) y before-y),
        )
        refl,
    record {
      activities = k.activities;
      positions = length-set (set s.heap_pos x j) y i ∙ length-set s.heap_pos x j ∙ k.positions;
      placed = swapped-placed;
      found = swapped-found;
      filled = swapped-filled;
      small = k.small;
    },
    length-set (set s.heap i y) j x ∙ length-set s.heap i y,
    refl,
    swapped-Has,
    refl,
  )
