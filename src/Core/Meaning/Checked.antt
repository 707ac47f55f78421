-- ===== src/Core/Meaning/Checked.antt =====
-- crates/smt-core/src/term.rs: the constructors for slices and concatenations of bit-vectors.
use smt_solver_rust.Common.{
  ℕ, zero, suc, ◌+◌, ◌-◌, ◌*◌, ◌/◌, ◌%◌, ◌^◌, ◌≤◌, ◌<◌, ◌≡◌, true, false, ◌&&◌, ◌||◌, some, List,
  [], ◌∷◌, ltb, leb, length, arith, Bool-cases, ◌⊎◌, inl, inr,
}
use native.Mathlib.Nat.{mul-le-mul_right, pow-suc}
use smt_solver_rust.Core.Sort
use smt_solver_rust.Core.Sort.{SortId, SortArena, get_sort, bv, bit_vec}
use smt_solver_rust.Core.Op.{Op, bv_extract, bv_concat}
use smt_solver_rust.Core.Term.{TermId, TermArena, intern, sort_of}
use smt_solver_rust.Core.Term.Pool.{IsArena}
use smt_solver_rust.Core.Term.Result.{Outcome, panics, type_error, done, extract_term, concat_term}
use smt_solver_rust.Core.Meaning.{RatioOps, Value, bits, fits, denote}
use smt_solver_rust.Core.Meaning.Model.{Interp, IsModel, Yields, intern-Yields}

pow_split : (y k : ℕ) → 2 ^ (y + k) ≡ 2 ^ y * 2 ^ k
pow_split zero k = grind arith
pow_split (suc y) k = grind (arith, pow_split y k, pow-suc 2 y, pow-suc 2 (y + k))

next_row : (p m : ℕ) → suc p * m ≡ p * m + m
next_row p m = grind arith

-- Low digits under high ones fit the sum of the widths.
fits-concat :
    (u v p q : ℕ)
    → 0 < u + v
    → u + v ≤ 65536
    → p < 2 ^ u
    → q < 2 ^ v
    → fits (p * 2 ^ v + q) (u + v) ≡ true
fits-concat u v p q h k b b' =
    let split : 2 ^ (u + v) ≡ 2 ^ u * 2 ^ v = pow_split u v in
    let room : suc p * 2 ^ v ≤ 2 ^ u * 2 ^ v = mul-le-mul_right (2 ^ v) b in
    let next : suc p * 2 ^ v ≡ p * 2 ^ v + 2 ^ v = next_row p (2 ^ v) in
    let below : p * 2 ^ v + q < 2 ^ (u + v) = omega arith in ground arith

-- The outcome is a term that yields the value.
abbrev pub Makes :
    (R : RatioOps) → (Op → List Value → Value) → TermArena → Interp → Value → Outcome → Type 0
Makes R Φ a I v o =
    (s : SortArena) × (b : TermArena) × (id : TermId) × (o ≡ done s b id) × Yields R Φ a I v (b, id)

module _ (R : RatioOps) (Φ : Op → List Value → Value) (a : TermArena) (I : Interp) (w : IsArena a)
    (m : IsModel R Φ a I) (sorts : SortArena) where
  bv_allowed : (n : ℕ) → 0 < n → n ≤ 65536 → bv n sorts ≡ some (Sort.intern (bit_vec n) sorts)
  unfolding bv
  bv_allowed n h k = let ok : (ltb 0 n && leb n 65536) ≡ true = ground arith in rw (bv, ok)

  -- A slice of a term that has a bit-vector's sort and value: bounds within the width give a term
  -- of the value's slice, and all others a type error.
  pub extract_term-Makes :
      (high low : ℕ) (arg : TermId) (s : SortId) (u x : ℕ)
      → arg < length a.terms
      → sort_of a arg ≡ some s
      → get_sort sorts s ≡ some (bit_vec u)
      → u ≤ 65536
      → I arg ≡ bits x u
      → ((low ≤ high)
          × (high < u)
          × Makes R Φ a I
              (bits (x / 2 ^ low % 2 ^ (high - low + 1)) (high - low + 1))
              (extract_term high low arg sorts a))
        ⊎ (((u ≤ high) ⊎ (high < low))
            × (extract_term high low arg sorts a ≡ type_error "bv_extract bounds"))
  unfolding extract_term denote
  extract_term-Makes high low arg s u x h e g k v = elim (Bool-cases (leb u high || ltb high low)) [
    | inl p ↦ inr (ground arith, rw (extract_term, e, g, p))
    | inr p ↦
        let order : (low ≤ high) × (high < u) = ground arith in
        let n = high - low + 1 in
        let fit : (leb low high && ltb high u) ≡ true = ground arith in
        let (t, sort) = Sort.intern (bit_vec n) sorts in
        let r = intern (bv_extract high low) (arg ∷ []) sort a in
        inl (
          order.0,
          order.1,
          (
            t,
            r.0,
            r.1,
            rw (extract_term, e, g, p, bv_allowed n (omega arith) (omega arith)),
            intern-Yields R Φ (bv_extract high low) (arg ∷ []) sort a I
                (bits (x / 2 ^ low % 2 ^ n) n) w m (h, tt) (rw (v, fit)),
          ),
        )
  ]

  -- A concatenation of two terms that have the sorts and the values of bit-vectors: a width that
  -- the sorts allow gives a term of the value of the concatenation, and a greater one panics.
  pub concat_term-Makes :
      (x y : TermId) (s t : SortId) (u v p q : ℕ)
      → x < length a.terms
      → y < length a.terms
      → (sort_of a x ≡ some s) × (get_sort sorts s ≡ some (bit_vec u)) × (I x ≡ bits p u)
      → (sort_of a y ≡ some t) × (get_sort sorts t ≡ some (bit_vec v)) × (I y ≡ bits q v)
      → (0 < u) × (p < 2 ^ u) × (q < 2 ^ v)
      → ((u + v ≤ 65536) × Makes R Φ a I (bits (p * 2 ^ v + q) (u + v)) (concat_term x y sorts a))
        ⊎ ((65536 < u + v) × (concat_term x y sorts a ≡ panics))
  unfolding concat_term denote bv
  concat_term-Makes x y s t u v p q hx hy (e, g, k) (e', g', k') (pos, b, b') =
      elim (Bool-cases (leb (u + v) 65536)) [
        | inl l ↦
            let low : u + v ≤ 65536 = ground arith in
            let fit : fits (p * 2 ^ v + q) (u + v) ≡ true =
              fits-concat u v p q (omega arith) low b b' in
            let (sorts', sort) = Sort.intern (bit_vec (u + v)) sorts in
            let r = intern bv_concat (x ∷ (y ∷ [])) sort a in
            inl (
              low,
              (
                sorts',
                r.0,
                r.1,
                rw (concat_term, e, g, e', g', bv_allowed (u + v) (omega arith) low),
                intern-Yields R Φ bv_concat (x ∷ (y ∷ [])) sort a I (bits (p * 2 ^ v + q) (u + v)) w
                    m (hx, (hy, tt)) (rw (k, k', fit)),
              ),
            )
        | inr l ↦
            let refused : (ltb 0 (u + v) && leb (u + v) 65536) ≡ false = ground arith in
            inr (ground arith, rw (concat_term, e, g, e', g', bv, refused))
      ]
