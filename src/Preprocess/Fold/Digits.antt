-- ===== src/Preprocess/Fold/Digits.antt =====
-- crates/smt-preprocess/src/constant_folding.rs: the arithmetic of the arms for bit-vectors beside
-- that of SMT-LIB.
use smt_solver_rust.Common.{
  ℕ, zero, suc, ◌+◌, ◌-◌, ◌*◌, ◌/◌, ◌%◌, ◌^◌, ◌≤◌, ◌<◌, ◌≡◌, refl, sym, ◌∙◌, ap, true, false, ◌==◌,
  ltb, leb, bit_and, bit_or, bit_xor, arith, bit_and-mask, lt→ltb, ltb→lt, ◌⊎◌, Bool-cases, inl,
  inr,
}
use smt_solver_rust.Common.BitBounds.{
  bit_and_below, bit_or_below, bit_xor_below, bit_xor-mask, bit_or-high, bit_or-low,
}
use native.Mathlib.Nat.{
  mod-mod, pow-le-pow_right, one-le-pow, mul-mod_left, pow-suc, div-le_self, mod-le, div-eq_of_lt,
  div-eq_of_lt-le, div-lt_iff_lt-mul, div-add-mod, mod-lt,
}
use smt_solver_rust.Core.Term.{mask}
use smt_solver_rust.Core.Meaning.{udiv, urem, ashr}
use smt_solver_rust.Preprocess.Fold.{udiv_at, urem_at, shift_at, shl_at, lshr_at, ashr_at}

-- Two descriptions of an operation agree on the operands of every allowed width.
abbrev pub Computes : (ℕ → ℕ → ℕ → ℕ) → (ℕ → ℕ → ℕ → ℕ) → Type 0
Computes f g = (w x y : ℕ) → 0 < w → w ≤ 65536 → x < 2 ^ w → y < 2 ^ w → f w x y % 2 ^ w ≡ g w x y

pub mask_eq : (w : ℕ) → 0 < w → mask w ≡ 2 ^ w - 1
mask_eq w h = rw (lt→ltb 0 w h)

pub bit_and-masked : (w v : ℕ) → 0 < w → bit_and v (mask w) ≡ v % 2 ^ w
bit_and-masked w v h = ap (bit_and v) (mask_eq w h) ∙ bit_and-mask w v

pub small : (w v : ℕ) → v < 2 ^ w → v % 2 ^ w ≡ v
small w v h = grind arith

pub twice : (w v : ℕ) → 0 < w → bit_and v (mask w) % 2 ^ w ≡ v % 2 ^ w
twice w v h = ap (λ t. t % 2 ^ w) (bit_and-masked w v h) ∙ mod-mod v (2 ^ w)

kept : (w v : ℕ) → 0 < w → v < 2 ^ w → bit_and v (mask w) % 2 ^ w ≡ v
kept w v h l = twice w v h ∙ small w v l

pub add-Computes : Computes (λ w x y. bit_and (x + y) (mask w)) (λ w x y. (x + y) % 2 ^ w)
add-Computes w x y h k p q = twice w (x + y) h

pub sub-Computes :
    Computes
      (λ w x y. bit_and (x + 2 ^ w - bit_and y (mask w)) (mask w))
      (λ w x y. (x + 2 ^ w - y) % 2 ^ w)
sub-Computes w x y h k p q =
    twice w (x + 2 ^ w - bit_and y (mask w)) h
    ∙ ap (λ t. (x + 2 ^ w - t) % 2 ^ w) (bit_and-masked w y h ∙ small w y q)

pub mul-Computes : Computes (λ w x y. bit_and (x * y) (mask w)) (λ w x y. x * y % 2 ^ w)
mul-Computes w x y h k p q = twice w (x * y) h

ones : (w : ℕ) → 0 < w → mask w % 2 ^ w ≡ 2 ^ w - 1
ones w h = ap (λ t. t % 2 ^ w) (mask_eq w h) ∙ small w (2 ^ w - 1) (omega (arith, one-le-pow w 2))

pub udiv-Computes : Computes udiv_at udiv
udiv-Computes w x zero h k p q = ones w h
udiv-Computes w x (suc y) h k p q = kept w (x / suc y) h (omega (arith, div-le_self x (suc y)))

pub urem-Computes : Computes urem_at urem
urem-Computes w x zero h k p q = small w x p
urem-Computes w x (suc y) h k p q = kept w (x % suc y) h (omega (arith, mod-le x (suc y)))

pub and-Computes : Computes (λ w x y. bit_and (bit_and x y) (mask w)) (λ w x y. bit_and x y)
and-Computes w x y h k p q = kept w (bit_and x y) h (bit_and_below w x y p q)

pub or-Computes : Computes (λ w x y. bit_and (bit_or x y) (mask w)) (λ w x y. bit_or x y)
or-Computes w x y h k p q = kept w (bit_or x y) h (bit_or_below w x y p q)

pub xor-Computes : Computes (λ w x y. bit_and (bit_xor x y) (mask w)) (λ w x y. bit_xor x y)
xor-Computes w x y h k p q = kept w (bit_xor x y) h (bit_xor_below w x y p q)

-- Where the shift is taken to be the width, both are at least the width.
shift_cases :
    (w y : ℕ)
    → w ≤ 65536
    → ((shift_at w y ≡ y) × (y < w)) ⊎ ((leb w (shift_at w y) ≡ true) × (w ≤ y))
shift_cases w y k = ground arith

pow_split : (y k : ℕ) → 2 ^ (y + k) ≡ 2 ^ y * 2 ^ k
pow_split zero k = grind arith
pow_split (suc y) k = grind (arith, pow_split y k, pow-suc 2 y, pow-suc 2 (y + k))

power_split : (w y : ℕ) → y ≤ w → 2 ^ w ≡ 2 ^ y * 2 ^ (w - y)
power_split w y h =
    ap (λ n. 2 ^ n) (let e : w ≡ y + (w - y) = omega arith in e) ∙ pow_split y (w - y)

whole : (a b : ℕ) → 0 < b → a * b % b ≡ 0
whole a b h = mul-mod_left a b

regroup : (x p q : ℕ) → x * (p * q) ≡ x * q * p
regroup x p q = grind arith

shifted_out : (w x y : ℕ) → w ≤ y → x * 2 ^ y % 2 ^ w ≡ 0
shifted_out w x y h =
    ap (λ t. x * t % 2 ^ w) (power_split y w h)
    ∙ ap (λ t. t % 2 ^ w) (regroup x (2 ^ w) (2 ^ (y - w)))
    ∙ mul-mod_left (x * 2 ^ (y - w)) (2 ^ w)

gone : (w x y : ℕ) → w ≤ y → x < 2 ^ w → x / 2 ^ y ≡ 0
gone w x y h l =
    div-eq_of_lt (let e : 2 ^ w ≤ 2 ^ y = pow-le-pow_right (omega arith) h in omega arith)

none_left : (w : ℕ) → 0 % 2 ^ w ≡ 0
none_left w = grind arith

lt→leb : (y w : ℕ) → y < w → leb w y ≡ false
lt→leb y w h = ground arith

pub shl-Computes : Computes shl_at (λ w x y. x * 2 ^ y % 2 ^ w)
shl-Computes w x y h k p q = elim (shift_cases w y k) [
  | inl (e, l) ↦ rw (e, lt→leb y w l) (twice w (x * 2 ^ y) h)
  | inr (e, l) ↦ rw (e) (none_left w ∙ sym (shifted_out w x y l))
]

pub lshr-Computes : Computes lshr_at (λ w x y. x / 2 ^ y)
lshr-Computes w x y h k p q = elim (shift_cases w y k) [
  | inl (e, l) ↦ rw (e, lt→leb y w l) (kept w (x / 2 ^ y) h (omega (arith, div-le_self x (2 ^ y))))
  | inr (e, l) ↦ rw (e) (none_left w ∙ sym (gone w x y l p))
]

expand : (P q k : ℕ) → P * (q + 1 + k) ≡ P * q + P + k * P
expand P q k = grind arith

-- Dividing the distance from the top, by a power that divides the whole.
quotient : (P Q x q r k : ℕ) → P * q + r ≡ x → r < P → Q ≡ q + 1 + k → (P * Q - 1 - x) / P ≡ k
quotient P Q x q r k e h f =
    let g : P * Q ≡ P * q + P + k * P = ap (λ t. P * t) f ∙ expand P q k in
    div-eq_of_lt-le P (omega (arith, g))
      (let d : (k + 1) * P ≡ k * P + P = grind arith in omega (arith, g))

complement : (P Q x : ℕ) → 0 < P → x < P * Q → (x / P < Q) × ((P * Q - 1 - x) / P ≡ Q - 1 - x / P)
complement P Q x h l =
    let b : x / P < Q =
      (div-lt_iff_lt-mul h).1 (let c : P * Q ≡ Q * P = grind arith in omega arith) in
    (b, quotient P Q x (x / P) (x % P) (Q - 1 - x / P) (div-add-mod x P) (mod-lt x h) (omega arith))

-- The sign that the source reads off the top bit.
top_bit :
    (w x : ℕ)
    → 0 < w
    → x < 2 ^ w
    → ((bit_and (x / 2 ^ (w - 1)) 1 == 1) ≡ false × (ltb x (2 ^ (w - 1)) ≡ true))
      ⊎ ((bit_and (x / 2 ^ (w - 1)) 1 == 1) ≡ true
          × (ltb x (2 ^ (w - 1)) ≡ false)
          × (2 ^ (w - 1) ≤ x))
top_bit w x h l = elim (Bool-cases (ltb x (2 ^ (w - 1)))) [
  | inl e ↦ inl (rw (div-eq_of_lt (ltb→lt x (2 ^ (w - 1)) e)) refl, e)
  | inr e ↦
      let le : 2 ^ (w - 1) ≤ x = ground arith in
      let half : 2 ^ w ≡ 2 ^ (w - 1) * 2 =
        power_split w (w - 1) (omega arith)
        ∙ ap (λ n. 2 ^ (w - 1) * 2 ^ n) (let n : w - (w - 1) ≡ 1 = omega arith in n) in
      let one : x / 2 ^ (w - 1) ≡ 1 = div-eq_of_lt-le (2 ^ (w - 1)) (omega arith) (omega arith) in
      inr (rw (one) refl, e, le)
]

-- The ones that fill the top, above what was shifted.
filled :
    (P Q d : ℕ)
    → 0 < P
    → d < Q
    → ((P - 1) * Q + d < P * Q) × ((P - 1) * Q + d ≡ P * Q - 1 - (Q - 1 - d))
filled zero Q d h l = absurd (omega arith)
filled (suc n) Q d h l =
    let e : suc n * Q ≡ (suc n - 1) * Q + Q = grind arith in (omega (arith, e), omega (arith, e))

negative :
    (w x y : ℕ)
    → 0 < w
    → x < 2 ^ w
    → y < w
    → bit_and (bit_or (bit_and (x / 2 ^ y) (mask w)) ((2 ^ y - 1) * 2 ^ (w - y))) (mask w) % 2 ^ w
      ≡ 2 ^ w - 1 - (2 ^ w - 1 - x) / 2 ^ y
negative w x y h l b =
    let P = 2 ^ y in
    let Q = 2 ^ (w - y) in
    let s : 2 ^ w ≡ P * Q = power_split w y (omega arith) in
    let one : 0 < P = one-le-pow y 2 (omega arith) in
    let (small_q, c) = complement P Q x one (omega (arith, s)) in
    let (below, sum) = filled P Q (x / P) one small_q in
    let r : bit_and (x / P) (mask w) ≡ x / P =
      bit_and-masked w (x / P) h ∙ small w (x / P) (omega (arith, div-le_self x P)) in
    ap (λ t. bit_and (bit_or t ((P - 1) * Q)) (mask w) % 2 ^ w) r
    ∙ ap (λ t. bit_and t (mask w) % 2 ^ w) (bit_or-low (w - y) (x / P) (P - 1) small_q)
    ∙ kept w ((P - 1) * Q + x / P) h (omega (arith, s))
    ∙ sum
    ∙ ap (λ t. P * Q - 1 - t) (sym c)
    ∙ ap (λ t. t - 1 - (t - 1 - x) / P) (sym s)

pub ashr-Computes : Computes ashr_at ashr
ashr-Computes w x y h k p q = elim (top_bit w x h p) [
  | inl (neg, t) ↦ elim (shift_cases w y k) [
    | inl (e, l) ↦
        rw (neg, t, e, lt→leb y w l) (kept w (x / 2 ^ y) h (omega (arith, div-le_self x (2 ^ y))))
    | inr (e, l) ↦ rw (neg, t, e) (none_left w ∙ sym (gone w x y l p))
  ]
  | inr (neg, t, le) ↦ elim (shift_cases w y k) [
    | inl (e, l) ↦ rw (neg, t, e, lt→leb y w l) (negative w x y h p l)
    | inr (e, l) ↦
        rw (neg, t, e)
          (let g = gone w (2 ^ w - 1 - x) y l (omega arith) in
            let o = ones w h in omega (arith, g, o))
  ]
]

-- The complement of a bit-vector, and one above another.
pub not-Computes : (w x : ℕ) → 0 < w → x < 2 ^ w → bit_xor (mask w) x % 2 ^ w ≡ 2 ^ w - 1 - x
not-Computes w x h l =
    ap (λ t. t % 2 ^ w) (ap (λ t. bit_xor t x) (mask_eq w h) ∙ bit_xor-mask w x l)
    ∙ small w (2 ^ w - 1 - x) (omega arith)

pub concat-Computes :
    (w u x y : ℕ)
    → 0 < w
    → 0 < u
    → x * 2 ^ u + y < 2 ^ (w + u)
    → y < 2 ^ u
    → bit_and (bit_or (x * 2 ^ u) y) (mask (w + u)) % 2 ^ (w + u) ≡ x * 2 ^ u + y
concat-Computes w u x y h k l b =
    ap (λ t. bit_and t (mask (w + u)) % 2 ^ (w + u)) (bit_or-high u y x b)
    ∙ kept (w + u) (x * 2 ^ u + y) (omega arith) l
