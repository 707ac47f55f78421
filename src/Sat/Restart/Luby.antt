-- ===== src/Sat/Restart/Luby.antt =====
-- crates/smt-sat/src/restart.rs: `luby` beside the recursion of the sequence, counted from zero.
use native.Mathlib.Decide.{ℕ_discrete}
use smt_solver_rust.Common.{
  ℕ, zero, suc, ◌+◌, ◌-◌, ◌*◌, ◌/◌, ◌%◌, ◌^◌, ◌≤◌, ◌<◌, ◌≡◌, refl, sym, ap, ◌∙◌, true, false, some,
  ◌==◌, leb, if◌then◌else◌, arith, Bool-cases, inl, inr, ≢→==, ==-refl,
}
use smt_solver_rust.Sat.Restart.{luby_size, luby_seek, luby}

-- 2 ^ k - 1, the length of the k-th beginning of the sequence.
abbrev pub ones : ℕ → ℕ
ones zero = 0
ones (suc k) = 2 * ones k + 1

-- A beginning of the sequence is the one before twice, and a power of two at the end.
unfoldable pub luby_term : ℕ → ℕ → ℕ
luby_term zero i = 0
luby_term (suc k) i =
    if i == 2 * ones k then ones k + 1 else luby_term k (if leb (ones k) i then i - ones k else i)

le-ones : (k : ℕ) → k ≤ ones k
le-ones zero = omega arith
le-ones (suc k) = omega (arith, le-ones k)

ones_mono : (m k : ℕ) → k ≤ m → ones k ≤ ones m
ones_mono zero zero h = omega arith
ones_mono zero (suc k) h = absurd (omega arith)
ones_mono (suc m) zero h = omega arith
ones_mono (suc m) (suc k) h = omega (arith, ones_mono m k (omega arith))

-- A size that is not above an index below the greatest `usize` can be doubled.
doubled : (k i : ℕ) → ones k ≤ i → i < 2 ^ 64 - 1 → (2 * ones k + 1) % 2 ^ 64 ≡ 2 * ones k + 1
doubled k i h l =
    let top : ones 64 ≡ 2 ^ 64 - 1 = refl in
    let below : ones 63 ≡ 2 ^ 63 - 1 = refl in
    let small : k ≤ 63 = elim (Bool-cases (leb 64 k)) [
      | inl p ↦ let m = ones_mono k 64 (ground arith) in absurd (omega arith)
      | inr p ↦ ground arith
    ] in
    let m = ones_mono 63 k small in omega arith

luby_size_returns :
    (fuel i k : ℕ)
    → i < 2 ^ 64 - 1
    → i + 2 ≤ fuel + ones k
    → 0 < fuel
    → (m : ℕ) × (luby_size fuel i (ones k) ≡ some (ones m)) × (i < ones m)
unfolding luby_size
luby_size_returns zero i k small h pos = absurd (omega arith)
luby_size_returns (suc fuel) i k small h pos = elim (Bool-cases (leb (ones k) i)) [
  | inl p ↦
      let le : ones k ≤ i = ground arith in
      let (m, e, l) = luby_size_returns fuel i (suc k) small (omega arith) (omega arith) in
      (m, rw (luby_size, p, doubled k i le small) e, l)
  | inr p ↦ (k, rw (luby_size, p) refl, ground arith)
]

luby_seek_returns :
    (fuel i k : ℕ) → i < ones k → k < fuel → luby_seek fuel i (ones k) ≡ some (luby_term k i)
unfolding luby_seek luby_term
luby_seek_returns zero i k h f = absurd (omega arith)
luby_seek_returns (suc fuel) i zero h f = absurd (omega arith)
luby_seek_returns (suc fuel) i (suc k) h f =
    let last : ones (suc k) - 1 ≡ 2 * ones k = omega arith in
    let half : (ones (suc k) - 1) / 2 ≡ ones k = omega arith in
    elim (ℕ_discrete i (2 * ones k)) [
      | yes p ↦
          let t : (2 * ones k == i) ≡ true = rw (p) (==-refl (2 * ones k)) in
          let t' : (i == 2 * ones k) ≡ true = rw (p) (==-refl (2 * ones k)) in
          rw (luby_seek, last, t, t') (ap some (omega arith))
      | no ne ↦
          let t : (2 * ones k == i) ≡ false = ≢→== (2 * ones k) i (λ e. ne (sym e)) in
          let t' : (i == 2 * ones k) ≡ false = ≢→== i (2 * ones k) ne in
          let r =
            luby_seek_returns fuel (if leb (ones k) i then i - ones k else i) k (ground arith)
              (omega arith) in
          rw (luby_seek, last, t, t', half) r
    ]

-- A longer beginning has the same terms.
luby_term_mono : (m k i : ℕ) → k ≤ m → i < ones k → luby_term m i ≡ luby_term k i
unfolding luby_term
luby_term_mono zero zero i h l = refl
luby_term_mono zero (suc k) i h l = absurd (omega arith)
luby_term_mono (suc m) k i h l = elim (ℕ_discrete k (suc m)) [
  | yes p ↦ ap (λ n. luby_term n i) (sym p)
  | no ne ↦
      let wide = ones_mono m k (omega arith) in
      let t : (i == 2 * ones m) ≡ false = ≢→== i (2 * ones m) (λ e. absurd (omega arith)) in
      let s : leb (ones m) i ≡ false = ground arith in
      let r = luby_term_mono m k i (omega arith) l in rw (luby_term, t, s) r
]

-- Below the greatest `usize` `luby` returns, and its value at `i` is the term of any beginning of the
-- sequence, counted from zero, that is longer than `i`.
pub luby-luby_term : (i k : ℕ) → i < 2 ^ 64 - 1 → i < ones k → luby i ≡ some (luby_term k i)
unfolding luby
luby-luby_term i k small h =
    let (m, e, l) = luby_size_returns (i + 2) i 1 small (omega arith) (omega arith) in
    let r = luby_seek_returns (ones m + 1) i m l (omega (arith, le-ones m)) in
    let same : luby_term m i ≡ luby_term k i = elim (Bool-cases (leb k m)) [
      | inl p ↦ luby_term_mono m k i (ground arith) h
      | inr p ↦ sym (luby_term_mono k m i (ground arith) l)
    ] in
    rw (e) (r ∙ ap some same)
