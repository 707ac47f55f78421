-- ===== src/Sat/Trail/View.antt =====
-- The literals on the trail as a partial valuation, and the limits as positions in it.
use smt_solver_rust.Common.{
  ℕ, zero, suc, ◌+◌, ◌≤◌, ◌<◌, ◌≡◌, refl, Bool, true, false, some, List, [], ◌∷◌, ◌++◌, ◌==◌, leb,
  if◌then◌else◌, length, get_elem?, take, arith, ==→≡, ==-refl,
}
use smt_solver_rust.Sat.Lit.{Var, Lit, var, is_pos, LBool, undef, true_val, false_val}

abbrev pub sign_val : Bool → LBool
sign_val true = true_val
sign_val false = false_val

unfoldable pub value_in : List Lit → Var → LBool
value_in [] v = undef
value_in (l ∷ ls) v = if var l == v then sign_val (is_pos l) else value_in ls v

-- No variable stands twice.
abbrev pub Distinct : List Lit → Type 0
Distinct [] = Unit
Distinct (l ∷ ls) = (value_in ls (var l) ≡ undef) × Distinct ls

abbrev pub or_else : LBool → LBool → LBool
or_else undef y = y
or_else x y = x

pub value_in-append :
    (xs ys : List Lit) (v : Var) → value_in (xs ++ ys) v ≡ or_else (value_in xs v) (value_in ys v)
unfolding value_in
value_in-append [] ys v = refl
value_in-append (x ∷ xs) ys v = ground (arith, value_in-append xs ys v)

pub Distinct-snoc :
    (xs : List Lit) (l : Lit) → Distinct xs → value_in xs (var l) ≡ undef → Distinct (xs ++ l ∷ [])
unfolding value_in
Distinct-snoc [] l d e = (refl, tt)
Distinct-snoc (x ∷ xs) l (f, d) e =
    (ground (arith, value_in-append xs (l ∷ []) (var x)), Distinct-snoc xs l d (ground arith))

-- Of distinct literals the last is not among those before it, which are distinct too.
pub Distinct-init :
    (xs : List Lit) (l : Lit)
    → Distinct (xs ++ l ∷ [])
    → Distinct xs × (value_in xs (var l) ≡ undef)
unfolding value_in
Distinct-init [] l d = (tt, refl)
Distinct-init (x ∷ xs) l (f, d) =
    let (d', e) = Distinct-init xs l d in
    let split = value_in-append xs (l ∷ []) (var x) in
    ((ground (arith, split), d'), ground (arith, split, ==-refl (var l), ==→≡ (var x) (var l)))

-- Each limit is at least the one before it, all of them between the two bounds.
abbrev pub Ascending : ℕ → ℕ → List ℕ → Type 0
Ascending lo hi [] = lo ≤ hi
Ascending lo hi (k ∷ ks) = (lo ≤ k) × Ascending k hi ks

pub Ascending-widen :
    (lo hi : ℕ) {hi' : ℕ} (ks : List ℕ) → hi ≤ hi' → Ascending lo hi ks → Ascending lo hi' ks
Ascending-widen lo hi [] h a = omega arith
Ascending-widen lo hi (k ∷ ks) h a = (a.0, Ascending-widen k hi ks h a.1)

pub Ascending-snoc :
    (lo hi : ℕ) (ks : List ℕ) → Ascending lo hi ks → Ascending lo hi (ks ++ hi ∷ [])
Ascending-snoc lo hi [] a = omega arith
Ascending-snoc lo hi (k ∷ ks) a = (a.0, Ascending-snoc k hi ks a.1)

pub Ascending-bounds : (lo hi : ℕ) (ks : List ℕ) → Ascending lo hi ks → lo ≤ hi
Ascending-bounds lo hi [] a = a
Ascending-bounds lo hi (k ∷ ks) a = omega (arith, Ascending-bounds k hi ks a.1)

-- The limits below a limit.
pub Ascending-take :
    (lo hi : ℕ) (ks : List ℕ) (i k : ℕ)
    → Ascending lo hi ks
    → get_elem? ks i ≡ some k
    → Ascending lo k (take i ks) × (k ≤ hi)
Ascending-take lo hi [] i k a e = absurd (cc)
Ascending-take lo hi (j ∷ ks) zero k a e = ground (arith, Ascending-bounds j hi ks a.1)
Ascending-take lo hi (j ∷ ks) (suc i) k a e =
    let (b, h) = Ascending-take j hi ks i k a.1 e in ((a.0, b), h)

-- The decision level of a position: how many limits are not above it.
unfoldable pub level_at : List ℕ → ℕ → ℕ
level_at [] i = 0
level_at (k ∷ ks) i = (if leb k i then 1 else 0) + level_at ks i

pub level_at_top :
    (lo hi : ℕ) (ks : List ℕ) (i : ℕ) → Ascending lo hi ks → hi ≤ i → level_at ks i ≡ length ks
unfolding level_at
level_at_top lo hi [] i a h = refl
level_at_top lo hi (k ∷ ks) i a h =
    ground (arith, Ascending-bounds k hi ks a.1, level_at_top k hi ks i a.1 h)

level_at_below : (lo hi : ℕ) (ks : List ℕ) (i : ℕ) → Ascending lo hi ks → i < lo → level_at ks i ≡ 0
unfolding level_at
level_at_below lo hi [] i a h = refl
level_at_below lo hi (k ∷ ks) i a h = ground (arith, level_at_below k hi ks i a.1)

pub level_at-snoc : (ks : List ℕ) (k i : ℕ) → i < k → level_at (ks ++ k ∷ []) i ≡ level_at ks i
unfolding level_at
level_at-snoc [] k i h = ground arith
level_at-snoc (j ∷ ks) k i h = omega (arith, level_at-snoc ks k i h)

pub level_at-take :
    (lo hi : ℕ) (ks : List ℕ) (n k i : ℕ)
    → Ascending lo hi ks
    → get_elem? ks n ≡ some k
    → i < k
    → level_at (take n ks) i ≡ level_at ks i
unfolding level_at
level_at-take lo hi [] n k i a e h = absurd (cc)
level_at-take lo hi (j ∷ ks) zero k i a e h = ground (arith, level_at_below j hi ks i a.1)
level_at-take lo hi (j ∷ ks) (suc n) k i a e h = omega (arith, level_at-take j hi ks n k i a.1 e h)
