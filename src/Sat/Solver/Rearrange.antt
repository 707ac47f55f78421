-- ===== src/Sat/Solver/Rearrange.antt =====
-- crates/smt-sat/src/solver.rs: how `bcp` moves the literals of a clause.
use native.Mathlib.Decide.{ℕ_discrete}
use smt_solver_rust.Common.{
  ℕ, suc, ◌≡◌, ◌≢◌, refl, sym, ap, ◌∙◌, true, false, some, List, [], ◌∷◌, ◌==◌, if◌then◌else◌,
  length, get_elem?, set, arith, All, length-set, get_elem?-set_self, get_elem?-set_ne,
  get_elem?-lt, ==-refl, ==→≡, ≢→==,
}
use smt_solver_rust.Sat.Lit.{Lit}
use smt_solver_rust.Sat.Solver.Position.{In, All-In}

-- The second list has the literals of the first, each as often.
pub record IsRearranged (ls ms : List Lit) : Type 0 where
  pub source : ℕ → ℕ
  pub injective : (i j : ℕ) → source i ≡ source j → i ≡ j
  pub moved : (i : ℕ) → get_elem? ms i ≡ get_elem? ls (source i)
  pub size : length ms ≡ length ls

pub same-IsRearranged : (ls : List Lit) → IsRearranged ls ls
same-IsRearranged ls = record {
  source = λ i. i;
  injective = λ i j e. e;
  moved = λ i. refl;
  size = refl;
}

pub chain-IsRearranged :
    (ls ms ns : List Lit) → IsRearranged ls ms → IsRearranged ms ns → IsRearranged ls ns
chain-IsRearranged ls ms ns r q = record {
  source = λ i. r.source (q.source i);
  injective = λ i j e. q.injective i j (r.injective (q.source i) (q.source j) e);
  moved = λ i. q.moved i ∙ r.moved (q.source i);
  size = q.size ∙ r.size;
}

abbrev across : ℕ → ℕ → ℕ → ℕ
across i j k = if k == i then j else if k == j then i else k

across_back : (i j k : ℕ) → across i j (across i j k) ≡ k
across_back i j k = ground (arith, ==→≡ k i, ==→≡ k j, ==→≡ j i, ==-refl i, ==-refl j)

-- Two literals in exchange.
pub swap-IsRearranged :
    (ls : List Lit) (i j : ℕ) (x y : Lit)
    → get_elem? ls i ≡ some x
    → get_elem? ls j ≡ some y
    → i ≢ j
    → IsRearranged ls (set (set ls i y) j x)
swap-IsRearranged ls i j x y at other ne = record {
  source = across i j;
  injective = λ k m e. sym (across_back i j k) ∙ ap (across i j) e ∙ across_back i j m;
  moved = λ k. elim (ℕ_discrete j k) [
    | yes p ↦
        let f : (k == i) ≡ false = ≢→== k i (λ e. ne (sym e ∙ sym p)) in
        let g : (k == j) ≡ true = ap (λ m. m == j) (sym p) ∙ ==-refl j in
        rw (f, g)
          (ap (get_elem? (set (set ls i y) j x)) (sym p)
            ∙ get_elem?-set_self (set ls i y) j x
                (omega (arith, get_elem?-lt ls j other, length-set ls i y))
            ∙ sym at)
    | no a ↦ elim (ℕ_discrete i k) [
      | yes p ↦
          let f : (k == i) ≡ true = ap (λ m. m == i) (sym p) ∙ ==-refl i in
          rw (f) (
            get_elem?-set_ne (set ls i y) j k x a
            ∙ ap (get_elem? (set ls i y)) (sym p)
            ∙ get_elem?-set_self ls i y (get_elem?-lt ls i at)
            ∙ sym other)
      | no b ↦
          let f : (k == i) ≡ false = ≢→== k i (λ e. b (sym e)) in
          let g : (k == j) ≡ false = ≢→== k j (λ e. a (sym e)) in
          rw (f, g) (get_elem?-set_ne (set ls i y) j k x a ∙ get_elem?-set_ne ls i k y b)
    ]
  ];
  size = length-set (set ls i y) j x ∙ length-set ls i y;
}

module _ (ls ms : List Lit) (r : IsRearranged ls ms) where
  pub rearranged-In : (m : Lit) → In m ms → In m ls
  rearranged-In m (i, e) = (r.source i, sym (r.moved i) ∙ e)

  gather {κ} : (P : Lit → Type κ) (ns : List Lit) → ((m : Lit) → In m ns → P m) → All P ns
  gather P [] h = tt
  gather P (n ∷ ns) h = (h n (0, refl), gather P ns (λ m (i, e). h m (suc i, e)))

  pub rearranged-All {κ} : (P : Lit → Type κ) → All P ls → All P ms
  rearranged-All P h = gather P ms (λ m i. All-In P ls h m (rearranged-In m i))
