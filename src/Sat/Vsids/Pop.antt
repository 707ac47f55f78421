-- ===== src/Sat/Vsids/Pop.antt =====
-- crates/smt-sat/src/vsids.rs: `pop_max` on an indexed heap.
use mathlib.Core.Option.{some-injective}
use native.Mathlib.Decide.{ℕ_discrete}
use smt_solver_rust.Common.{
  ℕ, suc, ◌+◌, ◌<◌, ◌≡◌, ◌≢◌, refl, sym, ap, ◌∙◌, Option, none, some, List, [], ◌∷◌, ◌==◌, ◌>>=◌,
  length, get_elem?, get_or, set, arith, Bool-cases, ◌⊎◌, inl, inr, get_elem?-of_lt, get_elem?-lt,
  get_elem?-set_self, get_elem?-set_ne, length-set, ==→≡, ==→≢,
}
use smt_solver_rust.Sat.Lit.{Var}
use smt_solver_rust.Sat.Float.{FloatOps}
use smt_solver_rust.Common.{take, get_elem?-take_lt, length-take_le}
use smt_solver_rust.Sat.Vsids.{Vsids, absent, pop_from, pop_max}
use smt_solver_rust.Sat.Vsids.Indexed.{IsIndexed, present-set, put-set, not_absent, same_position}
use smt_solver_rust.Sat.Vsids.Sift.{sift_down-Sifted}

-- The last variable takes the place of the root.
module _ (n : ℕ) (s : Vsids) (k : IsIndexed n s) (top last : Var) (m : ℕ)
    (root : get_elem? s.heap 0 ≡ some top) (long : length s.heap ≡ suc m) (more : 0 < m)
    (end : get_elem? s.heap m ≡ some last) where
  abbrev cut : Vsids
  cut = record s {
    heap = set (take m s.heap) 0 last;
    heap_pos = set (set s.heap_pos top absent) last 0;
  }

  differ : top ≢ last
  differ e =
      let z = same_position n s k 0 m top root (end ∙ ap some (sym e)) in absurd (omega arith)

  top-lt : top < length s.heap_pos
  top-lt = get_elem?-lt s.heap_pos top (k.placed 0 top root)

  last-before : get_elem? (set s.heap_pos top absent) last ≡ some m
  last-before = get_elem?-set_ne s.heap_pos top last absent differ ∙ k.placed m last end

  last-lt : last < length (set s.heap_pos top absent)
  last-lt = get_elem?-lt (set s.heap_pos top absent) last last-before

  last-pos : get_elem? cut.heap_pos last ≡ some 0
  last-pos = get_elem?-set_self (set s.heap_pos top absent) last 0 last-lt

  top-pos : get_elem? cut.heap_pos top ≡ some absent
  top-pos =
      get_elem?-set_ne (set s.heap_pos top absent) last top 0 (λ e. differ (sym e))
      ∙ get_elem?-set_self s.heap_pos top absent top-lt

  other-pos : (u : Var) → top ≢ u → last ≢ u → get_elem? cut.heap_pos u ≡ get_elem? s.heap_pos u
  other-pos u a b =
      get_elem?-set_ne (set s.heap_pos top absent) last u 0 b
      ∙ get_elem?-set_ne s.heap_pos top u absent a

  length-taken : length (take m s.heap) ≡ m
  length-taken = length-take_le m s.heap (omega arith)

  length-cut : length cut.heap ≡ m
  length-cut = length-set (take m s.heap) 0 last ∙ length-taken

  cut-root : get_elem? cut.heap 0 ≡ some last
  cut-root = get_elem?-set_self (take m s.heap) 0 last (omega (arith, length-taken))

  cut-other : (i : ℕ) → 0 < i → i < m → get_elem? cut.heap i ≡ get_elem? s.heap i
  cut-other i p l =
      get_elem?-set_ne (take m s.heap) 0 i last (λ e. absurd (omega arith))
      ∙ get_elem?-take_lt m s.heap i l

  cut-placed : (i : ℕ) (u : Var) → get_elem? cut.heap i ≡ some u → get_elem? cut.heap_pos u ≡ some i
  cut-placed i u e = elim (ℕ_discrete i 0) [
    | yes z ↦
        let q : last ≡ u =
          some-injective _ _ (sym cut-root ∙ ap (get_elem? cut.heap) (sym z) ∙ e) in
        ap (get_elem? cut.heap_pos) (sym q) ∙ last-pos ∙ ap some (sym z)
    | no nz ↦
        let l : i < m = omega (arith, get_elem?-lt cut.heap i e, length-cut) in
        let old = sym (cut-other i (omega arith) l) ∙ e in
        other-pos u (λ q. nz (same_position n s k i 0 u old (root ∙ ap some q)))
          (λ q. let z = same_position n s k i m u old (end ∙ ap some q) in absurd (omega arith))
        ∙ k.placed i u old
  ]

  cut-found :
      (u : Var) (p : ℕ)
      → get_elem? cut.heap_pos u ≡ some p
      → (p ≡ absent) ⊎ (get_elem? cut.heap p ≡ some u)
  cut-found u p e = elim (ℕ_discrete last u) [
    | yes q ↦
        let r : 0 ≡ p = some-injective _ _ (sym last-pos ∙ ap (get_elem? cut.heap_pos) q ∙ e) in
        inr (ap (get_elem? cut.heap) (sym r) ∙ cut-root ∙ ap some q)
    | no a ↦ elim (ℕ_discrete top u) [
      | yes q ↦ inl (some-injective _ _ (sym e ∙ ap (get_elem? cut.heap_pos) (sym q) ∙ top-pos))
      | no b ↦ elim (k.found u p (sym (other-pos u b a) ∙ e)) [
        | inl z ↦ inl z
        | inr here ↦
            let nz : p ≢ 0 =
              λ z. b (some-injective _ _ (sym root ∙ ap (get_elem? s.heap) (sym z) ∙ here)) in
            let ne : p ≢ m =
              λ z. a (some-injective _ _ (sym end ∙ ap (get_elem? s.heap) (sym z) ∙ here)) in
            inr (cut-other p (omega arith) (omega (arith, get_elem?-lt s.heap p here)) ∙ here)
      ]
    ]
  ]

  cut-IsIndexed : IsIndexed n cut
  cut-IsIndexed = record {
    activities = k.activities;
    positions =
        length-set (set s.heap_pos top absent) last 0
        ∙ length-set s.heap_pos top absent
        ∙ k.positions;
    placed = cut-placed;
    found = cut-found;
    filled =
        let a = present-set s.heap_pos top 0 absent (k.placed 0 top root) in
        let b = present-set (set s.heap_pos top absent) last m 0 last-before in
        let b' = rw (not_absent n s k m (omega arith)) at b in omega (arith, length-cut, k.filled);
    small = k.small;
  }

nil-length : (xs : List Var) → length xs ≡ 0 → xs ≡ []
nil-length [] h = refl
nil-length (x ∷ xs) h = absurd (omega arith)

-- What `pop_max` returns: nothing from an empty heap, else the root, which is out of the heap.
abbrev pub Popped : ℕ → Vsids → Option (Vsids × Option Var) → Type 0
Popped n s r =
    (u : Vsids) × (top : Option Var) × (r ≡ some (u, top))
    × IsIndexed n u
    × (u.activity ≡ s.activity)
    × (((top ≡ none) × (length s.heap ≡ 0) × (u ≡ s))
        ⊎ ((v : Var) × (top ≡ some v)
            × (get_elem? s.heap 0 ≡ some v)
            × (suc (length u.heap) ≡ length s.heap)))

emptied-IsIndexed :
    (n : ℕ) (s : Vsids) (top : Var)
    → IsIndexed n s
    → s.heap ≡ top ∷ []
    → IsIndexed n (record s { heap = []; heap_pos = set s.heap_pos top absent })
emptied-IsIndexed n s top k e =
    let root : get_elem? s.heap 0 ≡ some top = ap (λ h. get_elem? h 0) e in
    record {
      activities = k.activities;
      positions = length-set s.heap_pos top absent ∙ k.positions;
      placed = λ i u f. absurd (cc);
      found = λ u p f. elim (ℕ_discrete top u) [
        | yes q ↦ inl (
            some-injective _ _ (
              sym f
              ∙ ap (get_elem? (set s.heap_pos top absent)) (sym q)
              ∙ get_elem?-set_self s.heap_pos top absent
                  (get_elem?-lt s.heap_pos top (k.placed 0 top root))))
        | no ne ↦ elim (k.found u p (sym (get_elem?-set_ne s.heap_pos top u absent ne) ∙ f)) [
          | inl z ↦ inl z
          | inr here ↦
              let l : length s.heap ≡ 1 = ap length e in
              let z : p ≡ 0 = omega (arith, get_elem?-lt s.heap p here) in
              absurd (ne (some-injective _ _ (sym root ∙ ap (get_elem? s.heap) (sym z) ∙ here)))
        ]
      ];
      filled =
          let a = present-set s.heap_pos top 0 absent (k.placed 0 top root) in
          let l : length s.heap ≡ 1 = ap length e in omega (arith, k.filled);
      small = k.small;
    }

pop_from-Popped :
    (X : FloatOps) (n : ℕ) (s : Vsids) (heap : List Var)
    → s.heap ≡ heap
    → IsIndexed n s
    → Popped n s (pop_from X heap s)
unfolding pop_from
pop_from-Popped X n s [] e k = (s, none, refl, k, refl, inl (refl, ap length e, refl))
pop_from-Popped X n s (top ∷ rest) e k =
    let root : get_elem? s.heap 0 ≡ some top = ap (λ h. get_elem? h 0) e in
    let long : length s.heap ≡ suc (length rest) = ap length e in
    let write = put-set s.heap_pos top absent (get_elem?-lt s.heap_pos top (k.placed 0 top root)) in
    elim (Bool-cases (length rest == 0)) [
      | inl q ↦
          let z : rest ≡ [] = nil-length rest (==→≡ (length rest) 0 q) in
          (
            record s { heap = []; heap_pos = set s.heap_pos top absent },
            some top,
            rw (write, ◌>>=◌, q) refl,
            emptied-IsIndexed n s top k (e ∙ ap (λ r. top ∷ r) z),
            refl,
            inr (top, refl, root, sym (ap suc (==→≡ (length rest) 0 q)) ∙ sym long),
          )
      | inr q ↦
          let m = length rest in
          let last = get_or s.heap m 0 in
          let end = get_elem?-of_lt s.heap m 0 (omega arith) in
          let more : 0 < m = let z = ==→≢ m 0 q in omega arith in
          let l = length-cut n s k top last m root long more end in
          let (t, f, k', l', a, has, inc) =
            sift_down-Sifted X n (m + 1) 0 (cut n s k top last m root long more end)
              (cut-IsIndexed n s k top last m root long more end) (omega arith) (omega arith) in
          let write' =
            put-set (set s.heap_pos top absent) last 0
              (last-lt n s k top last m root long more end) in
          (
            t,
            some top,
            rw (write, ◌>>=◌, q, end, write') (ap (λ r. r >>= λ u. some (u, some top)) f),
            k',
            a,
            inr (top, refl, root, ap suc (l' ∙ l) ∙ sym long),
          )
    ]

-- Popping an indexed heap returns an indexed heap: nothing where it is empty, else the variable at
-- the root, and the heap is one shorter.
pub pop_max-Popped : (X : FloatOps) (n : ℕ) (s : Vsids) → IsIndexed n s → Popped n s (pop_max X s)
unfolding pop_max
pop_max-Popped X n s k = pop_from-Popped X n s s.heap refl k
