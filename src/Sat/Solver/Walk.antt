-- ===== src/Sat/Solver/Walk.antt =====
-- crates/smt-sat/src/solver.rs: the outer loop of `analyze_conflict`.
use mathlib.Core.Option.{some-injective}
use smt_solver_rust.Common.{
  ℕ, zero, suc, ◌+◌, ◌≤◌, ◌<◌, ◌≡◌, ◌≢◌, refl, sym, ap, ◌∙◌, true, false, Option, some, List, [],
  ◌∷◌, ◌==◌, length, get_elem?, get_or, arith, Bool-cases, ◌⊎◌, inl, inr, All, get_elem?-of_lt,
  ==-refl, ≢→==, ◌>>=◌, set,
}
use native.Mathlib.Decide.{ℕ_discrete}
use smt_solver_rust.Common.Int.{ℤ, pos, negsuc, pos_part, decr, is_zero}
use smt_solver_rust.Sat.Lit.{Var, Lit, var, negate}
use smt_solver_rust.Sat.Lit.Laws.{var-negate, negate-negate}
use smt_solver_rust.Sat.Models.{Valuation, holds}
use smt_solver_rust.Sat.Trail.{
  Trail, Reason, VarData, ClauseId, decision, unit, clause, theory, reason_of,
}
use smt_solver_rust.Sat.Trail.View.{level_at}
use smt_solver_rust.Sat.Trail.Valid.{IsValid}
use smt_solver_rust.Sat.Clause.{Clause, ClauseArena, get_clause}
use smt_solver_rust.Sat.Float.{F64, FloatOps}
use smt_solver_rust.Sat.Vsids.{Vsids, bump_var}
use smt_solver_rust.Sat.Solver.Analyze.{Analysis, others, walk}
use smt_solver_rust.Sat.Solver.Position.{
  In, In-satisfies, In-tail, satisfies-In, holds_not_both, FalseBefore, trail_in_range,
  Distinct-position, All-In,
}
use smt_solver_rust.Sat.Solver.Count.{
  lit_at, count, count_pos, count-here, counted_below, count_none,
}
use smt_solver_rust.Sat.Solver.Mark.{mark-IsMarked}
use smt_solver_rust.Sat.Solver.Note.{Seen, IsMarked, Grows}
use smt_solver_rust.Sat.Solver.Learn.{
  is_clause, IsImplied, Respects, Live, IsLearned, holding-Live, skip-IsMarked, skip-Live,
  level-current, unmarked, unmark-keeps, unmark-IsMarked,
}

-- A literal of the clause other than the variable's own is false before the position.
others-All :
    (t : Trail) (b : ℕ) (l : Lit) (ls : List Lit)
    → All (λ m. (m ≡ l) ⊎ FalseBefore t b m) ls
    → All (FalseBefore t b) (others (var l) ls)
others-All t b l [] h = tt
others-All t b l (m ∷ ls) (p, h) =
    let r = others-All t b l ls h in
    elim (Bool-cases (var m == var l)) [
      | inl q ↦ rw (q) r
      | inr q ↦
          let f : FalseBefore t b m = elim p [
            | inl same ↦
                let bad : true ≡ false =
                  sym (==-refl (var l)) ∙ ap (λ k. var k == var l) (sym same) ∙ q in
                absurd (cc)
            | inr f ↦ f
          ] in
          rw (q) (f, r)
    ]

others-In : (v : Var) (ls : List Lit) (m : Lit) → In m ls → var m ≢ v → In m (others v ls)
others-In v [] m (i, e) ne = absurd (cc)
others-In v (l ∷ ls) m (zero, e) ne =
    let q : l ≡ m = some-injective _ _ e in
    let f : (var l == v) ≡ false = rw (q) (≢→== (var m) v ne) in rw (f) (0, e)
others-In v (l ∷ ls) m (suc i, e) ne = elim (Bool-cases (var l == v)) [
  | inl q ↦ rw (q) (others-In v ls m (i, e) ne)
  | inr q ↦ let (j, f) = others-In v ls m (i, e) ne in rw (q) (suc j, f)
]

is_clause-id : (r : Reason) → is_clause r ≡ true → (id : ClauseId) × (r ≡ clause id)
is_clause-id decision h = absurd (cc)
is_clause-id unit h = absurd (cc)
is_clause-id (clause id) h = (id, refl)
is_clause-id (theory i) h = absurd (cc)

decr-pos : (n : ℕ) → decr (pos (suc n)) ≡ pos n
unfolding decr
decr-pos n = refl

path_cases :
    (z : ℤ)
    → z ≡ pos (pos_part z)
    → 0 < pos_part z
    → (z ≡ pos 1) ⊎ ((k : ℕ) × (z ≡ pos (suc (suc k))))
path_cases (pos zero) e h = absurd (omega arith)
path_cases (pos (suc zero)) e h = inl refl
path_cases (pos (suc (suc k))) e h = inr (k, refl)
path_cases (negsuc n) e h = absurd (omega arith)

-- What the outer loop returns: the literal for slot 0 and an analysis whose clause is learned.
abbrev pub Finds :
    FloatOps → (Vsids → Type 0) → Trail → ClauseArena F64 → ℕ → Option (Lit × Analysis) → Type 0
Finds X IsHeap t a current r =
    (l : Lit) × (an : Analysis) × (r ≡ some (l, an))
    × IsHeap an.heap
    × IsLearned t a current l an.learned an.back_level

module _ (X : FloatOps) (IsHeap : Vsids → Type 0) (t : Trail) (v : IsValid t) (a : ClauseArena F64)
    (w : IsImplied t a) (current : ℕ) (top : length t.trail_lim ≡ current) (above : 0 < current)
    (bump : (w : Var) (h : Vsids)
      → IsHeap h
      → w < length t.assigns
      → (h' : Vsids) × (bump_var X w h ≡ some h') × IsHeap h') where
  module _ (i : ℕ) (l : Lit) (an : Analysis) (bound : i < length t.trail)
      (at : get_elem? t.trail i ≡ some l) (s : Seen an (var l))
      (m : IsMarked IsHeap t current (suc i) an) (lv : level_at t.trail_lim i ≡ current)
      (live : (α : Valuation) → Respects α t a → Live α t current (suc i) an) where
    counted_here : pos_part an.path_count ≡ count t current an.seen i + 1
    counted_here = m.counted ∙ count-here t current an.seen i l at s lv

    -- The last literal of the level is the unique implication point.
    last-IsLearned :
        pos_part an.path_count ≡ 1 → IsLearned t a current (negate l) an.learned an.back_level
    last-IsLearned e = record {
      asserting = (i, at ∙ ap some (sym (negate-negate l)), lv);
      others_below = m.below;
      goes_back = m.lower above;
      entailed = λ α r. elim (live α r) [
        | inl (k, i, h) ↦
            In-satisfies α k (negate l ∷ an.learned) (In-tail k (negate l) an.learned i) h
        | inr (j, k, below, f, g, z, h) ↦ elim (ℕ_discrete j i) [
          | yes p ↦
              let q : k ≡ l = some-injective _ _ (sym f ∙ ap (get_elem? t.trail) p ∙ at) in
              In-satisfies α (negate l) (negate l ∷ an.learned) (0, refl)
                (ap (λ n. holds α (negate n)) (sym q) ∙ h)
          | no ne ↦
              let c = counted_below t current an.seen i j k (omega arith) f g z in
              let d = counted_here in absurd (omega arith)
        ]
      ];
    }

    -- A literal that is resolved away has a clause as its reason.
    not_opener :
        2 ≤ pos_part an.path_count
        → (r : Reason) → reason_of t (var l) ≡ some r
        → is_clause r ≡ true
    not_opener big r e = elim (Bool-cases (is_clause r)) [
      | inl p ↦ p
      | inr p ↦
          let c = counted_here in
          let (j, below, s, z) = count_pos t current an.seen i (omega arith) in
          let o = w.openers i l r at e p (omega arith) j below in absurd (omega arith)
    ]

    resolved_reason :
        2 ≤ pos_part an.path_count → (id : ClauseId) × (reason_of t (var l) ≡ some (clause id))
    unfolding reason_of
    resolved_reason big =
        let d : VarData = record { level = 0; reason = unit } in
        let found =
          get_elem?-of_lt t.var_data (var l) d
            (let r = trail_in_range t v i l at in let n = v.core.data_length in omega arith) in
        let r = (get_or t.var_data (var l) d).reason in
        let e : reason_of t (var l) ≡ some r = rw (found) refl in
        let (id, q) = is_clause-id r (not_opener big r e) in (id, e ∙ ap some q)

    -- Resolving with the reason keeps something to be resolved away, or collected.
    resolve-Live :
        (id : ClauseId) (c : Clause F64) (n : ℕ) (bn : Analysis)
        → get_clause a id ≡ some c
        → All (λ k. (k ≡ l) ⊎ FalseBefore t i k) c.lits
        → IsMarked IsHeap t current i bn
        → Grows (unmarked l n an) bn
        → All (λ k. Seen bn (var k)) (others (var l) c.lits)
        → (α : Valuation) → Respects α t a
        → Live α t current i bn
    resolve-Live id c n bn e fs k g all α r = elim (live α r) [
      | inl (p, q, h) ↦ inl (p, g.learned p q, h)
      | inr (j, p, below, f, s', z, h) ↦ elim (ℕ_discrete j i) [
        | no ne ↦ inr (
          j,
          p,
          omega arith,
          f,
          g.seen (var p) (
              unmark-keeps IsHeap t v current top l n an (var p)
                (λ q. ne (Distinct-position t.trail j i p l v.core.distinct f at (sym q))) s'),
          z,
          h,
        )
        | yes same ↦
            let q : p ≡ l = some-injective _ _ (sym f ∙ ap (get_elem? t.trail) same ∙ at) in
            let h' : holds α (negate l) ≡ true = ap (λ k. holds α (negate k)) (sym q) ∙ h in
            let (x, inside, y) = satisfies-In α c.lits (r.clauses id c e) in
            elim (All-In (λ k. (k ≡ l) ⊎ FalseBefore t i k) c.lits fs x inside) [
              | inl own ↦
                  let bad : true ≡ false =
                    sym h' ∙ holds_not_both α l (ap (holds α) (sym own) ∙ y) in
                  absurd (cc)
              | inr (o, under, u) ↦
                  let ne : var x ≢ var l = λ q.
                    let same =
                      Distinct-position t.trail o i (negate x) l v.core.distinct u at
                        (var-negate x ∙ q) in
                    absurd (omega arith) in
                  let marked =
                    All-In (λ k. Seen bn (var k)) (others (var l) c.lits) all x
                      (others-In (var l) c.lits x inside ne) in
                  holding-Live IsHeap t v current top a α i bn x r k (o, under, u) marked y
            ]
      ]
    ]

  -- From a marked trail with something to resolve the loop finds a unique implication point.
  pub walk-Finds :
      (b : ℕ) (an : Analysis)
      → b ≤ length t.trail
      → IsMarked IsHeap t current b an
      → 0 < pos_part an.path_count
      → ((α : Valuation) → Respects α t a → Live α t current b an)
      → Finds X IsHeap t a current (walk X t a current b an)
  unfolding walk
  walk-Finds zero an bound m some_left live =
      let c = m.counted ∙ count_none t current an.seen in absurd (omega arith)
  walk-Finds (suc i) an bound m some_left live =
      let l = lit_at t i in
      let at = get_elem?-of_lt t.trail i 0 (omega arith) in
      let found =
        get_elem?-of_lt an.seen (var l) false
          (let r = trail_in_range t v i l at in let s = m.size in omega arith) in
      let lv = level-current IsHeap t v current top i an m some_left in
      elim (Bool-cases (get_or an.seen (var l) false)) [
        | inl s ↦ elim (path_cases an.path_count m.whole some_left) [
          | inl one ↦
              let last : decr an.path_count ≡ pos 0 = ap decr one ∙ decr-pos 0 in
              (
                negate l,
                unmarked l 0 an,
                rw (at, found, s, ◌>>=◌, is_zero, last)
                    (ap
                      (λ z.
                        some (
                          negate l,
                          record an { seen = set an.seen (var l) false; path_count = z },
                        ))
                      last),
                m.heap,
                last-IsLearned i l an (omega arith) at s m lv live (ap pos_part one),
              )
          | inr (n, more) ↦
              let size = ap pos_part more in
              let less : decr an.path_count ≡ pos (suc n) = ap decr more ∙ decr-pos (suc n) in
              let (id, reason) =
                resolved_reason i l an (omega arith) at s m lv live (omega arith) in
              let (c, e, fs) = w.reasons i l id at reason in
              let here = counted_here i l an (omega arith) at s m lv live in
              let k =
                unmark-IsMarked IsHeap t v current top i (suc n) l an at (omega arith) (omega arith)
                  m in
              let (bn, f, k', g, all) =
                mark-IsMarked X IsHeap t v current top bump i (others (var l) c.lits)
                  (unmarked l (suc n) an) (omega arith) (others-All t i l c.lits fs) k in
              let r =
                walk-Finds i bn (omega arith) k' (let q = g.paths in omega arith) (
                  resolve-Live i l an (omega arith) at s m lv live id c (suc n) bn e fs k' g all) in
              rw (at, found, s, ◌>>=◌, is_zero, less, reason, e, less, f) r
        ]
        | inr s ↦
            let r =
              walk-Finds i an (omega arith) (skip-IsMarked IsHeap t v current top i l an at s m)
                some_left (λ α q. skip-Live IsHeap t v current top i l an α at s (live α q)) in
            rw (at, found, s) r
      ]
