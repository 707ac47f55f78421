-- ===== src/Sat/Drat/Text.antt =====
-- crates/smt-sat/src/drat_checker.rs: how one line of a certificate is read. A text is the list
-- of its code points; `lines`, `trim`, `split_whitespace` and `parse::<i32>` are written out.
use smt_solver_rust.Common.{
  ℕ, zero, suc, ◌+◌, ◌-◌, ◌*◌, ◌^◌, Bool, true, false, ◌&&◌, ◌||◌, Option, none, some, List, [],
  ◌∷◌, ◌++◌, ◌==◌, ltb, leb, if◌then◌else◌, ◌>>=◌,
}
use smt_solver_rust.Common.Int.{ℤ, pos, negsuc}
use smt_solver_rust.Sat.Lit.{Lit, from_dimacs}

abbrev pub Text : Type 0
Text = List ℕ

-- The code points with the Unicode property White_Space.
unfoldable pub is_whitespace : ℕ → Bool
is_whitespace c =
    (leb 9 c && leb c 13)
    || c == 32
    || c == 0x85
    || c == 0xa0
    || c == 0x1680
    || (leb 0x2000 c && leb c 0x200a)
    || c == 0x2028
    || c == 0x2029
    || c == 0x202f
    || c == 0x205f
    || c == 0x3000

-- A carriage return before the newline belongs to the line's end.
unfoldable pub strip_cr : Text → Text
strip_cr [] = []
strip_cr (c ∷ []) = if c == 13 then [] else c ∷ []
strip_cr (c ∷ (d ∷ cs)) = c ∷ strip_cr (d ∷ cs)

unfoldable pub lines_from : Text → Text → List Text
unfolding strip_cr
lines_from [] [] = []
lines_from (k ∷ ks) [] = (k ∷ ks) ∷ []
lines_from cur (c ∷ cs) = elim (c == b'\n') [
  | true ↦ strip_cr cur ∷ lines_from [] cs
  | false ↦ lines_from (cur ++ c ∷ []) cs
]

unfoldable pub lines : Text → List Text
unfolding lines_from
lines text = lines_from [] text

unfoldable pub trim_start : Text → Text
unfolding is_whitespace
trim_start [] = []
trim_start (c ∷ cs) = elim (is_whitespace c) [ true ↦ trim_start cs | false ↦ c ∷ cs ]

unfoldable pub trim_end : Text → Text
unfolding is_whitespace
trim_end [] = []
trim_end (c ∷ cs) = keep c (trim_end cs)
  where
    keep : ℕ → Text → Text
    keep c [] = if is_whitespace c then [] else c ∷ []
    keep c (d ∷ ds) = c ∷ (d ∷ ds)

unfoldable pub trim : Text → Text
unfolding trim_start trim_end
trim text = trim_end (trim_start text)

-- The token read so far, then the tokens of the rest.
unfoldable pub tokens_from : Text → Text → List Text
unfolding is_whitespace
tokens_from [] [] = []
tokens_from (k ∷ ks) [] = (k ∷ ks) ∷ []
tokens_from [] (c ∷ cs) = elim (is_whitespace c) [
  | true ↦ tokens_from [] cs
  | false ↦ tokens_from (c ∷ []) cs
]
tokens_from (k ∷ ks) (c ∷ cs) = elim (is_whitespace c) [
  | true ↦ (k ∷ ks) ∷ tokens_from [] cs
  | false ↦ tokens_from (k ∷ (ks ++ c ∷ [])) cs
]

unfoldable pub split_whitespace : Text → List Text
unfolding tokens_from
split_whitespace text = tokens_from [] text

unfoldable pub digits_value : ℕ → Text → Option ℕ
digits_value acc [] = some acc
digits_value acc (c ∷ cs) = elim (leb b'0' c && leb c b'9') [
  | true ↦ digits_value (acc * 10 + (c - b'0')) cs
  | false ↦ none
]

abbrev pub positive : ℕ → Option ℤ
positive n = if ltb n (2 ^ 31) then some (pos n) else none

abbrev pub negative : ℕ → Option ℤ
negative zero = some (pos 0)
negative (suc n) = if ltb n (2 ^ 31) then some (negsuc n) else none

-- `str::parse::<i32>`: an optional sign and at least one digit, in range.
unfoldable pub parse_i32 : Text → Option ℤ
unfolding digits_value
parse_i32 [] = none
parse_i32 (c ∷ []) = digits_value 0 (c ∷ []) >>= positive
parse_i32 (c ∷ (d ∷ ds)) =
    if c == b'-'
    then digits_value 0 (d ∷ ds) >>= negative
    else if c == b'+'
    then digits_value 0 (d ∷ ds) >>= positive
    else digits_value 0 (c ∷ (d ∷ ds)) >>= positive

-- The loop over the tokens: it breaks at a zero, on which alone `from_dimacs` has no literal.
pub data Collected : Type 0 where
  lits : List Lit → Collected
  bad_token : Text → Collected

abbrev pub push_front : Lit → Collected → Collected
push_front l (lits ls) = lits (l ∷ ls)
push_front l (bad_token t) = bad_token t

unfoldable pub collect_lits : List Text → Collected
unfolding parse_i32 from_dimacs
collect_lits [] = lits []
collect_lits (tok ∷ toks) = elim (parse_i32 tok) [
  | none ↦ bad_token tok
  | some num ↦ elim (from_dimacs num) [ none ↦ lits [] | some l ↦ push_front l (collect_lits toks) ]
]

unfoldable pub starts_with : ℕ → Text → Bool
starts_with c [] = false
starts_with c (d ∷ ds) = d == c

-- A line is passed over, or it deletes or adds the literals that it lists.
pub data Line : Type 0 where
  skip : Line
  delete add : Collected → Line

abbrev pub parse_trimmed : Text → Line
parse_trimmed [] = skip
parse_trimmed (c ∷ cs) =
    if c == b'c'
    then skip
    else if c == b'd'
    then delete (collect_lits (split_whitespace (trim cs)))
    else add (collect_lits (split_whitespace (c ∷ cs)))

unfoldable pub parse_line : Text → Line
unfolding collect_lits split_whitespace trim
parse_line line = parse_trimmed (trim line)
