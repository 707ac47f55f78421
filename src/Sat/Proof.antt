-- ===== src/Sat/Proof.antt =====
-- crates/smt-sat/src/drat.rs: the writer of certificates. The buffer is a list of code points.
use smt_solver_rust.Common.{ℕ, zero, suc, ◌+◌, ◌/◌, ◌%◌, Bool, List, [], ◌∷◌, ◌++◌, if◌then◌else◌}
use smt_solver_rust.Common.Int.{ℤ, pos, negsuc}
use smt_solver_rust.Sat.Lit.{Lit, to_dimacs}
use smt_solver_rust.Sat.Drat.Text.{Text}

pub record DratProof : Type 0 where
  pub enabled : Bool
  pub buffer : Text

unfoldable pub new : Bool → DratProof
new enabled = record { enabled = enabled; buffer = [] }

-- The decimal digits of a number before `rest`; the fuel bounds their count.
unfoldable pub digits_before : ℕ → ℕ → Text → Text
digits_before zero n rest = rest
digits_before (suc fuel) n rest = elim (n / 10) [
  | zero ↦ (b'0' + n % 10) ∷ rest
  | suc m ↦ digits_before fuel (suc m) ((b'0' + n % 10) ∷ rest)
]

unfoldable pub decimal : ℤ → Text
unfolding digits_before
decimal (pos n) = digits_before (n + 1) n []
decimal (negsuc n) = b'-' ∷ digits_before (n + 2) (n + 1) []

-- `write!(buffer, "{} ", lit.to_dimacs())` for each literal, and the end of the line.
unfoldable pub literals : List Lit → Text
unfolding decimal
literals [] = b'0' ∷ (b'\n' ∷ [])
literals (l ∷ ls) = decimal (to_dimacs l) ++ b' ' ∷ literals ls

unfoldable pub add_clause : List Lit → DratProof → DratProof
unfolding literals
add_clause ls p = if p.enabled then record p { buffer = p.buffer ++ literals ls } else p

unfoldable pub delete_clause : List Lit → DratProof → DratProof
unfolding literals
delete_clause ls p =
    if p.enabled then record p { buffer = p.buffer ++ (b'd' ∷ (b' ' ∷ literals ls)) } else p

unfoldable pub clear : DratProof → DratProof
clear p = record p { buffer = [] }
