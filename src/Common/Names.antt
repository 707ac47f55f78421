-- ===== src/Common/Names.antt =====
-- Names are texts, and texts can be told apart.
use Prim.Native.String.{String}
use mathlib.Core.Path.{◌≡◌, refl, sym, ◌∙◌}
use mathlib.Core.Bool.{Bool, true, false, false≢true}
use text.Mathlib.Text.{◌==◌ as str_eq}
use text.Mathlib.TextEquality.{eq_iff}

decide_name : (a b : String) (r : Bool) → str_eq a b ≡ r → Dec (a ≡ b)
decide_name a b true e = yes ((eq_iff a b).0 e)
decide_name a b false e = no (λ p. false≢true (sym e ∙ (eq_iff a b).1 p))

unfoldable pub String-discrete : Discrete String
unfolding decide_name
String-discrete a b = decide_name a b (str_eq a b) refl
