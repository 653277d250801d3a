-- ===== src/Prelude/Text.antt =====
-- Equality of texts as a decision.
use Prim.Native.String.{String}
use mathlib.Core.Path.{◌≡◌}
use mathlib.Core.Bool.{Bool, true, false}
use text.Mathlib.Text.{◌==◌ as str_eq}
use text.Mathlib.TextEquality.{eq_iff}

decide_by : (a b : String) (t : Bool) → str_eq a b ≡ t → Dec (a ≡ b)
decide_by a b true h = yes ((eq_iff a b).0 h)
decide_by a b false h = no (λ e. cc ((eq_iff a b).1 e))

unfoldable pub string_discrete : Discrete String
unfolding decide_by
string_discrete a b = decide_by a b (str_eq a b) (λ i. str_eq a b)
