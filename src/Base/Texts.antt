-- ===== src/Base/Texts.antt =====
-- Texts are only compared here.
use Prim.Native.String.{String}
use mathlib.Core.Path.{◌≡◌}
use mathlib.Core.Logic.{◌↔◌}
use mathlib.Core.Bool.{Bool, true}
use text.Mathlib.Text.{◌==◌}
use text.Mathlib.TextEquality.{eq_iff}
use text.Mathlib.TextPositions.{eq_refl}
use native.Mathlib.Omega.{arith}

-- Go's `==` on strings, and SQL's `=` on the columns of type uuid and varchar.
unfoldable pub text_eq : String → String → Bool
text_eq s t = s == t

pub text_eq_refl : (s : String) → text_eq s s ≡ true
unfolding text_eq
text_eq_refl s = eq_refl s

pub text_eq→eq : (s t : String) → text_eq s t ≡ true → s ≡ t
unfolding text_eq
text_eq→eq s t h = (eq_iff s t).0 h

pub text_eq_iff : (s t : String) → (text_eq s t ≡ true) ↔ (s ≡ t)
unfolding text_eq
text_eq_iff s t = eq_iff s t

pub text_eq_sym : (s t : String) → text_eq s t ≡ text_eq t s
text_eq_sym s t = ground (arith, text_eq_iff s t, text_eq_iff t s)

pub ruleset texts = (arith, text_eq_refl, text_eq→eq)
