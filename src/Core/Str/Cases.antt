-- ===== src/Core/Str/Cases.antt =====
-- modules/core/src/core.cpp: lower and upper.
use rmvl.Prelude.{[], arith, refl, ◌∷◌, ◌≡◌}
use rmvl.Bytes.{Bytes}
use rmvl.Core.Str.{to_lower, to_upper, lower, upper}

-- Of a text in capital letters, lower makes what it makes of the text, and of a text in small
-- letters, upper does likewise.
pub lower-upper : (s : Bytes) → (lower (upper s) ≡ lower s) × (upper (lower s) ≡ upper s)
unfolding lower upper to_lower to_upper
lower-upper [] = (refl, refl)
lower-upper (c ∷ s) = ground (arith, lower-upper s)
