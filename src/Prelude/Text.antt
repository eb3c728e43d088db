-- ===== src/Prelude/Text.antt =====
-- Text literals as bytes, and the search for a text in another.
use Prim.Native.Nat.{ℕ, ◌+◌}
use Prim.Native.Char.{code}
use Prim.Native.String.{String}
use mathlib.Core.Bool.{Bool, true, false, ◌&&◌, ◌||◌}
use mathlib.Core.List.{List, [], ◌∷◌}
use rtmp_rs.Prelude.Tests.{◌==◌, leb, if◌then◌else◌}

-- The bytes of an ASCII text.
abbrev pub codes : String → List ℕ
codes String.[] = []
codes (String.◌∷◌ c s) = code c ∷ codes s

unfoldable pub starts_with : List ℕ → List ℕ → Bool
starts_with s [] = true
starts_with [] (b ∷ part) = false
starts_with (a ∷ s) (b ∷ part) = (a == b) && starts_with s part

-- `contains` on strings.
unfoldable pub contains : List ℕ → List ℕ → Bool
unfolding starts_with
contains [] part = starts_with [] part
contains (a ∷ s) part = starts_with (a ∷ s) part || contains s part

-- `to_lowercase` on the ASCII letters.
unfoldable pub to_lowercase : List ℕ → List ℕ
to_lowercase [] = []
to_lowercase (b ∷ s) = (if leb 65 b && leb b 90 then b + 32 else b) ∷ to_lowercase s
