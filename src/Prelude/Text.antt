-- ===== src/Prelude/Text.antt =====
-- Texts as code points. `str.lower` is written for ASCII, the only part of it that a comparison
-- with the source's ASCII names reads (besides U+212A, the one other character whose lower case
-- is an ASCII letter).
use Prim.Native.Nat.{ℕ, ◌+◌}
use Prim.Native.Char.{code}
use Prim.Native.String.{String}
use mathlib.Core.Path.{◌≡◌, refl}
use mathlib.Core.Bool.{Bool, true, false, ◌&&◌}
use mathlib.Core.List.{List, [], ◌∷◌, map}
use package.cypherast.Prelude.Tests.{◌==◌, leb, if◌then◌else◌}
use text.Mathlib.Text.{◌==◌ as str_eq}

-- The code points of a text.
abbrev pub codes : String → List ℕ
codes String.[] = []
codes (String.◌∷◌ c s) = code c ∷ codes s

abbrev codes_eq : List ℕ → List ℕ → Bool
codes_eq [] [] = true
codes_eq (a ∷ as') (b ∷ bs) = (a == b) && codes_eq as' bs
codes_eq _ _ = false

abbrev lower_code : ℕ → ℕ
lower_code c = if leb b'A' c && leb c b'Z' then c + 32 else if c == 0x212a then b'k' else c

-- s.lower() == name, for a lower-case ASCII `name`.
unfoldable pub lower_eq : String → String → Bool
lower_eq s name = codes_eq (map lower_code (codes s)) (codes name)

-- name in names
unfoldable pub member : String → List String → Bool
member s [] = false
member s (n ∷ ns) = if str_eq s n then true else member s ns

-- s.lower() in names, for lower-case ASCII `names`
unfoldable pub lower_member : String → List String → Bool
unfolding lower_eq
lower_member s [] = false
lower_member s (n ∷ ns) = if lower_eq s n then true else lower_member s ns

lower_eq_mixed : lower_eq "toLower" "tolower" ≡ true
unfolding lower_eq
lower_eq_mixed = refl
