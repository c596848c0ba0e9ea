-- ===== src/Prelude/Text.antt =====
-- Texts as code points, for the operations of `str` that look at characters.
use Prim.Native.Nat.{ℕ, ◌-◌, ◌+◌}
use Prim.Native.Char.{code}
use Prim.Native.String.{String}
use mathlib.Core.Bool.{Bool, true, false, ◌&&◌, ◌||◌}
use mathlib.Core.List.{List, [], ◌∷◌, map}
use abcd_yi.Prelude.Tests.{leb, ◌==◌, if◌then◌else◌}

abbrev pub codes : String → List ℕ
codes String.[] = []
codes (String.◌∷◌ c s) = code c ∷ codes s

pub same_codes : List ℕ → List ℕ → Bool
same_codes [] [] = true
same_codes (a ∷ s) (b ∷ t) = a == b && same_codes s t
same_codes _ _ = false

-- `str.upper` on one character: the ASCII letters, and U+0131, the only other character whose upper
-- case is one ASCII letter of the texts that the program compares with (U+017F, which becomes S,
-- stands beside it).
upper_code : ℕ → ℕ
upper_code c =
    if leb 97 c && leb c 122 then c - 32 else if c == 305 then 73 else if c == 383 then 83 else c

-- `str.lower` on one character: the ASCII letters, and U+212A (KELVIN SIGN), which becomes k.
lower_code : ℕ → ℕ
lower_code c = if leb 65 c && leb c 90 then c + 32 else if c == 8490 then 107 else c

-- `s.upper() == t` and `s.lower() == t`
unfoldable pub upper_is : String → String → Bool
unfolding same_codes upper_code
upper_is s t = same_codes (map upper_code (codes s)) (codes t)

unfoldable pub lower_is : String → String → Bool
unfolding same_codes lower_code
lower_is s t = same_codes (map lower_code (codes s)) (codes t)

-- `s.lower()`, as code points
unfoldable pub lower_codes : String → List ℕ
unfolding lower_code
lower_codes s = map lower_code (codes s)

unfoldable pub starts_with : List ℕ → List ℕ → Bool
starts_with s [] = true
starts_with [] (c ∷ t) = false
starts_with (a ∷ s) (c ∷ t) = a == c && starts_with s t

-- `t in s`
unfoldable pub mentions : List ℕ → List ℕ → Bool
mentions [] t = starts_with [] t
mentions (a ∷ s) t = starts_with (a ∷ s) t || mentions s t

-- What a part that was read so far is put to.
abbrev pub put_first : ℕ → List (List ℕ) → List (List ℕ)
put_first c [] = (c ∷ []) ∷ []
put_first c (part ∷ parts) = (c ∷ part) ∷ parts

-- `s.split(c)` at one character
unfoldable pub split : ℕ → List ℕ → List (List ℕ)
split c [] = [] ∷ []
split c (a ∷ s) = let parts = split c s in if a == c then [] ∷ parts else put_first a parts
