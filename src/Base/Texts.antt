-- ===== src/Base/Texts.antt =====
-- Python's `str`: `strip`, slices, `in`, `join`. A text is its code points.
use Prim.Native.Char.{code}
use Prim.Native.Nat.{ℕ, zero, suc}
use Prim.Native.String as String
use Prim.Native.String.{String}
use mathlib.Core.Bool.{Bool, true, false, ◌&&◌, ◌||◌}
use mathlib.Core.List.{List, [], ◌∷◌}
use text.Mathlib.Text.{starts_with}
use prd_agent.Base.Tests.{leb, if◌then◌else◌}

-- str.isspace, of one code point
unfoldable pub is_space : ℕ → Bool
is_space c =
    leb 9 c && leb c 13
    || leb 28 c && leb c 32
    || leb 133 c && leb c 133
    || leb 160 c && leb c 160
    || leb 5760 c && leb c 5760
    || leb 8192 c && leb c 8202
    || leb 8232 c && leb c 8233
    || leb 8239 c && leb c 8239
    || leb 8287 c && leb c 8287
    || leb 12288 c && leb c 12288

abbrev pub is_blank : String → Bool
is_blank String.[] = true
is_blank (String.◌∷◌ c s) = false

unfoldable pub lstrip : String → String
unfolding is_space
lstrip String.[] = String.[]
lstrip (String.◌∷◌ c s) = let rest = lstrip s in if is_space (code c) then rest else String.◌∷◌ c s

unfoldable pub rstrip : String → String
unfolding is_space
rstrip String.[] = String.[]
rstrip (String.◌∷◌ c s) =
    let rest = rstrip s in
    if is_blank rest && is_space (code c) then String.[] else String.◌∷◌ c rest

-- s.strip()
unfoldable pub strip : String → String
unfolding lstrip rstrip
strip s = rstrip (lstrip s)

-- s[:n]
unfoldable pub text_take : ℕ → String → String
text_take zero s = String.[]
text_take (suc n) String.[] = String.[]
text_take (suc n) (String.◌∷◌ c s) = String.◌∷◌ c (text_take n s)

-- len(s)
unfoldable pub text_length : String → ℕ
text_length String.[] = 0
text_length (String.◌∷◌ c s) = suc (text_length s)

-- s[n:]
unfoldable pub text_drop : ℕ → String → String
text_drop zero s = s
text_drop (suc n) String.[] = String.[]
text_drop (suc n) (String.◌∷◌ c s) = text_drop n s

-- marker in s
unfoldable pub is_in : String → String → Bool
is_in marker String.[] = is_blank marker
is_in marker (String.◌∷◌ c s) = starts_with (String.◌∷◌ c s) marker || is_in marker s

-- separator.join(parts)
unfoldable pub join : String → List String → String
join separator [] = String.[]
join separator (s ∷ []) = s
join separator (s ∷ t ∷ parts) = String.◌++◌ s (String.◌++◌ separator (join separator (t ∷ parts)))
