-- ===== src/Documents/Texte.antt =====
-- `!s?.trim()`: the text is absent, or all white space in the sense of ECMAScript.
use Prim.Native.Char.{code}
use Prim.Native.String.{String, [], ◌∷◌}
use budget_backend.Base.{ℕ, Option, none, some, Bool, true, ◌&&◌, ◌||◌, ◌==◌, leb}

abbrev is_space_code : ℕ → Bool
is_space_code n =
    (leb 9 n && leb n 13)
    || (n == 32)
    || (n == 160)
    || (n == 5760)
    || (leb 8192 n && leb n 8202)
    || (n == 8232)
    || (n == 8233)
    || (n == 8239)
    || (n == 8287)
    || (n == 12288)
    || (n == 65279)

abbrev is_blank : String → Bool
is_blank [] = true
is_blank (c ∷ s) = is_space_code (code c) && is_blank s

unfoldable pub is_blank_or_absent : Option String → Bool
is_blank_or_absent none = true
is_blank_or_absent (some s) = is_blank s
