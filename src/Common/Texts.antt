-- ===== src/Common/Texts.antt =====
-- Messages put together by `format!`.
use Prim.Native.Char.{code}
use Prim.Native.String.{String, [], ◌∷◌, ◌++◌}
use Prim.Native.Nat.{ℕ, ◌+◌}
use mathlib.Core.Option.{Option, none, some}
use mathlib.Core.Bool.{Bool, false, ◌||◌, ◌&&◌}
use mathlib.Core.List.{List}
use acp_tunnel.Common.Tests.{◌==◌, leb, if◌then◌else◌}

abbrev pub format : List String → String
format List.[] = ""
format (List.◌∷◌ s r) = s ++ format r

-- `{:?}` of a text; the escapes inside the quotation marks are left out.
abbrev pub quoted : String → String
quoted s = "\"" ++ (s ++ "\"")

-- `contains` of a character, by its code point.
unfoldable pub contains_char : ℕ → String → Bool
contains_char n [] = false
contains_char n (c ∷ s) = (code c == n) || contains_char n s

unfoldable pub is_blank : String → Bool
is_blank [] = Bool.true
is_blank (c ∷ s) = false

-- `starts_with` and `contains` of a text.
unfoldable pub starts_with : String → String → Bool
starts_with [] s = Bool.true
starts_with (c ∷ p) [] = false
starts_with (c ∷ p) (d ∷ s) = (code c == code d) && starts_with p s

unfoldable pub contains_text : String → String → Bool
contains_text p [] = starts_with p []
contains_text p (c ∷ s) = starts_with p (c ∷ s) || contains_text p s

unfoldable pub any_char : (ℕ → Bool) → String → Bool
any_char p [] = false
any_char p (c ∷ s) = p (code c) || any_char p s

-- `split_once(' ')`
unfoldable pub split_once_space : String → Option (String × String)
split_once_space [] = Option.none
split_once_space (c ∷ s) =
    if code c == 32
    then Option.some ("", s)
    else elim (split_once_space s) [ none ↦ Option.none | some (a, b) ↦ Option.some (c ∷ a, b) ]

-- `eq_ignore_ascii_case`
unfoldable pub equals_ignore_case : String → String → Bool
equals_ignore_case [] [] = Bool.true
equals_ignore_case [] (d ∷ t) = false
equals_ignore_case (c ∷ s) [] = false
equals_ignore_case (c ∷ s) (d ∷ t) = (lower (code c) == lower (code d)) && equals_ignore_case s t
  where
    lower : ℕ → ℕ
    lower n = if leb 65 n && leb n 90 then n + 32 else n

-- `strip_suffix`
unfoldable pub same_text : String → String → Bool
same_text [] [] = Bool.true
same_text [] (d ∷ t) = false
same_text (c ∷ s) [] = false
same_text (c ∷ s) (d ∷ t) = (code c == code d) && same_text s t

unfoldable pub strip_suffix : String → String → Option String
strip_suffix suffix [] = if same_text suffix [] then Option.some "" else Option.none
strip_suffix suffix (c ∷ s) =
    if same_text suffix (c ∷ s)
    then Option.some ""
    else elim (strip_suffix suffix s) [ none ↦ Option.none | some start ↦ Option.some (c ∷ start) ]
