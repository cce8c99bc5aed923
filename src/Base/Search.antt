-- ===== src/Base/Search.antt =====
-- Searching, cutting and trimming texts, as the methods of `str` do.
use Prim.Native.Nat.{ℕ, zero, suc}
use Prim.Native.Char.{Char, code}
use Prim.Native.String.{String, ◌++◌}
use mathlib.Core.Bool.{Bool, true, false, ◌&&◌}
use mathlib.Core.Option.{Option, none, some}
use mathlib.Core.List.{List, [], ◌∷◌}
use zeptopm.Base.Tests.{◌==◌, if◌then◌else◌}
use zeptopm.Base.Names.{is_whitespace}

-- `str::strip_prefix`, the prefix first.
unfoldable pub strip_prefix : String → String → Option String
strip_prefix String.[] s = some s
strip_prefix (String.◌∷◌ p ps) String.[] = none
strip_prefix (String.◌∷◌ p ps) (String.◌∷◌ c s) =
    let rest = strip_prefix ps s in if code p == code c then rest else none

abbrev pub cons_before : Char → Option (String × String) → Option (String × String)
cons_before c none = none
cons_before c (some (before, after)) = some (String.◌∷◌ c before, after)

-- The text before the first occurrence of a pattern and the text after it; `none` if `find` is.
unfoldable pub split_once : String → String → Option (String × String)
split_once pat String.[] = elim (strip_prefix pat "") [
  | some after ↦ some ("", after)
  | none ↦ none
]
split_once pat (String.◌∷◌ c s) =
    let rest = cons_before c (split_once pat s) in
    elim (strip_prefix pat (String.◌∷◌ c s)) [ some after ↦ some ("", after) | none ↦ rest ]

-- The text before the last occurrence of a character and the text after it; `none` if `rfind` is.
unfoldable pub rsplit_once : ℕ → String → Option (String × String)
rsplit_once p String.[] = none
rsplit_once p (String.◌∷◌ c s) = elim (rsplit_once p s) [
  | some (before, after) ↦ some (String.◌∷◌ c before, after)
  | none ↦ if code c == p then some ("", s) else none
]

unfoldable pub trim_start : String → String
trim_start String.[] = String.[]
trim_start (String.◌∷◌ c s) =
    let rest = trim_start s in if is_whitespace (code c) then rest else String.◌∷◌ c s

abbrev pub is_nil : String → Bool
is_nil String.[] = true
is_nil (String.◌∷◌ c s) = false

unfoldable pub trim_end : String → String
trim_end String.[] = String.[]
trim_end (String.◌∷◌ c s) =
    let rest = trim_end s in
    if is_nil rest && is_whitespace (code c) then String.[] else String.◌∷◌ c rest

unfoldable pub trim : String → String
unfolding trim_start trim_end
trim s = trim_end (trim_start s)

-- `s.chars().take(n).collect()`
unfoldable pub take_chars : ℕ → String → String
take_chars zero s = String.[]
take_chars (suc n) String.[] = String.[]
take_chars (suc n) (String.◌∷◌ c s) = String.◌∷◌ c (take_chars n s)

-- `parts.join(separator)`
unfoldable pub join : String → List String → String
join sep [] = ""
join sep (s ∷ []) = s
join sep (s ∷ (t ∷ ts)) = s ++ (sep ++ join sep (t ∷ ts))

-- `s.trim_start_matches(c)`, for a pattern of one character.
unfoldable pub trim_start_matches : String → String → String
trim_start_matches pat String.[] = String.[]
trim_start_matches pat (String.◌∷◌ c s) =
    let rest = trim_start_matches pat s in
    elim (strip_prefix pat (String.◌∷◌ c s)) [ some after ↦ rest | none ↦ String.◌∷◌ c s ]

abbrev pub cons_first : Char → List String → List String
cons_first c [] = String.◌∷◌ c String.[] ∷ []
cons_first c (l ∷ ls) = String.◌∷◌ c l ∷ ls

abbrev pub ends_here : String → Bool
ends_here String.[] = false
ends_here (String.◌∷◌ c s) = code c == 10

-- `s.lines()`: a line ends with `\n` or `\r\n`.
unfoldable pub lines : String → List String
lines String.[] = []
lines (String.◌∷◌ c s) =
    let rest = lines s in
    if code c == 10
    then "" ∷ rest
    else if code c == 13 && ends_here s
    then rest
    else cons_first c rest

-- `s.split(c)` for a character.
unfoldable pub split : ℕ → String → List String
split p String.[] = "" ∷ []
split p (String.◌∷◌ c s) =
    let rest = split p s in if code c == p then "" ∷ rest else cons_first c rest
