-- ===== src/Prelude/Text.antt =====
-- What the crate uses of Rust's `str`: trimming, splitting, joining, lower case.
pub mod Trim
pub mod Split
pub mod Find
use Prim.Native.Nat.{ℕ, ◌-◌}
use Prim.Native.Char.{Char, code}
use Prim.Native.String.{String, ◌++◌, char_at, find, len}
use mathlib.Core.Bool.{Bool, true, false, not, ◌&&◌, ◌||◌}
use mathlib.Core.Option.{Option, none, some}
use mathlib.Core.List.{List, [], ◌∷◌}
use mathlib.Core.Path.{◌≡◌, refl}
use text.Mathlib.Text.{◌==◌}
use zero_conf_mesh.Prelude.Tests.{leb, eqb, ltb, if◌then◌else◌}

-- `char::is_whitespace`: the Unicode property White_Space.
abbrev pub is_whitespace : Char → Bool
is_whitespace ch =
    let c = code ch in
    (leb 9 c && leb c 13)
    || eqb c 32
    || eqb c 0x85
    || eqb c 0xa0
    || eqb c 0x1680
    || (leb 0x2000 c && leb c 0x200a)
    || eqb c 0x2028
    || eqb c 0x2029
    || eqb c 0x202f
    || eqb c 0x205f
    || eqb c 0x3000

abbrev pub is_empty : String → Bool
is_empty String.[] = true
is_empty (String.◌∷◌ _ _) = false

-- `trim_start_matches(drop)`, `trim_end_matches(drop)` and `trim_matches(drop)`, for a test on characters.
module _ (drop : Char → Bool) where
  unfoldable pub trim_start_matches : String → String
  trim_start_matches String.[] = ""
  trim_start_matches (String.◌∷◌ c s) =
      let rest = trim_start_matches s in if drop c then rest else String.◌∷◌ c s

  -- The character in front of what is left of the text behind it.
  unfoldable pub trim_end_cons : Char → String → String
  trim_end_cons c String.[] = if drop c then "" else String.◌∷◌ c ""
  trim_end_cons c (String.◌∷◌ d s) = String.◌∷◌ c (String.◌∷◌ d s)

  unfoldable pub trim_end_matches : String → String
  unfolding trim_end_cons
  trim_end_matches String.[] = ""
  trim_end_matches (String.◌∷◌ c s) = trim_end_cons c (trim_end_matches s)

  unfoldable pub trim_matches : String → String
  unfolding trim_start_matches trim_end_matches
  trim_matches s = trim_end_matches (trim_start_matches s)

unfoldable pub trim : String → String
unfolding trim_matches
trim s = trim_matches is_whitespace s

unfoldable pub trim_end : String → String
unfolding trim_end_matches
trim_end s = trim_end_matches is_whitespace s

unfoldable pub trim_start : String → String
unfolding trim_start_matches
trim_start s = trim_start_matches is_whitespace s

-- `contains(c)`, `find(c)` for a character, given by its number.
unfoldable pub contains_char : ℕ → String → Bool
contains_char n String.[] = false
contains_char n (String.◌∷◌ c s) = eqb (code c) n || contains_char n s

-- `split(c)`: always one piece more than there are separators.
abbrev pub push_front : Char → List String → List String
push_front c [] = String.◌∷◌ c "" ∷ []
push_front c (s ∷ pieces) = String.◌∷◌ c s ∷ pieces

unfoldable pub split : ℕ → String → List String
split n String.[] = "" ∷ []
split n (String.◌∷◌ c s) =
    let pieces = split n s in if eqb (code c) n then "" ∷ pieces else push_front c pieces

-- `split_once(c)`
unfoldable pub split_once : ℕ → String → Option (String × String)
split_once n String.[] = none
split_once n (String.◌∷◌ c s) =
    let later = split_once n s in
    if eqb (code c) n
    then some ("", s)
    else elim later [ none ↦ none | some (a, b) ↦ some (String.◌∷◌ c a, b) ]

-- `join(sep)`
unfoldable pub join : String → List String → String
join sep [] = ""
join sep (s ∷ []) = s
join sep (s ∷ t ∷ rest) = s ++ (sep ++ join sep (t ∷ rest))

-- `to_ascii_lowercase` of a character and of a text.
abbrev pub is_ascii_uppercase : Char → Bool
is_ascii_uppercase c = leb b'A' (code c) && leb (code c) b'Z'

unfoldable pub to_ascii_lowercase_char : Char → Char
to_ascii_lowercase_char c =
    if is_ascii_uppercase c then char_at "abcdefghijklmnopqrstuvwxyz" (code c - b'A') else c

unfoldable pub to_ascii_lowercase : String → String
unfolding to_ascii_lowercase_char
to_ascii_lowercase String.[] = ""
to_ascii_lowercase (String.◌∷◌ c s) = String.◌∷◌ (to_ascii_lowercase_char c) (to_ascii_lowercase s)

-- `ends_with(t)`, and `contains(t)` for a text.
unfoldable pub ends_with : String → String → Bool
ends_with String.[] t = "" == t
ends_with (String.◌∷◌ c s) t = String.◌∷◌ c s == t || ends_with s t

unfoldable pub contains : String → String → Bool
contains s t = leb (find s t) (len s)
