-- ===== src/Prelude/Text/Split.antt =====
-- Splitting and joining are inverse where no piece holds the separator.
use Prim.Native.Nat.{ℕ}
use Prim.Native.Char.{Char, code}
use Prim.Native.String.{String, ◌++◌}
use mathlib.Core.Bool.{false}
use mathlib.Core.List.{List, [], ◌∷◌}
use mathlib.Core.Path.{◌≡◌, refl, ap, ◌∙◌}
use native.Mathlib.Omega.{arith}
use text.Mathlib.TextLemmas.{nil-append, cons-append}
use zero_conf_mesh.Prelude.Tests.{eqb, All}
use zero_conf_mesh.Prelude.Text.{contains_char, push_front, split, join}

-- The text lacks the character.
abbrev pub Lacks : ℕ → String → Type 0
Lacks n s = contains_char n s ≡ false

push_front-Lacks :
    (n : ℕ) (c : Char) (pieces : List String)
    → eqb (code c) n ≡ false
    → All (Lacks n) pieces
    → All (Lacks n) (push_front c pieces)
unfolding contains_char
push_front-Lacks n c [] h a = (rw h, tt)
push_front-Lacks n c (s ∷ pieces) h a = (rw h a.0, a.1)

-- No piece of a split holds the separator.
pub split-Lacks : (n : ℕ) (s : String) → All (Lacks n) (split n s)
unfolding split contains_char
split-Lacks n String.[] = (refl, tt)
split-Lacks n (String.◌∷◌ c s) = ground (arith, push_front-Lacks n c (split n s), split-Lacks n s)

-- A text without the separator is one piece.
pub split_of_Lacks : (n : ℕ) (s : String) → Lacks n s → split n s ≡ s ∷ []
unfolding split contains_char
split_of_Lacks n String.[] h = refl
split_of_Lacks n (String.◌∷◌ c s) h = ground (arith, split_of_Lacks n s)

-- The first separator ends the first piece.
pub split-append :
    (sep : Char) (s t : String)
    → Lacks (code sep) s
    → split (code sep) (s ++ String.◌∷◌ sep t) ≡ s ∷ split (code sep) t
unfolding split contains_char
split-append sep String.[] t h = rw nil-append (ground arith)
split-append sep (String.◌∷◌ c s) t h = rw cons-append (ground (arith, split-append sep s t))

pub split-join :
    (sep : Char) (s : String) (pieces : List String)
    → All (Lacks (code sep)) (s ∷ pieces)
    → split (code sep) (join (String.◌∷◌ sep "") (s ∷ pieces)) ≡ s ∷ pieces
unfolding join
split-join sep s [] h = split_of_Lacks (code sep) s h.0
split-join sep s (t ∷ pieces) h =
    rw (cons-append, nil-append)
      (split-append sep s (join (String.◌∷◌ sep "") (t ∷ pieces)) h.0
        ∙ ap (◌∷◌ s) (split-join sep t pieces h.1))
