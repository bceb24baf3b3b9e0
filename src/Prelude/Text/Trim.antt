-- ===== src/Prelude/Text/Trim.antt =====
-- Trimming: what is left neither begins nor ends with a dropped character, and is not trimmed again.
use Prim.Native.Nat.{ℕ}
use Prim.Native.Char.{Char}
use Prim.Native.String.{String, ◌++◌}
use mathlib.Core.Bool.{Bool, false}
use mathlib.Core.Path.{◌≡◌, refl, ap, ◌∙◌, subst}
use mathlib.Core.Logic.{inl, inr}
use native.Mathlib.Omega.{arith}
use text.Mathlib.TextLemmas.{nil-append, cons-append}
use zero_conf_mesh.Prelude.Tests.{Bool-cases}
use zero_conf_mesh.Prelude.Text.{
  is_whitespace, is_empty, trim_start_matches, trim_end_cons, trim_end_matches, trim_matches, trim,
  contains_char,
}

module _ (drop : Char → Bool) where
  abbrev pub StartsClean : String → Type 0
  StartsClean String.[] = Unit
  StartsClean (String.◌∷◌ c s) = drop c ≡ false

  pub trim_start_matches-StartsClean : (s : String) → StartsClean (trim_start_matches drop s)
  unfolding trim_start_matches
  trim_start_matches-StartsClean String.[] = tt
  trim_start_matches-StartsClean (String.◌∷◌ c s) = ground (arith, trim_start_matches-StartsClean s)

  pub trim_start_matches_of_StartsClean :
      (s : String) → StartsClean s → trim_start_matches drop s ≡ s
  unfolding trim_start_matches
  trim_start_matches_of_StartsClean String.[] h = refl
  trim_start_matches_of_StartsClean (String.◌∷◌ c s) h = rw h

  trim_end_cons-StartsClean :
      (c : Char) (s : String) → drop c ≡ false → StartsClean (trim_end_cons drop c s)
  unfolding trim_end_cons
  trim_end_cons-StartsClean c String.[] h = rw h h
  trim_end_cons-StartsClean c (String.◌∷◌ d s) h = h

  trim_end_matches-StartsClean :
      (s : String) → StartsClean s → StartsClean (trim_end_matches drop s)
  unfolding trim_end_matches
  trim_end_matches-StartsClean String.[] h = tt
  trim_end_matches-StartsClean (String.◌∷◌ c s) h =
      trim_end_cons-StartsClean c (trim_end_matches drop s) h

  trim_end_cons_idem :
      (c : Char) (s : String)
      → trim_end_matches drop s ≡ s
      → trim_end_matches drop (trim_end_cons drop c s) ≡ trim_end_cons drop c s
  unfolding trim_end_matches
  trim_end_cons_idem c String.[] h = elim (Bool-cases (drop c)) [
    | inl e ↦ rw e refl
    | inr e ↦ rw e (rw e refl)
  ]
  trim_end_cons_idem c (String.◌∷◌ d s) h = ap (trim_end_cons drop c) h

  pub trim_end_matches_idem :
      (s : String) → trim_end_matches drop (trim_end_matches drop s) ≡ trim_end_matches drop s
  unfolding trim_end_matches
  trim_end_matches_idem String.[] = refl
  trim_end_matches_idem (String.◌∷◌ c s) =
      trim_end_cons_idem c (trim_end_matches drop s) (trim_end_matches_idem s)

  -- Trimming twice is trimming once.
  pub trim_matches_idem :
      (s : String) → trim_matches drop (trim_matches drop s) ≡ trim_matches drop s
  unfolding trim_matches
  trim_matches_idem s =
      ap (trim_end_matches drop) (
        trim_start_matches_of_StartsClean (trim_matches drop s) (
          trim_end_matches-StartsClean (trim_start_matches drop s)
            (trim_start_matches-StartsClean s)))
      ∙ trim_end_matches_idem (trim_start_matches drop s)

  -- A character that the text lacks is not in what is left of it.
  contains_char-trim_start_matches :
      (n : ℕ) (s : String)
      → contains_char n s ≡ false
      → contains_char n (trim_start_matches drop s) ≡ false
  unfolding trim_start_matches contains_char
  contains_char-trim_start_matches n String.[] h = refl
  contains_char-trim_start_matches n (String.◌∷◌ c s) h =
      ground (arith, contains_char-trim_start_matches n s)

  contains_char-trim_end_cons :
      (n : ℕ) (c : Char) (s : String)
      → contains_char n (String.◌∷◌ c s) ≡ false
      → contains_char n (trim_end_cons drop c s) ≡ false
  unfolding trim_end_cons contains_char
  contains_char-trim_end_cons n c String.[] h = elim (Bool-cases (drop c)) [
    | inl e ↦ rw e refl
    | inr e ↦ rw e h
  ]
  contains_char-trim_end_cons n c (String.◌∷◌ d s) h = h

  contains_char-trim_end_matches :
      (n : ℕ) (s : String)
      → contains_char n s ≡ false
      → contains_char n (trim_end_matches drop s) ≡ false
  unfolding trim_end_matches contains_char
  contains_char-trim_end_matches n String.[] h = refl
  contains_char-trim_end_matches n (String.◌∷◌ c s) h =
      contains_char-trim_end_cons n c (trim_end_matches drop s)
        (ground (arith, contains_char-trim_end_matches n s))

pub trim_idem : (s : String) → trim (trim s) ≡ trim s
unfolding trim
trim_idem s = trim_matches_idem is_whitespace s

pub contains_char-trim :
    (n : ℕ) (s : String) → contains_char n s ≡ false → contains_char n (trim s) ≡ false
unfolding trim
contains_char-trim n s h =
    contains_char-trim_end_matches is_whitespace n (trim_start_matches is_whitespace s)
      (contains_char-trim_start_matches is_whitespace n s h)

-- A text that trimming leaves alone, and one that it leaves alone and that is not empty.
trimmed-StartsClean : (s : String) → trim s ≡ s → StartsClean is_whitespace s
unfolding trim trim_matches
trimmed-StartsClean s h = subst (StartsClean is_whitespace) h (
    trim_end_matches-StartsClean is_whitespace (trim_start_matches is_whitespace s)
      (trim_start_matches-StartsClean is_whitespace s))

trimmed_end : (s : String) → trim s ≡ s → trim_end_matches is_whitespace s ≡ s
unfolding trim trim_matches
trimmed_end s h =
    subst (λ t. trim_end_matches is_whitespace t ≡ t) h
      (trim_end_matches_idem is_whitespace (trim_start_matches is_whitespace s))

pub is_empty-append : (s t : String) → is_empty t ≡ false → is_empty (s ++ t) ≡ false
is_empty-append String.[] t h = rw nil-append h
is_empty-append (String.◌∷◌ c s) t h = rw cons-append refl

trim_end_cons-filled :
    (c : Char) (s : String) → is_empty s ≡ false → trim_end_cons is_whitespace c s ≡ String.◌∷◌ c s
unfolding trim_end_cons
trim_end_cons-filled c String.[] h = cc
trim_end_cons-filled c (String.◌∷◌ d s) h = refl

pub trim_end_matches-append :
    (s t : String)
    → is_empty t ≡ false
    → trim_end_matches is_whitespace t ≡ t
    → trim_end_matches is_whitespace (s ++ t) ≡ s ++ t
unfolding trim_end_matches
trim_end_matches-append String.[] t f h = rw nil-append h
trim_end_matches-append (String.◌∷◌ c s) t f h = rw cons-append (
    ap (trim_end_cons is_whitespace c) (trim_end_matches-append s t f h)
    ∙ trim_end_cons-filled c (s ++ t) (is_empty-append s t f))

pub StartsClean-append :
    (s t : String)
    → is_empty s ≡ false
    → StartsClean is_whitespace s
    → StartsClean is_whitespace (s ++ t)
StartsClean-append String.[] t f h = cc
StartsClean-append (String.◌∷◌ c s) t f h = rw cons-append h

-- Nothing is trimmed off a text whose two ends are those of texts that are trimmed already.
pub trim-append :
    (s m t : String)
    → trim s ≡ s
    → is_empty s ≡ false
    → trim t ≡ t
    → is_empty t ≡ false
    → trim (s ++ (m ++ t)) ≡ s ++ (m ++ t)
unfolding trim trim_matches
trim-append s m t hs fs ht ft =
    ap (trim_end_matches is_whitespace) (
      trim_start_matches_of_StartsClean is_whitespace (s ++ (m ++ t))
        (StartsClean-append s (m ++ t) fs (trimmed-StartsClean s hs)))
    ∙ trim_end_matches-append s (m ++ t) (is_empty-append m t ft)
        (trim_end_matches-append m t ft (trimmed_end t ht))
