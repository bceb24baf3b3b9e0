-- ===== src/Prelude/Text/Find.antt =====
-- `find(pattern)` for a text, and the slices at what it finds. Positions count characters; Rust
-- counts bytes, and a comparison of two positions, or a slice at one, is the same.
use Prim.Native.Nat.{ℕ, zero, suc, ◌+◌, ◌≤◌}
use Prim.Native.Char.{Char, code}
use Prim.Native.String.{String, ◌++◌}
use mathlib.Core.Bool.{Bool, true, false, ◌&&◌}
use mathlib.Core.Option.{Option, none, some}
use mathlib.Core.Path.{◌≡◌, refl, ap}
use mathlib.Core.Logic.{inl, inr}
use native.Mathlib.Omega.{arith}
use text.Mathlib.TextLemmas.{nil-append, cons-append}
use zero_conf_mesh.Prelude.Tests.{if◌then◌else◌, eqb, Bool-cases, Option-cases}
use zero_conf_mesh.Prelude.Text.{is_empty, contains_char}

-- Number of characters.
unfoldable pub length : String → ℕ
length String.[] = 0
length (String.◌∷◌ c s) = suc (length s)

-- `text.starts_with(pattern)`, with the pattern first.
unfoldable pub begins : String → String → Bool
begins String.[] s = true
begins (String.◌∷◌ d t) String.[] = false
begins (String.◌∷◌ d t) (String.◌∷◌ c s) = eqb (code d) (code c) && begins t s

abbrev pub later : Option ℕ → Option ℕ
later none = none
later (some i) = some (suc i)

-- `text.find(pattern)`, with the pattern first.
unfoldable pub find : String → String → Option ℕ
unfolding begins
find t String.[] = if begins t "" then some 0 else none
find t (String.◌∷◌ c s) =
    let rest = find t s in if begins t (String.◌∷◌ c s) then some 0 else later rest

-- `text[..n]` and `text[n..]`
unfoldable pub take : ℕ → String → String
take zero s = ""
take (suc n) String.[] = ""
take (suc n) (String.◌∷◌ c s) = String.◌∷◌ c (take n s)

unfoldable pub drop : ℕ → String → String
drop zero s = s
drop (suc n) String.[] = ""
drop (suc n) (String.◌∷◌ c s) = drop n s

pub length-append : (s t : String) → length (s ++ t) ≡ length s + length t
unfolding length
length-append String.[] t = rw nil-append (omega arith)
length-append (String.◌∷◌ c s) t = rw cons-append (omega (arith, length-append s t))

pub take-append : (s t : String) → take (length s) (s ++ t) ≡ s
unfolding take length
take-append String.[] t = refl
take-append (String.◌∷◌ c s) t = rw cons-append (ap (String.◌∷◌ c) (take-append s t))

pub drop-append : (s t : String) → drop (length s) (s ++ t) ≡ t
unfolding drop length
drop-append String.[] t = nil-append t
drop-append (String.◌∷◌ c s) t = rw cons-append (drop-append s t)

pub begins_self : (t x : String) → begins t (t ++ x) ≡ true
unfolding begins
begins_self String.[] x = refl
begins_self (String.◌∷◌ d t) x = rw cons-append (ground (arith, begins_self t x))

-- A longer text begins as a shorter one does.
pub begins-append : (t s x : String) → begins t s ≡ true → begins t (s ++ x) ≡ true
unfolding begins
begins-append String.[] s x h = refl
begins-append (String.◌∷◌ d t) String.[] x h = cc
begins-append (String.◌∷◌ d t) (String.◌∷◌ c s) x h =
    rw cons-append (ground (arith, begins-append t s x))

begins-take : (t s : String) (n : ℕ) → begins t (take n s) ≡ true → begins t s ≡ true
unfolding begins take
begins-take String.[] s n h = refl
begins-take (String.◌∷◌ d t) s zero h = cc
begins-take (String.◌∷◌ d t) String.[] (suc n) h = cc
begins-take (String.◌∷◌ d t) (String.◌∷◌ c s) (suc n) h = ground (arith, begins-take t s n)

-- A pattern that lacks a character does not reach over it.
begins_before :
    (sep : Char) (t s x : String)
    → contains_char (code sep) t ≡ false
    → is_empty t ≡ false
    → begins t (s ++ String.◌∷◌ sep x) ≡ begins t s
unfolding begins contains_char
begins_before sep String.[] s x l f = cc
begins_before sep (String.◌∷◌ d t) String.[] x l f = rw nil-append (ground arith)
begins_before sep (String.◌∷◌ d String.[]) (String.◌∷◌ c s) x l f = rw cons-append refl
begins_before sep (String.◌∷◌ d (String.◌∷◌ e t)) (String.◌∷◌ c s) x l f =
    rw cons-append (ground (arith, begins_before sep (String.◌∷◌ e t) s x))

-- The position, after a text of so many characters.
abbrev pub shifted : ℕ → Option ℕ → Option ℕ
shifted zero o = o
shifted (suc n) o = later (shifted n o)

pub find-append_sep :
    (sep : Char) (t s x : String)
    → contains_char (code sep) t ≡ false
    → is_empty t ≡ false
    → find t s ≡ none
    → find t (s ++ String.◌∷◌ sep x) ≡ shifted (suc (length s)) (find t x)
unfolding find length
find-append_sep sep t String.[] x l f h =
    rw nil-append (ground (arith, begins_before sep t "" x l f, nil-append (String.◌∷◌ sep x)))
find-append_sep sep t (String.◌∷◌ c s) x l f h = rw cons-append (
    ground (
      arith,
      begins_before sep t (String.◌∷◌ c s) x l f,
      cons-append c s (String.◌∷◌ sep x),
      find-append_sep sep t s x l f,
    ))

pub begins_within : (t s x : String) → length t ≤ length s → begins t (s ++ x) ≡ begins t s
unfolding begins length
begins_within String.[] s x h = refl
begins_within (String.◌∷◌ d t) String.[] x h = absurd (omega (arith, h))
begins_within (String.◌∷◌ d t) (String.◌∷◌ c s) x h =
    rw (cons-append, begins_within t s x (omega (arith, h))) refl

begins-fits : (t s : String) → begins t s ≡ true → length t ≤ length s
unfolding begins length
begins-fits String.[] s h = omega arith
begins-fits (String.◌∷◌ d t) String.[] h = cc
begins-fits (String.◌∷◌ d t) (String.◌∷◌ c s) h = ground (arith, begins-fits t s)

find-fits : (t s : String) {i : ℕ} → find t s ≡ some i → length t ≤ length s
unfolding find length
find-fits t String.[] h = ground (arith, begins-fits t "")
find-fits t (String.◌∷◌ c s) h = elim (Bool-cases (begins t (String.◌∷◌ c s))) [
  | inl e ↦ begins-fits t (String.◌∷◌ c s) e
  | inr e ↦ elim (Option-cases (find t s)) [
    | inl n ↦ absurd (ground (arith, e, n, h))
    | inr (j, f) ↦ omega (arith, find-fits t s f)
  ]
]

begins_empty : (t : String) → begins t "" ≡ true → t ≡ ""
unfolding begins
begins_empty String.[] h = refl
begins_empty (String.◌∷◌ d t) h = cc

find_empty : (x : String) → find "" x ≡ some 0
unfolding find begins
find_empty String.[] = refl
find_empty (String.◌∷◌ c x) = refl

-- What is found in a text is found there in a longer one.
pub find-append : (t s x : String) {i : ℕ} → find t s ≡ some i → find t (s ++ x) ≡ some i
unfolding find length
find-append t String.[] x h =
    let e : begins t "" ≡ true = ground arith in
    rw (nil-append) (ground (arith, begins-append t "" x e, begins_empty t e, find_empty x))
find-append t (String.◌∷◌ c s) x h = elim (Bool-cases (begins t (String.◌∷◌ c s))) [
  | inl e ↦ rw cons-append (ground (arith, begins-append t (String.◌∷◌ c s) x e, cons-append c s x))
  | inr e ↦ elim (Option-cases (find t s)) [
    | inl n ↦ absurd (ground (arith, e, n, h))
    | inr (j, f) ↦
        let fits = find-fits t s f in
        rw cons-append (
          ground (
            arith,
            cons-append c s x,
            e,
            f,
            find-append t s x f,
            begins_within t (String.◌∷◌ c s) x (omega (arith, fits)),
          ))
  ]
]

pub find_begins : (t s : String) → begins t s ≡ true → find t s ≡ some 0
unfolding find
find_begins t String.[] h = rw h refl
find_begins t (String.◌∷◌ c s) h = rw h refl

-- A pattern does not begin with a character that it lacks.
pub begins_lacking :
    (c : Char) (t s : String)
    → contains_char (code c) t ≡ false
    → is_empty t ≡ false
    → begins t (String.◌∷◌ c s) ≡ false
unfolding begins contains_char
begins_lacking c String.[] s l f = cc
begins_lacking c (String.◌∷◌ d t) s l f = ground arith

pub shifted-some : (n k : ℕ) → shifted n (some k) ≡ some (n + k)
shifted-some zero k = ground arith
shifted-some (suc n) k = rw (shifted-some n k) (ground arith)

begins_nil : (t : String) → is_empty t ≡ false → begins t "" ≡ false
unfolding begins
begins_nil String.[] f = cc
begins_nil (String.◌∷◌ d t) f = refl

begins_false-take : (t s : String) (n : ℕ) → begins t s ≡ false → begins t (take n s) ≡ false
begins_false-take t s n h = elim (Bool-cases (begins t (take n s))) [
  | inl e ↦ absurd (ground (arith, begins-take t s n e))
  | inr e ↦ e
]

-- Nothing is found before the place where it is found first.
pub find-take_before :
    (t s : String) (n : ℕ) {j : ℕ}
    → is_empty t ≡ false
    → find t s ≡ some j
    → n ≤ j
    → find t (take n s) ≡ none
unfolding find take
find-take_before t s zero f h l = rw (begins_nil t f) refl
find-take_before t String.[] (suc n) f h l = rw (begins_nil t f) refl
find-take_before t (String.◌∷◌ c s) (suc n) {j} f h l =
    elim (Bool-cases (begins t (String.◌∷◌ c s))) [
      | inl e ↦ absurd (ground (arith, e, h, l))
      | inr e ↦ elim (Option-cases (find t s)) [
        | inl g ↦ absurd (ground (arith, e, g, h))
        | inr (k, g) ↦
            let le : n ≤ k = ground (arith, e, g, h, l) in
            rw (begins_false-take t (String.◌∷◌ c s) (suc n) e, find-take_before t s n f g le) refl
      ]
    ]

-- What a text lacks, its beginnings lack.
pub find-prefix : (t s x : String) → find t (s ++ x) ≡ none → find t s ≡ none
find-prefix t s x h = elim (Option-cases (find t s)) [
  | inl e ↦ e
  | inr (i, e) ↦ absurd (ground (arith, find-append t s x e, h))
]
