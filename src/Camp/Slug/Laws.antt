-- ===== src/Camp/Slug/Laws.antt =====
-- What slugs look like.
use Prim.Native.String.{char_at}
use mathlib.Core.Path.{subst}
use text.Mathlib.TextEquality.{Char-path}
use zero_conf_mesh.Prelude.{
  ℕ, zero, suc, ◌-◌, ◌<◌, String, Char, code, Bool, true, false, not, ◌&&◌, ◌||◌, ◌≡◌, ◌↔◌, refl,
  sym, ap, arith, if◌then◌else◌, leb, eqb, eqb_iff, Bool-cases, ◌⊎◌, inl, inr,
}
use zero_conf_mesh.Prelude.Text.{
  is_ascii_uppercase, to_ascii_lowercase_char, trim_start_matches, trim_end_cons, trim_end_matches,
  trim_matches,
}
use zero_conf_mesh.Camp.Slug.{is_ascii_alphanumeric, is_dash, slug_of, or_default, slugify}

-- A digit or a lower case letter.
abbrev pub is_slug_char : Char → Bool
is_slug_char c =
    (leb b'0' (code c) && leb (code c) b'9') || (leb b'a' (code c) && leb (code c) b'z')

-- Words of such characters, at least one, joined by single dashes.
unfoldable pub is_slug_from : Bool → String → Bool
is_slug_from after_dash String.[] = not after_dash
is_slug_from after_dash (String.◌∷◌ c s) =
    let in_word = is_slug_from false s in
    let next_word = is_slug_from true s in
    if is_slug_char c then in_word else is_dash c && not after_dash && next_word

unfoldable pub is_slug : String → Bool
unfolding is_slug_from
is_slug s = is_slug_from true s

all_below : ℕ → (ℕ → Bool) → Bool
all_below zero test = true
all_below (suc n) test = test n && all_below n test

all_below_elim : (n k : ℕ) (test : ℕ → Bool) → all_below n test ≡ true → k < n → test k ≡ true
unfolding all_below
all_below_elim zero k test h l = absurd (omega (arith, l))
all_below_elim (suc n) k test h l = elim (Bool-cases (eqb k n)) [
  | inl e ↦ let same : k ≡ n = (eqb_iff k n).0 e in rw same (ground arith)
  | inr e ↦ all_below_elim n k test (ground arith) (ground arith)
]

letters : all_below 26 (λ k. is_slug_char (char_at "abcdefghijklmnopqrstuvwxyz" k)) ≡ true
unfolding all_below
letters = refl

lower-is_slug_char :
    (c : Char)
    → is_ascii_alphanumeric (to_ascii_lowercase_char c) ≡ true
    → is_slug_char (to_ascii_lowercase_char c) ≡ true
unfolding to_ascii_lowercase_char
lower-is_slug_char c h = elim (Bool-cases (is_ascii_uppercase c)) [
  | inl e ↦ rw e (
      all_below_elim 26 (code c - b'A') (λ k. is_slug_char (char_at "abcdefghijklmnopqrstuvwxyz" k))
        letters (ground arith))
  | inr e ↦ rw e (ground arith)
]

lower_slug_char : (c : Char) → is_slug_char c ≡ true → to_ascii_lowercase_char c ≡ c
unfolding to_ascii_lowercase_char
lower_slug_char c h = elim (Bool-cases (is_ascii_uppercase c)) [
  | inl e ↦ absurd (ground arith)
  | inr e ↦ rw e refl
]

-- The loop's text: a slug but for dashes at its ends.
abbrev Loose : Bool → String → Type 0
Loose after_dash String.[] = Unit
Loose after_dash (String.◌∷◌ c s) =
    ((is_slug_char c ≡ true) × Loose false s)
    ⊎ ((is_dash c ≡ true) × (after_dash ≡ false) × Loose true s)

slug_of-Loose : (after_dash : Bool) (s : String) → Loose after_dash (slug_of after_dash s)
unfolding slug_of
slug_of-Loose after_dash String.[] = tt
slug_of-Loose true (String.◌∷◌ c s) =
    elim (Bool-cases (is_ascii_alphanumeric (to_ascii_lowercase_char c))) [
      | inl e ↦ rw e (inl (lower-is_slug_char c e, slug_of-Loose false s))
      | inr e ↦ rw e (slug_of-Loose true s)
    ]
slug_of-Loose false (String.◌∷◌ c s) =
    elim (Bool-cases (is_ascii_alphanumeric (to_ascii_lowercase_char c))) [
      | inl e ↦ rw e (inl (lower-is_slug_char c e, slug_of-Loose false s))
      | inr e ↦ rw e (inr (refl, refl, slug_of-Loose true s))
    ]

slug_char_no_dash : (c : Char) → is_slug_char c ≡ true → is_dash c ≡ false
slug_char_no_dash c h = ground arith

trim_start-Loose :
    (after_dash : Bool) (s : String)
    → Loose after_dash s
    → Loose true (trim_start_matches is_dash s)
unfolding trim_start_matches
trim_start-Loose after_dash String.[] h = tt
trim_start-Loose after_dash (String.◌∷◌ c s) (inl (e, h)) = rw (slug_char_no_dash c e) (inl (e, h))
trim_start-Loose after_dash (String.◌∷◌ c s) (inr (e, f, h)) = rw e (trim_start-Loose true s h)

-- What is left once the dashes at the end are gone too.
trim_end_cons-is_slug :
    (after_dash : Bool) (c : Char) (s : String)
    → ((is_slug_char c ≡ true) × ((s ≡ "") ⊎ (is_slug_from false s ≡ true)))
      ⊎ ((is_dash c ≡ true) × (after_dash ≡ false) × ((s ≡ "") ⊎ (is_slug_from true s ≡ true)))
    → (trim_end_cons is_dash c s ≡ "")
      ⊎ (is_slug_from after_dash (trim_end_cons is_dash c s) ≡ true)
unfolding trim_end_cons is_slug_from
trim_end_cons-is_slug after_dash c String.[] (inl (e, h)) =
    inr (rw (slug_char_no_dash c e) (rw e refl))
trim_end_cons-is_slug after_dash c String.[] (inr (e, f, h)) = inl (rw e refl)
trim_end_cons-is_slug after_dash c (String.◌∷◌ d s) (inl (e, inl h)) = absurd cc
trim_end_cons-is_slug after_dash c (String.◌∷◌ d s) (inl (e, inr h)) = inr (rw e h)
trim_end_cons-is_slug after_dash c (String.◌∷◌ d s) (inr (e, f, inl h)) = absurd cc
trim_end_cons-is_slug after_dash c (String.◌∷◌ d s) (inr (e, f, inr h)) = inr (ground arith)

trim_end-is_slug :
    (after_dash : Bool) (s : String)
    → Loose after_dash s
    → (trim_end_matches is_dash s ≡ "")
      ⊎ (is_slug_from after_dash (trim_end_matches is_dash s) ≡ true)
unfolding trim_end_matches
trim_end-is_slug after_dash String.[] h = inl refl
trim_end-is_slug after_dash (String.◌∷◌ c s) (inl (e, h)) =
    trim_end_cons-is_slug after_dash c (trim_end_matches is_dash s)
      (inl (e, trim_end-is_slug false s h))
trim_end-is_slug after_dash (String.◌∷◌ c s) (inr (e, f, h)) =
    trim_end_cons-is_slug after_dash c (trim_end_matches is_dash s)
      (inr (e, f, trim_end-is_slug true s h))

or_default-is_slug :
    (s : String) → (s ≡ "") ⊎ (is_slug s ≡ true) → is_slug (or_default "camp-agent" s) ≡ true
unfolding is_slug
or_default-is_slug String.[] h = refl
or_default-is_slug (String.◌∷◌ c s) (inl h) = absurd cc
or_default-is_slug (String.◌∷◌ c s) (inr h) = h

pub slugify-is_slug : (value : String) → is_slug (slugify value) ≡ true
unfolding slugify trim_matches is_slug
slugify-is_slug value = or_default-is_slug (trim_matches is_dash (slug_of false value)) (
    trim_end-is_slug true (trim_start_matches is_dash (slug_of false value))
      (trim_start-Loose false (slug_of false value) (slug_of-Loose false value)))

-- A slug begins with a character of a word, or with a dash that may stand there.
pub is_slug-cases :
    (after_dash : Bool) (c : Char) (s : String)
    → is_slug_from after_dash (String.◌∷◌ c s) ≡ true
    → ((is_slug_char c ≡ true) × (is_slug_from false s ≡ true))
      ⊎ ((is_dash c ≡ true) × (after_dash ≡ false) × (is_slug_from true s ≡ true))
unfolding is_slug_from
is_slug-cases true c s h = elim (Bool-cases (is_slug_char c)) [
  | inl e ↦ inl (e, ground arith)
  | inr e ↦ absurd (ground arith)
]
is_slug-cases false c s h = elim (Bool-cases (is_slug_char c)) [
  | inl e ↦ inl (e, ground arith)
  | inr e ↦ inr (ground arith)
]

slug_char_lower :
    (c : Char) → is_slug_char c ≡ true → is_ascii_alphanumeric (to_ascii_lowercase_char c) ≡ true
slug_char_lower c h = rw (lower_slug_char c h) (ground arith)

dash_lower :
    (c : Char) → is_dash c ≡ true → is_ascii_alphanumeric (to_ascii_lowercase_char c) ≡ false
unfolding to_ascii_lowercase_char
dash_lower c h = let e : is_ascii_uppercase c ≡ false = ground arith in rw e (ground arith)

dash_char : (c : Char) → is_dash c ≡ true → c ≡ "-"
dash_char c h = Char-path c "-" (ground arith)

-- A slug is left as it is: by the loop, and by the trimming.
slug_of_slug :
    (after_dash : Bool) (s : String) → is_slug_from after_dash s ≡ true → slug_of after_dash s ≡ s
unfolding slug_of
slug_of_slug after_dash String.[] h = refl
slug_of_slug after_dash (String.◌∷◌ c s) h = elim (is_slug-cases after_dash c s h) [
  | inl (e, g) ↦ rw (slug_char_lower c e, lower_slug_char c e, slug_of_slug false s g) refl
  | inr (e, f, g) ↦
      rw (dash_lower c e, f, slug_of_slug true s g)
        (ap (λ (d : Char). String.◌∷◌ d s) (sym (dash_char c e)))
]

trim_start_slug : (s : String) → is_slug_from true s ≡ true → trim_start_matches is_dash s ≡ s
unfolding trim_start_matches
trim_start_slug String.[] h = refl
trim_start_slug (String.◌∷◌ c s) h = elim (is_slug-cases true c s h) [
  | inl (e, g) ↦ rw (slug_char_no_dash c e) refl
  | inr (e, f, g) ↦ absurd cc
]

kept_word :
    (c : Char) (s : String) → is_slug_char c ≡ true → trim_end_cons is_dash c s ≡ String.◌∷◌ c s
unfolding trim_end_cons
kept_word c String.[] e = rw (slug_char_no_dash c e) refl
kept_word c (String.◌∷◌ d s) e = refl

kept_dash :
    (c : Char) (s : String)
    → is_slug_from true s ≡ true
    → trim_end_cons is_dash c s ≡ String.◌∷◌ c s
unfolding trim_end_cons is_slug_from
kept_dash c String.[] e = cc
kept_dash c (String.◌∷◌ d s) e = refl

loosened : (s : String) → is_slug_from true s ≡ true → is_slug_from false s ≡ true
unfolding is_slug_from
loosened String.[] h = refl
loosened (String.◌∷◌ c s) h = ground arith

trim_end_slug :
    (after_dash : Bool) (s : String)
    → is_slug_from after_dash s ≡ true
    → trim_end_matches is_dash s ≡ s
unfolding trim_end_matches
trim_end_slug after_dash String.[] h = refl
trim_end_slug after_dash (String.◌∷◌ c s) h = elim (is_slug-cases after_dash c s h) [
  | inl (e, g) ↦ rw (trim_end_slug false s g) (kept_word c s e)
  | inr (e, f, g) ↦ rw (trim_end_slug true s g) (kept_dash c s g)
]

or_default_slug : (s : String) → is_slug s ≡ true → or_default "camp-agent" s ≡ s
unfolding is_slug is_slug_from
or_default_slug String.[] h = cc
or_default_slug (String.◌∷◌ c s) h = refl

pub slugify_fixed_iff : (s : String) → (slugify s ≡ s) ↔ (is_slug s ≡ true)
unfolding slugify trim_matches is_slug
slugify_fixed_iff s = (
  λ h. subst (λ (t : String). is_slug t ≡ true) h (slugify-is_slug s),
  λ h.
      let h' : is_slug_from false s ≡ true = loosened s h in
      rw (slug_of_slug false s h', trim_start_slug s h, trim_end_slug true s h)
        (or_default_slug s h),
)

-- Whatever the text, its slug is words of lower case letters and digits, at least one, joined by
-- single dashes, and a text is its own slug exactly if it is that already.
pub slugify_lem :
    (value : String)
    → (is_slug (slugify value) ≡ true) × ((slugify value ≡ value) ↔ (is_slug value ≡ true))
slugify_lem value = (slugify-is_slug value, slugify_fixed_iff value)
