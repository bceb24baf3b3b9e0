-- ===== src/Camp/Guidance/Laws.antt =====
-- The block of guidance after a second run.
use Prim.Native.String.{◌++◌}
use text.Mathlib.TextLemmas.{nil-append, cons-append, append_assoc}
use zero_conf_mesh.Prelude.{
  ℕ, suc, ◌+◌, ap₂, String, true, false, ◌≡◌, refl, sym, ap, ◌∙◌, arith, if◌then◌else◌, leb, none,
  some, Bool-cases, inl, inr,
}
use zero_conf_mesh.Prelude.Text.{
  is_whitespace, is_empty, trim_start, trim_end, trim_start_matches, trim_end_cons,
  trim_end_matches, contains_char,
}
use mathlib.Core.Path.{subst}
use zero_conf_mesh.Prelude.Text.Trim.{
  StartsClean, StartsClean-append, trim_start_matches-StartsClean,
  trim_start_matches_of_StartsClean,
}
use zero_conf_mesh.Prelude.Text.Find.{
  length, begins, find, take, drop, length-append, take-append, drop-append, shifted,
  find-append_sep, begins_lacking, shifted-some,
}
use zero_conf_mesh.Camp.Guidance.{blank_line, assemble, replace_at, replace_marked_block}

-- The text before the block, and the text behind it, with their separators.
abbrev pub pre_text : String → String
pre_text before = if is_empty before then "" else before ++ blank_line

abbrev pub tail_text : String → String
tail_text after = if is_empty after then "\n" else blank_line ++ (after ++ "\n")

pub assemble_parts :
    (before block after : String)
    → assemble before block after ≡ pre_text before ++ (block ++ tail_text after)
unfolding assemble
assemble_parts before block after = elim (Bool-cases (is_empty before)) [
  | inl e ↦ elim (Bool-cases (is_empty after)) [
    | inl f ↦ rw (e, f, nil-append) refl
    | inr f ↦ rw (e, f, nil-append) refl
  ]
  | inr e ↦ elim (Bool-cases (is_empty after)) [
    | inl f ↦ rw (e, f, append_assoc) refl
    | inr f ↦ rw (e, f, append_assoc) refl
  ]
]

-- White space behind a text is trimmed off.
trim_end-blank : (s : String) → trim_end (s ++ blank_line) ≡ trim_end s
unfolding trim_end trim_end_matches trim_end_cons
trim_end-blank String.[] = ap (trim_end_matches is_whitespace) (nil-append blank_line)
trim_end-blank (String.◌∷◌ c s) =
    rw cons-append (ap (trim_end_cons is_whitespace c) (trim_end-blank s))

pub is_empty_eq : (s : String) → is_empty s ≡ true → s ≡ ""
is_empty_eq String.[] h = refl
is_empty_eq (String.◌∷◌ c s) h = cc

pub trim_end-pre_text :
    (before : String) → trim_end before ≡ before → trim_end (pre_text before) ≡ before
unfolding trim_end trim_end_matches
trim_end-pre_text before h = elim (Bool-cases (is_empty before)) [
  | inl e ↦ rw (is_empty_eq before e) refl
  | inr e ↦ rw e (trim_end-blank before ∙ h)
]

-- What the second run takes for the text behind the block.
abbrev pub grown : String → String
grown after = if is_empty after then "" else after ++ "\n"

blank_text : (x : String) → blank_line ++ x ≡ String.◌∷◌ "\n" (String.◌∷◌ "\n" x)
blank_text x =
    cons-append "\n" "\n" x
    ∙ ap (String.◌∷◌ "\n") (cons-append "\n" "" x ∙ ap (String.◌∷◌ "\n") (nil-append x))

blank_front :
    (x : String)
    → trim_start_matches is_whitespace (blank_line ++ x) ≡ trim_start_matches is_whitespace x
unfolding trim_start_matches
blank_front x = ap (trim_start_matches is_whitespace) (blank_text x)

starts_clean :
    (s w : String)
    → is_empty s ≡ false
    → trim_start s ≡ s
    → trim_start_matches is_whitespace (s ++ w) ≡ s ++ w
unfolding trim_start
starts_clean s w f h = trim_start_matches_of_StartsClean is_whitespace (s ++ w) (
    StartsClean-append s w f
      (subst (StartsClean is_whitespace) h (trim_start_matches-StartsClean is_whitespace s)))

pub trim_start-tail_text :
    (after : String) → trim_start after ≡ after → trim_start (tail_text after) ≡ grown after
unfolding trim_start trim_start_matches
trim_start-tail_text after h = elim (Bool-cases (is_empty after)) [
  | inl e ↦ rw e refl
  | inr e ↦ rw e (blank_front (after ++ "\n") ∙ starts_clean after "\n" e h)
]

-- A marker: not empty, and in one line.
pub record IsMarker (marker : String) : Type 0 where
  pub filled : is_empty marker ≡ false
  pub one_line : contains_char b'\n' marker ≡ false

-- A block: it begins with the one marker, and the other is found at its end only.
pub record IsBlock (start end block : String) : Type 0 where
  pub begins : begins start block ≡ true
  pub inner : ℕ
  pub ends : find end block ≡ some inner
  pub whole : inner + length end ≡ length block

find_later :
    (marker rest : String) {k : ℕ}
    → IsMarker marker
    → find marker rest ≡ some k
    → find marker (String.◌∷◌ "\n" rest) ≡ some (suc k)
unfolding find
find_later marker rest m found =
    rw (begins_lacking "\n" marker rest m.one_line m.filled, found) refl

-- Where a marker is found behind the text in front of the block.
pub find-pre_text :
    (marker before rest : String) {k : ℕ}
    → IsMarker marker
    → find marker before ≡ none
    → find marker rest ≡ some k
    → find marker (pre_text before ++ rest) ≡ some (length (pre_text before) + k)
unfolding length
find-pre_text marker before rest {k} m absent found = elim (Bool-cases (is_empty before)) [
  | inl e ↦ rw (e, nil-append) (found ∙ ap some (omega arith))
  | inr e ↦ rw e (
      ap (find marker) (append_assoc before blank_line rest ∙ ap (before ++◌) (blank_text rest))
      ∙ find-append_sep "\n" marker before (String.◌∷◌ "\n" rest) m.one_line m.filled absent
      ∙ ap (shifted (suc (length before))) (find_later marker rest m found)
      ∙ shifted-some (suc (length before)) (suc k)
      ∙ ap some (omega (arith, length-append before blank_line)))
]

-- The replacement where both markers are found around a block.
pub replace_found :
    (start end block pre tail : String)
    → IsMarker start
    → (b : IsBlock start end block) → find start (pre ++ (block ++ tail)) ≡ some (length pre)
    → find end (pre ++ (block ++ tail)) ≡ some (length pre + b.inner)
    → trim_end block ≡ block
    → replace_marked_block (pre ++ (block ++ tail)) start end block
      ≡ assemble (trim_end pre) block (trim_start tail)
unfolding replace_marked_block replace_at
replace_found start end block pre tail m b found_start found_end trimmed =
    let ordered : leb (length pre) (length pre + b.inner) ≡ true = ground arith in
    let front : take (length pre) (pre ++ (block ++ tail)) ≡ pre =
      take-append pre (block ++ tail) in
    let place : (length pre + b.inner) + length end ≡ length (pre ++ block) =
      omega (arith, length-append pre block, b.whole) in
    let back : drop ((length pre + b.inner) + length end) (pre ++ (block ++ tail)) ≡ tail =
      ap₂ drop place (sym (append_assoc pre block tail)) ∙ drop-append (pre ++ block) tail in
    rw (found_start, found_end, trimmed, ordered, front, back) refl
