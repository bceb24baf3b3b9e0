-- ===== src/Camp/Guidance/Located.antt =====
-- src/bin/camp.rs: the texts before and behind the block, in the guidance file that a run of `init`
-- writes.
use Prim.Native.String.{◌++◌}
use text.Mathlib.TextLemmas.{nil-append, cons-append}
use zero_conf_mesh.Prelude.{
  ℕ, zero, suc, ◌+◌, ◌≤◌, String, Char, true, false, ◌≡◌, refl, sym, ap, ◌∙◌, arith, leb, Option,
  none, some, Bool-cases, inl, inr,
}
use zero_conf_mesh.Prelude.Text.{
  is_whitespace, is_empty, trim, trim_start, trim_end, trim_start_matches, trim_end_cons,
  trim_end_matches, trim_matches,
}
use zero_conf_mesh.Prelude.Text.Trim.{
  trim_start_matches-StartsClean, trim_start_matches_of_StartsClean, trim_end_matches_idem,
}
use zero_conf_mesh.Prelude.Text.Find.{length, find, take, drop, find-take_before, find-prefix}
use zero_conf_mesh.Camp.Guidance.{assemble, append_block, replace_at}

trim_end_cons-prefix :
    (c : Char) (r w : String)
    → (v : String) × (String.◌∷◌ c (r ++ w) ≡ trim_end_cons is_whitespace c r ++ v)
unfolding trim_end_cons
trim_end_cons-prefix c String.[] w = elim (Bool-cases (is_whitespace c)) [
  | inl e ↦ (String.◌∷◌ c w, rw (e, nil-append, nil-append) refl)
  | inr e ↦ (w, rw (e, nil-append, cons-append, nil-append) refl)
]
trim_end_cons-prefix c (String.◌∷◌ d r) w = (w, rw (cons-append, cons-append, cons-append) refl)

-- A text begins with what is left of it.
trim_end-prefix : (s : String) → (v : String) × (s ≡ trim_end s ++ v)
unfolding trim_end trim_end_matches
trim_end-prefix String.[] = ("", rw nil-append refl)
trim_end-prefix (String.◌∷◌ c s) =
    let (w, e) = trim_end-prefix s in
    let (v, f) = trim_end_cons-prefix c (trim_end s) w in (v, ap (String.◌∷◌ c) e ∙ f)

find-trim_end : (t s : String) → find t s ≡ none → find t (trim_end s) ≡ none
find-trim_end t s h =
    let (v, e) = trim_end-prefix s in find-prefix t (trim_end s) v (ap (find t) (sym e) ∙ h)

is_empty-trim_end_cons :
    (c : Char) (s : String)
    → is_whitespace c ≡ true
    → is_empty (trim_end_cons is_whitespace c s) ≡ is_empty s
unfolding trim_end_cons
is_empty-trim_end_cons c String.[] h = rw h refl
is_empty-trim_end_cons c (String.◌∷◌ d s) h = refl

-- A text is blank, by either trimming.
is_empty-trim : (s : String) → is_empty (trim s) ≡ is_empty (trim_end s)
unfolding trim trim_matches trim_end trim_end_matches trim_start_matches
is_empty-trim String.[] = refl
is_empty-trim (String.◌∷◌ c s) = elim (Bool-cases (is_whitespace c)) [
  | inl e ↦ rw e (is_empty-trim s ∙ sym (is_empty-trim_end_cons c (trim_end s) e))
  | inr e ↦ rw e refl
]

-- The text around the block in the text that a run writes, from where the markers were found.
abbrev pub located : String → String → Option ℕ → Option ℕ → String × String
located existing end (some i) (some j) =
    (trim_end (take i existing), trim_start (drop (j + length end) existing))
located existing end (some i) none = (trim_end existing, "")
located existing end none found = (trim_end existing, "")

-- The markers are both there, in their order, or neither is.
abbrev pub IsOrdered : Option ℕ → Option ℕ → Type 0
IsOrdered (some i) (some j) = i ≤ j
IsOrdered (some i) none = ⊥
IsOrdered none (some j) = ⊥
IsOrdered none none = Unit

-- A text, rewritten so often.
abbrev pub rewritten : (String → String) → ℕ → String → String
rewritten write zero text = text
rewritten write (suc n) text = rewritten write n (write text)

abbrev pub newlines : ℕ → String
newlines zero = ""
newlines (suc n) = "\n" ++ newlines n

append_block-assemble :
    (existing block : String) → append_block existing block ≡ assemble (trim_end existing) block ""
unfolding append_block assemble
append_block-assemble existing block = elim (Bool-cases (is_empty (trim_end existing))) [
  | inl e ↦ rw (is_empty-trim, e) refl
  | inr e ↦ rw (is_empty-trim, e) refl
]

pub replace_at-located :
    (existing end block : String) (i j : Option ℕ)
    → IsOrdered i j
    → replace_at existing end block i j
      ≡ assemble (located existing end i j).0 block (located existing end i j).1
unfolding replace_at
replace_at-located existing end block (some i) (some j) h =
    let ordered : leb i j ≡ true = ground arith in rw ordered refl
replace_at-located existing end block (some i) none h = absurd h
replace_at-located existing end block none (some j) h = absurd h
replace_at-located existing end block none none h = append_block-assemble existing block

pub located_before :
    (existing start end : String) (i j : Option ℕ)
    → is_empty start ≡ false
    → is_empty end ≡ false
    → find start existing ≡ i
    → find end existing ≡ j
    → IsOrdered i j
    → (find start (located existing end i j).0 ≡ none)
      × (find end (located existing end i j).0 ≡ none)
located_before existing start end (some i) (some j) fs fe p q h = (
  find-trim_end start (take i existing) (find-take_before start existing i fs p (omega arith)),
  find-trim_end end (take i existing) (find-take_before end existing i fe q h),
)
located_before existing start end (some i) none fs fe p q h = absurd h
located_before existing start end none (some j) fs fe p q h = absurd h
located_before existing start end none none fs fe p q h =
    (find-trim_end start existing p, find-trim_end end existing q)

pub trim_end_idem : (s : String) → trim_end (trim_end s) ≡ trim_end s
unfolding trim_end
trim_end_idem s = trim_end_matches_idem is_whitespace s

pub trim_start_idem : (s : String) → trim_start (trim_start s) ≡ trim_start s
unfolding trim_start
trim_start_idem s =
    trim_start_matches_of_StartsClean is_whitespace (trim_start_matches is_whitespace s)
      (trim_start_matches-StartsClean is_whitespace s)

pub located_trimmed :
    (existing end : String) (i j : Option ℕ)
    → (trim_end (located existing end i j).0 ≡ (located existing end i j).0)
      × (trim_start (located existing end i j).1 ≡ (located existing end i j).1)
unfolding trim_start trim_start_matches
located_trimmed existing end (some i) (some j) =
    (trim_end_idem (take i existing), trim_start_idem (drop (j + length end) existing))
located_trimmed existing end (some i) none = (trim_end_idem existing, refl)
located_trimmed existing end none found = (trim_end_idem existing, refl)
