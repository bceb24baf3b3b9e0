-- ===== src/Camp/Guidance/Again.antt =====
-- Further runs of `init` on the file that the first one left.
use Prim.Native.String.{◌++◌}
use text.Mathlib.TextLemmas.{append-nil, append_assoc}
use zero_conf_mesh.Prelude.{
  ℕ, zero, suc, String, false, ◌≡◌, refl, sym, ap, ap₂, ◌∙◌, arith, if◌then◌else◌, none, some,
  Bool-cases, inl, inr,
}
use mathlib.Core.Path.{subst}
use zero_conf_mesh.Prelude.Text.{is_empty, trim_start, trim_end}
use zero_conf_mesh.Prelude.Text.Trim.{is_empty-append}
use zero_conf_mesh.Prelude.Text.Find.{length, find, begins-append, find-append, find_begins}
use zero_conf_mesh.Camp.Guidance.{assemble, replace_at, replace_marked_block}
use zero_conf_mesh.Camp.Guidance.Laws.{
  pre_text, tail_text, assemble_parts, trim_end-pre_text, grown, is_empty_eq, trim_start-tail_text,
  IsMarker, IsBlock, find-pre_text, replace_found,
}
use zero_conf_mesh.Camp.Guidance.Located.{
  located, IsOrdered, rewritten, newlines, replace_at-located, located_before, trim_end_idem,
  trim_start_idem, located_trimmed,
}

module _ (start end block : String) (ms : IsMarker start) (me : IsMarker end)
    (b : IsBlock start end block) (trimmed : trim_end block ≡ block) where
  -- A block between trimmed texts is replaced; the text behind it, if any, then ends in one newline more.
  replace_assembled :
      (before after : String)
      → trim_end before ≡ before
      → trim_start after ≡ after
      → find start before ≡ none
      → find end before ≡ none
      → replace_marked_block (assemble before block after) start end block
        ≡ assemble before block (grown after)
  replace_assembled before after hb ha ns ne =
      let tail = tail_text after in
      let found_start : find start (pre_text before ++ (block ++ tail))
          ≡ some (length (pre_text before)) =
        find-pre_text start before (block ++ tail) ms ns
          (find_begins start (block ++ tail) (begins-append start block tail b.begins))
        ∙ ap some (omega arith) in
      let found_end =
        find-pre_text end before (block ++ tail) me ne (find-append end block tail b.ends) in
      ap (λ (t : String). replace_marked_block t start end block)
        (assemble_parts before block after)
      ∙ replace_found start end block (pre_text before) tail ms b found_start found_end trimmed
      ∙ ap₂ (λ (x y : String). assemble x block y) (trim_end-pre_text before hb)
          (trim_start-tail_text after ha)

  -- The text with a newline more.
  assemble-grown :
      (before after : String)
      → is_empty after ≡ false
      → assemble before block (after ++ "\n") ≡ assemble before block after ++ "\n"
  unfolding assemble
  assemble-grown before after h =
      let filled = is_empty-append after "\n" refl in
      elim (Bool-cases (is_empty before)) [
        | inl e ↦ rw (e, h, filled) (simp append_assoc)
        | inr e ↦ rw (e, h, filled) (simp append_assoc)
      ]

  grown_again :
      (before after text : String)
      → text ≡ assemble before block after
      → assemble before block (grown after) ≡ (if is_empty after then text else text ++ "\n")
  grown_again before after text e = elim (Bool-cases (is_empty after)) [
    | inl h ↦ rw h (ap (assemble before block) (sym (is_empty_eq after h)) ∙ sym e)
    | inr h ↦ rw h (assemble-grown before after h ∙ ap (◌++ "\n") (sym e))
  ]

  grown-trimmed :
      (after : String) → trim_start after ≡ after → trim_start (grown after) ≡ grown after
  grown-trimmed after h =
      let e = trim_start-tail_text after h in
      ap trim_start (sym e) ∙ trim_start_idem (tail_text after) ∙ e

  -- A text with the block, written over and over.
  replace_assembled_often :
      (n : ℕ) (before after text : String)
      → text ≡ assemble before block after
      → trim_end before ≡ before
      → trim_start after ≡ after
      → find start before ≡ none
      → find end before ≡ none
      → rewritten (λ t. replace_marked_block t start end block) n text
        ≡ (if is_empty after then text else text ++ newlines n)
  replace_assembled_often zero before after text e hb ha ns ne =
      elim (Bool-cases (is_empty after)) [
        | inl h ↦ rw h refl
        | inr h ↦ rw h (sym (append-nil text))
      ]
  replace_assembled_often (suc n) before after text e hb ha ns ne =
      let next = replace_marked_block text start end block in
      let step : next ≡ assemble before block (grown after) =
        ap (λ (t : String). replace_marked_block t start end block) e
        ∙ replace_assembled before after hb ha ns ne in
      let rest =
        replace_assembled_often n before (grown after) next step hb (grown-trimmed after ha) ns
          ne in
      let longer = step ∙ grown_again before after text e in
      elim (Bool-cases (is_empty after)) [
        | inl h ↦ simp h (simp h at rest ∙ simp h at longer)
        | inr h ↦
            let filled = is_empty-append after "\n" refl in
            simp h (
              (simp (h, filled) at rest)
              ∙ ap (◌++ newlines n) (simp h at longer)
              ∙ append_assoc text "\n" (newlines n))
      ]

  -- Writing a block that is trimmed already.
  replace_trimmed :
      (n : ℕ) (existing : String)
      → IsOrdered (find start existing) (find end existing)
      → let once = replace_marked_block existing start end block in
        let after = (located existing end (find start existing) (find end existing)).1 in
        rewritten (λ t. replace_marked_block t start end block) n once
        ≡ (if is_empty after then once else once ++ newlines n)
  unfolding replace_marked_block
  replace_trimmed n existing h =
      let i = find start existing in
      let j = find end existing in
      let (before, after) = located existing end i j in
      let once : replace_marked_block existing start end block ≡ assemble before block after =
        ap (λ (t : String). replace_at existing end t i j) trimmed
        ∙ replace_at-located existing end block i j h in
      let (hb, ha) = located_trimmed existing end i j in
      let (ns, ne) = located_before existing start end i j ms.filled me.filled refl refl h in
      replace_assembled_often n before after (replace_marked_block existing start end block) once hb
        ha ns ne

-- What is written is trimmed first.
replace_trims :
    (existing start end replacement : String)
    → replace_marked_block existing start end (trim_end replacement)
      ≡ replace_marked_block existing start end replacement
unfolding replace_marked_block
replace_trims existing start end replacement =
    let i = find start existing in
    let j = find end existing in
    ap (λ (t : String). replace_at existing end t i j) (trim_end_idem replacement)

-- If the markers are not empty and in one line, the replacement begins with the one and has the other
-- at its end only (but for white space behind it), and a text has both in their order or neither:
-- writing the replacement into the text `n` times more changes nothing if there was only white space
-- behind the old block, or no block; and else it appends `n` newlines.
pub replace_again :
    (n : ℕ) (start end replacement existing : String)
    → IsMarker start
    → IsMarker end
    → IsBlock start end (trim_end replacement)
    → IsOrdered (find start existing) (find end existing)
    → let once = replace_marked_block existing start end replacement in
      let after = (located existing end (find start existing) (find end existing)).1 in
      rewritten (λ t. replace_marked_block t start end replacement) n once
      ≡ (if is_empty after then once else once ++ newlines n)
replace_again n start end replacement existing ms me b h =
    subst
      (λ (write : String → String). rewritten write n (write existing) ≡ (
        if is_empty (located existing end (find start existing) (find end existing)).1
        then write existing
        else write existing ++ newlines n))
      (λ i t. replace_trims t start end replacement i)
      (replace_trimmed start end (trim_end replacement) ms me b (trim_end_idem replacement) n
        existing h)
