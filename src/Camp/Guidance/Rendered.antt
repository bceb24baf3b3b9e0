-- ===== src/Camp/Guidance/Rendered.antt =====
-- The guidance that `init` renders is a block between its two markers.
use Prim.Native.String.{◌++◌}
use text.Mathlib.TextLemmas.{nil-append, cons-append, append_assoc}
use zero_conf_mesh.Prelude.{
  ℕ, suc, ◌+◌, String, Char, code, Bool, true, false, ◌||◌, ◌≡◌, refl, sym, ap, ◌∙◌, arith, eqb,
  some, inl, inr,
}
use mathlib.Core.Path.{subst}
use zero_conf_mesh.Prelude.Text.{
  is_whitespace, trim_end, trim_end_matches, trim_end_cons, contains_char,
}
use zero_conf_mesh.Prelude.Text.Trim.{is_empty-append, trim_end_matches-append}
use zero_conf_mesh.Prelude.Text.Find.{
  length, begins, find, length-append, begins_self, begins_within, shifted, shifted-some,
}
use zero_conf_mesh.Camp.Slug.{slugify}
use zero_conf_mesh.Camp.Slug.Laws.{is_slug_from, is_slug, is_slug-cases, slugify_lem}
use zero_conf_mesh.Camp.Guidance.{
  agents_guidance_start, agents_guidance_end, guidance_body, render_agents_guidance,
}
use zero_conf_mesh.Camp.Guidance.Laws.{IsMarker, IsBlock}

-- A character that none of the parts has.
contains_char-append :
    (n : ℕ) (s t : String) → contains_char n (s ++ t) ≡ (contains_char n s || contains_char n t)
unfolding contains_char
contains_char-append n String.[] t = rw nil-append refl
contains_char-append n (String.◌∷◌ c s) t =
    rw cons-append (ground (arith, contains_char-append n s t))

Lacks_both :
    (n : ℕ) (s t : String)
    → contains_char n s ≡ false
    → contains_char n t ≡ false
    → contains_char n (s ++ t) ≡ false
Lacks_both n s t h g = rw (contains_char-append, h, g) refl

is_slug-Lacks :
    (after_dash : Bool) (s : String)
    → is_slug_from after_dash s ≡ true
    → contains_char b'<' s ≡ false
unfolding is_slug_from contains_char
is_slug-Lacks after_dash String.[] h = refl
is_slug-Lacks after_dash (String.◌∷◌ c s) h = elim (is_slug-cases after_dash c s h) [
  | inl (e, g) ↦ ground (arith, e, is_slug-Lacks false s g)
  | inr (e, f, g) ↦ ground (arith, e, is_slug-Lacks true s g)
]

-- A pattern is not found in a text that lacks its first character, nor reaches out of it.
find-skip :
    (c : Char) (t s x : String)
    → contains_char (code c) s ≡ false
    → find (String.◌∷◌ c t) (s ++ x) ≡ shifted (length s) (find (String.◌∷◌ c t) x)
unfolding find begins contains_char length
find-skip c t String.[] x h = rw nil-append refl
find-skip c t (String.◌∷◌ d s) x h =
    let rest = find-skip c t s x (ground (arith, h)) in
    let other : eqb (code c) (code d) ≡ false = ground (arith, h) in
    rw (cons-append, other, rest) refl

-- The rest of the first marker.
abbrev start_rest : String
start_rest = "!-- CAMP:START -->"

abbrev end_rest : String
end_rest = "!-- CAMP:END -->"

-- Where the end marker stands behind the first marker and a text without `<`.
find-end :
    (body : String)
    → contains_char b'<' body ≡ false
    → find agents_guidance_end (agents_guidance_start ++ (body ++ agents_guidance_end))
      ≡ some (suc (length start_rest + (length body + 0)))
unfolding find begins contains_char length
find-end body h =
    let tail = body ++ agents_guidance_end in
    let split_start : agents_guidance_start ++ tail ≡ String.◌∷◌ "<" (start_rest ++ tail) =
      cons-append "<" start_rest tail in
    let front : begins agents_guidance_end (String.◌∷◌ "<" (start_rest ++ tail)) ≡ false =
      ap (begins agents_guidance_end) (sym split_start)
      ∙ begins_within agents_guidance_end agents_guidance_start tail (omega arith) in
    let there : find agents_guidance_end agents_guidance_end ≡ some 0 = refl in
    let behind : find agents_guidance_end (start_rest ++ tail)
        ≡ some (length start_rest + (length body + 0)) =
      find-skip "<" end_rest start_rest tail refl
      ∙ ap (shifted (length start_rest)) (
          find-skip "<" end_rest body agents_guidance_end h
          ∙ ap (shifted (length body)) there
          ∙ shifted-some (length body) 0)
      ∙ shifted-some (length start_rest) (length body + 0) in
    ap (find agents_guidance_end) split_start ∙ rw (front, behind) refl

-- The guidance, trimmed.
abbrev framed : String → String
framed body = agents_guidance_start ++ (body ++ agents_guidance_end)

trim_end-newline : (s : String) → trim_end (s ++ "\n") ≡ trim_end s
unfolding trim_end trim_end_matches trim_end_cons
trim_end-newline String.[] = ap (trim_end_matches is_whitespace) (nil-append "\n")
trim_end-newline (String.◌∷◌ c s) =
    rw cons-append (ap (trim_end_cons is_whitespace c) (trim_end-newline s))

trim_end-framed :
    (body : String)
    → trim_end (agents_guidance_start ++ (body ++ (agents_guidance_end ++ "\n"))) ≡ framed body
unfolding trim_end trim_end_matches trim_end_cons
trim_end-framed body =
    let whole : agents_guidance_start ++ (body ++ (agents_guidance_end ++ "\n"))
        ≡ framed body ++ "\n" =
      simp append_assoc in
    ap trim_end whole
    ∙ trim_end-newline (framed body)
    ∙ trim_end_matches-append agents_guidance_start (body ++ agents_guidance_end)
        (is_empty-append body agents_guidance_end refl)
        (trim_end_matches-append body agents_guidance_end refl refl)

framed-IsBlock :
    (body : String)
    → contains_char b'<' body ≡ false
    → IsBlock agents_guidance_start agents_guidance_end (framed body)
unfolding length
framed-IsBlock body h = record {
  begins = begins_self agents_guidance_start (body ++ agents_guidance_end);
  inner = suc (length start_rest + (length body + 0));
  ends = find-end body h;
  whole = omega (
    arith,
    length-append agents_guidance_start (body ++ agents_guidance_end),
    length-append body agents_guidance_end,
  );
}

body-Lacks :
    (display project slug : String)
    → contains_char b'<' display ≡ false
    → contains_char b'<' project ≡ false
    → contains_char b'<' slug ≡ false
    → contains_char b'<' (guidance_body display project ("/tmp/" ++ (slug ++ "-camp-state.json")))
      ≡ false
unfolding guidance_body contains_char
body-Lacks display project slug hd hp hs = simp (contains_char-append, hd, hp, hs)

slugify-Lacks : (value : String) → contains_char b'<' (slugify value) ≡ false
unfolding is_slug
slugify-Lacks value = is_slug-Lacks true (slugify value) (slugify_lem value).0

-- The rendered guidance is a block, if neither the path of the config nor the project has a `<`.
pub render-IsBlock :
    (display project : String)
    → contains_char b'<' display ≡ false
    → contains_char b'<' project ≡ false
    → IsBlock agents_guidance_start agents_guidance_end
        (trim_end (render_agents_guidance display project (slugify project)))
unfolding render_agents_guidance
render-IsBlock display project hd hp =
    let body = guidance_body display project ("/tmp/" ++ (slugify project ++ "-camp-state.json")) in
    subst (IsBlock agents_guidance_start agents_guidance_end) (sym (trim_end-framed body)) (
      framed-IsBlock body
        (body-Lacks display project (slugify project) hd hp (slugify-Lacks project)))

pub start-IsMarker : IsMarker agents_guidance_start
unfolding contains_char
start-IsMarker = record { filled = refl; one_line = refl }

pub end-IsMarker : IsMarker agents_guidance_end
unfolding contains_char
end-IsMarker = record { filled = refl; one_line = refl }
