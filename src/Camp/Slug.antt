-- ===== src/Camp/Slug.antt =====
-- src/bin/camp.rs: slugs, and the agent id that `init` makes of the user, the host, the project and
-- the branch. The environment and the output of `hostname` are arguments.
pub mod Laws
use zero_conf_mesh.Prelude.{
  String, Char, code, Bool, true, false, not, ◌&&◌, ◌||◌, if◌then◌else◌, List, [], ◌∷◌, Option,
  none, some, leb, eqb,
}
use zero_conf_mesh.Prelude.Text.{is_empty, trim, trim_matches, join, to_ascii_lowercase_char}

abbrev pub is_ascii_alphanumeric : Char → Bool
is_ascii_alphanumeric c =
    (leb b'0' (code c) && leb (code c) b'9')
    || (leb b'A' (code c) && leb (code c) b'Z')
    || (leb b'a' (code c) && leb (code c) b'z')

abbrev pub is_dash : Char → Bool
is_dash c = eqb (code c) b'-'

-- The loop: the text that it pushes for the characters left, by `last_dash`.
unfoldable pub slug_of : Bool → String → String
unfolding to_ascii_lowercase_char
slug_of last_dash String.[] = ""
slug_of last_dash (String.◌∷◌ ch value) =
    let normalized = to_ascii_lowercase_char ch in
    let after_char = slug_of false value in
    let after_dash = slug_of true value in
    if is_ascii_alphanumeric normalized
    then String.◌∷◌ normalized after_char
    else if not last_dash
    then String.◌∷◌ "-" after_dash
    else after_dash

abbrev pub or_default : String → String → String
or_default otherwise String.[] = otherwise
or_default otherwise (String.◌∷◌ c s) = String.◌∷◌ c s

unfoldable pub slugify : String → String
unfolding slug_of trim_matches
slugify value = or_default "camp-agent" (trim_matches is_dash (slug_of false value))

abbrev pub filled : Option String → Option String
filled none = none
filled (some value) = if is_empty value then none else some value

abbrev pub or_else : Option String → Option String → Option String
or_else none other = other
or_else (some value) other = some value

-- `flatten().collect()`
abbrev pub flatten : List (Option String) → List String
flatten [] = []
flatten (none ∷ l) = flatten l
flatten (some value ∷ l) = value ∷ flatten l

-- The variables `USER` and `HOSTNAME`, and what `hostname` prints.
unfoldable pub infer_default_agent_id :
    Option String → Option String → Option String → String → String → String
unfolding slugify join
infer_default_agent_id user hostname printed project branch =
    let host = or_else (filled hostname) (filled printed) in
    slugify
      (join "-" (flatten (some "camp" ∷ filled user ∷ host ∷ some project ∷ some branch ∷ [])))

-- A name of `Cargo.toml`, or of the directory, that is not blank; in that order.
abbrev pub not_blank : Option String → Option String
not_blank none = none
not_blank (some name) = if is_empty (trim name) then none else some name
