-- ===== src/Tests/Text.antt =====
-- Rust's text functions on small inputs.
use zero_conf_mesh.Prelude.{◌≡◌, refl, [], ◌∷◌}
use zero_conf_mesh.Prelude.Text.{trim, split, join, to_ascii_lowercase}

trimmed : trim " \ta b \n" ≡ "a b"
unfolding trim
trimmed = refl

pieces : split b',' "a,,b" ≡ "a" ∷ "" ∷ "b" ∷ []
unfolding split
pieces = refl

lowered : to_ascii_lowercase "Idle9" ≡ "idle9"
unfolding to_ascii_lowercase
lowered = refl

joined_lines : join "\n" ("a" ∷ "b" ∷ []) ≡ "a\nb"
unfolding join
joined_lines = refl
