-- ===== src/Prelude/HashMap.antt =====
-- `HashMap<String, V>`: entries in an order that nothing fixes. An insertion replaces the value
-- where the key stands, or adds an entry.
use Prim.Native.String.{String}
use mathlib.Core.Option.{some}
use mathlib.Core.List.{List, [], ◌∷◌}
use mathlib.Core.Path.{◌≡◌, refl}
use native.Mathlib.Omega.{arith}
use text.Mathlib.Text.{◌==◌}
use text.Mathlib.TextEquality.{eq_iff}
use zero_conf_mesh.Prelude.Tests.{if◌then◌else◌, All}
use zero_conf_mesh.Prelude.Assoc.{lookup, Distinct}

module _ {ℓ} {V : Type ℓ} where
  unfoldable pub insert : String → V → List (String × V) → List (String × V)
  insert key new [] = (key, new) ∷ []
  insert key new ((other, old) ∷ rest) =
      let later = insert key new rest in
      if other == key then (key, new) ∷ rest else (other, old) ∷ later

  pub lookup-insert :
      (key wanted : String) (new : V) (entries : List (String × V))
      → lookup wanted (insert key new entries)
        ≡ (if key == wanted then some new else lookup wanted entries)
  unfolding insert lookup
  lookup-insert key wanted new [] = refl
  lookup-insert key wanted new ((other, old) ∷ rest) = ground (
    arith,
    eq_iff other key,
    eq_iff other wanted,
    eq_iff key wanted,
    lookup-insert key wanted new rest,
  )

  pub insert-Distinct :
      (key : String) (new : V) (entries : List (String × V))
      → Distinct entries
      → Distinct (insert key new entries)
  unfolding insert lookup
  insert-Distinct key new [] d = (refl, tt)
  insert-Distinct key new ((other, old) ∷ rest) d = ground (
    arith,
    eq_iff other key,
    eq_iff key other,
    lookup-insert key other new rest,
    insert-Distinct key new rest d.1,
  )

  pub insert-All {κ} :
      (P : String × V → Type κ) (key : String) (new : V) (entries : List (String × V))
      → P (key, new)
      → All P entries
      → All P (insert key new entries)
  unfolding insert
  insert-All P key new [] p h = (p, tt)
  insert-All P key new ((other, old) ∷ rest) p h = ground (arith, insert-All P key new rest p h.1)
