-- ===== src/Prelude/Assoc.antt =====
-- What the two maps of Rust's standard library share: a list of entries that is searched and from
-- which an entry is removed.
use Prim.Native.String.{String}
use mathlib.Core.Bool.{Bool, true, false}
use mathlib.Core.Option.{Option, none, some}
use mathlib.Core.List.{List, [], ◌∷◌, map}
use mathlib.Core.Path.{◌≡◌}
use mathlib.Core.Logic.{inl, inr}
use native.Mathlib.Omega.{arith}
use text.Mathlib.Text.{◌==◌}
use text.Mathlib.TextEquality.{eq_iff}
use text.Mathlib.TextPositions.{eq_refl}
use zero_conf_mesh.Prelude.Tests.{if◌then◌else◌, All, str-cases}

module _ {ℓ} {V : Type ℓ} where
  abbrev pub keys : List (String × V) → List String
  keys = map (λ e. e.0)

  -- `get(k)`
  unfoldable pub lookup : String → List (String × V) → Option V
  lookup wanted [] = none
  lookup wanted ((key, value) ∷ rest) =
      let later = lookup wanted rest in if key == wanted then some value else later

  -- `contains_key(k)`
  unfoldable pub contains_key : String → List (String × V) → Bool
  unfolding lookup
  contains_key k m = elim (lookup k m) [ none ↦ false | some _ ↦ true ]

  -- `remove(k)`; the removed value is `lookup k`.
  unfoldable pub remove : String → List (String × V) → List (String × V)
  remove k [] = []
  remove k ((j, v) ∷ m) = let rest = remove k m in if j == k then rest else (j, v) ∷ rest

  -- No key stands twice.
  abbrev pub Distinct : List (String × V) → Type ℓ
  Distinct [] = Unit
  Distinct ((k, v) ∷ m) = (lookup k m ≡ none) × Distinct m

  pub lookup-remove :
      (k j : String) (m : List (String × V))
      → lookup j (remove k m) ≡ (if k == j then none else lookup j m)
  unfolding lookup remove
  lookup-remove k j [] = ground arith
  lookup-remove k j ((i, v) ∷ m) =
      ground (arith, lookup-remove k j m, eq_iff i k, eq_iff i j, eq_iff k j)

  pub remove-Distinct : (k : String) (m : List (String × V)) → Distinct m → Distinct (remove k m)
  unfolding remove
  remove-Distinct k [] d = d
  remove-Distinct k ((i, v) ∷ m) d =
      ground (arith, remove-Distinct k m d.1, lookup-remove k i m, eq_iff i k)

  -- An entry predicate that holds of every entry of a map holds of what is left and what is found.
  pub remove-All {κ} :
      (P : String × V → Type κ) (k : String) (m : List (String × V)) → All P m → All P (remove k m)
  unfolding remove
  remove-All P k [] h = h
  remove-All P k ((i, v) ∷ m) h = ground (arith, remove-All P k m h.1)

  pub lookup-All {κ} :
      (P : String × V → Type κ) (k : String) (m : List (String × V)) {v : V}
      → All P m
      → lookup k m ≡ some v
      → P (k, v)
  unfolding lookup
  lookup-All P k [] h e = cc
  lookup-All P k ((i, w) ∷ m) {v} h e = elim (str-cases i k) [
    | inl (t, p) ↦ let q : w ≡ v = ground arith in rw (← p, ← q) h.0
    | inr (t, p) ↦ lookup-All P k m h.1 (ground arith)
  ]

  lookup_cons-All :
      (k : String) (v : V) (m n : List (String × V))
      → lookup k n ≡ none
      → All (λ e. lookup e.0 m ≡ some e.1) n
      → All (λ e. lookup e.0 ((k, v) ∷ m) ≡ some e.1) n
  unfolding lookup
  lookup_cons-All k v m [] h a = tt
  lookup_cons-All k v m ((j, w) ∷ n) h a =
      (ground (arith, eq_iff j k, eq_iff k j, a.0), lookup_cons-All k v m n (ground arith) a.1)

  -- Every entry of a map is found under its key.
  pub lookup_self : (m : List (String × V)) → Distinct m → All (λ e. lookup e.0 m ≡ some e.1) m
  unfolding lookup
  lookup_self [] d = tt
  lookup_self ((k, v) ∷ m) d =
      (ground (arith, eq_refl k), lookup_cons-All k v m m d.0 (lookup_self m d.1))
