-- ===== src/Prelude/BTreeMap.antt =====
-- `BTreeMap<String, V>`: entries in the order of their keys.
use Prim.Native.Nat.{Ordering}
use Prim.Native.String.{String, compare}
use mathlib.Core.Option.{none, some}
use mathlib.Core.List.{List, [], ◌∷◌}
use mathlib.Core.Path.{◌≡◌, refl, ap₂}
use native.Mathlib.Omega.{arith}
use text.Mathlib.Text.{◌==◌}
use text.Mathlib.TextEquality.{eq_iff, path_by_compare}
use text.Mathlib.TextPositions.{eq_refl}
use mathlib.Core.Logic.{inl, inr}
use zero_conf_mesh.Prelude.Tests.{if◌then◌else◌, All}
use zero_conf_mesh.Prelude.Order.{◌≺◌, ≺_cases, ≺_flip, ≺_trans, ≺_ne}
use zero_conf_mesh.Prelude.Assoc.{lookup, remove, lookup-remove}

module _ {ℓ} {V : Type ℓ} where
  unfoldable pub insert : String → V → List (String × V) → List (String × V)
  insert k v [] = (k, v) ∷ []
  insert k v ((j, w) ∷ m) =
      let later = insert k v m in
      elim (compare k j) [
        | Ordering.lt ↦ (k, v) ∷ (j, w) ∷ m
        | Ordering.eq ↦ (k, v) ∷ m
        | Ordering.gt ↦ (j, w) ∷ later
      ]

  -- Every key lies above `k`.
  abbrev pub Above : String → List (String × V) → Type 0
  Above k [] = Unit
  Above k ((j, w) ∷ m) = k ≺ j × Above k m

  abbrev pub IsSorted : List (String × V) → Type 0
  IsSorted [] = Unit
  IsSorted ((k, v) ∷ m) = Above k m × IsSorted m

  pub lookup-insert :
      (key wanted : String) (new : V) (entries : List (String × V))
      → lookup wanted (insert key new entries)
        ≡ (if key == wanted then some new else lookup wanted entries)
  unfolding insert lookup
  lookup-insert key wanted new [] = refl
  lookup-insert key wanted new ((i, old) ∷ rest) = ground (
    arith,
    path_by_compare key i,
    ≺_ne key i,
    eq_iff key wanted,
    eq_iff i wanted,
    lookup-insert key wanted new rest,
  )

  Above-lookup : (k : String) (m : List (String × V)) → Above k m → lookup k m ≡ none
  unfolding lookup
  Above-lookup k [] a = refl
  Above-lookup k ((j, w) ∷ m) a = ground (arith, Above-lookup k m a.1, ≺_ne k j a.0, eq_iff j k)

  Above-mono : (j k : String) (m : List (String × V)) → j ≺ k → Above k m → Above j m
  Above-mono j k [] h a = tt
  Above-mono j k ((i, w) ∷ m) h a = (≺_trans j k i h a.0, Above-mono j k m h a.1)

  Above-insert :
      (j k : String) (v : V) (m : List (String × V)) → j ≺ k → Above j m → Above j (insert k v m)
  unfolding insert
  Above-insert j k v [] h a = (h, tt)
  Above-insert j k v ((i, w) ∷ m) h a = ground (arith, Above-insert j k v m h a.1)

  pub insert-IsSorted :
      (k : String) (v : V) (m : List (String × V)) → IsSorted m → IsSorted (insert k v m)
  unfolding insert
  insert-IsSorted k v [] s = (tt, tt)
  insert-IsSorted k v ((i, w) ∷ m) s = ground (
    arith,
    path_by_compare k i,
    Above-mono k i m,
    Above-insert i k v m,
    ≺_flip k i,
    insert-IsSorted k v m s.1,
  )

  Above-remove : (j k : String) (m : List (String × V)) → Above j m → Above j (remove k m)
  unfolding remove
  Above-remove j k [] a = tt
  Above-remove j k ((i, w) ∷ m) a = ground (arith, Above-remove j k m a.1)

  pub remove-IsSorted : (k : String) (m : List (String × V)) → IsSorted m → IsSorted (remove k m)
  unfolding remove
  remove-IsSorted k [] s = tt
  remove-IsSorted k ((i, w) ∷ m) s = ground (arith, remove-IsSorted k m s.1, Above-remove i k m s.0)

  -- Two sorted maps that answer every lookup alike are one.
  pub IsSorted-ext :
      (m n : List (String × V))
      → IsSorted m
      → IsSorted n
      → ((k : String) → lookup k m ≡ lookup k n)
      → m ≡ n
  unfolding lookup
  IsSorted-ext [] [] s t h = refl
  IsSorted-ext [] ((j, w) ∷ n) s t h = ground (arith, h j, eq_refl j)
  IsSorted-ext ((i, v) ∷ m) [] s t h = ground (arith, h i, eq_refl i)
  IsSorted-ext ((i, v) ∷ m) ((j, w) ∷ n) s t h = elim (≺_cases i j) [
    | inl lt ↦ absurd (
        ground (
          arith,
          h i,
          eq_refl i,
          eq_iff j i,
          ≺_ne i j lt,
          Above-lookup i n (Above-mono i j n lt t.0),
        ))
    | inr (inl e) ↦ ap₂ ◌∷◌ (ground (arith, h i, eq_refl i, eq_refl j)) (
        IsSorted-ext m n s.1 t.1 (λ k.
          ground (arith, h k, eq_iff i k, eq_iff j k, Above-lookup i m s.0, Above-lookup j n t.0)))
    | inr (inr gt) ↦
        let lt = ≺_flip i j gt in
        absurd (
          ground (
            arith,
            h j,
            eq_refl j,
            eq_iff i j,
            ≺_ne j i lt,
            Above-lookup j m (Above-mono j i m lt s.0),
          ))
  ]

  -- `collect()` from pairs, in their order: a later pair of one key replaces an earlier.
  unfoldable pub extend : List (String × V) → List (String × V) → List (String × V)
  unfolding insert
  extend m [] = m
  extend m ((k, v) ∷ l) = extend (insert k v m) l

  pub extend-IsSorted : (m l : List (String × V)) → IsSorted m → IsSorted (extend m l)
  unfolding extend
  extend-IsSorted m [] s = s
  extend-IsSorted m ((k, v) ∷ l) s = extend-IsSorted (insert k v m) l (insert-IsSorted k v m s)

  -- What a lookup finds after pairs in the order of their keys are collected.
  pub lookup-extend :
      (j : String) (m l : List (String × V))
      → IsSorted l
      → lookup j (extend m l) ≡ (elim (lookup j l) [ none ↦ lookup j m | some v ↦ some v ])
  unfolding extend lookup
  lookup-extend j m [] s = refl
  lookup-extend j m ((k, v) ∷ l) s = ground (
    arith,
    lookup-extend j (insert k v m) l s.1,
    lookup-insert k j v m,
    eq_iff k j,
    Above-lookup k l s.0,
  )

  -- To collect the entries of a map gives the map.
  pub extend_of_IsSorted : (l : List (String × V)) → IsSorted l → extend [] l ≡ l
  unfolding lookup
  extend_of_IsSorted l s =
      IsSorted-ext (extend [] l) l (extend-IsSorted [] l tt) s
        (λ k. ground (arith, lookup-extend k [] l s))

  -- To insert what is there changes nothing.
  pub insert_same :
      (k : String) (v : V) (m : List (String × V))
      → IsSorted m
      → lookup k m ≡ some v
      → insert k v m ≡ m
  insert_same k v m s e =
      IsSorted-ext (insert k v m) m (insert-IsSorted k v m s) s
        (λ j. ground (arith, lookup-insert k j v m, eq_iff k j))

  pub remove_absent :
      (k : String) (m : List (String × V)) → IsSorted m → lookup k m ≡ none → remove k m ≡ m
  remove_absent k m s e =
      IsSorted-ext (remove k m) m (remove-IsSorted k m s) s
        (λ j. ground (arith, lookup-remove k j m, eq_iff k j))

  pub insert-All {κ} :
      (P : String × V → Type κ) (k : String) (v : V) (m : List (String × V))
      → P (k, v)
      → All P m
      → All P (insert k v m)
  unfolding insert
  insert-All P k v [] p h = (p, tt)
  insert-All P k v ((i, w) ∷ m) p h = ground (arith, insert-All P k v m p h.1)

  pub ruleset btree_laws = (lookup-insert, lookup-remove)
