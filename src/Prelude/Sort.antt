-- ===== src/Prelude/Sort.antt =====
-- `sort_by` on a text key.
pub mod Texts
pub mod Edits
use Prim.Native.Nat.{Ordering}
use Prim.Native.String.{String, compare}
use mathlib.Core.Bool.{Bool, true, false}
use mathlib.Core.Option.{Option, none, some}
use mathlib.Core.List.{List, [], ◌∷◌}
use mathlib.Core.Path.{◌≡◌, refl, ap₂, ◌∙◌}
use mathlib.Core.Logic.{inl, inr, ◌≢◌}
use native.Mathlib.Omega.{arith}
use text.Mathlib.Text.{◌==◌}
use text.Mathlib.TextEquality.{eq_iff, path_by_compare}
use text.Mathlib.TextPositions.{eq_refl}
use zero_conf_mesh.Prelude.Tests.{if◌then◌else◌, All, keep}
use zero_conf_mesh.Prelude.Order.{◌≺◌, ≺_cases, ≺_flip, ≺_trans, ≺_ne}

module _ {ℓ} {A : Type ℓ} (key : A → String) where
  -- A stable insertion: in front of the first element that is not below.
  unfoldable pub insert_by : A → List A → List A
  insert_by x [] = x ∷ []
  insert_by x (y ∷ ys) =
      let later = insert_by x ys in
      elim (compare (key x) (key y)) [ Ordering.gt ↦ y ∷ later | _ ↦ x ∷ y ∷ ys ]

  unfoldable pub sort_by : List A → List A
  unfolding insert_by
  sort_by [] = []
  sort_by (x ∷ xs) = insert_by x (sort_by xs)

  -- The first element with a key.
  unfoldable pub find_key : String → List A → Option A
  find_key k [] = none
  find_key k (x ∷ xs) = if key x == k then some x else find_key k xs

  -- Every key lies above `k`; the keys ascend strictly.
  abbrev pub AllAbove : String → List A → Type 0
  AllAbove k [] = Unit
  AllAbove k (y ∷ ys) = k ≺ key y × AllAbove k ys

  abbrev pub Ascending : List A → Type 0
  Ascending [] = Unit
  Ascending (x ∷ xs) = AllAbove (key x) xs × Ascending xs

  find_key-insert_by :
      (k : String) (x : A) (l : List A)
      → find_key k (insert_by x l) ≡ (if key x == k then some x else find_key k l)
  unfolding find_key insert_by
  find_key-insert_by k x [] = refl
  find_key-insert_by k x (y ∷ ys) = ground (
    arith,
    find_key-insert_by k x ys,
    eq_iff (key x) k,
    eq_iff (key y) k,
    ≺_flip (key x) (key y),
    ≺_ne (key y) (key x),
  )

  -- Sorting changes no search by key.
  pub find_key-sort_by : (k : String) (l : List A) → find_key k (sort_by l) ≡ find_key k l
  unfolding find_key sort_by
  find_key-sort_by k [] = refl
  find_key-sort_by k (x ∷ xs) =
      ground (arith, find_key-insert_by k x (sort_by xs), find_key-sort_by k xs)

  pub AllAbove-mono : (j k : String) (l : List A) → j ≺ k → AllAbove k l → AllAbove j l
  AllAbove-mono j k [] h a = tt
  AllAbove-mono j k (y ∷ ys) h a = (≺_trans j k (key y) h a.0, AllAbove-mono j k ys h a.1)

  pub AllAbove-find_key : (k : String) (l : List A) → AllAbove k l → find_key k l ≡ none
  unfolding find_key
  AllAbove-find_key k [] a = refl
  AllAbove-find_key k (y ∷ ys) a =
      ground (arith, AllAbove-find_key k ys a.1, ≺_ne k (key y) a.0, eq_iff (key y) k)

  AllAbove-insert_by :
      (k : String) (x : A) (l : List A) → k ≺ key x → AllAbove k l → AllAbove k (insert_by x l)
  unfolding insert_by
  AllAbove-insert_by k x [] h a = (h, tt)
  AllAbove-insert_by k x (y ∷ ys) h a = ground (arith, AllAbove-insert_by k x ys h a.1)

  insert_by-Ascending :
      (x : A) (l : List A) → find_key (key x) l ≡ none → Ascending l → Ascending (insert_by x l)
  unfolding insert_by find_key
  insert_by-Ascending x [] e a = (tt, tt)
  insert_by-Ascending x (y ∷ ys) e a = ground (
    arith,
    path_by_compare (key x) (key y),
    eq_iff (key y) (key x),
    ≺_flip (key x) (key y),
    AllAbove-mono (key x) (key y) ys,
    AllAbove-insert_by (key y) x ys,
    insert_by-Ascending x ys,
  )

  -- No key stands twice.
  abbrev pub DistinctBy : List A → Type ℓ
  DistinctBy [] = Unit
  DistinctBy (x ∷ xs) = (find_key (key x) xs ≡ none) × DistinctBy xs

  -- Where no key stands twice, sorting makes the keys ascend strictly.
  pub sort_by-Ascending : (l : List A) → DistinctBy l → Ascending (sort_by l)
  unfolding sort_by
  sort_by-Ascending [] d = tt
  sort_by-Ascending (x ∷ xs) d =
      insert_by-Ascending x (sort_by xs) (find_key-sort_by (key x) xs ∙ d.0)
        (sort_by-Ascending xs d.1)

  -- Two ascending lists that answer every search alike are one.
  pub Ascending-ext :
      (l m : List A)
      → Ascending l
      → Ascending m
      → ((k : String) → find_key k l ≡ find_key k m)
      → l ≡ m
  unfolding find_key
  Ascending-ext [] [] s t h = refl
  Ascending-ext [] (y ∷ m) s t h = ground (arith, h (key y), eq_refl (key y))
  Ascending-ext (x ∷ l) [] s t h = ground (arith, h (key x), eq_refl (key x))
  Ascending-ext (x ∷ l) (y ∷ m) s t h = elim (≺_cases (key x) (key y)) [
    | inl lt ↦ absurd (
        ground (
          arith,
          h (key x),
          eq_refl (key x),
          eq_iff (key y) (key x),
          ≺_ne (key x) (key y) lt,
          AllAbove-find_key (key x) m (AllAbove-mono (key x) (key y) m lt t.0),
        ))
    | inr (inl e) ↦ ap₂ ◌∷◌ (ground (arith, h (key x), eq_refl (key x), eq_refl (key y))) (
        Ascending-ext l m s.1 t.1 (λ k. ground (
          arith,
          h k,
          eq_iff (key x) k,
          eq_iff (key y) k,
          AllAbove-find_key (key x) l s.0,
          AllAbove-find_key (key y) m t.0,
        )))
    | inr (inr gt) ↦
        let lt = ≺_flip (key x) (key y) gt in
        absurd (
          ground (
            arith,
            h (key y),
            eq_refl (key y),
            eq_iff (key x) (key y),
            ≺_ne (key y) (key x) lt,
            AllAbove-find_key (key y) l (AllAbove-mono (key y) (key x) l lt s.0),
          ))
  ]
