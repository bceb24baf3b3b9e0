-- ===== src/Prelude/Sort/Texts.antt =====
-- `sort` and `dedup` of `Vec<String>`.
use Prim.Native.Nat.{Ordering}
use Prim.Native.String.{String, compare}
use mathlib.Core.Bool.{◌||◌}
use mathlib.Core.List.{List, [], ◌∷◌}
use mathlib.Core.Path.{◌≡◌, refl, ap, ◌∙◌, sym}
use mathlib.Core.Logic.{inl, inr, ◌≢◌}
use native.Mathlib.Omega.{arith}
use text.Mathlib.Text.{◌==◌}
use text.Mathlib.TextEquality.{eq_iff}
use zero_conf_mesh.Prelude.Tests.{if◌then◌else◌, All, has, str-cases}
use zero_conf_mesh.Prelude.Order.{◌≺◌, ≺_cases, ≺_flip, ≺_trans, ≺_ne}
use zero_conf_mesh.Prelude.Sort.{insert_by, sort_by, Ascending, AllAbove, AllAbove-mono}

abbrev pub self : String → String
self s = s

unfoldable pub sort : List String → List String
unfolding sort_by
sort l = sort_by self l

-- What is kept behind a kept text.
unfoldable pub dedup_after : String → List String → List String
dedup_after x [] = []
dedup_after x (y ∷ ys) = let rest = dedup_after y ys in if y == x then rest else y ∷ rest

unfoldable pub dedup : List String → List String
unfolding dedup_after
dedup [] = []
dedup (x ∷ xs) = x ∷ dedup_after x xs

abbrev pub IsAscending : List String → Type 0
IsAscending = Ascending self

-- No text lies below `k`; no text lies below one that stands before it.
abbrev NoneBelow : String → List String → Type 0
NoneBelow k [] = Unit
NoneBelow k (y ∷ ys) = (compare k y ≢ Ordering.gt) × NoneBelow k ys

abbrev IsWeak : List String → Type 0
IsWeak [] = Unit
IsWeak (x ∷ xs) = NoneBelow x xs × IsWeak xs

≼_trans :
    (s t u : String)
    → compare s t ≢ Ordering.gt
    → compare t u ≢ Ordering.gt
    → compare s u ≢ Ordering.gt
≼_trans s t u p q = elim (≺_cases s t) [
  | inl a ↦ elim (≺_cases t u) [
    | inl b ↦ let k = ≺_trans s t u a b in cc
    | inr (inl b) ↦ rw (← b) p
    | inr (inr b) ↦ absurd (q b)
  ]
  | inr (inl a) ↦ rw a q
  | inr (inr a) ↦ absurd (p a)
]

NoneBelow-mono :
    (j k : String) (l : List String) → compare j k ≢ Ordering.gt → NoneBelow k l → NoneBelow j l
NoneBelow-mono j k [] h a = tt
NoneBelow-mono j k (y ∷ ys) h a = (≼_trans j k y h a.0, NoneBelow-mono j k ys h a.1)

≺_weak : (s t : String) → s ≺ t → compare s t ≢ Ordering.gt
≺_weak s t h = cc

NoneBelow-insert_by :
    (k x : String) (l : List String)
    → compare k x ≢ Ordering.gt
    → NoneBelow k l
    → NoneBelow k (insert_by self x l)
unfolding insert_by
NoneBelow-insert_by k x [] h a = (h, tt)
NoneBelow-insert_by k x (y ∷ ys) h a = ground (arith, NoneBelow-insert_by k x ys h a.1)

insert_by-IsWeak : (x : String) (l : List String) → IsWeak l → IsWeak (insert_by self x l)
unfolding insert_by
insert_by-IsWeak x [] w = (tt, tt)
insert_by-IsWeak x (y ∷ ys) w = ground (
  arith,
  NoneBelow-mono x y ys,
  ≺_flip x y,
  ≺_weak y x,
  NoneBelow-insert_by y x ys,
  insert_by-IsWeak x ys w.1,
)

sort-IsWeak : (l : List String) → IsWeak (sort l)
unfolding sort
sort-IsWeak [] = tt
sort-IsWeak (x ∷ xs) = insert_by-IsWeak x (sort_by self xs) (sort-IsWeak xs)

dedup_after-AllAbove :
    (k : String) (l : List String)
    → NoneBelow k l
    → IsWeak l
    → AllAbove self k (dedup_after k l) × IsAscending (dedup_after k l)
unfolding dedup_after
dedup_after-AllAbove k [] n w = (tt, tt)
dedup_after-AllAbove k (y ∷ ys) n w =
    let (above, ascends) = dedup_after-AllAbove y ys w.0 w.1 in
    elim (str-cases y k) [
      | inl (t, e) ↦ rw t (rw (← e) above, ascends)
      | inr (t, e) ↦
          let lt : k ≺ y = elim (≺_cases k y) [
            | inl a ↦ a
            | inr (inl a) ↦ absurd (e (sym a))
            | inr (inr a) ↦ absurd (n.0 a)
          ] in
          rw t ((lt, AllAbove-mono self k y (dedup_after y ys) lt above), (above, ascends))
    ]

dedup-IsAscending : (l : List String) → IsWeak l → IsAscending (dedup l)
unfolding dedup
dedup-IsAscending [] w = tt
dedup-IsAscending (x ∷ xs) w = dedup_after-AllAbove x xs w.0 w.1

-- After `sort` and `dedup` the texts ascend strictly.
pub dedup-sort-IsAscending : (l : List String) → IsAscending (dedup (sort l))
dedup-sort-IsAscending l = dedup-IsAscending (sort l) (sort-IsWeak l)

has-insert_by : (t x : String) (l : List String) → has t (insert_by self x l) ≡ (x == t || has t l)
unfolding insert_by
has-insert_by t x [] = refl
has-insert_by t x (y ∷ ys) = ground (arith, has-insert_by t x ys)

-- Sorting keeps the members.
pub has-sort : (t : String) (l : List String) → has t (sort l) ≡ has t l
unfolding sort
has-sort t [] = refl
has-sort t (x ∷ xs) = ground (arith, has-insert_by t x (sort_by self xs), has-sort t xs)

has-dedup_after :
    (t x : String) (l : List String) → (x == t || has t (dedup_after x l)) ≡ (x == t || has t l)
unfolding dedup_after
has-dedup_after t x [] = refl
has-dedup_after t x (y ∷ ys) =
    ground (arith, has-dedup_after t y ys, eq_iff y x, eq_iff x t, eq_iff y t)

pub has-dedup : (t : String) (l : List String) → has t (dedup l) ≡ has t l
unfolding dedup
has-dedup t [] = refl
has-dedup t (x ∷ xs) = has-dedup_after t x xs

insert_by_of_AllAbove :
    (x : String) (l : List String) → AllAbove self x l → insert_by self x l ≡ x ∷ l
unfolding insert_by
insert_by_of_AllAbove x [] a = refl
insert_by_of_AllAbove x (y ∷ ys) a = rw (a.0, insert_by)

-- Texts that ascend strictly are as `sort` and `dedup` leave them.
pub sort_of_IsAscending : (l : List String) → IsAscending l → sort l ≡ l
unfolding sort
sort_of_IsAscending [] a = refl
sort_of_IsAscending (x ∷ xs) a =
    ap (insert_by self x) (sort_of_IsAscending xs a.1) ∙ insert_by_of_AllAbove x xs a.0

pub dedup_of_IsAscending : (l : List String) → IsAscending l → dedup l ≡ l
unfolding dedup
dedup_of_IsAscending [] a = refl
dedup_of_IsAscending (x ∷ xs) a = ap (◌∷◌ x) (dedup_after_of_AllAbove x xs a.0 a.1)
  where
    dedup_after_of_AllAbove :
        (k : String) (l : List String) → AllAbove self k l → IsAscending l → dedup_after k l ≡ l
    dedup_after_of_AllAbove k [] b c = refl
    dedup_after_of_AllAbove k (y ∷ ys) b c =
        ground (arith, dedup_after_of_AllAbove y ys c.0 c.1, eq_iff y k, ≺_ne k y b.0)

module _ {ℓ} (P : String → Type ℓ) where
  insert_by-All : (x : String) (l : List String) → P x → All P l → All P (insert_by self x l)
  unfolding insert_by
  insert_by-All x [] p h = (p, tt)
  insert_by-All x (y ∷ ys) p h = ground (arith, insert_by-All x ys p h.1)

  pub sort-All : (l : List String) → All P l → All P (sort l)
  unfolding sort
  sort-All [] h = tt
  sort-All (x ∷ xs) h = insert_by-All x (sort_by self xs) h.0 (sort-All xs h.1)

  pub dedup_after-All : (x : String) (l : List String) → All P l → All P (dedup_after x l)
  unfolding dedup_after
  dedup_after-All x [] h = tt
  dedup_after-All x (y ∷ ys) h = ground (arith, dedup_after-All y ys h.1)

  pub dedup-All : (l : List String) → All P l → All P (dedup l)
  unfolding dedup
  dedup-All [] h = tt
  dedup-All (x ∷ xs) h = (h.0, dedup_after-All x xs h.1)
