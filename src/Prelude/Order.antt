-- ===== src/Prelude/Order.antt =====
-- The order of texts, Rust's `Ord` of `str`.
use Prim.Native.Nat.{Ordering}
use Prim.Native.String.{String, compare}
use Prim.Native.String.compare as cmp
use mathlib.Core.Path.{◌≡◌, refl}
use mathlib.Core.Logic.{◌⊎◌, inl, inr, ◌≢◌}
use native.Mathlib.Omega.{arith}
use text.Mathlib.TextEquality.{path_by_compare}
use text.Mathlib.TextPositions.{compare_refl}

infix 50 ◌≺◌
abbrev pub ◌≺◌ : String → String → Type 0
s ≺ t = compare s t ≡ Ordering.lt

Ordering-cases : (o : Ordering) → (o ≡ Ordering.lt) ⊎ (o ≡ Ordering.eq) ⊎ (o ≡ Ordering.gt)
Ordering-cases Ordering.lt = inl refl
Ordering-cases Ordering.eq = inr (inl refl)
Ordering-cases Ordering.gt = inr (inr refl)

-- To split on an order of two texts, and keep the equation.
pub ≺_cases : (s t : String) → s ≺ t ⊎ (s ≡ t) ⊎ (compare s t ≡ Ordering.gt)
≺_cases s t = elim (Ordering-cases (compare s t)) [
  | inl e ↦ inl e
  | inr (inl e) ↦ inr (inl (path_by_compare s t e))
  | inr (inr e) ↦ inr (inr e)
]

pub ≺_flip : (s t : String) → compare s t ≡ Ordering.gt → t ≺ s
≺_flip String.[] String.[] h = let k = rw cmp.nil-nil at h in cc
≺_flip String.[] (String.◌∷◌ d t) h = let k = rw cmp.nil-cons at h in cc
≺_flip (String.◌∷◌ c s) String.[] h = rw cmp.nil-cons
≺_flip (String.◌∷◌ c s) (String.◌∷◌ d t) h =
    rw cmp.cons-cons (let k = rw cmp.cons-cons at h in ground (arith, ≺_flip s t))

≺_irrefl : (s : String) → s ≺ s → ⊥
≺_irrefl s h = cc (compare_refl s)

not-≺-nil : (t : String) → t ≺ "" → ⊥
not-≺-nil String.[] h = ≺_irrefl "" h
not-≺-nil (String.◌∷◌ c s) h = let k = rw cmp.cons-nil at h in cc

pub ≺_trans : (s t u : String) → s ≺ t → t ≺ u → s ≺ u
≺_trans s t String.[] p q = absurd (not-≺-nil t q)
≺_trans String.[] t (String.◌∷◌ d u) p q = rw cmp.nil-cons
≺_trans (String.◌∷◌ c s) String.[] u p q = absurd (not-≺-nil (String.◌∷◌ c s) p)
≺_trans (String.◌∷◌ c s) (String.◌∷◌ d t) (String.◌∷◌ e u) p q = rw cmp.cons-cons (
    let k = rw cmp.cons-cons at p in let l = rw cmp.cons-cons at q in ground (arith, ≺_trans s t u))

-- A text below another is another text.
pub ≺_ne : (s t : String) → s ≺ t → s ≢ t
≺_ne s t h e = ≺_irrefl t (rw e at h)

pub ≺_asymm : (s t : String) → s ≺ t → t ≺ s → ⊥
≺_asymm s t p q = ≺_irrefl s (≺_trans s t s p q)
