-- ===== src/Prelude/Sort/Edits.antt =====
-- Ascending lists of texts from which a text is dropped, or to which one is added.
use Prim.Native.String.{String}
use mathlib.Core.Bool.{false, not}
use mathlib.Core.Option.{none}
use mathlib.Core.List.{List, [], ◌∷◌, ◌++◌}
use mathlib.Core.Path.{◌≡◌, refl}
use mathlib.Core.Logic.{inl, inr}
use native.Mathlib.Omega.{arith}
use text.Mathlib.Text.{◌==◌}
use text.Mathlib.TextEquality.{eq_iff}
use zero_conf_mesh.Prelude.Tests.{All, keep, has, Bool-cases}
use zero_conf_mesh.Prelude.Sort.{AllAbove, DistinctBy, find_key, AllAbove-find_key}
use zero_conf_mesh.Prelude.Sort.Texts.{self, IsAscending}

keep-AllAbove :
    (k c : String) (l : List String)
    → AllAbove self k l
    → AllAbove self k (keep (λ e. not (e == c)) l)
keep-AllAbove k c [] a = tt
keep-AllAbove k c (x ∷ l) a = ground (arith, keep-AllAbove k c l a.1)

pub keep-IsAscending :
    (c : String) (l : List String) → IsAscending l → IsAscending (keep (λ e. not (e == c)) l)
keep-IsAscending c [] a = tt
keep-IsAscending c (x ∷ l) a = ground (arith, keep-IsAscending c l a.1, keep-AllAbove x c l a.0)

pub keep-All {κ} :
    (P : String → Type κ) (c : String) (l : List String)
    → All P l
    → All P (keep (λ e. not (e == c)) l)
keep-All P c [] a = tt
keep-All P c (x ∷ l) a = elim (Bool-cases (x == c)) [
  | inl e ↦ rw e (keep-All P c l a.1)
  | inr e ↦ rw e (a.0, keep-All P c l a.1)
]

pub append-All {κ} :
    (P : String → Type κ) (l : List String) (c : String) → All P l → P c → All P (l ++ c ∷ [])
append-All P [] c a p = (p, tt)
append-All P (x ∷ l) c a p = (a.0, append-All P l c a.1 p)

find-append :
    (k c : String) (l : List String)
    → (c == k) ≡ false
    → find_key self k l ≡ none
    → find_key self k (l ++ c ∷ []) ≡ none
unfolding find_key
find-append k c [] h f = ground arith
find-append k c (x ∷ l) h f = ground (arith, find-append k c l h)

-- A text that is not in an ascending list, put behind it, stands in it once.
pub append-DistinctBy :
    (c : String) (l : List String) → IsAscending l → has c l ≡ false → DistinctBy self (l ++ c ∷ [])
unfolding find_key
append-DistinctBy c [] a h = (refl, tt)
append-DistinctBy c (x ∷ l) a h = (
  find-append x c l (ground (arith, eq_iff x c, eq_iff c x)) (AllAbove-find_key self x l a.0),
  append-DistinctBy c l a.1 (ground arith),
)
