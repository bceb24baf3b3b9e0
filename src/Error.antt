-- ===== src/Error.antt =====
-- src/error.rs: the error values, and results that carry them.
use zero_conf_mesh.Prelude.{ℕ, String, ◌≡◌, refl, List, [], ◌∷◌, All, ◌⊎◌, inl, inr, arith}

-- A foreign error (of the regex, mDNS and task libraries) is its text.
pub data ZeroConfError : Type 0 where
  empty_field : String → ZeroConfError
  invalid_service_type : String → ZeroConfError
  invalid_port invalid_mdns_port invalid_event_capacity : ZeroConfError
  -- the heartbeat interval and the TTL
  invalid_timing : ℕ → ℕ → ZeroConfError
  empty_metadata_key : ZeroConfError
  reserved_metadata_key : String → ZeroConfError
  empty_capability empty_shared_secret : ZeroConfError
  invalid_capability : String → ZeroConfError
  missing_txt_property : String → ZeroConfError
  invalid_txt_property_encoding : String → ZeroConfError
  invalid_status : String → ZeroConfError
  -- the pattern and the compiler's complaint
  invalid_metadata_regex : String → String → ZeroConfError
  missing_auth_metadata : String → ZeroConfError
  invalid_auth_scheme : String → ZeroConfError
  invalid_shared_secret_signature : String → ZeroConfError
  mdns : String → ZeroConfError
  task_join : String → ZeroConfError

-- `Result<A, ZeroConfError>`
pub data Result {ℓ} (A : Type ℓ) : Type ℓ where
  ok : A → Result A
  err : ZeroConfError → Result A

-- The `?` operator: an error ends the function that it stands in.
infixl 5 ◌>>=◌ ◌>>◌
abbrev pub ◌>>=◌ {ℓ κ} : {X : Type ℓ} {Y : Type κ} → Result X → (X → Result Y) → Result Y
err reason >>= next = err reason
ok value >>= next = next value

abbrev pub ◌>>◌ {ℓ} : {Y : Type ℓ} → Result (Unit {0}) → Result Y → Result Y
checked >> rest = checked >>= λ done. rest

-- `map(f).collect::<Result<Vec<_>, _>>()`: the first error, or all results.
abbrev pub collect_results {ℓ κ} :
    {A : Type ℓ} {B : Type κ} → (A → Result B) → List A → Result (List B)
collect_results f [] = ok []
collect_results f (x ∷ xs) = do y ← f x; ys ← collect_results f xs; ok (y ∷ ys)

abbrev pub map_ok {ℓ κ} : {A : Type ℓ} {B : Type κ} → (A → B) → Result A → Result B
map_ok f r = r >>= λ a. ok (f a)

-- A bind that returns: what was bound, and what it returned.
pub >>=-eq-ok {ℓ κ} :
    {X : Type ℓ} {Y : Type κ} (first : Result X) (next : X → Result Y) {result : Y}
    → (first >>= next) ≡ ok result
    → (bound : X) × (first ≡ ok bound) × (next bound ≡ ok result)
>>=-eq-ok (err reason) next returns = cc
>>=-eq-ok (ok value) next returns = (value, refl, returns)

pub Result-cases {ℓ} :
    {A : Type ℓ} (r : Result A) → ((a : A) × (r ≡ ok a)) ⊎ ((e : ZeroConfError) × (r ≡ err e))
Result-cases (ok a) = inl (a, refl)
Result-cases (err e) = inr (e, refl)

-- What every single result satisfies, all collected results satisfy.
pub collect_results-All {ℓ κ ν} :
    {A : Type ℓ} {B : Type κ} (f : A → Result B) (P : B → Type ν)
    → ((a : A) (b : B) → f a ≡ ok b → P b)
    → (l : List A) (r : List B) → collect_results f l ≡ ok r
    → All P r
collect_results-All f P h [] [] e = tt
collect_results-All f P h [] (y ∷ ys) e = cc
collect_results-All f P h (x ∷ xs) [] e =
    let (y, p, q) = >>=-eq-ok (f x) (λ y. collect_results f xs >>= λ ys. ok (y ∷ ys)) e in
    let (ys, r, s) = >>=-eq-ok (collect_results f xs) (λ ys. ok (y ∷ ys)) q in cc
collect_results-All f P h (x ∷ xs) (z ∷ zs) e =
    let (y, p, q) = >>=-eq-ok (f x) (λ y. collect_results f xs >>= λ ys. ok (y ∷ ys)) e in
    let (ys, r, s) = >>=-eq-ok (collect_results f xs) (λ ys. ok (y ∷ ys)) q in
    (h x z (ground arith), collect_results-All f P h xs zs (ground arith))

-- Where every single call returns its argument, so does the collection.
pub collect_results_id {ℓ} :
    {A : Type ℓ} (f : A → Result A) (P : A → Type ℓ)
    → ((a : A) → P a → f a ≡ ok a)
    → (l : List A) → All P l
    → collect_results f l ≡ ok l
collect_results_id f P h [] a = refl
collect_results_id f P h (x ∷ xs) a = rw (h x a.0, collect_results_id f P h xs a.1)
