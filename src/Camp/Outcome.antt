-- ===== src/Camp/Outcome.antt =====
-- src/bin/camp.rs: the results of the command-line tool, `Result<A, String>` and
-- `Result<A, Box<dyn Error>>`. An error is its text.
use zero_conf_mesh.Prelude.{String, ◌≡◌, refl, Option, none, some, ◌⊎◌, inl, inr}

pub data Outcome {ℓ} (A : Type ℓ) : Type ℓ where
  done : A → Outcome A
  failed : String → Outcome A

-- The `?` operator.
infixl 5 ◌>>=◌
abbrev pub ◌>>=◌ {ℓ κ} : {A : Type ℓ} {B : Type κ} → Outcome A → (A → Outcome B) → Outcome B
failed message >>= continue = failed message
done a >>= continue = continue a

-- `.ok_or(message)?`
abbrev pub ok_or {ℓ} : {A : Type ℓ} → String → Option A → Outcome A
ok_or message none = failed message
ok_or message (some a) = done a

-- What a chain that comes to its end went through.
pub >>=-eq-done {ℓ κ} :
    {A : Type ℓ} {B : Type κ} (o : Outcome A) (continue : A → Outcome B) {b : B}
    → (o >>= continue) ≡ done b
    → (a : A) × (o ≡ done a) × (continue a ≡ done b)
>>=-eq-done (failed message) continue e = cc
>>=-eq-done (done a) continue e = (a, refl, e)

pub Outcome-cases {ℓ} :
    {A : Type ℓ} (o : Outcome A)
    → ((a : A) × (o ≡ done a)) ⊎ ((message : String) × (o ≡ failed message))
Outcome-cases (done a) = inl (a, refl)
Outcome-cases (failed message) = inr (message, refl)
