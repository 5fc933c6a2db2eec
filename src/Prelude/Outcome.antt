-- ===== src/Prelude/Outcome.antt =====
-- Python functions that may raise: a value or an exception.
use mathlib.Core.Path.{◌≡◌, refl}
use mathlib.Core.Bool.{Bool, true, false}
use mathlib.Core.Logic.{◌⊎◌, inl, inr}
use native.Mathlib.Omega.{arith}

pub data Result {ℓ κ} (E : Type ℓ) (A : Type κ) : Type (ℓ ⊔ κ) where
  ok : A → Result E A
  raise : E → Result E A

-- `if not b: raise e`
abbrev pub guard {ℓ} : {Err : Type ℓ} → Bool → Err → Result Err (Unit {0})
guard false error = raise error
guard true error = ok tt

infixl 5 ◌>>=◌ ◌>>◌
abbrev pub ◌>>=◌ {ℓ κ μ} :
    {Err : Type ℓ} {A : Type κ} {B : Type μ} → Result Err A → (A → Result Err B) → Result Err B
raise error >>= next = raise error
ok a >>= next = next a

abbrev pub ◌>>◌ {ℓ κ} :
    {Err : Type ℓ} {B : Type κ} → Result Err (Unit {0}) → Result Err B → Result Err B
first >> second = first >>= λ _. second

-- What a `do` block that returns has done: its first line returned, and so did the rest.
pub >>=-eq-ok {ℓ κ μ} :
    {Err : Type ℓ} {A : Type κ} {B : Type μ} (first : Result Err A) (next : A → Result Err B)
    → {result : B} → (first >>= next) ≡ ok result
    → (middle : A) × (first ≡ ok middle) × (next middle ≡ ok result)
>>=-eq-ok (raise error) next returned = cc
>>=-eq-ok (ok middle) next returned = (middle, refl, returned)

-- What a `do` block that raises has done: its first line raised, or the rest did.
pub >>=-eq-raise {ℓ κ μ} :
    {Err : Type ℓ} {A : Type κ} {B : Type μ} (first : Result Err A) (next : A → Result Err B)
    → {error : Err} → (first >>= next) ≡ raise error
    → (first ≡ raise error) ⊎ ((middle : A) × (first ≡ ok middle) × (next middle ≡ raise error))
>>=-eq-raise (raise e) next raised = inl (ground arith)
>>=-eq-raise (ok middle) next raised = inr (middle, refl, raised)

pub Result-cases {ℓ κ} :
    {Err : Type ℓ} {A : Type κ} (r : Result Err A)
    → ((e : Err) × (r ≡ raise e)) ⊎ ((a : A) × (r ≡ ok a))
Result-cases (raise e) = inl (e, refl)
Result-cases (ok a) = inr (a, refl)
