-- ===== src/Base/Outcome.antt =====
-- Go's pairs of a value and an error, and operations on a state that may fail: the state comes
-- back after an error too, since what was written stays written.
use Prim.Native.String.{String}
use mathlib.Core.Path.{◌≡◌, refl}
use mathlib.Core.Logic.{◌⊎◌, inl, inr}
use mathlib.Core.Bool.{Bool, true, false}
use go_devops_platform.Base.Tests.{if◌then◌else◌}

pub data Result {ℓ} (A : Type ℓ) : Type ℓ where
  ok : A → Result A
  err : String → Result A

-- A call that returns, or panics.
pub data Run {ℓ} (A : Type ℓ) : Type ℓ where
  returns : A → Run A
  panics : String → Run A

abbrev pub Done : Type 0
Done = Unit {0}

abbrev pub is_ok {ℓ} : {A : Type ℓ} → Result A → Bool
is_ok (ok a) = true
is_ok (err e) = false

-- The same outcome with another value, as in `return user, u.SaveUsers()`.
abbrev pub returning {ℓ κ} : {A : Type ℓ} {B : Type κ} → B → Result A → Result B
returning b (ok a) = ok b
returning b (err e) = err e

abbrev pub Action {ℓ κ} : Type ℓ → Type κ → Type (ℓ ⊔ κ)
Action S A = S → Result A × S

module _ {ℓ κ} {S : Type ℓ} {A : Type κ} where
  abbrev pub pure : A → Action S A
  pure a s = (ok a, s)

  abbrev pub fail : String → Action S A
  fail e s = (err e, s)

infixl 5 ◌>>=◌ ◌>>◌
abbrev pub ◌>>=◌ {ℓ κ μ} :
    {S : Type ℓ} {A : Type κ} {B : Type μ} → Action S A → (A → Action S B) → Action S B
◌>>=◌ m f s = let (r, s') = m s in elim r [ ok a ↦ f a s' | err e ↦ (err e, s') ]

abbrev pub ◌>>◌ {ℓ μ} : {S : Type ℓ} {B : Type μ} → Action S Done → Action S B → Action S B
m >> k = m >>= λ _. k

-- `if c { return ..., fmt.Errorf(e) }`
abbrev pub fail_if {ℓ} : {S : Type ℓ} → Bool → String → Action S Done
fail_if c e s = (if c then err e else ok tt, s)

pub Result-cases {ℓ} :
    {A : Type ℓ} (r : Result A) → ((a : A) × (r ≡ ok a)) ⊎ ((e : String) × (r ≡ err e))
Result-cases (ok a) = inl (a, refl)
Result-cases (err e) = inr (e, refl)

pub Run-cases {ℓ} :
    {A : Type ℓ} (r : Run A) → ((a : A) × (r ≡ returns a)) ⊎ ((m : String) × (r ≡ panics m))
Run-cases (returns a) = inl (a, refl)
Run-cases (panics m) = inr (m, refl)
