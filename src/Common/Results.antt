-- ===== src/Common/Results.antt =====
-- Code that throws: a value or the code of the error that was thrown.
use Prim.Native.String.{String}
use mathlib.Core.Path.{◌≡◌, refl}
use native.Mathlib.Omega.{arith}
use mathlib.Core.Logic.{◌⊎◌, inl, inr}

pub data Result {ℓ} (A : Type ℓ) : Type ℓ where
  err : (code : String) → Result A
  ok : (value : A) → Result A

infixl 5 ◌>>◌ ◌>>=◌
-- A step whose value is not used.
abbrev pub ◌>>◌ {ℓ} : {A : Type ℓ} → Result (Unit {0}) → Result A → Result A
err code >> next = err code
ok _ >> next = next

-- The next step is taken with the value; an error ends the chain.
abbrev pub ◌>>=◌ {ℓ κ} : {A : Type ℓ} {B : Type κ} (r : Result A) (next : A → Result B) → Result B
err code >>= next = err code
ok value >>= next = next value

-- A chain that returns has returned at its first step, and one that throws threw there or later.
module _ {ℓ κ} {A : Type ℓ} {B : Type κ} where
  pub bind-eq-ok :
      (r : Result A) (next : A → Result B) {result : B}
      → (r >>= next) ≡ ok result
      → (value : A) × (r ≡ ok value) × (next value ≡ ok result)
  bind-eq-ok (err _) next e = cc
  bind-eq-ok (ok value) next e = (value, refl, e)

  pub bind-eq-err :
      (r : Result A) (next : A → Result B) {code : String}
      → (r >>= next) ≡ err code
      → (r ≡ err code) ⊎ ((value : A) × (r ≡ ok value) × (next value ≡ err code))
  bind-eq-err (err _) next e = inl (ground arith)
  bind-eq-err (ok value) next e = inr (value, refl, e)

pub ok_injective {ℓ} : {A : Type ℓ} {a b : A} → ok a ≡ ok b → a ≡ b
ok_injective e = cc

pub then-eq-ok {ℓ} :
    {A : Type ℓ} (r : Result (Unit {0})) {next : Result A} {result : A}
    → (r >> next) ≡ ok result
    → next ≡ ok result
then-eq-ok (err _) e = cc
then-eq-ok (ok _) e = e

pub Result-cases {ℓ} :
    {A : Type ℓ} (r : Result A) → ((a : A) × (r ≡ ok a)) ⊎ ((e : String) × (r ≡ err e))
Result-cases (ok a) = inl (a, refl)
Result-cases (err e) = inr (e, refl)
