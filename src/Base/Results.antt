-- ===== src/Base/Results.antt =====
-- Go's `(T, error)` results, an error being its message, and the text written to stderr.
use Prim.Native.String.{String, ◌++◌ as ◌<>◌}
use mathlib.Core.Path.{◌≡◌, refl}
use mathlib.Core.Logic.{◌⊎◌, inl, inr}
use mathlib.Core.List.{List, []}

pub data Result {ℓ} (T : Type ℓ) : Type ℓ where
  err : (message : String) → Result T
  ok : T → Result T

-- `if err != nil { return nil, fmt.Errorf(prefix + "%w", err) }`
abbrev pub wrap {ℓ} : {A : Type ℓ} → String → Result A → Result A
wrap prefix (ok a) = ok a
wrap prefix (err e) = err (prefix <> e)

-- `value, err := first(); if err != nil { return err }`, and what is done with the value.
module _ {ℓ κ} {T : Type ℓ} {U : Type κ} where
  infixl 5 ◌>>=◌
  abbrev pub ◌>>=◌ : Result T → (T → Result U) → Result U
  err message >>= next = err message
  ok value >>= next = next value

  pub >>=-eq-ok :
      (first : Result T) (next : T → Result U) {out : U}
      → (first >>= next) ≡ ok out
      → (value : T) × (first ≡ ok value) × (next value ≡ ok out)
  >>=-eq-ok (err message) next h = cc
  >>=-eq-ok (ok value) next h = (value, refl, h)

-- A value with the lines that were printed to stderr on the way.
pub record Logged {ℓ} (A : Type ℓ) : Type ℓ where
  pub stderr : List String
  pub value : A

abbrev pub quiet {ℓ} : {A : Type ℓ} → A → Logged A
quiet a = record { stderr = []; value = a }

pub wrap-eq-ok {ℓ} : {A : Type ℓ} {a : A} (p : String) (m : Result A) → wrap p m ≡ ok a → m ≡ ok a
wrap-eq-ok p (ok a) h = h
wrap-eq-ok p (err e) h = cc

pub ok-injective {ℓ} : {A : Type ℓ} {a b : A} → ok a ≡ ok b → a ≡ b
ok-injective e = cc

-- The result is a value, and that value has the property.
abbrev pub Yields : {A : Type 0} → (A → Type 0) → Result A → Type 0
Yields P (ok x) = P x
Yields P (err e) = ⊥

abbrev pub Succeeds {ℓ} : {A : Type ℓ} → Result A → Type ℓ
Succeeds {A} r = (a : A) × (r ≡ ok a)

pub Result-cases {ℓ} :
    {A : Type ℓ} (r : Result A) → ((a : A) × (r ≡ ok a)) ⊎ ((e : String) × (r ≡ err e))
Result-cases (ok a) = inl (a, refl)
Result-cases (err e) = inr (e, refl)

pub ok-ne-err {ℓ} : {A : Type ℓ} {a : A} {e : String} → ok a ≡ err e → ⊥
ok-ne-err h = cc
