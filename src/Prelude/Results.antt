-- ===== src/Prelude/Results.antt =====
-- What a function that may raise gives back: its value, or the exception. `>>=` goes on with the value.
use mathlib.Core.Path.{◌≡◌, refl}
use mathlib.Core.Logic.{◌⊎◌, inl, inr}

pub data Result {ℓ κ} (Raised : Type ℓ) (Value : Type κ) : Type (ℓ ⊔ κ) where
  err : Raised → Result Raised Value
  ok : Value → Result Raised Value

infixl 5 ◌>>=◌
abbrev pub ◌>>=◌ {ℓ κ μ} :
    {Raised : Type ℓ} {Value : Type κ} {Next : Type μ}
    → Result Raised Value
    → (Value → Result Raised Next)
    → Result Raised Next
err x >>= next = err x
ok v >>= next = next v

module _ {ℓ κ} {Raised : Type ℓ} {Value : Type κ} where
  pub Result-cases :
      (r : Result Raised Value) → ((v : Value) × (r ≡ ok v)) ⊎ ((x : Raised) × (r ≡ err x))
  Result-cases (err x) = inr (x, refl)
  Result-cases (ok v) = inl (v, refl)

  pub ok_inj : {v w : Value} → ◌≡◌ {A = Result Raised Value} (ok v) (ok w) → v ≡ w
  ok_inj same = cc

  pub err_inj : {x y : Raised} → ◌≡◌ {A = Result Raised Value} (err x) (err y) → x ≡ y
  err_inj same = cc

  -- a chain that raises nothing has a first value, and goes on from it
  pub >>=-eq-ok {μ} :
      {Next : Type μ} (r : Result Raised Value) (next : Value → Result Raised Next) {w : Next}
      → (r >>= next) ≡ ok w
      → (v : Value) × (r ≡ ok v) × (next v ≡ ok w)
  >>=-eq-ok (err x) next same = cc
  >>=-eq-ok (ok v) next same = (v, refl, same)

  -- a chain that raises does so at its first part or behind it
  pub >>=-eq-err {μ} :
      {Next : Type μ} (r : Result Raised Value) (next : Value → Result Raised Next) {x : Raised}
      → (r >>= next) ≡ err x
      → (r ≡ err x) ⊎ ((v : Value) × (r ≡ ok v) × (next v ≡ err x))
  >>=-eq-err (err y) next same = inl (cc)
  >>=-eq-err (ok v) next same = inr (v, refl, same)
