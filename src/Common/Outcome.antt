-- ===== src/Common/Outcome.antt =====
-- Rust's `Result`, and the methods of it that the server uses.
use mathlib.Core.Path.{◌≡◌, refl, ap, subst}
use mathlib.Core.Logic.{◌⊎◌, inl, inr}
use mathlib.Core.Option.{Option, none, some}
use native.Mathlib.Omega.{arith}

pub data Result {ℓ} (Value Failure : Type ℓ) : Type ℓ where
  err : Failure → Result Value Failure
  ok : Value → Result Value Failure

module _ {ℓ} {V F : Type ℓ} where
  -- `map_err`
  abbrev pub map_err : {G : Type ℓ} → (F → G) → Result V F → Result V G
  map_err wrap (err failure) = err (wrap failure)
  map_err wrap (ok v) = ok v

  -- `ok_or`
  abbrev pub ok_or : Option V → F → Result V F
  ok_or none failure = err failure
  ok_or (some v) failure = ok v

module _ {ℓ} {V F : Type ℓ} where
  -- A split on a computed result that keeps the equation.
  pub Result-cases : (r : Result V F) → ((v : V) × (r ≡ ok v)) ⊎ ((failure : F) × (r ≡ err failure))
  Result-cases (err failure) = inr (failure, refl)
  Result-cases (ok v) = inl (v, refl)

module _ {ℓ} {V W F : Type ℓ} where
  -- `?`, which a `do` block stands for
  abbrev pub ◌>>=◌ : Result V F → (V → Result W F) → Result W F
  r >>= rest = elim r [ err failure ↦ err failure | ok v ↦ rest v ]

  infixl 5 ◌>>=◌
  pub >>=-eq-ok :
      (r : Result V F) (rest : V → Result W F) {w : W}
      → (r >>= rest) ≡ ok w
      → (v : V) × (r ≡ ok v) × (rest v ≡ ok w)
  >>=-eq-ok (err failure) rest h = ground arith
  >>=-eq-ok (ok v) rest h = (v, refl, h)

module _ {ℓ} {V F : Type ℓ} where
  pub ok-injective : {v w : V} → ◌≡◌ {A = Result V F} (ok v) (ok w) → v ≡ w
  ok-injective h = cc

  pub ok_or-eq-ok : (o : Option V) (f : F) {v : V} → ok_or o f ≡ ok v → o ≡ some v
  ok_or-eq-ok none f h = ground arith
  ok_or-eq-ok (some w) f h = ap some (ok-injective h)

-- What is returned, if something is, has a property.
pub record Yields {ℓ κ} {V F : Type ℓ} (P : V → Type κ) (r : Result V F) : Type (ℓ ⊔ κ) where
  pub of_ok : (v : V) → r ≡ ok v → P v

module _ {ℓ κ} {V F : Type ℓ} {P : V → Type κ} where
  pub ok-Yields : (v : V) → P v → Yields {F = F} P (ok v)
  ok-Yields v h = record { of_ok = λ w e. subst P (ok-injective e) h }

module _ {ℓ κ} {V W F : Type ℓ} {P : W → Type κ} where
  pub >>=-Yields :
      (r : Result V F) (rest : V → Result W F)
      → ((v : V) → r ≡ ok v → Yields P (rest v))
      → Yields P (r >>= rest)
  >>=-Yields (err failure) rest h = record { of_ok = λ w e. cc }
  >>=-Yields (ok v) rest h = h v refl
