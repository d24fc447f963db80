-- ===== src/Common/Fuel.antt =====
-- Computations on fuel that return: on some fuel, and the same on any more.
use Prim.Native.Nat.{ℕ, ◌+◌}
use mathlib.Core.Path.{◌≡◌, refl, ap, ◌∙◌}
use mathlib.Core.Option
use mathlib.Core.Option.{Option, none, some}

module _ {A : Type 0} where
  pub record Returns (run : ℕ → Option A) : Type 0 where
    pub enough : ℕ
    pub value : A
    pub returned : (extra : ℕ) → run (enough + extra) ≡ some value

  pub some-Returns : (a : A) → Returns (λ fuel. some a)
  some-Returns a = record { enough = 0; value = a; returned = λ extra. refl }

  -- Another name for the same computation.
  pub same-Returns :
      {run other : ℕ → Option A}
      → ((fuel : ℕ) → other fuel ≡ run fuel)
      → Returns run
      → Returns other
  same-Returns same r = record {
    enough = r.enough;
    value = r.value;
    returned = λ extra. same (r.enough + extra) ∙ r.returned extra;
  }

module _ {A B : Type 0} where
  pub map-Returns :
      {run : ℕ → Option A} (f : A → B) → Returns run → Returns (λ fuel. Option.map f (run fuel))
  map-Returns f r = record {
    enough = r.enough;
    value = f r.value;
    returned = λ extra. ap (Option.map f) (r.returned extra);
  }
