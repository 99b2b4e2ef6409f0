-- ===== src/Base/Results.antt =====
-- What a method that may raise returns: what it raises, or its value.
use mathlib.Core.Path.{◌≡◌, refl}
use mathlib.Core.Logic.{◌⊎◌, inl, inr}
use mathlib.Core.Option.{Option, none, some}

pub data Result (Error Value : Type 0) : Type 0 where
  err : Error → Result Error Value
  ok : Value → Result Error Value

module _ {Error Value : Type 0} where
  -- A read of a dictionary that raises on a missing key.
  abbrev pub or_raise : Option Value → Error → Result Error Value
  or_raise (some v) missing = ok v
  or_raise none missing = err missing

  pub Result-cases :
      (r : Result Error Value) → ((x : Error) × (r ≡ err x)) ⊎ ((v : Value) × (r ≡ ok v))
  Result-cases (err x) = inl (x, refl)
  Result-cases (ok v) = inr (v, refl)

  pub ok-injective : {v w : Value} → ◌≡◌ {A = Result Error Value} (ok v) (ok w) → v ≡ w
  ok-injective h = cc

  infixl 5 ◌>>=◌
  abbrev pub ◌>>=◌ :
      {Next : Type 0} → Result Error Value → (Value → Result Error Next) → Result Error Next
  err x >>= after = err x
  ok v >>= after = after v

  -- What a chain returned its last part returned, on a value of its first.
  pub >>=-ok :
      {Next : Type 0} (r : Result Error Value) (after : Value → Result Error Next) {w : Next}
      → (r >>= after) ≡ ok w
      → (v : Value) × (r ≡ ok v) × (after v ≡ ok w)
  >>=-ok (err x) after h = cc
  >>=-ok (ok v) after h = (v, refl, h)
