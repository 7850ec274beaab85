-- ===== src/Prelude/Outcomes.antt =====
-- How a Go call ends: with a value, with an error, or with a panic.
use mathlib.Core.Path.{◌≡◌, refl}

pub data Outcome (E A : Type 0) : Type 0 where
  ok : A → Outcome E A
  err : E → Outcome E A
  panic : Outcome E A

infixl 5 ◌>>=◌
abbrev pub ◌>>=◌ : {E A B : Type 0} → Outcome E A → (A → Outcome E B) → Outcome E B
ok a >>= f = f a
err e >>= f = err e
panic >>= f = panic

pub ok-injective : {E A : Type 0} {a b : A} → ◌≡◌ {A = Outcome E A} (ok a) (ok b) → a ≡ b
ok-injective h = cc

-- A sequence that succeeded is two steps that did.
pub then-ok :
    {E A B : Type 0} (m : Outcome E A) (f : A → Outcome E B) (b : B)
    → m >>= f ≡ ok b
    → (a : A) × (m ≡ ok a) × (f a ≡ ok b)
then-ok (ok a) f b h = (a, refl, h)
then-ok (err e) f b h = absurd (err-ne-done h)
  where
    err-ne-done : {E A : Type 0} {e : E} {a : A} → ¬ (◌≡◌ {A = Outcome E A} (err e) (ok a))
    err-ne-done h = cc
then-ok panic f b h = absurd (panic-ne-done h)
  where
    panic-ne-done : {E A : Type 0} {a : A} → ¬ (◌≡◌ {A = Outcome E A} panic (ok a))
    panic-ne-done h = cc
