-- ===== src/Base/Results.antt =====
-- What a fallible function of the program comes back with.
use mathlib.Core.Path.{◌≡◌, refl}
use mathlib.Core.Option.{Option, none, some}
use mathlib.Core.Bool.{Bool, true, false}
use webgit.Base.Tests.{if◌then◌else◌}

-- `Ok`, `Err`, and two values that no Rust code returns: a panic (an `unwrap` of `None`, a capacity
-- over the limit), and a loop of the model that ran out of fuel.
pub data Outcome {ℓ κ} (E : Type ℓ) (A : Type κ) : Type (ℓ ⊔ κ) where
  ok : A → Outcome E A
  err : E → Outcome E A
  panic : Outcome E A
  stuck : Outcome E A

-- The `?` operator.
infixl 5 ◌>>=◌
abbrev pub ◌>>=◌ {ℓ κ μ} :
    {E : Type ℓ} {A : Type κ} {B : Type μ} → Outcome E A → (A → Outcome E B) → Outcome E B
ok a >>= f = f a
err e >>= f = err e
panic >>= f = panic
stuck >>= f = stuck

-- `ok_or(e)?`
abbrev pub ok_or {ℓ κ} : {E : Type ℓ} {A : Type κ} → Option A → E → Outcome E A
ok_or none e = err e
ok_or (some a) e = ok a

-- `unwrap()`
abbrev pub unwrap {ℓ κ} : {E : Type ℓ} {A : Type κ} → Option A → Outcome E A
unwrap none = panic
unwrap (some a) = ok a

-- An `Ok` or an `Err`: neither a panic nor a lack of fuel.
abbrev pub Returns {ℓ κ} : {E : Type ℓ} {A : Type κ} → Outcome E A → Type 0
Returns (ok a) = Unit
Returns (err e) = Unit
Returns panic = ⊥
Returns stuck = ⊥

-- A block that gave a value went through each of its steps.
pub bind-eq_ok {ℓ κ μ} :
    {E : Type ℓ} {A : Type κ} {B : Type μ} (m : Outcome E A) (f : A → Outcome E B) {b : B}
    → (m >>= f) ≡ ok b
    → (a : A) × (m ≡ ok a) × (f a ≡ ok b)
bind-eq_ok (ok a) f h = (a, refl, h)
bind-eq_ok (err e) f h = cc
bind-eq_ok panic f h = cc
bind-eq_ok stuck f h = cc

-- A block returns if its first step does, and the rest does from what that gives.
pub Returns-bind {ℓ κ μ} :
    {E : Type ℓ} {A : Type κ} {B : Type μ} (m : Outcome E A) (f : A → Outcome E B)
    → Returns m
    → ((a : A) → m ≡ ok a → Returns (f a))
    → Returns (m >>= f)
Returns-bind (ok a) f h k = k a refl
Returns-bind (err e) f h k = tt
Returns-bind panic f h k = h
Returns-bind stuck f h k = h

pub Returns-ok_or {ℓ κ} : {E : Type ℓ} {A : Type κ} (o : Option A) (e : E) → Returns (ok_or o e)
Returns-ok_or none e = tt
Returns-ok_or (some a) e = tt

pub Returns-if {ℓ κ} :
    {E : Type ℓ} {A : Type κ} (b : Bool) (x y : Outcome E A)
    → Returns x
    → Returns y
    → Returns (if b then x else y)
Returns-if true x y h k = h
Returns-if false x y h k = k
