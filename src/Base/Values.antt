-- ===== src/Base/Values.antt =====
-- What is true of the value of a fallible function, if it gives one.
use mathlib.Core.Path.{◌≡◌, refl, subst}
use mathlib.Core.Bool.{Bool, true, false}
use webgit.Base.Tests.{if◌then◌else◌}
use webgit.Base.Results.{Outcome, ok, err, panic, stuck, ◌>>=◌}

pub Given {ℓ κ μ} : {E : Type ℓ} {A : Type κ} → (A → Type μ) → Outcome E A → Type μ
Given P (ok a) = P a
Given P (err e) = Unit {μ}
Given P panic = Unit {μ}
Given P stuck = Unit {μ}

pub Given-bind {ℓ κ ν μ} :
    {E : Type ℓ} {A : Type κ} {B : Type ν} (P : B → Type μ) (m : Outcome E A) (f : A → Outcome E B)
    → ((a : A) → m ≡ ok a → Given P (f a))
    → Given P (m >>= f)
unfolding Given
Given-bind P (ok a) f h = h a refl
Given-bind P (err e) f h = tt
Given-bind P panic f h = tt
Given-bind P stuck f h = tt

pub Given-if {ℓ κ μ} :
    {E : Type ℓ} {A : Type κ} (P : A → Type μ) (b : Bool) (e : E) (m : Outcome E A)
    → Given P m
    → Given P (if b then err e else m)
unfolding Given
Given-if P true e m h = tt
Given-if P false e m h = h

pub Given-weaken {ℓ κ μ ν} :
    {E : Type ℓ} {A : Type κ} (P : A → Type μ) (Q : A → Type ν) (m : Outcome E A)
    → Given P m
    → ((a : A) → P a → Q a)
    → Given Q m
unfolding Given
Given-weaken P Q (ok a) h k = k a h
Given-weaken P Q (err e) h k = tt
Given-weaken P Q panic h k = tt
Given-weaken P Q stuck h k = tt

pub Given-ok {ℓ κ μ} :
    {A : Type κ} (E : Type ℓ) (P : A → Type μ) {a : A} → P a → Given {E = E} P (ok a)
unfolding Given
Given-ok E P p = p

pub Given-stuck {ℓ κ μ} : {A : Type κ} (E : Type ℓ) (P : A → Type μ) → Given {E = E} P stuck
unfolding Given
Given-stuck E P = tt

pub Given-value {ℓ κ μ} :
    {E : Type ℓ} {A : Type κ} (P : A → Type μ) {m : Outcome E A} {a : A}
    → Given P m
    → m ≡ ok a
    → P a
unfolding Given
Given-value P h e = subst (Given P) e h
