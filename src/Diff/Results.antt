-- ===== src/Diff/Results.antt =====
-- What is true of a fallible function of the walk of two trees, whichever way it ends.
use webgit.Base.{◌≡◌, refl, Bool, true, false, if◌then◌else◌, Outcome, ok, err, panic, stuck, ◌>>=◌}
use webgit.Diff.{match_ordering}
use Prim.Native.Nat.{Ordering}

-- No panic; no lack of fuel either where `S` is empty; and of a value, `P`.
unfoldable pub After : {A E : Type 0} → Type 0 → (A → Type 0) → Outcome E A → Type 0
After S P (ok a) = P a
After S P (err e) = Unit
After S P panic = ⊥
After S P stuck = S

pub After-bind :
    {A B E : Type 0} (S : Type 0) (P : A → Type 0) (Q : B → Type 0) (m : Outcome E A)
    (f : A → Outcome E B)
    → After ⊥ P m
    → ((a : A) → P a → After S Q (f a))
    → After S Q (m >>= f)
unfolding After
After-bind S P Q (ok a) f h k = k a h
After-bind S P Q (err e) f h k = tt
After-bind S P Q panic f h k = elim h [ ]
After-bind S P Q stuck f h k = elim h [ ]

pub After-ordering :
    {A E : Type 0} (S : Type 0) (P : A → Type 0) (o : Ordering) (x y z : Outcome E A)
    → After S P x
    → After S P y
    → After S P z
    → After S P (match_ordering o x y z)
unfolding match_ordering
After-ordering S P Ordering.lt x y z h k l = h
After-ordering S P Ordering.eq x y z h k l = k
After-ordering S P Ordering.gt x y z h k l = l

pub After-if :
    {A E : Type 0} (S : Type 0) (P : A → Type 0) (b : Bool) (m n : Outcome E A)
    → (b ≡ true → After S P m)
    → (b ≡ false → After S P n)
    → After S P (if b then m else n)
After-if S P true m n h k = h refl
After-if S P false m n h k = k refl

pub After-both :
    {A E : Type 0} (P Q : A → Type 0) (m : Outcome E A)
    → After ⊥ P m
    → After Unit Q m
    → After ⊥ (λ a. P a × Q a) m
unfolding After
After-both P Q (ok a) h k = (h, k)
After-both P Q (err e) h k = tt
After-both P Q panic h k = k
After-both P Q stuck h k = h

pub After-weaken :
    {A E : Type 0} (S : Type 0) (P Q : A → Type 0) (m : Outcome E A)
    → ((a : A) → P a → Q a)
    → After S P m
    → After S Q m
unfolding After
After-weaken S P Q (ok a) k h = k a h
After-weaken S P Q (err e) k h = tt
After-weaken S P Q panic k h = h
After-weaken S P Q stuck k h = h
