-- ===== src/Base/Lists.antt =====
-- Lists measured and indexed by native numbers, under the library's names.
use Prim.Native.Nat.{ℕ, zero, suc, ◌+◌, ◌-◌, ◌≤◌, min}
use mathlib.Core.Path.{◌≡◌, refl, sym, ap}
use mathlib.Core.List.{List, [], ◌∷◌, ◌++◌, map}
use mathlib.Core.Option.{Option, none, some}
use mathlib.Core.Bool.{Bool, true, false, ◌&&◌}
use mathlib.Core.Logic.{◌⊎◌, inl, inr}
use native.Mathlib.Omega.{arith}
use webgit.Base.Tests.{leb, ◌==◌, ==_iff, ==_self, le→leb, if◌then◌else◌}

module _ {ℓ} {A : Type ℓ} where
  abbrev pub length : List A → ℕ
  length [] = 0
  length (x ∷ xs) = suc (length xs)

  abbrev pub get_elem? : List A → ℕ → Option A
  get_elem? [] i = none
  get_elem? (x ∷ xs) zero = some x
  get_elem? (x ∷ xs) (suc i) = get_elem? xs i

  abbrev pub get_or : List A → ℕ → A → A
  get_or [] i d = d
  get_or (x ∷ xs) zero d = x
  get_or (x ∷ xs) (suc i) d = get_or xs i d

  abbrev pub set : List A → ℕ → A → List A
  set [] i v = []
  set (x ∷ xs) zero v = v ∷ xs
  set (x ∷ xs) (suc i) v = x ∷ set xs i v

  abbrev pub take : ℕ → List A → List A
  take zero xs = []
  take (suc n) [] = []
  take (suc n) (x ∷ xs) = x ∷ take n xs

  abbrev pub drop : ℕ → List A → List A
  drop zero xs = xs
  drop (suc n) [] = []
  drop (suc n) (x ∷ xs) = drop n xs

  abbrev pub replicate : ℕ → A → List A
  replicate zero a = []
  replicate (suc n) a = a ∷ replicate n a

  abbrev pub All {κ} : (A → Type κ) → List A → Type κ
  All P [] = Unit {κ}
  All P (x ∷ xs) = P x × All P xs

  abbrev pub In : A → List A → Type ℓ
  In x [] = ⊥ × Unit {ℓ}
  In x (y ∷ ys) = (x ≡ y) ⊎ In x ys

module _ {ℓ} {A : Type ℓ} where
  pub In-append_left : (x : A) (xs ys : List A) → In x xs → In x (xs ++ ys)
  In-append_left x [] ys h = absurd h.0
  In-append_left x (y ∷ xs) ys (inl e) = inl e
  In-append_left x (y ∷ xs) ys (inr h) = inr (In-append_left x xs ys h)

  pub In-append_right : (x : A) (xs ys : List A) → In x ys → In x (xs ++ ys)
  In-append_right x [] ys h = h
  In-append_right x (y ∷ xs) ys h = inr (In-append_right x xs ys h)

  pub In-append : (x : A) (xs ys : List A) → In x (xs ++ ys) → In x xs ⊎ In x ys
  In-append x [] ys h = inr h
  In-append x (y ∷ xs) ys (inl e) = inl (inl e)
  In-append x (y ∷ xs) ys (inr h) = elim (In-append x xs ys h) [
    | inl k ↦ inl (inr k)
    | inr k ↦ inr k
  ]

  pub length-append : (xs ys : List A) → length (xs ++ ys) ≡ length xs + length ys
  length-append [] ys = omega arith
  length-append (x ∷ xs) ys = omega (arith, length-append xs ys)

  pub length-take : (n : ℕ) (xs : List A) → length (take n xs) ≡ min n (length xs)
  length-take zero xs = omega arith
  length-take (suc n) [] = omega arith
  length-take (suc n) (x ∷ xs) = omega (arith, length-take n xs)

  pub length-drop : (n : ℕ) (xs : List A) → length (drop n xs) ≡ length xs - n
  length-drop zero xs = omega arith
  length-drop (suc n) [] = omega arith
  length-drop (suc n) (x ∷ xs) = omega (arith, length-drop n xs)

  pub length-replicate : (n : ℕ) (a : A) → length (replicate n a) ≡ n
  length-replicate zero a = refl
  length-replicate (suc n) a = ap suc (length-replicate n a)

  take-append-drop : (n : ℕ) (xs : List A) → take n xs ++ drop n xs ≡ xs
  take-append-drop zero xs = refl
  take-append-drop (suc n) [] = refl
  take-append-drop (suc n) (x ∷ xs) = rw (take-append-drop n xs)

  pub take-append : (xs ys : List A) → take (length xs) (xs ++ ys) ≡ xs
  take-append [] ys = refl
  take-append (x ∷ xs) ys = rw (take-append xs ys)

  take_all : (xs : List A) → take (length xs) xs ≡ xs
  take_all [] = refl
  take_all (x ∷ xs) = rw (take_all xs)

  pub take_over : (n : ℕ) (xs : List A) → length xs ≤ n → take n xs ≡ xs
  take_over zero [] h = refl
  take_over zero (x ∷ xs) h = absurd (omega arith)
  take_over (suc n) [] h = refl
  take_over (suc n) (x ∷ xs) h = ap (◌∷◌ x) (take_over n xs (omega arith))

  pub drop-append : (xs ys : List A) → drop (length xs) (xs ++ ys) ≡ ys
  drop-append [] ys = refl
  drop-append (x ∷ xs) ys = drop-append xs ys

  length-map {κ} : {B : Type κ} (xs : List A) (f : A → B) → length (map f xs) ≡ length xs
  length-map [] f = refl
  length-map (x ∷ xs) f = ap suc (length-map xs f)

  pub All-append {κ} : (P : A → Type κ) (xs ys : List A) → All P xs → All P ys → All P (xs ++ ys)
  All-append P [] ys hx hy = hy
  All-append P (x ∷ xs) ys (h, hx) hy = (h, All-append P xs ys hx hy)

  pub length-set : (xs : List A) (i : ℕ) (v : A) → length (set xs i v) ≡ length xs
  length-set [] i v = refl
  length-set (x ∷ xs) zero v = refl
  length-set (x ∷ xs) (suc i) v = ap suc (length-set xs i v)

module _ {ℓ} {A : Type ℓ} where
  -- `slice.get(start..end)`
  abbrev pub get_range : List A → ℕ → ℕ → Option (List A)
  get_range xs start end =
      if leb start end && leb end (length xs)
      then some (take (end - start) (drop start xs))
      else none

  pub get_range-suffix :
      (xs ys : List A) → get_range (xs ++ ys) (length xs) (length (xs ++ ys)) ≡ some ys
  get_range-suffix xs ys =
      let h : leb (length xs) (length (xs ++ ys)) ≡ true =
        le→leb _ _ (omega (arith, length-append xs ys)) in
      let k : leb (length (xs ++ ys)) (length (xs ++ ys)) ≡ true = le→leb _ _ (omega arith) in
      let n : length (xs ++ ys) - length xs ≡ length ys = omega (arith, length-append xs ys) in
      rw (h, k, n, drop-append xs ys, take_all ys)

module _ {ℓ} {A : Type ℓ} where
  take-take : (k m : ℕ) (xs : List A) → k ≤ m → take k (take m xs) ≡ take k xs
  take-take zero m xs h = refl
  take-take (suc k) zero xs h = absurd (omega arith)
  take-take (suc k) (suc m) [] h = refl
  take-take (suc k) (suc m) (x ∷ xs) h = ap (◌∷◌ x) (take-take k m xs (omega arith))

  take_nil : (a : ℕ) → ◌≡◌ {A = List A} (take a []) []
  take_nil zero = refl
  take_nil (suc a) = refl

  -- A run inside a prefix is the run.
  pub take-drop-take :
      (k n m : ℕ) (xs : List A) → n + k ≤ m → take k (drop n (take m xs)) ≡ take k (drop n xs)
  take-drop-take k zero m xs h = take-take k m xs (omega arith)
  take-drop-take k (suc n) zero xs h = absurd (omega arith)
  take-drop-take k (suc n) (suc m) [] h = refl
  take-drop-take k (suc n) (suc m) (x ∷ xs) h = take-drop-take k n m xs (omega arith)

  pub drop-take : (k m : ℕ) (xs : List A) → drop k (take m xs) ≡ take (m - k) (drop k xs)
  drop-take zero m xs = (let e : m - 0 ≡ m = omega arith in rw e refl)
  drop-take (suc k) zero xs = (let e : 0 - suc k ≡ 0 = omega arith in rw e refl)
  drop-take (suc k) (suc m) [] = sym (take_nil (suc m - suc k))
  drop-take (suc k) (suc m) (x ∷ xs) =
      (let e : suc m - suc k ≡ m - k = omega arith in rw e (drop-take k m xs))

  -- A prefix, and a run that goes on from its end.
  pub take-append-take : (a b : ℕ) (xs : List A) → take a xs ++ take b (drop a xs) ≡ take (a + b) xs
  take-append-take zero b xs = (let e : 0 + b ≡ b = omega arith in rw e refl)
  take-append-take (suc a) b [] =
      (let e : suc a + b ≡ suc (a + b) = omega arith in rw e (take_nil b))
  take-append-take (suc a) b (x ∷ xs) =
      (let e : suc a + b ≡ suc (a + b) = omega arith in rw e (ap (◌∷◌ x) (take-append-take a b xs)))

  pub drop_nil : (a : ℕ) → drop {A = A} a [] ≡ []
  drop_nil zero = refl
  drop_nil (suc a) = refl

  pub drop-drop : (a b : ℕ) (xs : List A) → drop a (drop b xs) ≡ drop (b + a) xs
  drop-drop a zero xs = (let e : 0 + a ≡ a = omega arith in rw e refl)
  drop-drop a (suc b) [] = (let e : suc b + a ≡ suc (b + a) = omega arith in rw e (drop_nil a))
  drop-drop a (suc b) (x ∷ xs) =
      (let e : suc b + a ≡ suc (b + a) = omega arith in rw e (drop-drop a b xs))

-- `==` on slices of bytes.
abbrev pub eq_bytes : List ℕ → List ℕ → Bool
eq_bytes [] [] = true
eq_bytes (a ∷ as') (b ∷ bs) = (a == b) && eq_bytes as' bs
eq_bytes _ _ = false

pub eq_bytes_refl : (bs : List ℕ) → eq_bytes bs bs ≡ true
eq_bytes_refl [] = refl
eq_bytes_refl (b ∷ bs) = rw (==_self b) (eq_bytes_refl bs)

and_parts : (a b : Bool) → (a && b) ≡ true → (a ≡ true) × (b ≡ true)
and_parts true b e = (refl, e)
and_parts false b e = cc

pub eq_bytes-eq : (a b : List ℕ) → eq_bytes a b ≡ true → a ≡ b
eq_bytes-eq [] [] e = refl
eq_bytes-eq [] (y ∷ b) e = cc
eq_bytes-eq (x ∷ a) [] e = cc
eq_bytes-eq (x ∷ a) (y ∷ b) e =
    let (h, t) = and_parts (x == y) (eq_bytes a b) e in
    let q : x ≡ y = (==_iff x y).0 h in let r = eq_bytes-eq a b t in rw (q, r) refl
