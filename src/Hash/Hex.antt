-- ===== src/Hash/Hex.antt =====
-- The loop of `from_hex`, digit by digit: what a name's digits are, and what writing some does.
use webgit.Base.{ℕ, zero, suc, ◌+◌, ◌*◌, ◌/◌, ◌%◌, ◌≤◌, ◌<◌, Bytes, IsByte, All, length, bit_or}
use webgit.Base.{◌≡◌, refl, ap, sym, ◌∙◌, arith, Bool, true, false, ◌&&◌, [], ◌∷◌, none, some}
use webgit.Base.{◌==◌, drop, set, length-set, Option-cases, inl, inr}
use webgit.Base.Bits.{or_nibbles, zero_or}
use webgit.Hash.{cmp_bytes, to_digit, put_nibble, put_nibbles}
use webgit.Hash.Prefix.{IsZero, compare_at}
use Prim.Native.Nat.{Ordering}

-- The hexadecimal digits of a name.
unfoldable pub nibbles : Bytes → Bytes
nibbles [] = []
nibbles (b ∷ bs) = b / 16 ∷ b % 16 ∷ nibbles bs

-- The digits that `s` spells are the first of `ns`.
unfoldable pub spells : Bytes → Bytes → Bool
spells [] ns = true
spells (c ∷ cs) [] = false
spells (c ∷ cs) (n ∷ ns) = elim (to_digit c) [ none ↦ false | some d ↦ d == n ] && spells cs ns

unfoldable pub agree : ℕ → Bytes → Bytes → Bool
agree zero xs ys = true
agree (suc n) [] ys = false
agree (suc n) (x ∷ xs) [] = false
agree (suc n) (x ∷ xs) (y ∷ ys) = (x == y) && agree n xs ys

abbrev pub width : ℕ → Bool → ℕ
width zero true = 1
width zero false = 0
width (suc k) odd = suc (suc (width k odd))

abbrev pub is_eq : Ordering → Bool
is_eq Ordering.lt = false
is_eq Ordering.eq = true
is_eq Ordering.gt = false

pub compare_at-agree :
    (k : ℕ) (odd : Bool) (is ps : Bytes)
    → length is ≡ length ps
    → width k odd ≤ 2 * length ps
    → is_eq (compare_at k odd is ps) ≡ agree (width k odd) (nibbles ps) (nibbles is)
unfolding compare_at agree nibbles cmp_bytes
compare_at-agree zero false is ps h w = refl
compare_at-agree zero true [] [] h w = absurd (omega arith)
compare_at-agree k odd [] (p ∷ ps) h w = absurd (omega arith)
compare_at-agree k odd (i ∷ is) [] h w = absurd (omega arith)
compare_at-agree zero true (i ∷ is) (p ∷ ps) h w = ground arith
compare_at-agree (suc k) odd [] [] h w = absurd (omega arith)
compare_at-agree (suc k) true (i ∷ is) (p ∷ ps) h w =
    ground (arith, compare_at-agree k true is ps (omega arith) (omega arith))
compare_at-agree (suc k) false (i ∷ is) (p ∷ ps) h w =
    ground (arith, compare_at-agree k false is ps (omega arith) (omega arith))

pub width-half : (n : ℕ) → width (n / 2) (n % 2 == 1) ≡ n
width-half zero = refl
width-half (suc zero) = refl
width-half (suc (suc n)) =
    let h : suc (suc n) / 2 ≡ suc (n / 2) = omega arith in
    let m : suc (suc n) % 2 ≡ n % 2 = omega arith in
    rw (h, m) (ap (λ t. suc (suc t)) (width-half n))

put_nibble-step :
    (b : ℕ) (bs : Bytes) (i d : ℕ) → put_nibble (b ∷ bs) (suc (suc i)) d ≡ b ∷ put_nibble bs i d
unfolding put_nibble
put_nibble-step b bs i d =
    let h : suc (suc i) / 2 ≡ suc (i / 2) = omega arith in
    let m : suc (suc i) % 2 ≡ i % 2 = omega arith in rw (h, m)

or_high : (b d : ℕ) → b ≡ 0 → d < 16 → bit_or b (d * 16 % 256) ≡ d * 16
or_high b d z h = rw z (zero_or (d * 16 % 256) (omega arith) ∙ omega arith)

or_low : (b d : ℕ) → b < 256 → b % 16 ≡ 0 → d < 16 → bit_or b d ≡ b + d
or_low b d hb z h =
    let e : b ≡ b / 16 * 16 = omega arith in
    ap (λ t. bit_or t d) e ∙ or_nibbles (b / 16) d (omega arith) h ∙ omega arith

nibbles-put_nibble :
    (bs : Bytes) (i d : ℕ)
    → d < 16
    → All IsByte bs
    → All IsZero (drop i (nibbles bs))
    → nibbles (put_nibble bs i d) ≡ set (nibbles bs) i d
unfolding nibbles
nibbles-put_nibble [] zero d hd hb z = unfold put_nibble in refl
nibbles-put_nibble [] _ d hd hb z = unfold put_nibble in refl
nibbles-put_nibble (b ∷ bs) zero d hd hb z =
    unfold put_nibble in ground (arith, or_high b d (omega arith) hd)
nibbles-put_nibble (b ∷ bs) (suc zero) d hd hb z =
    unfold put_nibble in ground (arith, or_low b d hb.0 z.0 hd)
nibbles-put_nibble (b ∷ bs) (suc (suc i)) d hd hb z =
    rw put_nibble-step (ap (λ t. b / 16 ∷ b % 16 ∷ t) (nibbles-put_nibble bs i d hd hb.1 z))

put_nibble-IsByte :
    (bs : Bytes) (i d : ℕ)
    → d < 16
    → All IsByte bs
    → All IsZero (drop i (nibbles bs))
    → All IsByte (put_nibble bs i d)
unfolding nibbles
put_nibble-IsByte [] i d hd hb z = unfold put_nibble in tt
put_nibble-IsByte (b ∷ bs) zero d hd hb z =
    unfold put_nibble in ground (arith, or_high b d (omega arith) hd)
put_nibble-IsByte (b ∷ bs) (suc zero) d hd hb z =
    unfold put_nibble in ground (arith, or_low b d hb.0 z.0 hd)
put_nibble-IsByte (b ∷ bs) (suc (suc i)) d hd hb z =
    rw put_nibble-step (hb.0, put_nibble-IsByte bs i d hd hb.1 z)

length-put_nibble : (bs : Bytes) (i d : ℕ) → length (put_nibble bs i d) ≡ length bs
unfolding put_nibble
length-put_nibble bs i d = length-set bs (i / 2) _

-- Writing digit `i` leaves zeros behind it, and decides digit `i`.
zeros-set : (xs : Bytes) (i d : ℕ) → All IsZero (drop i xs) → All IsZero (drop (suc i) (set xs i d))
zeros-set [] i d z = tt
zeros-set (x ∷ xs) zero d z = z.1
zeros-set (x ∷ xs) (suc i) d z = zeros-set xs i d z

agree-set :
    (xs ys cs : Bytes) (i d : ℕ)
    → i < length xs
    → (agree (suc i) (set xs i d) ys && spells cs (drop (suc i) ys))
      ≡ (agree i xs ys && elim (drop i ys) [ [] ↦ false | n ∷ ns ↦ (d == n) && spells cs ns ])
unfolding agree
agree-set [] ys cs i d h = absurd (omega arith)
agree-set (x ∷ xs) [] cs zero d h = refl
agree-set (x ∷ xs) (y ∷ ys) cs zero d h = ground arith
agree-set (x ∷ xs) [] cs (suc i) d h = refl
agree-set (x ∷ xs) (y ∷ ys) cs (suc i) d h = ground (arith, agree-set xs ys cs i d (omega arith))

to_digit-lt : (c : ℕ) {d : ℕ} → to_digit c ≡ some d → d < 16
unfolding to_digit
to_digit-lt c h = ground arith

length-nibbles : (bs : Bytes) → length (nibbles bs) ≡ 2 * length bs
unfolding nibbles
length-nibbles [] = refl
length-nibbles (b ∷ bs) = omega (arith, length-nibbles bs)

spells-cons :
    (c d : ℕ) (cs ns : Bytes)
    → to_digit c ≡ some d
    → spells (c ∷ cs) ns ≡ elim ns [ [] ↦ false | n ∷ ns ↦ (d == n) && spells cs ns ]
unfolding spells
spells-cons c d cs [] h = refl
spells-cons c d cs (n ∷ ns) h = rw h

-- What `put_nibbles` keeps: after writing `cs` from digit `i` on, the first `n` digits are those
-- that were there and those that `cs` spells, and all others are still zero.
pub record Written (bs : Bytes) (i n : ℕ) (cs ns r : Bytes) : Type 0 where
  pub digits : agree n (nibbles r) ns ≡ (agree i (nibbles bs) ns && spells cs (drop i ns))
  pub size : length r ≡ length bs
  pub bytes : All IsByte r
  pub zeros : All IsZero (drop n (nibbles r))

Written-nil :
    (bs : Bytes) (i : ℕ) (ns : Bytes)
    → All IsByte bs
    → All IsZero (drop i (nibbles bs))
    → Written bs i i [] ns bs
unfolding spells
Written-nil bs i ns hb z = record { digits = ground arith; size = refl; bytes = hb; zeros = z }

Written-cons :
    (bs : Bytes) (i n c d : ℕ) (cs ns r : Bytes)
    → to_digit c ≡ some d
    → All IsByte bs
    → All IsZero (drop i (nibbles bs))
    → i < 2 * length bs
    → Written (put_nibble bs i d) (suc i) n cs ns r
    → Written bs i n (c ∷ cs) ns r
Written-cons bs i n c d cs ns r td hb z h w =
    let e = nibbles-put_nibble bs i d (to_digit-lt c td) hb z in
    record {
      digits =
          w.digits
          ∙ ap (λ t. agree (suc i) t ns && spells cs (drop (suc i) ns)) e
          ∙ agree-set (nibbles bs) ns cs i d (omega (arith, length-nibbles bs))
          ∙ ap (λ t. agree i (nibbles bs) ns && t) (sym (spells-cons c d cs (drop i ns) td));
      size = w.size ∙ length-put_nibble bs i d;
      bytes = w.bytes;
      zeros = w.zeros;
    }

pub put_nibbles-Written :
    (bs : Bytes) (i n : ℕ) (cs ns r : Bytes)
    → All IsByte bs
    → All IsZero (drop i (nibbles bs))
    → n ≡ i + length cs
    → n ≤ 2 * length bs
    → put_nibbles bs i cs ≡ some r
    → Written bs i n cs ns r
put_nibbles-Written bs i n [] ns r hb z en h e =
    let q : bs ≡ r = unfold put_nibbles in (cc) in
    let k : n ≡ i = omega arith in rw (k, ← q) (Written-nil bs i ns hb z)
put_nibbles-Written bs i n (c ∷ cs) ns r hb z en h e = elim (Option-cases (to_digit c)) [
  | inl td ↦ absurd (unfold put_nibbles in cc)
  | inr (d, td) ↦
      let lt = to_digit-lt c td in
      let z' : All IsZero (drop (suc i) (nibbles (put_nibble bs i d))) =
        rw (nibbles-put_nibble bs i d lt hb z) (zeros-set (nibbles bs) i d z) in
      Written-cons bs i n c d cs ns r td hb z (omega arith) (
        put_nibbles-Written (put_nibble bs i d) (suc i) n cs ns r (put_nibble-IsByte bs i d lt hb z)
          z' (omega arith) (omega (arith, length-put_nibble bs i d))
          (unfold put_nibbles in rw (td, put_nibbles) at e))
]
