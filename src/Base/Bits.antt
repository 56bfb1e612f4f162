-- ===== src/Base/Bits.antt =====
-- Masks and shifts on one byte as arithmetic: tables checked by evaluation.
use Prim.Native.Nat.{ℕ, zero, suc, min, max, ◌-◌, ◌^◌, ◌+◌, ◌*◌, ◌/◌, ◌%◌, ◌<◌, bit_and, bit_or}
use mathlib.Core.Path.{◌≡◌, refl}
use mathlib.Core.Bool.{Bool, true, false}
use mathlib.Core.Logic.{ite}
use native.Mathlib.Decide.{ℕ_discrete}
use native.Mathlib.Omega.{arith}

module _ (f g : ℕ → ℕ) where
  agree_below : ℕ → Bool
  unfolding ℕ_discrete
  agree_below zero = true
  agree_below (suc n) = ite (ℕ_discrete (f n) (g n)) (agree_below n) false

  agree_below→eq : (n : ℕ) → agree_below n ≡ true → (i : ℕ) → i < n → f i ≡ g i
  unfolding agree_below
  agree_below→eq zero e i h = absurd (omega arith)
  agree_below→eq (suc n) e i h = ground (arith, agree_below→eq n (ground arith) i)

-- `b & 0x7f`
pub and_7f : (b : ℕ) → b < 256 → bit_and b 0x7f ≡ b % 128
unfolding agree_below
and_7f = agree_below→eq _ _ 256 refl

-- `b & 0x80`
pub and_80 : (b : ℕ) → b < 256 → bit_and b 0x80 ≡ b / 128 * 128
unfolding agree_below
and_80 = agree_below→eq _ _ 256 refl

-- `b & 0x70`
pub and_70 : (b : ℕ) → b < 256 → bit_and b 0x70 ≡ b / 16 % 8 * 16
unfolding agree_below
and_70 = agree_below→eq _ _ 256 refl

-- `b & 0x0f`
pub and_0f : (b : ℕ) → b < 256 → bit_and b 0x0f ≡ b % 16
unfolding agree_below
and_0f = agree_below→eq _ _ 256 refl

-- `b & 1`
pub and_1 : (b : ℕ) → b < 256 → bit_and b 1 ≡ b % 2
unfolding agree_below
and_1 = agree_below→eq _ _ 256 refl

-- `b | 0x80` on a value of seven bits
pub or_80 : (b : ℕ) → b < 128 → bit_or b 0x80 ≡ b + 128
unfolding agree_below
or_80 = agree_below→eq _ _ 128 refl

-- `b | 0x0f`
pub or_0f : (b : ℕ) → b < 256 → bit_or b 0x0f ≡ b / 16 * 16 + 15
unfolding agree_below
or_0f = agree_below→eq _ _ 256 refl

or_nibbles_table : (i : ℕ) → i < 256 → bit_or (i / 16 * 16) (i % 16) ≡ i
unfolding agree_below
or_nibbles_table = agree_below→eq _ _ 256 refl

-- A low nibble put under a high one.
pub or_nibbles : (hi lo : ℕ) → hi < 16 → lo < 16 → bit_or (hi * 16) lo ≡ hi * 16 + lo
or_nibbles hi lo h l =
    let e : (hi * 16 + lo) / 16 ≡ hi = omega arith in
    let r : (hi * 16 + lo) % 16 ≡ lo = omega arith in
    rw (e, r) at (or_nibbles_table (hi * 16 + lo) (omega arith))

-- `0 | b`
pub zero_or : (b : ℕ) → b < 256 → bit_or 0 b ≡ b
unfolding agree_below
zero_or = agree_below→eq _ _ 256 refl

-- `0x80 | b` on a value of seven bits
pub or_80_left : (b : ℕ) → b < 128 → bit_or 0x80 b ≡ b + 128
unfolding agree_below
or_80_left = agree_below→eq _ _ 128 refl

-- `b | 1 << i` on a byte: it is a byte, has bit `i`, and keeps the bits that were set.
abbrev or_bit : ℕ → ℕ → ℕ
or_bit b i = bit_or b (2 ^ i)

abbrev bit_at : ℕ → ℕ → ℕ
bit_at b i = min 1 (bit_and b (2 ^ i))

or_bit-byte_table : (x : ℕ) → x < 2048 → or_bit (x / 8) (x % 8) / 256 ≡ 0
unfolding agree_below
or_bit-byte_table = agree_below→eq _ (λ x. 0) 2048 refl

or_bit-set_table : (x : ℕ) → x < 2048 → bit_at (or_bit (x / 8) (x % 8)) (x % 8) ≡ 1
unfolding agree_below
or_bit-set_table = agree_below→eq _ (λ x. 1) 2048 refl

or_bit-keeps_table :
    (x : ℕ)
    → x < 16384
    → max (1 - bit_at (x / 64) (x % 8)) (bit_at (or_bit (x / 64) (x / 8 % 8)) (x % 8)) ≡ 1
unfolding agree_below
or_bit-keeps_table = agree_below→eq _ (λ x. 1) 16384 refl

pub or_bit-byte : (b i : ℕ) → b < 256 → i < 8 → bit_or b (2 ^ i) < 256
or_bit-byte b i h k =
    let q : (b * 8 + i) / 8 ≡ b = omega arith in
    let r : (b * 8 + i) % 8 ≡ i = omega arith in
    let t = rw (q, r) at (or_bit-byte_table (b * 8 + i) (omega arith)) in omega arith

pub or_bit-set : (b i : ℕ) → b < 256 → i < 8 → 0 < bit_and (bit_or b (2 ^ i)) (2 ^ i)
or_bit-set b i h k =
    let q : (b * 8 + i) / 8 ≡ b = omega arith in
    let r : (b * 8 + i) % 8 ≡ i = omega arith in
    let t = rw (q, r) at (or_bit-set_table (b * 8 + i) (omega arith)) in omega arith

pub or_bit-keeps :
    (b i j : ℕ)
    → b < 256
    → i < 8
    → j < 8
    → 0 < bit_and b (2 ^ j)
    → 0 < bit_and (bit_or b (2 ^ i)) (2 ^ j)
or_bit-keeps b i j h k l p =
    let x = b * 64 + i * 8 + j in
    let q : x / 64 ≡ b = omega arith in
    let r : x / 8 % 8 ≡ i = omega arith in
    let s : x % 8 ≡ j = omega arith in
    let t = rw (q, r, s) at (or_bit-keeps_table x (omega arith)) in omega arith
