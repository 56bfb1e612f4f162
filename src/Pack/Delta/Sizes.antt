-- ===== src/Pack/Delta/Sizes.antt =====
-- The two sizes in front of a delta are read back.
use webgit.Base.{ℕ, zero, suc, ◌+◌, ◌*◌, ◌/◌, ◌%◌, ◌^◌, ◌<◌, IsU64, Bytes, ◌∷◌, ◌++◌}
use webgit.Base.{◌≡◌, ap, arith, length, ok, ltb, Bool-cases, inl, inr}
use webgit.Base.Bits.{and_7f, and_80}
use webgit.Pack.Header.{expected_size_loop, read_delta_expected_size}
use webgit.Pack.Delta.Encode.{varint}
use native.Mathlib.Nat.{div-add-mod}
use native.Mathlib.Numerals.{towards_suc}

read_more :
    (g n size shift : ℕ) (tail : Bytes)
    → g < 128
    → shift < 64
    → IsU64 (size + g * 2 ^ shift)
    → expected_size_loop ((g + 128) ∷ tail) n size shift
      ≡ expected_size_loop tail (n + 1) (size + g * 2 ^ shift) (shift + 7)
unfolding expected_size_loop
read_more g n size shift tail hg hs fits = ground (arith, and_7f (g + 128), and_80 (g + 128))

read_last :
    (g n size shift : ℕ) (tail : Bytes)
    → g < 128
    → shift < 64
    → IsU64 (size + g * 2 ^ shift)
    → expected_size_loop (g ∷ tail) n size shift ≡ ok (n + 1, size + g * 2 ^ shift)
unfolding expected_size_loop
read_last g n size shift tail hg hs fits = ground (arith, and_7f g, and_80 g)

-- A value at a shift is its lowest group there and the rest seven bits further up.
groups : (v shift : ℕ) → v * 2 ^ shift ≡ v % 128 * 2 ^ shift + v / 128 * 2 ^ (shift + 7)
groups v shift =
    let p : 2 ^ (shift + 7) ≡ 128 * 2 ^ shift = simp towards_suc (omega arith) in
    omega (arith, ap (λ (t : ℕ). t * 2 ^ shift) (div-add-mod v 128), ap (λ (t : ℕ). v / 128 * t) p)

read-varint :
    (k v n size shift : ℕ) (tail : Bytes)
    → v < 128 ^ suc k
    → shift + 7 * k < 64
    → IsU64 (size + v * 2 ^ shift)
    → expected_size_loop (varint k v ++ tail) n size shift
      ≡ ok (n + length (varint k v), size + v * 2 ^ shift)
unfolding varint
read-varint zero v n size shift tail hv hs fits = ground (arith, read_last v n size shift tail)
read-varint (suc k) v n size shift tail hv hs fits = elim (Bool-cases (ltb v 128)) [
  | inl small ↦ rw small (ground (arith, read_last v n size shift tail))
  | inr large ↦ rw large (
      ground (
        arith,
        groups v shift,
        read_more (v % 128) n size shift (varint k (v / 128) ++ tail),
        read-varint k (v / 128) (n + 1) (size + v % 128 * 2 ^ shift) (shift + 7) tail (omega arith),
      ))
]

pub read_delta_expected_size-varint :
    (v : ℕ) (tail : Bytes)
    → v < 2 ^ 63
    → read_delta_expected_size (varint 8 v ++ tail) ≡ ok (length (varint 8 v), v)
unfolding read_delta_expected_size
read_delta_expected_size-varint v tail h = ground (arith, read-varint 8 v 0 0 0 tail)
