-- ===== src/CommitGraph/Bloom.antt =====
-- crates/gib-commitgraph/src/bloom.rs: the changed-path Bloom filters.
-- A `u32` is a number below 2^32; `rotate_left`, the products and the sums wrap.
use webgit.Base.{
  ℕ, zero, suc, ◌+◌, ◌-◌, ◌*◌, ◌/◌, ◌%◌, ◌^◌, bit_or, bit_xor, bit_and, Bytes, length, get_or,
}
use webgit.Base.{[], ◌∷◌, Bool, true, false, leb, ltb, ◌==◌, if◌then◌else◌}

pub record BloomSettings : Type 0 where
  pub hash_version : ℕ
  pub num_hashes : ℕ
  pub bits_per_entry : ℕ

abbrev pub seed0 : ℕ
seed0 = 0x293ae76f

abbrev pub seed1 : ℕ
seed1 = 0x7e646e2c

abbrev wrapping_mul : ℕ → ℕ → ℕ
wrapping_mul a b = a * b % 2 ^ 32

abbrev wrapping_add : ℕ → ℕ → ℕ
wrapping_add a b = (a + b) % 2 ^ 32

abbrev shift_left : ℕ → ℕ → ℕ
shift_left a k = a * 2 ^ k % 2 ^ 32

abbrev rotate_left : ℕ → ℕ → ℕ
rotate_left a k = bit_or (shift_left a k) (a / 2 ^ (32 - k))

-- A byte as `u32`, sign-extended in version 1.
unfoldable pub widen : Bool → ℕ → ℕ
widen sign_extend b = if sign_extend then (if leb 128 b then b + 0xffffff00 else b) else b

unfoldable pub mix_key : ℕ → ℕ
mix_key k = wrapping_mul (rotate_left (wrapping_mul k 0xcc9e2d51) 15) 0x1b873593

-- The loop over blocks of four bytes: the seed, and the bytes left behind the blocks.
unfoldable pub mix_blocks : ℕ → Bool → ℕ → Bytes → ℕ × Bytes
mix_blocks (suc n) sign_extend seed (b0 ∷ b1 ∷ b2 ∷ b3 ∷ rest) =
    let k =
      bit_or
        (bit_or (bit_or (widen sign_extend b0) (shift_left (widen sign_extend b1) 8))
          (shift_left (widen sign_extend b2) 16))
        (shift_left (widen sign_extend b3) 24) in
    let mixed = rotate_left (bit_xor seed (mix_key k)) 13 in
    mix_blocks n sign_extend (wrapping_add (wrapping_mul mixed 5) 0xe6546b64) rest
mix_blocks n sign_extend seed rest = (seed, rest)

unfoldable pub mix_tail : Bool → ℕ → Bytes → ℕ
mix_tail sign_extend seed [] = seed
mix_tail sign_extend seed (b0 ∷ rest) =
    let k2 =
      if leb 2 (length rest)
      then bit_xor 0 (shift_left (widen sign_extend (get_or rest 1 0)) 16)
      else 0 in
    let k1 =
      if leb 1 (length rest)
      then bit_xor k2 (shift_left (widen sign_extend (get_or rest 0 0)) 8)
      else k2 in
    bit_xor seed (mix_key (bit_xor k1 (widen sign_extend b0)))

unfoldable pub finish : ℕ → ℕ
finish seed =
    let a = bit_xor seed (seed / 2 ^ 16) in
    let b = wrapping_mul a 0x85ebca6b in
    let c = bit_xor b (b / 2 ^ 13) in let d = wrapping_mul c 0xc2b2ae35 in bit_xor d (d / 2 ^ 16)

unfoldable pub murmur3 : ℕ → Bytes → Bool → ℕ
murmur3 seed data' sign_extend =
    let (mixed, tail) = mix_blocks (length data' / 4) sign_extend seed data' in
    finish (bit_xor (mix_tail sign_extend mixed tail) (length data' % 2 ^ 32))

-- The bit that hash `i` of a path asks for.
unfoldable pub bit_of : ℕ → ℕ → ℕ → ℕ → ℕ
bit_of modulus hash0 hash1 i = wrapping_add hash0 (wrapping_mul i hash1) % modulus

unfoldable pub has_bit : Bytes → ℕ → Bool
has_bit filter bit = ltb 0 (bit_and (get_or filter (bit / 8) 0) (2 ^ (bit % 8)))

-- `for i in 0..num_hashes`, with `n` rounds to go from `i` on.
unfoldable pub all_bits : ℕ → ℕ → Bytes → ℕ → ℕ → Bool
all_bits zero i filter hash0 hash1 = true
all_bits (suc n) i filter hash0 hash1 =
    let rest = all_bits n (i + 1) filter hash0 hash1 in
    if has_bit filter (bit_of (length filter * 8) hash0 hash1 i) then rest else false

unfoldable pub path_maybe_changed : Bytes → BloomSettings → Bytes → Bool
path_maybe_changed filter settings path =
    let sign_extend = settings.hash_version == 1 in
    if length filter * 8 == 0
    then true
    else all_bits settings.num_hashes 0 filter (murmur3 seed0 path sign_extend)
        (murmur3 seed1 path sign_extend)
