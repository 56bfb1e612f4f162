-- ===== src/CommitGraph/Filters.antt =====
-- How git fills a changed-path filter, after `bloom.c` and gitformat-commit-graph: nothing here is
-- taken from crates/gib-commitgraph/src/bloom.rs, which only reads filters.
use webgit.Base.{ℕ, zero, suc, ◌+◌, ◌*◌, ◌/◌, ◌%◌, ◌^◌, bit_or, bit_xor, Bytes, length, get_or, set}
use webgit.Base.{List, [], ◌∷◌, Bool, leb, ◌==◌, ◌&&◌, ◌-◌, if◌then◌else◌}

-- A machine word of C, `uint32_t`.
abbrev pub word : ℕ → ℕ
word n = n % 2 ^ 32

-- A character of a path, a `char` with its sign in the first version of the filters.
unfoldable pub char_of : Bool → ℕ → ℕ
char_of signed b = if signed && leb 128 b then 2 ^ 32 - 256 + b else b

unfoldable pub left : ℕ → ℕ → ℕ
left n k = word (n * 2 ^ k)

unfoldable pub rotated : ℕ → ℕ → ℕ
rotated n k = bit_or (left n k) (n / 2 ^ (32 - k))

-- MurmurHash3 for 32 bits: what a word of the text is multiplied into, and what the hash becomes.
unfoldable pub scrambled : ℕ → ℕ
scrambled k = word (rotated (word (k * 0xcc9e2d51)) 15 * 0x1b873593)

unfoldable pub mixed : ℕ → ℕ → ℕ
mixed h k = word (word (rotated (bit_xor h (scrambled k)) 13 * 5) + 0xe6546b64)

-- The hash goes over the text four characters at a time; up to three are left at its end.
unfoldable pub text_hash : Bool → ℕ → Bytes → ℕ
text_hash signed h [] = h
text_hash signed h (a ∷ []) = bit_xor h (scrambled (bit_xor 0 (char_of signed a)))
text_hash signed h (a ∷ b ∷ []) =
    bit_xor h (scrambled (bit_xor (bit_xor 0 (left (char_of signed b) 8)) (char_of signed a)))
text_hash signed h (a ∷ b ∷ c ∷ []) = bit_xor h (
    scrambled (
      bit_xor (bit_xor (bit_xor 0 (left (char_of signed c) 16)) (left (char_of signed b) 8))
        (char_of signed a)))
text_hash signed h (a ∷ b ∷ c ∷ d ∷ text) =
    text_hash signed
      (mixed h (
        bit_or
          (bit_or (bit_or (char_of signed a) (left (char_of signed b) 8))
            (left (char_of signed c) 16))
          (left (char_of signed d) 24)))
      text

unfoldable pub avalanche : ℕ → ℕ
avalanche h0 =
    let h1 = word (bit_xor h0 (h0 / 2 ^ 16) * 0x85ebca6b) in
    let h2 = word (bit_xor h1 (h1 / 2 ^ 13) * 0xc2b2ae35) in bit_xor h2 (h2 / 2 ^ 16)

unfoldable pub murmur_hash : Bool → ℕ → Bytes → ℕ
murmur_hash signed seed text = avalanche (bit_xor (text_hash signed seed text) (word (length text)))

-- The hashes of a path start at its first hash and are the second hash apart.
unfoldable pub nth_hash : ℕ → ℕ → ℕ → ℕ
nth_hash first step zero = word first
nth_hash first step (suc i) = word (nth_hash first step i + step)

unfoldable pub switch_on : Bytes → ℕ → Bytes
switch_on filter bit = set filter (bit / 8) (bit_or (get_or filter (bit / 8) 0) (2 ^ (bit % 8)))

-- `n` hashes from the `i`th on.
unfoldable pub add_key : ℕ → ℕ → ℕ → ℕ → Bytes → Bytes
add_key zero i first step filter = filter
add_key (suc n) i first step filter =
    add_key n (suc i) first step (switch_on filter (nth_hash first step i % (length filter * 8)))

unfoldable pub add_path : Bytes → ℕ → ℕ → Bytes → Bytes
add_path filter version num_hashes path =
    add_key num_hashes 0 (murmur_hash (version == 1) 0x293ae76f path)
      (murmur_hash (version == 1) 0x7e646e2c path) filter

unfoldable pub add_paths : Bytes → ℕ → ℕ → List Bytes → Bytes
add_paths filter version num_hashes [] = filter
add_paths filter version num_hashes (path ∷ paths) =
    add_paths (add_path filter version num_hashes path) version num_hashes paths
