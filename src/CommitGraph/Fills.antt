-- ===== src/CommitGraph/Fills.antt =====
-- A filter that is filled at the bits that the query asks for answers yes.
use webgit.Base.{
  ℕ, zero, suc, ◌+◌, ◌*◌, ◌/◌, ◌%◌, ◌^◌, ◌≤◌, ◌<◌, arith, ◌≡◌, ◌≢◌, refl, sym, ap, ◌∙◌, bit_or,
  bit_and, Bytes, IsByte, All, length, get_or, set, length-set,
}
use webgit.Base.{List, [], ◌∷◌, ◌++◌, true, false, Bool-cases, inl, inr, ltb→lt, ◌==◌}
use webgit.Base.Bits.{or_bit-byte, or_bit-set, or_bit-keeps}
use native.Mathlib.Decide.{dec_lt}
use native.Mathlib.Nat.{mod-lt}
use webgit.CommitGraph.Bloom.{
  BloomSettings, seed0, seed1, murmur3, bit_of, has_bit, all_bits, path_maybe_changed,
}

-- A filter filled at the bits that the query asks for.
unfoldable pub set_bit : Bytes → ℕ → Bytes
set_bit filter bit = set filter (bit / 8) (bit_or (get_or filter (bit / 8) 0) (2 ^ (bit % 8)))

unfoldable pub set_bits : ℕ → ℕ → Bytes → ℕ → ℕ → Bytes
set_bits zero i filter hash0 hash1 = filter
set_bits (suc n) i filter hash0 hash1 =
    set_bits n (i + 1) (set_bit filter (bit_of (length filter * 8) hash0 hash1 i)) hash0 hash1

unfoldable pub fill_path : Bytes → BloomSettings → Bytes → Bytes
fill_path filter settings path =
    let sign_extend = settings.hash_version == 1 in
    set_bits settings.num_hashes 0 filter (murmur3 seed0 path sign_extend)
      (murmur3 seed1 path sign_extend)

unfoldable pub fill_paths : Bytes → BloomSettings → List Bytes → Bytes
fill_paths filter settings [] = filter
fill_paths filter settings (path ∷ paths) =
    fill_paths (fill_path filter settings path) settings paths

get_or-set : (bs : Bytes) (i v : ℕ) → i < length bs → get_or (set bs i v) i 0 ≡ v
get_or-set [] i v h = absurd (omega arith)
get_or-set (b ∷ bs) zero v h = refl
get_or-set (b ∷ bs) (suc i) v h = get_or-set bs i v (omega arith)

get_or-set_other : (bs : Bytes) (i j v : ℕ) → i ≢ j → get_or (set bs i v) j 0 ≡ get_or bs j 0
get_or-set_other [] i j v h = refl
get_or-set_other (b ∷ bs) zero zero v h = absurd (h refl)
get_or-set_other (b ∷ bs) zero (suc j) v h = refl
get_or-set_other (b ∷ bs) (suc i) zero v h = refl
get_or-set_other (b ∷ bs) (suc i) (suc j) v h = get_or-set_other bs i j v (λ e. h (ap suc e))

All-set : (bs : Bytes) (i v : ℕ) → All IsByte bs → IsByte v → All IsByte (set bs i v)
All-set [] i v h k = tt
All-set (b ∷ bs) zero v h k = (k, h.1)
All-set (b ∷ bs) (suc i) v h k = (h.0, All-set bs i v h.1 k)

byte_at : (bs : Bytes) (i : ℕ) → All IsByte bs → get_or bs i 0 < 256
byte_at [] i h = omega arith
byte_at (b ∷ bs) zero h = h.0
byte_at (b ∷ bs) (suc i) h = byte_at bs i h.1

set_bit-All : (filter : Bytes) (bit : ℕ) → All IsByte filter → All IsByte (set_bit filter bit)
unfolding set_bit
set_bit-All filter bit h =
    All-set filter (bit / 8) _ h
      (or_bit-byte _ (bit % 8) (byte_at filter (bit / 8) h) (omega arith))

length-set_bit : (filter : Bytes) (bit : ℕ) → length (set_bit filter bit) ≡ length filter
unfolding set_bit
length-set_bit filter bit = length-set filter (bit / 8) _

-- A bit that is set is there, and those that were there stay.
has_bit-set_bit :
    (filter : Bytes) (bit : ℕ)
    → All IsByte filter
    → bit < length filter * 8
    → has_bit (set_bit filter bit) bit ≡ true
unfolding has_bit set_bit
has_bit-set_bit filter bit h k =
    let e =
      get_or-set filter (bit / 8) (bit_or (get_or filter (bit / 8) 0) (2 ^ (bit % 8)))
        (omega arith) in
    let s =
      or_bit-set (get_or filter (bit / 8) 0) (bit % 8) (byte_at filter (bit / 8) h) (omega arith) in
    rw e (ground arith)

set_past : (bs : Bytes) (i v : ℕ) → length bs ≤ i → set bs i v ≡ bs
set_past [] i v h = refl
set_past (b ∷ bs) zero v h = absurd (omega arith)
set_past (b ∷ bs) (suc i) v h = ap (◌∷◌ b) (set_past bs i v (omega arith))

has_bit-keeps :
    (filter : Bytes) (bit other : ℕ)
    → All IsByte filter
    → has_bit filter other ≡ true
    → has_bit (set_bit filter bit) other ≡ true
unfolding has_bit set_bit
has_bit-keeps filter bit other h t =
    let v = bit_or (get_or filter (bit / 8) 0) (2 ^ (bit % 8)) in
    elim (Bool-cases (bit / 8 == other / 8)) [
      | inr n ↦
          (let ne : bit / 8 ≢ other / 8 = ground arith in
            rw (get_or-set_other filter (bit / 8) (other / 8) v ne) t)
      | inl q ↦
          (let same : bit / 8 ≡ other / 8 = ground arith in
            elim (dec_lt (bit / 8) (length filter)) [
              | no past ↦ rw (set_past filter (bit / 8) v (omega arith)) t
              | yes l ↦
                  (let e : get_or (set filter (bit / 8) v) (other / 8) 0 ≡ v =
                      ap (λ (k : ℕ). get_or (set filter (bit / 8) v) k 0) (sym same)
                      ∙ get_or-set filter (bit / 8) v l in
                    let p : 0 < bit_and (get_or filter (other / 8) 0) (2 ^ (other % 8)) =
                      ltb→lt _ _ t in
                    let p' = rw (sym same) at p in
                    let k =
                      or_bit-keeps (get_or filter (bit / 8) 0) (bit % 8) (other % 8)
                        (byte_at filter (bit / 8) h) (omega arith) (omega arith) p' in
                    rw e (ground arith))
            ])
    ]

-- A filter of the same size that has the bits of another.
record Includes (filter larger : Bytes) : Type 0 where
  pub size : length larger ≡ length filter
  pub bytes : All IsByte larger
  pub bits : (bit : ℕ) → has_bit filter bit ≡ true → has_bit larger bit ≡ true

Includes-trans : (a b c : Bytes) → Includes a b → Includes b c → Includes a c
Includes-trans a b c h k = record {
  size = k.size ∙ h.size;
  bytes = k.bytes;
  bits = λ bit t. k.bits bit (h.bits bit t);
}

set_bit-Includes :
    (filter : Bytes) (bit : ℕ) → All IsByte filter → Includes filter (set_bit filter bit)
set_bit-Includes filter bit h = record {
  size = length-set_bit filter bit;
  bytes = set_bit-All filter bit h;
  bits = λ other t. has_bit-keeps filter bit other h t;
}

set_bits-Includes :
    (n i : ℕ) (filter : Bytes) (hash0 hash1 : ℕ)
    → All IsByte filter
    → Includes filter (set_bits n i filter hash0 hash1)
unfolding set_bits
set_bits-Includes zero i filter hash0 hash1 h = record { size = refl; bytes = h; bits = λ bit t. t }
set_bits-Includes (suc n) i filter hash0 hash1 h =
    let bit = bit_of (length filter * 8) hash0 hash1 i in
    let one = set_bit-Includes filter bit h in
    Includes-trans filter (set_bit filter bit) _ one
      (set_bits-Includes n (i + 1) (set_bit filter bit) hash0 hash1 one.bytes)

all_bits-Includes :
    (n i : ℕ) (filter larger : Bytes) (hash0 hash1 : ℕ)
    → Includes filter larger
    → all_bits n i filter hash0 hash1 ≡ true
    → all_bits n i larger hash0 hash1 ≡ true
unfolding all_bits
all_bits-Includes zero i filter larger hash0 hash1 x t = refl
all_bits-Includes (suc n) i filter larger hash0 hash1 x t = rw x.size (
    ground (
      arith,
      x.bits (bit_of (length filter * 8) hash0 hash1 i),
      all_bits-Includes n (i + 1) filter larger hash0 hash1 x,
    ))

bit_of-less : (m hash0 hash1 i : ℕ) → 0 < m → bit_of m hash0 hash1 i < m
unfolding bit_of
bit_of-less m hash0 hash1 i h = mod-lt _ (omega arith)

all_bits-set_bits :
    (n i : ℕ) (filter : Bytes) (hash0 hash1 : ℕ)
    → All IsByte filter
    → 0 < length filter
    → all_bits n i (set_bits n i filter hash0 hash1) hash0 hash1 ≡ true
unfolding all_bits set_bits
all_bits-set_bits zero i filter hash0 hash1 h l = refl
all_bits-set_bits (suc n) i filter hash0 hash1 h l =
    let bit = bit_of (length filter * 8) hash0 hash1 i in
    let one = set_bit-Includes filter bit h in
    let rest = set_bits-Includes n (i + 1) (set_bit filter bit) hash0 hash1 one.bytes in
    let there =
      rest.bits bit (has_bit-set_bit filter bit h (bit_of-less _ hash0 hash1 i (omega arith))) in
    rw (rest.size, one.size, there)
      (all_bits-set_bits n (i + 1) (set_bit filter bit) hash0 hash1 one.bytes
        (omega (arith, one.size)))

Includes-fill_path :
    (filter : Bytes) (settings : BloomSettings) (path : Bytes)
    → All IsByte filter
    → Includes filter (fill_path filter settings path)
unfolding fill_path
Includes-fill_path filter settings path h = set_bits-Includes settings.num_hashes 0 filter _ _ h

maybe-fill_path :
    (filter : Bytes) (settings : BloomSettings) (path : Bytes)
    → All IsByte filter
    → path_maybe_changed (fill_path filter settings path) settings path ≡ true
unfolding fill_path path_maybe_changed
maybe-fill_path filter settings path h =
    let hash0 = murmur3 seed0 path (settings.hash_version == 1) in
    let hash1 = murmur3 seed1 path (settings.hash_version == 1) in
    let x = set_bits-Includes settings.num_hashes 0 filter hash0 hash1 h in
    elim (dec_lt 0 (length filter)) [
      | no n ↦ (let e : (length filter * 8 == 0) ≡ true = ground arith in rw (x.size, e) refl)
      | yes l ↦
          (let e : (length filter * 8 == 0) ≡ false = ground arith in
            rw (x.size, e) (all_bits-set_bits settings.num_hashes 0 filter hash0 hash1 h l))
    ]

maybe-Includes :
    (filter larger : Bytes) (settings : BloomSettings) (path : Bytes)
    → Includes filter larger
    → path_maybe_changed filter settings path ≡ true
    → path_maybe_changed larger settings path ≡ true
unfolding path_maybe_changed
maybe-Includes filter larger settings path x t = rw x.size (
    ground (
      arith,
      all_bits-Includes settings.num_hashes 0 filter larger
          (murmur3 seed0 path (settings.hash_version == 1))
          (murmur3 seed1 path (settings.hash_version == 1)) x,
    ))

maybe-fill_paths :
    (paths : List Bytes) (filter : Bytes) (settings : BloomSettings) (path : Bytes)
    → All IsByte filter
    → path_maybe_changed filter settings path ≡ true
    → path_maybe_changed (fill_paths filter settings paths) settings path ≡ true
unfolding fill_paths
maybe-fill_paths [] filter settings path h t = t
maybe-fill_paths (p ∷ paths) filter settings path h t =
    let x = Includes-fill_path filter settings p h in
    maybe-fill_paths paths (fill_path filter settings p) settings path x.bytes
      (maybe-Includes filter _ settings path x t)

pub maybe-fill_paths_each :
    (before after : List Bytes) (filter : Bytes) (settings : BloomSettings) (path : Bytes)
    → All IsByte filter
    → path_maybe_changed (fill_paths filter settings (before ++ (path ∷ after))) settings path
      ≡ true
unfolding fill_paths
maybe-fill_paths_each [] after filter settings path h =
    maybe-fill_paths after (fill_path filter settings path) settings path
      (Includes-fill_path filter settings path h).bytes (maybe-fill_path filter settings path h)
maybe-fill_paths_each (p ∷ before) after filter settings path h =
    maybe-fill_paths_each before after (fill_path filter settings p) settings path
      (Includes-fill_path filter settings p h).bytes
