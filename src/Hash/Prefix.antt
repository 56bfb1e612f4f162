-- ===== src/Hash/Prefix.antt =====
-- The range of names that an abbreviated name stands for.
use webgit.Base.{ℕ, zero, suc, ◌/◌, ◌+◌, ◌%◌, ◌≤◌, Bytes, IsByte, All, length, bit_or}
use webgit.Base.{◌≡◌, ◌≢◌, ◌↔◌, refl, arith, Bool, true, false, [], ◌∷◌}
use webgit.Base.{◌==◌, if◌then◌else◌, take, get_or, set, Bool-cases, inl, inr}
use webgit.Base.Bits.{or_0f}
use webgit.Hash.{ObjectId, IsId, ObjectIdPrefix, cmp_bytes, fill_ff, first, last, compare, matches}
use Prim.Native.Nat.{compare as cmp, Ordering}

abbrev pub IsZero : ℕ → Type 0
IsZero b = b ≡ 0

-- Past the first `k` bytes, and the high half of one more if `odd`, every bit is zero.
abbrev pub IsPadded : ℕ → Bool → Bytes → Type 0
IsPadded k odd [] = Unit
IsPadded (suc k) odd (b ∷ bs) = IsPadded k odd bs
IsPadded zero true (b ∷ bs) = (b % 16 ≡ 0) × All IsZero bs
IsPadded zero false (b ∷ bs) = All IsZero (b ∷ bs)

pub record IsPrefix (p : ObjectIdPrefix) : Type 0 where
  pub size : length p.bytes ≡ 20
  pub bytes : All IsByte p.bytes
  pub short : p.nibbles ≤ 40
  pub padded : IsPadded (p.nibbles / 2) (p.nibbles % 2 == 1) p.bytes

-- Where a name lies: below `lo`, above `hi`, or in the range between.
abbrev pub place : Bytes → Bytes → Bytes → Ordering
place id lo hi = elim (cmp_bytes id lo) [
  | Ordering.lt ↦ Ordering.lt
  | _ ↦ elim (cmp_bytes hi id) [ Ordering.lt ↦ Ordering.gt | _ ↦ Ordering.eq ]
]

-- `last` and `compare`, for `k` full bytes of what is left of the two arrays.
last_at : ℕ → Bool → Bytes → Bytes
last_at k odd bs =
    if odd then fill_ff (k + 1) (set bs k (bit_or (get_or bs k 0) 0x0f)) else fill_ff k bs

unfoldable pub compare_at : ℕ → Bool → Bytes → Bytes → Ordering
compare_at k odd is ps = elim (cmp_bytes (take k is) (take k ps)) [
  | Ordering.lt ↦ Ordering.lt
  | Ordering.gt ↦ Ordering.gt
  | Ordering.eq ↦ if odd then cmp (get_or is k 0 / 16) (get_or ps k 0 / 16) else Ordering.eq
]

place_zero :
    (is zs : Bytes)
    → length is ≡ length zs
    → All IsByte is
    → All IsZero zs
    → place is zs (fill_ff 0 zs) ≡ Ordering.eq
unfolding cmp_bytes fill_ff
place_zero [] [] h b z = refl
place_zero [] (z ∷ zs) h b z' = absurd (omega arith)
place_zero (i ∷ is) [] h b z = absurd (omega arith)
place_zero (i ∷ is) (z ∷ zs) h b z' = ground (arith, place_zero is zs (omega arith) b.1 z'.1)

compare_at-place :
    (k : ℕ) (odd : Bool) (is ps : Bytes)
    → length is ≡ length ps
    → All IsByte is
    → All IsByte ps
    → IsPadded k odd ps
    → compare_at k odd is ps ≡ place is ps (last_at k odd ps)
unfolding cmp_bytes fill_ff compare_at last_at
compare_at-place zero true [] [] h b c z = refl
compare_at-place zero false [] [] h b c z = refl
compare_at-place (suc k) true [] [] h b c z = refl
compare_at-place (suc k) false [] [] h b c z = refl
compare_at-place k odd [] (p ∷ ps) h b c z = absurd (omega arith)
compare_at-place k odd (i ∷ is) [] h b c z = absurd (omega arith)
compare_at-place zero true (i ∷ is) (p ∷ ps) h b c z =
    ground (arith, or_0f p, place_zero is ps (omega arith) b.1 z.1)
compare_at-place zero false (i ∷ is) (p ∷ ps) h b c z =
    ground (arith, place_zero is ps (omega arith) b.1 z.1)
compare_at-place (suc k) true (i ∷ is) (p ∷ ps) h b c z =
    ground (arith, compare_at-place k true is ps (omega arith) b.1 c.1 z)
compare_at-place (suc k) false (i ∷ is) (p ∷ ps) h b c z =
    ground (arith, compare_at-place k false is ps (omega arith) b.1 c.1 z)

last-last_at :
    (p : ObjectIdPrefix) → (last p).bytes ≡ last_at (p.nibbles / 2) (p.nibbles % 2 == 1) p.bytes
unfolding last last_at
last-last_at p = elim (Bool-cases (p.nibbles % 2 == 1)) [ inl e ↦ rw e | inr e ↦ rw e ]

-- `compare` places a name against the range from `first` to `last`: `Less` exactly below `first`,
-- `Greater` exactly above `last`, `Equal` exactly in between.
pub compare-place :
    (p : ObjectIdPrefix) (id : ObjectId)
    → IsPrefix p
    → IsId id
    → compare p id ≡ place id.bytes (first p).bytes (last p).bytes
unfolding compare first compare_at
compare-place p id hp hid = rw last-last_at (
    compare_at-place (p.nibbles / 2) (p.nibbles % 2 == 1) id.bytes p.bytes
      (omega (arith, hp.size, hid.0)) hid.1 hp.bytes hp.padded)

-- A name matches exactly when it lies in the closed range from `first` to `last`.
matches_range :
    (p : ObjectIdPrefix) (id : ObjectId)
    → IsPrefix p
    → IsId id
    → (matches p id ≡ true) ↔ (
        (cmp_bytes id.bytes (first p).bytes ≢ Ordering.lt)
        × (cmp_bytes (last p).bytes id.bytes ≢ Ordering.lt))
unfolding matches
matches_range p id hp hid = ground (arith, compare-place p id hp hid)
