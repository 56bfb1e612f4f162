-- ===== src/Bundle/Header.antt =====
-- crates/gib-bundle/src/writer.rs: the header in front of each object of the pack that is written.
-- A mask of `k` ones is the remainder by `2 ^ k`, and `>> k` the quotient.
pub mod Size
pub mod Distance
pub mod RoundTrip
use webgit.Base.{ℕ, zero, suc, ◌+◌, ◌-◌, ◌*◌, ◌/◌, ◌%◌, ◌^◌, ◌<◌, Bytes, [], ◌∷◌, ◌++◌, bit_or}
use webgit.Base.{arith, lt_wf}
use webgit.Object.{ObjectType, commit, tag, blob, tree}
use mathlib.Core.Logic.{dite}
use mathlib.Core.WellFounded.{Acc}
use native.Mathlib.Decide.{dec_lt}

unfoldable pub type_bits : ObjectType → ℕ
type_bits commit = 1
type_bits tree = 2
type_bits blob = 3
type_bits tag = 4

abbrev pub ofs_delta : ℕ
ofs_delta = 6

pub shift_shrinks : (n : ℕ) → 0 < n → n / 128 < n
shift_shrinks n h = omega arith

pub distance_shrinks : (n : ℕ) → 0 < n / 128 → n / 128 - 1 < n
distance_shrinks n h = omega arith

-- What the loop and the push behind it add to `out`.
unfoldable pub header_loop : ℕ → (rest : ℕ) → Acc ◌<◌ rest → Bytes
header_loop byte rest (Acc.intro _ smaller) =
    dite (dec_lt 0 rest)
      (λ more.
        bit_or byte 0x80
        ∷ header_loop (rest % 128) (rest / 128) (smaller (rest / 128) (shift_shrinks rest more)))
      (λ _. byte ∷ [])

unfoldable pub write_pack_header : Bytes → ℕ → ℕ → Bytes
write_pack_header out type_bits size =
    out
    ++ header_loop (bit_or (type_bits * 16 % 256) (size % 16)) (size / 16) (lt_wf.apply (size / 16))

-- The loop fills `buf` from its end: what stands in front of the group that is there already.
unfoldable pub distance_loop : (distance : ℕ) → Acc ◌<◌ distance → Bytes → Bytes
distance_loop distance (Acc.intro _ smaller) written =
    dite (dec_lt 0 (distance / 128))
      (λ more.
        distance_loop (distance / 128 - 1)
          (smaller (distance / 128 - 1) (distance_shrinks distance more))
          (bit_or 128 ((distance / 128 - 1) % 128) ∷ written))
      (λ _. written)

unfoldable pub write_base_distance : Bytes → ℕ → Bytes
write_base_distance out distance =
    out ++ distance_loop distance (lt_wf.apply distance) ((distance % 128) ∷ [])
