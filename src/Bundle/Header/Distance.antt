-- ===== src/Bundle/Header/Distance.antt =====
-- The distance that `write_base_distance` writes is what `read_delta_offset` reads.
use webgit.Base.{ℕ, ◌+◌, ◌-◌, ◌*◌, ◌/◌, ◌%◌, ◌<◌, IsU64, Bytes, [], ◌∷◌, ◌++◌}
use webgit.Base.{◌≡◌, ◌∙◌, arith, lt_wf, length, bit_or, bit_and, ok}
use webgit.Base.{◌==◌, if◌then◌else◌, Bool-cases, inl, inr}
use webgit.Base.Bits.{and_7f, and_80, or_80_left}
use webgit.Pack.Header.{add_u64, shl_u64, delta_offset_loop, read_delta_offset}
use webgit.Bundle.Header.{distance_loop, write_base_distance, distance_shrinks}
use mathlib.Core.WellFounded.{Acc}
use mathlib.Core.Logic.{dif_pos, dif_neg}
use native.Mathlib.Bridge.{le_prop}
use native.Mathlib.Decide.{dec_lt}

-- What a round of the reader starts from.
abbrev start : ℕ → ℕ → ℕ
start idx offset = if idx == 0 then offset else offset + 1

next_offset :
    (g idx offset : ℕ)
    → g < 128
    → IsU64 (start idx offset * 128 + g)
    → add_u64 (shl_u64 (if idx == 0 then offset else add_u64 offset 1) 7) g
      ≡ start idx offset * 128 + g
next_offset g idx offset hg fits = elim (Bool-cases (idx == 0)) [
  | inl e ↦ ground arith
  | inr e ↦ ground arith
]

read_more :
    (g idx offset : ℕ) (tail : Bytes)
    → g < 128
    → IsU64 (start idx offset * 128 + g)
    → delta_offset_loop (bit_or 128 g ∷ tail) idx offset
      ≡ delta_offset_loop tail (idx + 1) (start idx offset * 128 + g)
unfolding delta_offset_loop
read_more g idx offset tail hg fits =
    let l : bit_and (g + 128) 0x7f ≡ g = and_7f (g + 128) (omega arith) ∙ omega arith in
    let h : bit_and (g + 128) 0x80 ≡ 128 = and_80 (g + 128) (omega arith) ∙ omega arith in
    rw (or_80_left g hg, l, h) (rw (next_offset g idx offset hg fits))

read_last :
    (g idx offset : ℕ) (tail : Bytes)
    → g < 128
    → IsU64 (start idx offset * 128 + g)
    → delta_offset_loop (g ∷ tail) idx offset ≡ ok (idx + 1, start idx offset * 128 + g)
unfolding delta_offset_loop
read_last g idx offset tail hg fits = ground (arith, and_7f g, and_80 g)

-- The reader's state behind the groups that `distance_loop` puts in front of `written`.
record Read (distance : ℕ) (w : Acc ◌<◌ distance) (written tail : Bytes) : Type 0 where
  idx : ℕ
  offset : ℕ
  size : length (distance_loop distance w written) ≡ idx + length written
  starts : start idx offset ≡ distance / 128
  reads :
      delta_offset_loop (distance_loop distance w written ++ tail) 0 0
      ≡ delta_offset_loop (written ++ tail) idx offset

Read-distance_loop :
    (distance : ℕ) (w : Acc ◌<◌ distance) (written tail : Bytes)
    → IsU64 distance
    → Read distance w written tail
unfolding distance_loop
Read-distance_loop distance (Acc.intro _ smaller) written tail h =
    elim (dec_lt 0 (distance / 128)) [
      | yes more ↦
          let d : ℕ = distance / 128 - 1 in
          let group : ℕ = d % 128 in
          let r =
            Read-distance_loop d (smaller d (distance_shrinks distance more))
              (bit_or 128 group ∷ written) tail (omega arith) in
          let value : start r.idx r.offset * 128 + group ≡ d = rw r.starts (omega arith) in
          record {
            idx = r.idx + 1;
            offset = d;
            size = rw (dif_pos (dec_lt 0 (distance / 128)) le_prop more) (omega (arith, r.size));
            starts = ground arith;
            reads = rw (dif_pos (dec_lt 0 (distance / 128)) le_prop more) (
                r.reads
                ∙ read_more group r.idx r.offset (written ++ tail) (omega arith)
                    (rw value (omega arith))
                ∙ rw value);
          }
      | no done ↦ record {
        idx = 0;
        offset = 0;
        size = rw (dif_neg (dec_lt 0 (distance / 128)) done) (omega arith);
        starts = omega arith;
        reads = rw (dif_neg (dec_lt 0 (distance / 128)) done);
      }
    ]

-- `read_delta_offset` gives back the distance that `write_base_distance` wrote, and stops where
-- the distance does.
pub read_delta_offset-write_base_distance :
    (distance : ℕ) (tail : Bytes)
    → IsU64 distance
    → read_delta_offset (write_base_distance [] distance ++ tail)
      ≡ ok (length (write_base_distance [] distance), distance)
unfolding read_delta_offset write_base_distance
read_delta_offset-write_base_distance distance tail h =
    let r = Read-distance_loop distance (lt_wf.apply distance) (distance % 128 ∷ []) tail h in
    let value : start r.idx r.offset * 128 + distance % 128 ≡ distance =
      rw r.starts (omega arith) in
    r.reads
    ∙ read_last (distance % 128) r.idx r.offset tail (omega arith) (rw value h)
    ∙ ground (arith, r.size, value)
