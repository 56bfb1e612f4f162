-- ===== src/Bundle/Header/Size.antt =====
-- The type and size that `write_pack_header` writes are what `read_obj_type_size` reads.
use webgit.Base.{ℕ, zero, suc, ◌+◌, ◌-◌, ◌*◌, ◌/◌, ◌%◌, ◌^◌, ◌<◌, IsU64, Bytes, [], ◌∷◌, ◌++◌}
use webgit.Base.{◌≡◌, ap, ◌∙◌, arith, length, bit_or, bit_and, some, ok}
use webgit.Base.Bits.{and_7f, and_80, and_70, and_0f, or_80, or_nibbles}
use webgit.Pack.Header.{PackObjectType, obj_type_size_loop, read_obj_type_size, type_of}
use webgit.Bundle.Header.{header_loop, shift_shrinks, write_pack_header}
use mathlib.Core.WellFounded.{Acc}
use mathlib.Core.Logic.{dif_pos, dif_neg}
use native.Mathlib.Decide.{dec_lt}
use native.Mathlib.Bridge.{le_prop}
use native.Mathlib.Numerals.{towards_suc}

-- One more round of the reader, at shift `s`, on a byte with the top bit and on a last byte.
read_more :
    (g acc pos : ℕ) (t : PackObjectType) (tail : Bytes)
    → g < 128
    → 0 < pos
    → 4 + 7 * (pos - 1) < 64
    → IsU64 (acc + g * 2 ^ (4 + 7 * (pos - 1)))
    → obj_type_size_loop ((g + 128) ∷ tail) pos (some t) acc
      ≡ obj_type_size_loop tail (pos + 1) (some t) (acc + g * 2 ^ (4 + 7 * (pos - 1)))
unfolding obj_type_size_loop
read_more g acc pos t tail hg hp hs fits = ground (arith, and_7f (g + 128), and_80 (g + 128))

read_last :
    (g acc pos : ℕ) (t : PackObjectType) (tail : Bytes)
    → g < 128
    → 0 < pos
    → 4 + 7 * (pos - 1) < 64
    → IsU64 (acc + g * 2 ^ (4 + 7 * (pos - 1)))
    → obj_type_size_loop (g ∷ tail) pos (some t) acc
      ≡ ok (pos + 1, t, acc + g * 2 ^ (4 + 7 * (pos - 1)))
unfolding obj_type_size_loop
read_last g acc pos t tail hg hp hs fits = ground (arith, and_7f g, and_80 g)

shift_next : (pos : ℕ) → 0 < pos → 2 ^ (4 + 7 * (pos + 1 - 1)) ≡ 128 * 2 ^ (4 + 7 * (pos - 1))
shift_next zero h = elim h [ ]
shift_next (suc pos) h =
    let e : 4 + 7 * (suc pos + 1 - 1) ≡ 4 + 7 * (suc pos - 1) + 7 = omega arith in
    rw e (simp towards_suc (omega arith))

-- `v` split into its lowest group and the rest, at shift `s`.
split_group :
    (g rest acc pos : ℕ)
    → 0 < pos
    → acc + (g + 128 * rest) * 2 ^ (4 + 7 * (pos - 1))
      ≡ acc + g * 2 ^ (4 + 7 * (pos - 1)) + rest * 2 ^ (4 + 7 * (pos + 1 - 1))
split_group g rest acc pos h = omega (arith, ap (λ (t : ℕ). rest * t) (shift_next pos h))

more_step :
    (g rest acc pos : ℕ) (t : PackObjectType) (written tail : Bytes)
    → g < 128
    → 0 < pos
    → 4 + 7 * (pos - 1) < 64
    → IsU64 (acc + (g + 128 * rest) * 2 ^ (4 + 7 * (pos - 1)))
    → obj_type_size_loop (written ++ tail) (pos + 1) (some t) (acc + g * 2 ^ (4 + 7 * (pos - 1)))
      ≡ ok (
        pos + 1 + length written,
        t,
        acc
            + g * 2 ^ (4 + 7 * (pos - 1))
            + (rest % 128 + 128 * (rest / 128)) * 2 ^ (4 + 7 * (pos + 1 - 1)),
      )
    → obj_type_size_loop ((bit_or g 0x80 ∷ written) ++ tail) pos (some t) acc
      ≡ ok (
        pos + length (bit_or g 0x80 ∷ written),
        t,
        acc + (g + 128 * rest) * 2 ^ (4 + 7 * (pos - 1)),
      )
more_step g rest acc pos t written tail hg hp hs fits ih =
    let e : rest % 128 + 128 * (rest / 128) ≡ rest = omega arith in
    let fits' : IsU64 (acc + g * 2 ^ (4 + 7 * (pos - 1))) =
      omega (arith, split_group g rest acc pos hp) in
    rw (or_80 g hg) (
      read_more g acc pos t (written ++ tail) hg hp hs fits'
      ∙ ih
      ∙ ground (arith, e, split_group g rest acc pos hp))

fits_next :
    (g rest acc pos : ℕ)
    → 0 < pos
    → IsU64 (acc + (g + 128 * rest) * 2 ^ (4 + 7 * (pos - 1)))
    → IsU64 (
        acc
        + g * 2 ^ (4 + 7 * (pos - 1))
        + (rest % 128 + 128 * (rest / 128)) * 2 ^ (4 + 7 * (pos + 1 - 1)))
fits_next g rest acc pos hp fits =
    let e : rest % 128 + 128 * (rest / 128) ≡ rest = omega arith in
    rw e (omega (arith, split_group g rest acc pos hp))

-- What the loop writes from a group `g` and the rest on is read as the number that they make.
read-header_loop :
    (k g rest acc pos : ℕ) (w : Acc ◌<◌ rest) (t : PackObjectType) (tail : Bytes)
    → g < 128
    → 0 < pos
    → rest < 128 ^ k
    → 4 + 7 * (pos - 1) + 7 * k < 64
    → IsU64 (acc + (g + 128 * rest) * 2 ^ (4 + 7 * (pos - 1)))
    → obj_type_size_loop (header_loop g rest w ++ tail) pos (some t) acc
      ≡ ok
          (pos + length (header_loop g rest w), t, acc + (g + 128 * rest) * 2 ^ (4 + 7 * (pos - 1)))
unfolding header_loop
read-header_loop zero g rest acc pos (Acc.intro _ smaller) t tail hg hp hr hs fits =
    ground (arith, read_last g acc pos t tail)
read-header_loop (suc k) g rest acc pos (Acc.intro _ smaller) t tail hg hp hr hs fits =
    elim (dec_lt 0 rest) [
      | yes more ↦ rw (dif_pos (dec_lt 0 rest) le_prop more) (
          more_step g rest acc pos t
            (header_loop (rest % 128) (rest / 128) (smaller (rest / 128) (shift_shrinks rest more)))
            tail hg hp (omega arith) fits
            (read-header_loop k (rest % 128) (rest / 128) (acc + g * 2 ^ (4 + 7 * (pos - 1)))
              (pos + 1) (smaller (rest / 128) (shift_shrinks rest more)) t tail (omega arith)
              (omega arith) (omega arith) (omega arith) (fits_next g rest acc pos hp fits)))
      | no done ↦ rw (dif_neg (dec_lt 0 rest) done) (ground (arith, read_last g acc pos t tail))
    ]

-- The reader's first round, on a first byte with and without the top bit.
read_first_more :
    (tb low : ℕ) (t : PackObjectType) (tail : Bytes)
    → tb < 8
    → low < 16
    → type_of (tb * 16) ≡ some t
    → read_obj_type_size ((tb * 16 + low + 128) ∷ tail) ≡ obj_type_size_loop tail 1 (some t) low
unfolding read_obj_type_size obj_type_size_loop
read_first_more tb low t tail htb hl ht =
    let b : ℕ = tb * 16 + low + 128 in
    let e : bit_and b 0x70 ≡ tb * 16 = and_70 b (omega arith) ∙ omega arith in
    let l : bit_and b 0x0f ≡ low = and_0f b (omega arith) ∙ omega arith in
    let h : bit_and b 0x80 ≡ 128 = and_80 b (omega arith) ∙ omega arith in rw (e, l, h, ht)

read_first_last :
    (tb low : ℕ) (t : PackObjectType) (tail : Bytes)
    → tb < 8
    → low < 16
    → type_of (tb * 16) ≡ some t
    → read_obj_type_size ((tb * 16 + low) ∷ tail) ≡ ok (1, t, low)
unfolding read_obj_type_size obj_type_size_loop
read_first_last tb low t tail htb hl ht =
    let b : ℕ = tb * 16 + low in
    let e : bit_and b 0x70 ≡ tb * 16 = and_70 b (omega arith) ∙ omega arith in
    let l : bit_and b 0x0f ≡ low = and_0f b (omega arith) ∙ omega arith in
    let h : bit_and b 0x80 ≡ 0 = and_80 b (omega arith) ∙ omega arith in rw (e, l, h, ht)

read-first_loop :
    (tb low rest : ℕ) (w : Acc ◌<◌ rest) (t : PackObjectType) (tail : Bytes)
    → tb < 8
    → low < 16
    → type_of (tb * 16) ≡ some t
    → low + 16 * rest < 2 ^ 60
    → read_obj_type_size (header_loop (tb * 16 + low) rest w ++ tail)
      ≡ ok (length (header_loop (tb * 16 + low) rest w), t, low + 16 * rest)
unfolding header_loop
read-first_loop tb low rest (Acc.intro _ smaller) t tail htb hl ht hs = elim (dec_lt 0 rest) [
  | yes more ↦
      rw (dif_pos (dec_lt 0 rest) le_prop more, or_80 (tb * 16 + low) (omega arith))
        (read_first_more tb low t _ htb hl ht
          ∙ read-header_loop 8 (rest % 128) (rest / 128) low 1
              (smaller (rest / 128) (shift_shrinks rest more)) t tail (omega arith) (omega arith)
              (omega arith) (omega arith) (omega arith)
          ∙ ground arith)
  | no done ↦
      rw (dif_neg (dec_lt 0 rest) done) (read_first_last tb low t tail htb hl ht ∙ ground arith)
]

-- `read_obj_type_size` gives back the type and the size that `write_pack_header` wrote, and stops
-- where the header does.
pub read_obj_type_size-write_pack_header :
    (tb size : ℕ) (t : PackObjectType) (tail : Bytes)
    → tb < 8
    → type_of (tb * 16) ≡ some t
    → size < 2 ^ 60
    → read_obj_type_size (write_pack_header [] tb size ++ tail)
      ≡ ok (length (write_pack_header [] tb size), t, size)
unfolding write_pack_header
read_obj_type_size-write_pack_header tb size t tail htb ht hs =
    let e : tb * 16 % 256 ≡ tb * 16 = omega arith in
    let f : size % 16 + 16 * (size / 16) ≡ size = omega arith in
    rw (e, or_nibbles tb (size % 16) (omega arith) (omega arith))
      (read-first_loop tb (size % 16) (size / 16) _ t tail htb (omega arith) ht (omega arith)
        ∙ rw f)
