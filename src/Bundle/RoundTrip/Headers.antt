-- ===== src/Bundle/RoundTrip/Headers.antt =====
-- The header in front of an object is not empty.
use webgit.Base.{ℕ, ◌*◌, ◌%◌, ◌/◌, ◌<◌, Bytes, [], length, length-append, arith, lt_wf, bit_or}
use mathlib.Core.WellFounded.{Acc}
use webgit.Bundle.Header.{header_loop, write_pack_header, write_base_distance}

header_loop_nonempty : (byte rest : ℕ) (w : Acc ◌<◌ rest) → 0 < length (header_loop byte rest w)
unfolding header_loop
header_loop_nonempty byte rest (Acc.intro _ smaller) = ground arith

pub write_pack_header_nonempty : (bits size : ℕ) → 0 < length (write_pack_header [] bits size)
unfolding write_pack_header
write_pack_header_nonempty bits size =
    header_loop_nonempty (bit_or (bits * 16 % 256) (size % 16)) (size / 16)
      (lt_wf.apply (size / 16))

pub write_base_distance_nonempty :
    (out : Bytes) (distance : ℕ) → 0 < length out → 0 < length (write_base_distance out distance)
unfolding write_base_distance
write_base_distance_nonempty out distance h = omega (arith, length-append {0} out)
