-- ===== src/Bundle/Examples.antt =====
-- Runs of the bundle writer, and the theorems at concrete inputs.
pub mod Copies
pub mod Back
use webgit.Base.{◌≡◌, refl, arith, [], ◌∷◌, ◌++◌, ok, length, lt_wf}
use webgit.Object.{blob}
use webgit.Pack.Header.{base, offset_delta, parse_object_header}
use webgit.Bundle.Header.{
  type_bits, ofs_delta, header_loop, write_pack_header, distance_loop, write_base_distance,
}
use webgit.Bundle.Header.RoundTrip.{parse-whole_header, parse-delta_header}
use native.Mathlib.Decide.{dec_lt}

program : Unit {0}
unfolding header_loop write_pack_header distance_loop write_base_distance type_bits lt_wf dec_lt
program = tt

blob_of_300 : write_pack_header [] (type_bits blob) 300 ≡ 0xbc ∷ 0x12 ∷ []
unfolding program
blob_of_300 = refl

back_by_1000 : write_base_distance [] 1000 ≡ 0x86 ∷ 0x68 ∷ []
unfolding program
back_by_1000 = refl

parse-whole_header_example :
    parse_object_header (write_pack_header [] (type_bits blob) 300 ++ 0x78 ∷ [])
    ≡ ok (base blob, 300, length (write_pack_header [] (type_bits blob) 300))
parse-whole_header_example = parse-whole_header blob 300 (0x78 ∷ []) (omega arith)

parse-delta_header_example :
    parse_object_header (write_base_distance (write_pack_header [] ofs_delta 300) 1000 ++ 0x78 ∷ [])
    ≡ ok (
      offset_delta 1000,
      300,
      length (write_base_distance (write_pack_header [] ofs_delta 300) 1000),
    )
parse-delta_header_example = parse-delta_header 300 1000 (0x78 ∷ []) (omega arith) (omega arith)
