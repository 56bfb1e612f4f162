-- ===== src/Pack/Examples.antt =====
-- Runs of the pack reader, and the theorems at concrete inputs.
pub mod Chains
use webgit.Base.{
  ℕ, List, ◌≡◌, ◌≤◌, ◌<◌, ◌^◌, refl, arith, [], ◌∷◌, ok, err, panic, Bytes, IsU64, Returns, inl,
  drop, subst,
}
use webgit.Object.{commit}
use webgit.Pack.{malformed_delta, pack, corrupt_pack_file}
use webgit.Pack.Header.{
  base, read_delta_expected_size, expected_size_loop, parse_object_header, read_base,
  read_obj_type_size, obj_type_size_loop, type_of, read_delta_offset, delta_offset_loop,
}
use webgit.Pack.Header.Safe.{parse_object_header-Returns, parse_object_header_ends}
use webgit.Pack.Delta.{
  apply_delta, rebuild, delta_loop, run_instruction, run_insert, run_copy, copied_run, take_bytes,
  read_arg, read_args, from_le_bytes, with_capacity, reserved, extend_from_slice,
}
use webgit.Pack.Delta.Safe.{declared, Fits, apply_delta-Returns, apply_delta_panics}
use webgit.Pack.Delta.Written.{written, then_written}
use webgit.Pack.Delta.Encode.{Instruction, copy, insert, rebuilt, appended, delta_bytes}
use webgit.Pack.Delta.RoundTrip.{apply_delta-delta_bytes}

unfoldable pub program : Unit {0}
unfolding apply_delta rebuild delta_loop run_instruction run_insert run_copy copied_run take_bytes
    read_arg read_args from_le_bytes with_capacity read_delta_expected_size expected_size_loop
    parse_object_header read_base read_obj_type_size obj_type_size_loop type_of read_delta_offset
    delta_offset_loop declared reserved extend_from_slice written then_written
program = tt

-- Insert two bytes, copy two from offset 0, copy one from offset 1.
abbrev small_delta : Bytes
small_delta = 2 ∷ 5 ∷ 2 ∷ 7 ∷ 8 ∷ 0x90 ∷ 2 ∷ 0x91 ∷ 1 ∷ 1 ∷ []

insert_and_copy : apply_delta small_delta (1 ∷ 2 ∷ []) ≡ ok (7 ∷ 8 ∷ 1 ∷ 2 ∷ 2 ∷ [])
unfolding program
insert_and_copy = refl

past_the_base : apply_delta (2 ∷ 2 ∷ 0x91 ∷ 1 ∷ 2 ∷ []) (1 ∷ 2 ∷ []) ≡ err malformed_delta
unfolding program
past_the_base = refl

-- A header of six bytes that declares 2 ^ 31 bytes.
abbrev huge : Bytes
huge = 2 ∷ 0x80 ∷ 0x80 ∷ 0x80 ∷ 0x80 ∷ 0x08 ∷ []

huge_sizes : declared huge ≡ ok (2, 2 ^ 31, [])
unfolding program
huge_sizes = refl

apply_delta_panics_example : apply_delta huge (1 ∷ 2 ∷ []) ≡ panic
unfolding reserved
apply_delta_panics_example =
    apply_delta_panics huge (1 ∷ 2 ∷ []) (2 ^ 31) [] huge_sizes (inl (omega arith))

small-Fits :
    (size : ℕ) (instructions : Bytes)
    → declared small_delta ≡ ok (2, size, instructions)
    → Fits (1 ∷ 2 ∷ []) size instructions
unfolding program
small-Fits size instructions e =
    let sizes : 5 ≡ size = cc in
    let rest : drop 2 small_delta ≡ instructions = cc in
    subst (λ (n : ℕ). Fits (1 ∷ 2 ∷ []) n instructions) sizes
      (subst (Fits (1 ∷ 2 ∷ []) 5) rest (omega arith, inl (omega arith)))

apply_delta-Returns_example : Returns (apply_delta small_delta (1 ∷ 2 ∷ []))
apply_delta-Returns_example = apply_delta-Returns small_delta (1 ∷ 2 ∷ []) small-Fits

abbrev script : List Instruction
script = insert (7 ∷ 8 ∷ []) ∷ copy 1 2 ∷ []

apply_delta-delta_bytes_example :
    apply_delta (delta_bytes (1 ∷ 2 ∷ 3 ∷ []) script) (1 ∷ 2 ∷ 3 ∷ [])
    ≡ ok (rebuilt (1 ∷ 2 ∷ 3 ∷ []) script)
unfolding rebuilt appended
apply_delta-delta_bytes_example =
    apply_delta-delta_bytes (1 ∷ 2 ∷ 3 ∷ []) script (omega arith) (omega arith) (omega arith)

-- A commit of 300 bytes.
abbrev header : Bytes
header = 0x9c ∷ 0x12 ∷ 0x78 ∷ []

reads_header : parse_object_header header ≡ ok (base commit, 300, 2)
unfolding program
reads_header = refl

cut_header : parse_object_header (0x9c ∷ []) ≡ err (pack corrupt_pack_file)
unfolding program
cut_header = refl

parse_object_header-Returns_example : Returns (parse_object_header header)
parse_object_header-Returns_example = parse_object_header-Returns header

parse_object_header_ends_example : (0 < 2) × (2 ≤ 3) × IsU64 300
parse_object_header_ends_example =
    parse_object_header_ends header (base commit) 300 2 (omega arith) reads_header
