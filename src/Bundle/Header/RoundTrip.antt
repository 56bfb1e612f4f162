-- ===== src/Bundle/Header/RoundTrip.antt =====
-- An object header that the bundle writer wrote is read back by the pack reader.
use webgit.Base.{ℕ, ◌*◌, ◌^◌, ◌<◌, IsU64, Bytes, [], ◌++◌, append_assoc}
use webgit.Base.{◌≡◌, refl, arith, length, length-append, some, ok}
use webgit.Base.{get_range-suffix}
use webgit.Object.{ObjectType, commit}
use webgit.Pack.Header.{base, offset_delta, type_of, read_base, parse_object_header}
use webgit.Bundle.Header.{type_bits, ofs_delta, write_pack_header, write_base_distance}
use webgit.Bundle.Header.Size.{read_obj_type_size-write_pack_header}
use webgit.Bundle.Header.Distance.{read_delta_offset-write_base_distance}

type_of-type_bits : (t : ObjectType) → type_of (type_bits t * 16) ≡ some (base t)
unfolding type_of type_bits
type_of-type_bits commit = refl
type_of-type_bits _ = refl

type_bits-lt : (t : ObjectType) → type_bits t < 8
unfolding type_bits
type_bits-lt commit = omega arith
type_bits-lt _ = omega arith

-- The header of an object that is stored whole: the reader finds the type, the size, and where the
-- body begins, whatever follows.
pub parse-whole_header :
    (t : ObjectType) (size : ℕ) (body : Bytes)
    → size < 2 ^ 60
    → parse_object_header (write_pack_header [] (type_bits t) size ++ body)
      ≡ ok (base t, size, length (write_pack_header [] (type_bits t) size))
unfolding parse_object_header read_base
parse-whole_header t size body h = rw (
    read_obj_type_size-write_pack_header (type_bits t) size (base t) body (type_bits-lt t)
      (type_of-type_bits t) h)

write_base_distance-append :
    (out : Bytes) (distance : ℕ)
    → write_base_distance out distance ≡ out ++ write_base_distance [] distance
unfolding write_base_distance
write_base_distance-append out distance = refl

-- The header of a delta: the type, the delta's size, the distance back to its base, and where the
-- delta begins.
pub parse-delta_header :
    (size distance : ℕ) (body : Bytes)
    → size < 2 ^ 60
    → IsU64 distance
    → parse_object_header
        (write_base_distance (write_pack_header [] ofs_delta size) distance ++ body)
      ≡ ok (
        offset_delta distance,
        size,
        length (write_base_distance (write_pack_header [] ofs_delta size) distance),
      )
unfolding parse_object_header read_base
parse-delta_header size distance body h hd =
    let a : Bytes = write_pack_header [] ofs_delta size in
    let b : Bytes = write_base_distance [] distance in
    rw (
      write_base_distance-append a distance,
      append_assoc a b body,
      read_obj_type_size-write_pack_header ofs_delta size (offset_delta 0) (b ++ body) (omega arith)
          (unfold type_of in refl) h,
      get_range-suffix a (b ++ body),
      read_delta_offset-write_base_distance distance body hd,
      length-append a b,
    )
