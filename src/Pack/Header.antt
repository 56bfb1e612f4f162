-- ===== src/Pack/Header.antt =====
-- crates/gib-pack/src/pack.rs: the header in front of each object of a packfile.
pub mod Safe
use webgit.Base.{ℕ, zero, suc, ◌+◌, ◌-◌, ◌*◌, ◌%◌, ◌^◌, Bytes, Bool, true, false, bit_and, length}
use webgit.Base.{Option, none, some, [], ◌∷◌, ◌==◌, if◌then◌else◌, replicate, get_range}
use webgit.Base.{ok, err, ◌>>=◌, ok_or, unwrap}
use webgit.Hash.{ObjectId}
use webgit.Object.{ObjectType, commit, tag, blob, tree}
use webgit.Pack.{ObjectResult, corrupt_pack_file, pack, malformed_object, malformed_delta}

pub data PackObjectType : Type 0 where
  base : ObjectType → PackObjectType
  offset_delta : ℕ → PackObjectType
  ref_delta : ObjectId → PackObjectType

-- `+` and `<<` on `u64` in a release build: no bit above 63 is kept, and the distance is taken
-- modulo 64.
abbrev pub add_u64 : ℕ → ℕ → ℕ
add_u64 a b = (a + b) % 2 ^ 64

abbrev pub shl_u64 : ℕ → ℕ → ℕ
shl_u64 a n = a * 2 ^ (n % 64) % 2 ^ 64

abbrev pub zero_id : ObjectId
zero_id = record { bytes = replicate 20 0 }

-- The `match obj_type_id` of the first byte.
unfoldable pub type_of : ℕ → Option PackObjectType
type_of t =
    if t == 0x10
    then some (base commit)
    else if t == 0x20
    then some (base tree)
    else if t == 0x30
    then some (base blob)
    else if t == 0x40
    then some (base tag)
    else if t == 0x60
    then some (offset_delta 0)
    else if t == 0x70
    then some (ref_delta zero_id)
    else none

-- The loop of `read_obj_type_size`: the list is what of `buf` is not read yet. It ends in the last
-- line's error when the list does, since the last byte then asked for another.
unfoldable pub obj_type_size_loop :
    Bytes → ℕ → Option PackObjectType → ℕ → ObjectResult (ℕ × PackObjectType × ℕ)
obj_type_size_loop [] pos object_type size = err (pack corrupt_pack_file)
obj_type_size_loop (b ∷ buf) pos object_type size = do
  (object_type', size') ←
      (if pos == 0
        then (do t ← ok_or (type_of (bit_and b 0x70)) malformed_object; ok (some t, bit_and b 0x0f))
        else ok (object_type, add_u64 size (shl_u64 (bit_and b 0x7f) (4 + 7 * (pos - 1)))))
  if bit_and b 0x80 == 0
      then (do t ← unwrap object_type'; ok (pos + 1, t, size'))
      else obj_type_size_loop buf (pos + 1) object_type' size'

unfoldable pub read_obj_type_size : Bytes → ObjectResult (ℕ × PackObjectType × ℕ)
read_obj_type_size buf = obj_type_size_loop buf 0 none 0

-- `buf_idx` is `bytes_read` at the start of each round.
unfoldable pub delta_offset_loop : Bytes → ℕ → ℕ → ObjectResult (ℕ × ℕ)
delta_offset_loop [] buf_idx offset = err (pack corrupt_pack_file)
delta_offset_loop (b ∷ buf) buf_idx offset =
    let started = if buf_idx == 0 then offset else add_u64 offset 1 in
    let offset' = add_u64 (shl_u64 started 7) (bit_and b 0x7f) in
    if bit_and b 0x80 == 0
    then ok (buf_idx + 1, offset')
    else delta_offset_loop buf (buf_idx + 1) offset'

unfoldable pub read_delta_offset : Bytes → ObjectResult (ℕ × ℕ)
read_delta_offset buf = delta_offset_loop buf 0 0

unfoldable pub expected_size_loop : Bytes → ℕ → ℕ → ℕ → ObjectResult (ℕ × ℕ)
expected_size_loop [] bytes_read size shift = err malformed_delta
expected_size_loop (b ∷ buf) bytes_read size shift =
    let size' = add_u64 size (shl_u64 (bit_and b 0x7f) shift) in
    if bit_and b 0x80 == 0
    then ok (bytes_read + 1, size')
    else expected_size_loop buf (bytes_read + 1) size' (shift + 7)

unfoldable pub read_delta_expected_size : Bytes → ObjectResult (ℕ × ℕ)
read_delta_expected_size buf = expected_size_loop buf 0 0 0

-- What each type reads after the size.
unfoldable pub read_base : Bytes → PackObjectType → ℕ → ObjectResult (PackObjectType × ℕ)
read_base buf (base t) pos = ok (base t, pos)
read_base buf (offset_delta base_offset_neg) pos = do
  rest ← ok_or (get_range buf pos (length buf)) (pack corrupt_pack_file)
  (bytes_read, offset) ← read_delta_offset rest
  ok (offset_delta offset, pos + bytes_read)
read_base buf (ref_delta base_id) pos = do
  bytes ← ok_or (get_range buf pos (pos + 20)) (pack corrupt_pack_file)
  ok (ref_delta (record { bytes = bytes }), pos + 20)

unfoldable pub parse_object_header : Bytes → ObjectResult (PackObjectType × ℕ × ℕ)
parse_object_header buf = do
  (pos, object_type, obj_size) ← read_obj_type_size buf
  (object_type', pos') ← read_base buf object_type pos
  ok (object_type', obj_size, pos')
