-- ===== src/Pack/Index.antt =====
-- crates/gib-pack/src/index.rs: the search of a pack's index.
-- A file that is read is a value: what the reads do to the page cache stands in Fs.
pub mod Probe
pub mod Find
pub mod Sample
mod Examples
pub mod Offsets
pub mod Expand
use webgit.Base.{ℕ, zero, suc, ◌+◌, ◌-◌, ◌*◌, ◌/◌, ◌%◌, ◌^◌, min, Bytes, length, get_or, get_range}
use webgit.Base.{take, drop, List, [], ◌∷◌, Bool, true, false, ◌&&◌, Option, none, some}
use webgit.Base.{leb}
use webgit.Base.{ltb, ◌==◌, if◌then◌else◌, ok, err, panic, stuck, ok_or, unwrap, ◌>>=◌}
use webgit.Fs.{or_err, File, filled}
use webgit.Hash.{ObjectId, ObjectIdPrefix, cmp_bytes, eq_id, first_byte, first, compare, matches}
use webgit.Hash.{PrefixResolution}
use webgit.Pack.{PackError, PackResult}
use Prim.Native.Nat.{Ordering}

-- `u32::from_be_bytes`, `u64::from_be_bytes`
unfoldable pub be_loop : ℕ → Bytes → ℕ
be_loop n [] = n
be_loop n (b ∷ bs) = be_loop (n * 256 + b) bs

abbrev pub from_be_bytes : Bytes → ℕ
from_be_bytes bs = be_loop 0 bs

pub record FanoutTable : Type 0 where
  pub fanout : List ℕ

-- `chunks(4)`, over the entries of the table that is filled.
unfoldable pub be_words : ℕ → Bytes → List ℕ
be_words zero bs = []
be_words (suc n) bs = from_be_bytes (take 4 bs) ∷ be_words n (drop 4 bs)

unfoldable pub is_magic : Bytes → Bool
is_magic bs = elim (cmp_bytes (take 8 bs) (0xff ∷ b't' ∷ b'O' ∷ b'c' ∷ 0 ∷ 0 ∷ 0 ∷ 2 ∷ [])) [
  | Ordering.lt ↦ false
  | Ordering.eq ↦ true
  | Ordering.gt ↦ false
]

unfoldable pub load_fanout : File → PackResult FanoutTable
load_fanout file = do
  buf ← or_err (file.read_segment 0 1032) PackError.file_system
  if length buf == 1032
      then if is_magic buf
        then ok (record { fanout = be_words 256 (drop 8 buf) })
        else err PackError.unsupported_index_version
      else err PackError.corrupt_index_file

unfoldable pub entry : FanoutTable → ℕ → ℕ
entry f prefix = get_or f.fanout prefix 0

unfoldable pub total_objects : FanoutTable → ℕ
total_objects f = get_or f.fanout 255 0

pub record ShortOffsetTable : Type 0 where
  pub table : Bytes

pub offset_of_table : ℕ → ℕ
offset_of_table total = 1032 + total * 20 + total * 4

pub read_table : File → ℕ → ℕ → PackResult ShortOffsetTable
read_table file offset table_size = do
  read ← or_err (file.read_segment offset table_size) PackError.file_system
  if ltb (length read) table_size
      then err PackError.corrupt_index_file
      else ok (record { table = filled table_size read })

-- `total * 4` is a `usize`; a table past `isize::MAX` bytes panics.
pub load_offsets : File → ℕ → PackResult ShortOffsetTable
load_offsets file total =
    if leb (2 ^ 31) (total * 4 % 2 ^ 32)
    then panic
    else read_table file (offset_of_table total) (total * 4 % 2 ^ 32)

-- A slice out of range panics.
pub offset_entry : ShortOffsetTable → ℕ → PackResult ℕ
offset_entry offsets i = do
  bytes ← unwrap (get_range offsets.table (i * 4 % 2 ^ 32) ((i + 1) % 2 ^ 32 * 4 % 2 ^ 32))
  ok (from_be_bytes bytes)

pub read_object_id : File → ℕ → PackResult ObjectId
read_object_id file i = do
  read ← or_err (file.read_segment (1032 + i * 20) 20) PackError.file_system
  ok (record { bytes = filled 20 read })

pub position_key : ObjectId → ℕ
position_key id = from_be_bytes (take 8 (drop 1 id.bytes))

-- What the search knows: the range left, the keys outside of it, and how often it probed.
pub record Search : Type 0 where
  pub lower_idx : ℕ
  pub upper_idx : ℕ
  pub lower_key : ℕ
  pub upper_key : ℕ
  pub probes : ℕ

pub mid_idx : ℕ → Search → ℕ
mid_idx target_key s =
    if ltb s.probes 4 && ltb s.lower_key s.upper_key
    then (let span = s.upper_idx - s.lower_idx in
        let guess = span * (target_key - s.lower_key) / (s.upper_key - s.lower_key) in
        s.lower_idx + min guess (span - 1))
    else (s.lower_idx + s.upper_idx) / 2

pub narrow : Search → ℕ → ObjectId → Bool → Search
narrow s mid id true = record {
  lower_idx = mid + 1;
  upper_idx = s.upper_idx;
  lower_key = position_key id;
  upper_key = s.upper_key;
  probes = s.probes + 1;
}
narrow s mid id false = record {
  lower_idx = s.lower_idx;
  upper_idx = mid;
  lower_key = s.lower_key;
  upper_key = position_key id;
  probes = s.probes + 1;
}

-- `while lower_idx < upper_idx`, on fuel.
pub probe_loop : ℕ → File → ℕ → (ObjectId → Bool) → Search → PackResult ℕ
probe_loop zero file target_key before s =
    if ltb s.lower_idx s.upper_idx then stuck else ok s.lower_idx
probe_loop (suc fuel) file target_key before s = elim (ltb s.lower_idx s.upper_idx) [
  | false ↦ ok s.lower_idx
  | true ↦ do
    let mid = mid_idx target_key s
    id ← read_object_id file mid
    probe_loop fuel file target_key before (narrow s mid id (before id))
]

-- Each round leaves less of the range, so its length is enough fuel.
pub partition_bucket : File → ℕ → ℕ → ObjectId → (ObjectId → Bool) → PackResult ℕ
partition_bucket file lower upper target before =
    probe_loop (upper - lower) file (position_key target) before (record {
      lower_idx = lower;
      upper_idx = upper;
      lower_key = 0;
      upper_key = 2 ^ 64;
      probes = 0;
    })

pub fanout_bucket : FanoutTable → ℕ → ℕ × ℕ
fanout_bucket f first_byte =
    ((if first_byte == 0 then 0 else entry f (first_byte - 1)), entry f first_byte)

pub is_lt : Ordering → Bool
is_lt Ordering.lt = true
is_lt Ordering.eq = false
is_lt Ordering.gt = false

pub find_object_idx : FanoutTable → File → ObjectId → PackResult (Option ℕ)
find_object_idx f file id = do
  let (lower, upper) = fanout_bucket f (get_or id.bytes 0 0)
  i ← partition_bucket file lower upper id (λ entry. is_lt (cmp_bytes entry.bytes id.bytes))
  if ltb i upper
      then (do entry ← read_object_id file i; ok (if eq_id entry id then some i else none))
      else ok none

pub short_offset : Option ShortOffsetTable → File → ℕ → ℕ → PackResult ℕ
short_offset (some offsets) file i total = offset_entry offsets i
short_offset none file i total = do
  read ← or_err (file.read_segment (offset_of_table total + i * 4) 4) PackError.file_system
  ok (from_be_bytes (filled 4 read))

-- `& 0x8000_0000` and `& 0x7fff_ffff` on a word of 32 bits.
pub get_obj_packfile_offset : Option ShortOffsetTable → File → ℕ → ℕ → PackResult ℕ
get_obj_packfile_offset offsets file i total = do
  short ← short_offset offsets file i total
  if ltb 0x7fffffff short
      then (do
        let long_table = offset_of_table total + 4 * total
        read ←
            or_err (file.read_segment (long_table + 8 * (short % 2 ^ 31)) 8) PackError.file_system
        ok (from_be_bytes (filled 8 read)))
      else ok short

unfoldable pub find_object_in_pack_index :
    FanoutTable → Option ShortOffsetTable → File → ObjectId → PackResult (Option ℕ)
find_object_in_pack_index f offsets file id = do
  at ← find_object_idx f file id
  elim at [
    | none ↦ ok none
    | some i ↦ do
      offset ← get_obj_packfile_offset offsets file i (total_objects f)
      ok (some offset)
  ]

-- A further match must be the very next entry.
pub settle : File → ObjectIdPrefix → ℕ → ℕ → ObjectId → PackResult PrefixResolution
settle file prefix i upper candidate =
    if ltb (i + 1) upper
    then (do
      next ← read_object_id file (i + 1)
      ok (
          if matches prefix next
          then PrefixResolution.ambiguous
          else PrefixResolution.found candidate))
    else ok (PrefixResolution.found candidate)

pub find_prefix_in_pack_index : FanoutTable → File → ObjectIdPrefix → PackResult PrefixResolution
find_prefix_in_pack_index f file prefix = do
  let (lower, upper) = fanout_bucket f (first_byte prefix)
  i ← partition_bucket file lower upper (first prefix) (λ entry. is_lt (compare prefix entry))
  if ltb i upper
      then (do
        candidate ← read_object_id file i
        if matches prefix candidate
            then settle file prefix i upper candidate
            else ok PrefixResolution.not_found)
      else ok PrefixResolution.not_found
