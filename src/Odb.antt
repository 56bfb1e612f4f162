-- ===== src/Odb.antt =====
-- crates/gib-odb/src: finding an object over all packs of a repository.
pub mod Names
pub mod Resolve
pub mod Lookup
mod Examples
use webgit.Base.{ℕ, suc, ◌+◌, ◌-◌, ◌%◌, ◌/◌, ◌^◌, Bytes, length, take, drop, List, [], ◌∷◌, ◌++◌}
use webgit.Base.{Bool, true, false, ◌&&◌, Option, none, some, leb, ltb, ◌==◌, if◌then◌else◌}
use webgit.Base.{Outcome, ok, err, panic, stuck, ok_or, ◌>>=◌}
use webgit.Base.{eq_bytes}
use webgit.Fs.{or_err, File, Directory, FileSystemError, filled}
use webgit.Hash.{ObjectId, ObjectIdPrefix, PrefixResolution, merge}
use webgit.Pack.{PackError, PackObjectError, PackResult}
use webgit.Pack.Index.{FanoutTable, ShortOffsetTable, load_fanout, load_offsets, total_objects}
use webgit.Pack.Index.{find_prefix_in_pack_index, find_object_in_pack_index}

-- The status of a failed inflation is a number.
pub data OdbError : Type 0 where
  file_system : FileSystemError → OdbError
  pack : PackError → OdbError
  malformed_info_packs : OdbError
  malformed_pack_object : ObjectId → OdbError
  malformed_delta : ObjectId → OdbError
  malformed_object : ObjectId → OdbError
  object_too_large : ObjectId → OdbError
  pack_object_decompress_error : ObjectId → ℕ → OdbError
  loose_object_decompress_error : ObjectId → ℕ → OdbError

abbrev OdbResult {ℓ} : Type ℓ → Type ℓ
OdbResult A = Outcome OdbError A

-- The conversions that `?` applies to an error.
pub from_pack {ℓ} : {A : Type ℓ} → PackResult A → OdbResult A
from_pack (ok a) = ok a
from_pack (err e) = err (OdbError.pack e)
from_pack panic = panic
from_pack stuck = stuck

pub from_file_system {ℓ} : {A : Type ℓ} → Outcome FileSystemError A → OdbResult A
from_file_system (ok a) = ok a
from_file_system (err e) = err (OdbError.file_system e)
from_file_system panic = panic
from_file_system stuck = stuck

pub annotate : ObjectId → PackObjectError → OdbError
annotate id (PackObjectError.pack error) = OdbError.pack error
annotate id PackObjectError.malformed_object = OdbError.malformed_pack_object id
annotate id PackObjectError.object_too_large = OdbError.object_too_large id
annotate id PackObjectError.malformed_delta = OdbError.malformed_delta id
annotate id (PackObjectError.decompress status) = OdbError.pack_object_decompress_error id status

pub record PackName : Type 0 where
  pub index_filename : Bytes
  pub pack_filename : Bytes

-- `strip_suffix` and `strip_prefix` of the standard library.
abbrev pub strip_suffix : Bytes → Bytes → Option Bytes
strip_suffix name suffix =
    if leb (length suffix) (length name)
      && eq_bytes (drop (length name - length suffix) name) suffix
    then some (take (length name - length suffix) name)
    else none

abbrev strip_prefix : Bytes → Bytes → Option Bytes
strip_prefix name [] = some name
strip_prefix [] (p ∷ ps) = none
strip_prefix (n ∷ ns) (p ∷ ps) = if n == p then strip_prefix ns ps else none

abbrev pub dot_idx : Bytes
dot_idx = b'.' ∷ b'i' ∷ b'd' ∷ b'x' ∷ []

abbrev pub dot_pack : Bytes
dot_pack = b'.' ∷ b'p' ∷ b'a' ∷ b'c' ∷ b'k' ∷ []

unfoldable pub new : Bytes → Option PackName
new filename = elim (strip_suffix filename dot_idx) [
  | none ↦ none
  | some stripped ↦
      some (record { index_filename = filename; pack_filename = stripped ++ dot_pack })
]

pub from_pack_filename : Bytes → Option PackName
from_pack_filename filename = elim (strip_suffix filename dot_pack) [
  | none ↦ none
  | some stripped ↦ some (record { index_filename = stripped ++ dot_idx; pack_filename = filename })
]

-- `data.split(|&b| b == b'\n')`: the line that is read, and the lines behind it.
pub split_lines : Bytes → Bytes × List Bytes
split_lines [] = ([], [])
split_lines (b ∷ bs) =
    let (line, lines) = split_lines bs in
    if b == b'\n' then ([], line ∷ lines) else (b ∷ line, lines)

pub parse_line : Bytes → OdbResult PackName
parse_line line = do
  name ← ok_or (strip_prefix line (b'P' ∷ b' ' ∷ [])) OdbError.malformed_info_packs
  ok_or (from_pack_filename name) OdbError.malformed_info_packs

pub parse_lines : List Bytes → OdbResult (List PackName)
parse_lines [] = ok []
parse_lines ([] ∷ lines) = parse_lines lines
parse_lines ((b ∷ bs) ∷ lines) = do
  name ← parse_line (b ∷ bs)
  names ← parse_lines lines
  ok (name ∷ names)

pub parse_info_packs : Bytes → OdbResult (List PackName)
parse_info_packs data' = (let (line, lines) = split_lines data' in parse_lines (line ∷ lines))

pub record PackIndex : Type 0 where
  pub name : PackName
  pub fanout : FanoutTable
  pub offsets : Option ShortOffsetTable

-- `validate_packfile_version` of crates/gib-pack/src/pack.rs
pub validate_packfile_version : File → PackResult (Unit {0})
validate_packfile_version file = do
  read ← or_err (file.read_segment 0 8) PackError.file_system
  if eq_bytes (filled 8 read) (b'P' ∷ b'A' ∷ b'C' ∷ b'K' ∷ 0 ∷ 0 ∷ 0 ∷ 2 ∷ [])
      then ok tt
      else err PackError.unsupported_pack_version

-- Whether the table of offsets is loaded, and how many objects the loaded tables then hold.
pub load_within : ℕ → ℕ → File → FanoutTable → OdbResult (Option ShortOffsetTable × ℕ)
load_within max_objects held file fanout =
    if ltb ((held + total_objects fanout) % 2 ^ 32) max_objects
    then (do
      table ← from_pack (load_offsets file (total_objects fanout))
      ok (some table, (held + total_objects fanout) % 2 ^ 32))
    else ok (none, held)

pub load_indexes : ℕ → ℕ → Directory → List PackName → OdbResult (List PackIndex)
load_indexes max_objects held pack_dir [] = ok []
load_indexes max_objects held pack_dir (name ∷ names) = do
  file ← from_file_system (pack_dir.open_file name.index_filename)
  fanout ← from_pack (load_fanout file)
  (offsets, held') ← load_within max_objects held file fanout
  pack_file ← from_file_system (pack_dir.open_file name.pack_filename)
  valid ← from_pack (validate_packfile_version pack_file)
  indexes ← load_indexes max_objects held' pack_dir names
  ok (record { name = name; fanout = fanout; offsets = offsets } ∷ indexes)

-- `IndexCache::new`
pub new_index_cache : Directory → List PackName → ℕ → OdbResult (List PackIndex)
new_index_cache pack_dir pack_ids index_offset_cache_max =
    load_indexes (index_offset_cache_max / 4) 0 pack_dir pack_ids

pub is_ambiguous : PrefixResolution → Bool
is_ambiguous PrefixResolution.ambiguous = true
is_ambiguous _ = false

pub resolve_loop :
    Directory → ObjectIdPrefix → PrefixResolution → List PackIndex → OdbResult PrefixResolution
resolve_loop pack_dir prefix resolution [] = ok resolution
resolve_loop pack_dir prefix resolution (index ∷ indexes) = do
  file ← from_file_system (pack_dir.open_file index.name.index_filename)
  other ← from_pack (find_prefix_in_pack_index index.fanout file prefix)
  if is_ambiguous (merge resolution other)
      then ok (merge resolution other)
      else resolve_loop pack_dir prefix (merge resolution other) indexes

pub resolve_prefix : Directory → List PackIndex → ObjectIdPrefix → OdbResult PrefixResolution
resolve_prefix pack_dir indexes prefix =
    resolve_loop pack_dir prefix PrefixResolution.not_found indexes

-- The pack that an object was found in, by its number, and the object's offset. The readers that
-- the code opens on the pack are made from these.
pub find_packed_loop :
    Directory → ObjectId → ℕ → List PackIndex → OdbResult (Option (ℕ × PackIndex × ℕ))
find_packed_loop pack_dir id pack_number [] = ok none
find_packed_loop pack_dir id pack_number (index ∷ indexes) = do
  file ← from_file_system (pack_dir.open_file index.name.index_filename)
  at ← from_pack (find_object_in_pack_index index.fanout index.offsets file id)
  elim at [
    | some offset ↦ do
      pack_file ← from_file_system (pack_dir.open_file index.name.pack_filename)
      ok (some (pack_number, index, offset))
    | none ↦ find_packed_loop pack_dir id (suc pack_number) indexes
  ]

pub find_packed_object :
    Directory → List PackIndex → ObjectId → OdbResult (Option (ℕ × PackIndex × ℕ))
find_packed_object pack_dir indexes id = find_packed_loop pack_dir id 0 indexes
