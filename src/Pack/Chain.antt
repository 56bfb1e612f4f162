-- ===== src/Pack/Chain.antt =====
-- crates/gib-pack/src/pack.rs: an object of a pack, through the chain of deltas that it is stored as,
-- and the cache of the bodies that deltas are made against. What a failure leaves in the cache is
-- not modelled.
pub mod Stands
pub mod Sound
pub mod Whole
pub mod Ends
use webgit.Base.{
  ℕ, zero, suc, ◌+◌, ◌-◌, ◌*◌, ◌%◌, ◌^◌, min, max, Bytes, List, [], ◌∷◌, ◌++◌, length, drop,
}
use webgit.Base.{Bool, true, false, ltb, leb, if◌then◌else◌, Option, none, some}
use webgit.Base.{Outcome, ok, err, panic, stuck, ◌>>=◌, ok_or}
use webgit.Hash.{ObjectId}
use webgit.Object.{ObjectType}
use webgit.Fs.{File, or_err, filled}
use webgit.Fs.Lru.{ByteLru, get, insert}
use webgit.Pack.{
  ObjectResult, PackResult, PackError, PackObjectError, file_system, corrupt_pack_file,
  unexpected_thin_pack, pack, object_too_large, decompress,
}
use webgit.Pack.Header.{PackObjectType, base, offset_delta, ref_delta, parse_object_header}
use webgit.Pack.Delta.{apply_delta, with_capacity}
use webgit.Pack.Index.{FanoutTable, ShortOffsetTable, find_object_in_pack_index}

-- miniz's `decompress`: from the input and what is written so far of an output of that size, the
-- status, how much of the input it took, and what it adds.
pub data Status : Type 0 where
  done more : Status
  failed : ℕ → Status

pub record Zlib (Z : Type 0) : Type 0 where
  pub fresh : Z
  pub inflate : Z → Bytes → Bytes → ℕ → Z × Status × ℕ × Bytes

pub record PackObject : Type 0 where
  pub offset : ℕ
  pub body_offset : ℕ
  pub size : ℕ

pub record CachedBase : Type 0 where
  pub object_type : ObjectType
  pub body : Bytes

-- `delta_bases` is the number that the cache knows the pack by.
pub record IndexedPackFile : Type 0 where
  pub index : File
  pub fanout : FanoutTable
  pub offsets : Option ShortOffsetTable
  pub pack_file : File
  pub delta_bases : Option ℕ

pub data ChainBase : Type 0 where
  stored : ObjectType → PackObject → ChainBase
  cached : ObjectType → Bytes → ChainBase

abbrev pub base_type : ChainBase → ObjectType
base_type (stored object_type object) = object_type
base_type (cached object_type body) = object_type

abbrev pub max_object_header_len : ℕ
max_object_header_len = 30

-- The pair of the pack and the offset, a `u64`, as one number: the order of keys is the same.
abbrev pub key : ℕ → ℕ → ℕ
key number offset = number * 2 ^ 64 + offset

abbrev pub Bases : Type 0
Bases = ByteLru CachedBase

-- `map_err(PackObjectError::from)`
unfoldable pub from_pack_error {ℓ} : {A : Type ℓ} → PackResult A → ObjectResult A
from_pack_error (ok a) = ok a
from_pack_error (err e) = err (pack e)
from_pack_error panic = panic
from_pack_error stuck = stuck

unfoldable pub read_pack_object_header : File → ℕ → ObjectResult (PackObjectType × PackObject)
read_pack_object_header pack_file offset = do
  buf ← or_err (pack_file.read_segment offset max_object_header_len) (pack file_system)
  (object_type, size, pos) ← parse_object_header buf
  if leb (length buf) pos
      then err (pack corrupt_pack_file)
      else ok (
        object_type,
        record { offset = offset; body_offset = (offset + pos) % 2 ^ 64; size = size },
      )

-- The distance back to a base, on `u64`.
unfoldable pub base_offset : ℕ → ℕ → ℕ
base_offset offset base_offset_neg = (offset + 2 ^ 64 - base_offset_neg) % 2 ^ 64

abbrev pub max_body_read : ℕ
max_body_read = 2 ^ 20

unfoldable pub chunk_size : ℕ → ℕ
chunk_size object_size = max 512 (min (min (object_size + 64) (2 ^ 32 - 1)) max_body_read)

-- `bases.get`, where the pack has a number in the cache.
unfoldable pub cached_base : IndexedPackFile → Bases → ℕ → Option CachedBase × Bases
cached_base p bases offset = elim p.delta_bases [
  | none ↦ (none, bases)
  | some number ↦ get bases (key number offset)
]

-- `bases.insert`, where the body has an offset in the pack.
unfoldable pub keep_base : IndexedPackFile → Bases → Option ℕ → ObjectType → Bytes → Bases
keep_base p bases none object_type body = bases
keep_base p bases (some offset) object_type body = elim p.delta_bases [
  | none ↦ bases
  | some number ↦
      insert bases (key number offset) (record { object_type = object_type; body = body })
        (length body)
]

-- What the types of delta do to `offset`; `none` for an object that is stored whole.
unfoldable pub next_offset : IndexedPackFile → ℕ → PackObjectType → ObjectResult (Option ℕ)
next_offset p offset (offset_delta base_offset_neg) = ok (some (base_offset offset base_offset_neg))
next_offset p offset (ref_delta base_id) = do
  found ← from_pack_error (find_object_in_pack_index p.fanout p.offsets p.index base_id)
  at ← ok_or found (pack unexpected_thin_pack)
  ok (some at)
next_offset p offset (base object_type) = ok none

abbrev pub Chain : Type 0
Chain = Bases × List PackObject × ChainBase

-- The object is pushed, and the loop goes on with its base. The first case is not reached.
unfoldable pub go_on :
    (ℕ → List PackObject → ObjectResult Chain)
    → PackObject
    → List PackObject
    → Option ℕ
    → ObjectResult Chain
go_on next object chain none = stuck
go_on next object chain (some offset) = next offset (object ∷ chain)

-- What is done with a header: `next` is the loop.
unfoldable pub follow :
    (ℕ → List PackObject → ObjectResult Chain)
    → IndexedPackFile
    → Bases
    → ℕ
    → List PackObject
    → PackObjectType
    → PackObject
    → ObjectResult Chain
follow next p bases offset chain (base object_type) object =
    ok (bases, chain, stored object_type object)
follow next p bases offset chain object_type object = do
  at ← next_offset p offset object_type
  go_on next object chain at

-- The loop of `form_deltified_chain`. `chain` has the last object pushed in front.
unfoldable pub chain_loop : ℕ → IndexedPackFile → Bases → ℕ → List PackObject → ObjectResult Chain
chain_loop zero p bases offset chain = stuck
chain_loop (suc fuel) p bases offset chain =
    let (found, bases') = cached_base p bases offset in
    elim found [
      | some hit ↦ ok (bases', chain, cached hit.object_type hit.body)
      | none ↦ (do
        (object_type, object) ← read_pack_object_header p.pack_file offset
        follow (chain_loop fuel p bases') p bases' offset chain object_type object)
    ]

unfoldable pub form_deltified_chain : ℕ → IndexedPackFile → Bases → ℕ → ObjectResult Chain
form_deltified_chain fuel p bases start_offset = chain_loop fuel p bases start_offset []

module _ {Z : Type 0} (zlib : Zlib Z) (rounds : ℕ) where
  -- `buf` is the buffer of compressed bytes as the last read left it, and `body` what is written.
  unfoldable pub body_loop : ℕ → File → PackObject → Bytes → ℕ → Z → Bytes → ObjectResult Bytes
  body_loop zero pack_file object buf pos state body = stuck
  body_loop (suc fuel) pack_file object buf pos state body = do
    read ←
        or_err (pack_file.read_segment ((object.body_offset + pos) % 2 ^ 64) (length buf))
          (pack file_system)
    let buf' = read ++ drop (length read) buf
    let (state', status, input_read, output) = zlib.inflate state buf' body object.size
    elim status [
      | done ↦ ok (filled object.size (body ++ output))
      | more ↦ body_loop fuel pack_file object buf' (pos + input_read) state' (body ++ output)
      | failed s ↦ err (decompress s)
    ]

  unfoldable pub read_pack_object_body : File → PackObject → ObjectResult Bytes
  read_pack_object_body pack_file object =
      if leb (2 ^ 32) object.size then err object_too_large else do
        capacity ← with_capacity object.size
        body_loop rounds pack_file object (filled (chunk_size object.size) []) 0 zlib.fresh []

  unfoldable pub rebuild_loop :
      IndexedPackFile
      → Bases
      → ObjectType
      → List PackObject
      → Option ℕ
      → Bytes
      → ObjectResult (Bases × Bytes)
  rebuild_loop p bases object_type [] body_offset body = ok (bases, body)
  rebuild_loop p bases object_type (object ∷ chain) body_offset body = do
    delta ← read_pack_object_body p.pack_file object
    rebuilt ← apply_delta delta body
    rebuild_loop p (keep_base p bases body_offset object_type body) object_type chain
        (some object.offset) rebuilt

  unfoldable pub base_body : IndexedPackFile → ChainBase → ObjectResult (Option ℕ × Bytes)
  base_body p (stored object_type object) = do
    body ← read_pack_object_body p.pack_file object
    ok (some object.offset, body)
  base_body p (cached object_type body) = ok (none, body)

  unfoldable pub reconstruct_deltified_object_from_chain :
      IndexedPackFile → Bases → List PackObject → ChainBase → ObjectResult (Bases × Bytes)
  reconstruct_deltified_object_from_chain p bases chain from = do
    (body_offset, body) ← base_body p from
    rebuild_loop p bases (base_type from) chain body_offset body

  -- The calls that a lookup makes once it knows the offset.
  unfoldable pub read_object : ℕ → IndexedPackFile → Bases → ℕ → ObjectResult (Bases × CachedBase)
  read_object fuel p bases offset = do
    (bases', chain, from) ← form_deltified_chain fuel p bases offset
    (bases'', body) ← reconstruct_deltified_object_from_chain p bases' chain from
    ok (bases'', record { object_type = base_type from; body = body })
