-- ===== src/Pack/Index/Examples.antt =====
-- Runs of the index search, and the theorems at concrete inputs.
use webgit.Base.{
  ℕ, arith, ◌≡◌, refl, true, Option, none, some, ok, err, panic, Returns, [], ◌∷◌, replicate,
}
use webgit.Fs.{filled}
use webgit.Hash.{
  IsId, ObjectIdPrefix, PrefixResolution, cmp_bytes, compare, matches, eq_id, first, first_byte,
  from_hex, put_nibbles, put_nibble, to_digit,
}
use webgit.Hash.Prefix.{IsPrefix}
use webgit.Hash.FromHex.{from_hex-IsPrefix}
use webgit.Pack.{PackError}
use webgit.Pack.Index.{
  ShortOffsetTable, find_object_idx, find_object_in_pack_index, find_prefix_in_pack_index,
  partition_bucket, load_offsets, read_table, load_fanout, offset_entry, is_lt, total_objects,
}
use webgit.Pack.Index.{
  fanout_bucket, entry, probe_loop, mid_idx, narrow, position_key, be_loop, read_object_id,
  get_obj_packfile_offset, short_offset, offset_of_table, settle, is_magic, be_words,
}
use webgit.Pack.Index.Probe.{Partition, partition_bucket-Partition, partition_bucket-Returns}
use webgit.Pack.Index.Find.{before, before-IsMonotone, Locates, find_object_idx-Locates}
use webgit.Pack.Index.Expand.{Expands, find_prefix_in_pack_index-Expands}
use webgit.Pack.Index.Offsets.{find_object_in_pack_index-loaded}
use webgit.Pack.Index.Sample.{named, entries, fanout, contents, file, sample-IsIndex}

program : Unit {0}
unfolding find_object_idx find_object_in_pack_index find_prefix_in_pack_index partition_bucket
    load_offsets read_table load_fanout offset_entry fanout_bucket entry probe_loop mid_idx narrow
    position_key be_loop read_object_id get_obj_packfile_offset short_offset offset_of_table settle
    is_magic be_words is_lt filled cmp_bytes compare matches eq_id first first_byte total_objects
    from_hex put_nibbles put_nibble to_digit
program = tt

finds_last : find_object_in_pack_index fanout none file (named 7) ≡ ok (some 56)
unfolding program
finds_last = refl

finds_nothing : find_object_in_pack_index fanout none file (named 6) ≡ ok none
unfolding program
finds_nothing = refl

-- "0105"
abbrev short : ObjectIdPrefix
short = record { bytes = 1 ∷ 5 ∷ replicate 18 0; nibbles = 4 }

expands : find_prefix_in_pack_index fanout file short ≡ ok (PrefixResolution.found (named 5))
unfolding program
expands = refl

no_magic : load_fanout file ≡ err PackError.unsupported_index_version
unfolding program
no_magic = refl

abbrev table : ShortOffsetTable
table = record { table = 0 ∷ 0 ∷ 0 ∷ 12 ∷ 0 ∷ 0 ∷ 0 ∷ 34 ∷ 128 ∷ 0 ∷ 0 ∷ 0 ∷ [] }

loads : load_offsets file 3 ≡ ok table
unfolding program
loads = refl

-- An entry past the end of the table panics.
past_the_table : offset_entry table 3 ≡ panic
unfolding program
past_the_table = refl

named_five-IsId : IsId (named 5)
named_five-IsId = omega arith

reads_short : from_hex (b'0' ∷ b'1' ∷ b'0' ∷ b'5' ∷ []) ≡ some short
unfolding program
reads_short = refl

short-IsPrefix : IsPrefix short
short-IsPrefix = from_hex-IsPrefix (b'0' ∷ b'1' ∷ b'0' ∷ b'5' ∷ []) short reads_short

partition_bucket-Partition_example :
    (k : ℕ) × (partition_bucket file 0 3 (named 5) (before fanout file entries 3 (named 5)) ≡ ok k)
    × Partition (before fanout file entries 3 (named 5)) entries 0 3 k
partition_bucket-Partition_example =
    partition_bucket-Partition file entries (before fanout file entries 3 (named 5)) 0 3 (named 5)
      (omega arith) sample-IsIndex.reads
      (before-IsMonotone fanout file entries 3 (named 5) 0 3 (omega arith) sample-IsIndex)

partition_bucket-Returns_example : Returns (partition_bucket file 3 9 (named 5) (λ id. true))
partition_bucket-Returns_example = partition_bucket-Returns file (λ id. true) 3 9 (named 5)

find_object_idx-Locates_example :
    (r : Option ℕ) × (find_object_idx fanout file (named 5) ≡ ok r)
    × Locates fanout file entries 3 (named 5) r
find_object_idx-Locates_example =
    find_object_idx-Locates fanout file entries 3 (named 5) named_five-IsId sample-IsIndex

find_prefix_in_pack_index-Expands_example :
    (r : PrefixResolution) × (find_prefix_in_pack_index fanout file short ≡ ok r)
    × Expands fanout file entries 3 short r
find_prefix_in_pack_index-Expands_example =
    find_prefix_in_pack_index-Expands fanout file entries 3 short short-IsPrefix (omega arith)
      sample-IsIndex

find_object_in_pack_index-loaded_example :
    find_object_in_pack_index fanout (some table) file (named 5)
    ≡ find_object_in_pack_index fanout none file (named 5)
unfolding total_objects
find_object_in_pack_index-loaded_example =
    find_object_in_pack_index-loaded fanout file contents entries (named 5) table (λ o n. refl)
      (omega arith) loads named_five-IsId sample-IsIndex
