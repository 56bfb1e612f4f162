-- ===== src/Odb/Examples.antt =====
-- Runs over packs, and the theorems at concrete inputs.
use webgit.Base.{arith, ◌≡◌, ◌↔◌, refl, none, some, ok, err, [], ◌∷◌, map, replicate, All}
use webgit.Fs.{Directory}
use webgit.Hash.{ObjectIdPrefix, PrefixResolution, from_hex, put_nibbles, put_nibble, to_digit}
use webgit.Hash.FromHex.{from_hex-IsPrefix}
use webgit.Pack.Index.{total_objects}
use webgit.Pack.Index.Sample.{named, entries, fanout, file, sample-IsIndex}
use webgit.Odb.{PackIndex, OdbError, parse_info_packs, split_lines, parse_line, parse_lines}
use webgit.Odb.{
  resolve_prefix, find_packed_object, annotate, validate_packfile_version, load_within,
  load_indexes, new_index_cache, from_pack, from_file_system,
}
use webgit.Pack.{PackError, PackObjectError}
use webgit.Pack.Index.{load_fanout, is_magic, be_words, be_loop}
use webgit.Fs.{filled}
use webgit.Hash.{cmp_bytes}
use webgit.Odb.Names.{manifest, parse_info_packs-manifest}
use webgit.Odb.Names.{named as pack_named}
use webgit.Odb.Resolve.{InPacks, IsPack, Stands, resolve_prefix-Stands}
use webgit.Odb.Lookup.{find_packed_object-none}

abbrev pack_dir : Directory
pack_dir = record { open_file = λ name. ok file }

abbrev pack_a : PackIndex
pack_a = record { name = pack_named (b'a' ∷ []); fanout = fanout; offsets = none }

abbrev pack_b : PackIndex
pack_b = record { name = pack_named (b'b' ∷ []); fanout = fanout; offsets = none }

both-IsPack : All (IsPack pack_dir) (pack_a ∷ pack_b ∷ [])
unfolding total_objects
both-IsPack = ((file, entries, refl, sample-IsIndex), ((file, entries, refl, sample-IsIndex), tt))

abbrev short : ObjectIdPrefix
short = record { bytes = 1 ∷ 5 ∷ replicate 18 0; nibbles = 4 }

reads_short : from_hex (b'0' ∷ b'1' ∷ b'0' ∷ b'5' ∷ []) ≡ some short
unfolding from_hex put_nibbles put_nibble to_digit
reads_short = refl

resolve_prefix-Stands_example :
    (r : PrefixResolution) × (resolve_prefix pack_dir (pack_a ∷ pack_b ∷ []) short ≡ ok r)
    × Stands (InPacks pack_dir (pack_a ∷ pack_b ∷ [])) short r
resolve_prefix-Stands_example =
    resolve_prefix-Stands pack_dir (pack_a ∷ pack_b ∷ []) short
      (from_hex-IsPrefix (b'0' ∷ b'1' ∷ b'0' ∷ b'5' ∷ []) short reads_short) (omega arith)
      both-IsPack

find_packed_object-none_example :
    (find_packed_object pack_dir (pack_a ∷ pack_b ∷ []) (named 6) ≡ ok none)
    ↔ (InPacks pack_dir (pack_a ∷ pack_b ∷ []) (named 6) → ⊥)
find_packed_object-none_example =
    find_packed_object-none pack_dir (pack_a ∷ pack_b ∷ []) (named 6) (omega arith) both-IsPack

garbage : parse_info_packs (b'g' ∷ b'a' ∷ b'\n' ∷ []) ≡ err OdbError.malformed_info_packs
unfolding parse_info_packs split_lines parse_lines parse_line
garbage = refl

parse_info_packs-manifest_example :
    parse_info_packs (manifest ((b'x' ∷ []) ∷ (b'y' ∷ []) ∷ []))
    ≡ ok (map pack_named ((b'x' ∷ []) ∷ (b'y' ∷ []) ∷ []))
parse_info_packs-manifest_example =
    parse_info_packs-manifest ((b'x' ∷ []) ∷ (b'y' ∷ []) ∷ []) ((refl, tt), ((refl, tt), tt))

program : Unit {0}
unfolding annotate validate_packfile_version load_within load_indexes new_index_cache load_fanout
    is_magic be_words be_loop filled cmp_bytes total_objects from_pack from_file_system
program = tt

empty_pack : validate_packfile_version file ≡ err PackError.unsupported_pack_version
unfolding program
empty_pack = refl

not_an_index :
    new_index_cache pack_dir (pack_a.name ∷ []) 100
    ≡ err (OdbError.pack PackError.unsupported_index_version)
unfolding program
not_an_index = refl

annotates : annotate (named 2) PackObjectError.malformed_delta ≡ OdbError.malformed_delta (named 2)
unfolding program
annotates = refl
