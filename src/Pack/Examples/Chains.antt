-- ===== src/Pack/Examples/Chains.antt =====
-- Runs of the reading of a pack of two objects, the second a delta, and the theorems on it.
use webgit.Base.{
  ◌≡◌, refl, arith, Bytes, [], ◌∷◌, inr, take, drop, none, some, ok, err, panic, stuck,
}
use webgit.Object.{blob}
use webgit.Fs.{File, filled}
use webgit.Fs.Lru.{
  new, get, insert, remove, touch, next_tick, evict, evict_loop, add_entry, lookup, put, erase,
}
use webgit.Fs.Lru.Values.{new-Values}
use webgit.Pack.{ObjectResult}
use webgit.Pack.Header.{offset_delta}
use webgit.Pack.Chain.{
  Zlib, done, CachedBase, IndexedPackFile, Bases, key, chunk_size, read_pack_object_header,
  base_offset, cached_base, keep_base, next_offset, go_on, follow, chain_loop, form_deltified_chain,
  body_loop, read_pack_object_body, rebuild_loop, base_body,
  reconstruct_deltified_object_from_chain, read_object, from_pack_error,
}
use webgit.Pack.Chain.Stands.{Stands, IsObject}
use webgit.Pack.Chain.Whole.{IsBase, IsRight, read_object-Stands}
use webgit.Pack.Chain.Sound.{read_object-IsObject}
use webgit.Pack.Chain.Ends.{form_deltified_chain_stuck}
use webgit.Pack.Examples.{program}

chains : Unit {0}
unfolding program chunk_size read_pack_object_header base_offset cached_base keep_base next_offset
    go_on follow chain_loop form_deltified_chain body_loop read_pack_object_body rebuild_loop
    base_body reconstruct_deltified_object_from_chain read_object from_pack_error filled new get
    insert remove touch next_tick evict evict_loop add_entry lookup put erase
chains = tt

abbrev file_of : Bytes → File
file_of bytes = record { read_segment = λ offset len. inr (take len (drop offset bytes)) }

-- Bytes that are stored as they are.
abbrev plain : Zlib (Unit {0})
plain = record { fresh = tt; inflate = λ state input body size. (tt, done, size, take size input) }

abbrev pack_of : Bytes → IndexedPackFile
pack_of bytes = record {
  index = file_of [];
  fanout = record { fanout = [] };
  offsets = none;
  pack_file = file_of bytes;
  delta_bases = some 2;
}

-- A blob of three bytes, a delta four bytes behind it that copies it, and a byte.
abbrev copy : IndexedPackFile
copy = pack_of (0x33 ∷ 1 ∷ 2 ∷ 3 ∷ 0x64 ∷ 4 ∷ 3 ∷ 3 ∷ 0x90 ∷ 3 ∷ 0 ∷ [])

abbrev one_two_three : CachedBase
one_two_three = record { object_type = blob; body = 1 ∷ 2 ∷ 3 ∷ [] }

abbrev no_bases : Bases
no_bases = new 1000

stands : Stands plain 1 copy 1 4 one_two_three
unfolding chains
stands = (
  record { offset = 4; body_offset = 6; size = 4 },
  offset_delta 4,
  0,
  1 ∷ 2 ∷ 3 ∷ [],
  3 ∷ 3 ∷ 0x90 ∷ 3 ∷ [],
  refl,
  refl,
  refl,
  (record { offset = 0; body_offset = 1; size = 3 }, refl, refl),
  refl,
)

no_bases-IsRight : IsRight plain 1 copy no_bases
no_bases-IsRight = new-Values (IsBase plain 1 copy) 1000

read_object-Stands_example :
    (bases : Bases) × (read_object plain 1 2 copy no_bases 4 ≡ ok (bases, one_two_three))
read_object-Stands_example =
    read_object-Stands plain 1 copy 1 2 4 one_two_three no_bases stands (omega arith)
      no_bases-IsRight

abbrev bases_of : ObjectResult (Bases × CachedBase) → Bases
bases_of r = elim r [ ok x ↦ x.0 | err e ↦ no_bases | panic ↦ no_bases | stuck ↦ no_bases ]

-- The body of the blob is in the cache, under the third pack's number and the offset 0.
abbrev one_base : Bases
one_base = bases_of (read_object plain 1 2 copy no_bases 4)

kept : (get one_base (key 2 0)).0 ≡ some one_two_three
unfolding chains
kept = refl

read_once : read_object plain 1 2 copy no_bases 4 ≡ ok (one_base, one_two_three)
unfolding chains
read_once = refl

read_object-IsObject_example : IsRight plain 1 copy one_base × IsObject plain 1 copy 4 one_two_three
read_object-IsObject_example =
    read_object-IsObject plain 1 copy 2 4 no_bases one_base one_two_three no_bases-IsRight read_once

-- A delta against itself.
abbrev circle : IndexedPackFile
circle = pack_of (0x61 ∷ 0 ∷ 1 ∷ [])

circle_head :
    read_pack_object_header circle.pack_file 0
    ≡ ok (offset_delta 0, record { offset = 0; body_offset = 2; size = 1 })
unfolding chains
circle_head = refl

not_cached : (cached_base circle no_bases 0).0 ≡ none
unfolding chains
not_cached = refl

form_deltified_chain_stuck_example : form_deltified_chain 1000000 circle no_bases 0 ≡ stuck
form_deltified_chain_stuck_example =
    form_deltified_chain_stuck circle 0 (record { offset = 0; body_offset = 2; size = 1 })
      (omega arith) circle_head 1000000 no_bases not_cached
