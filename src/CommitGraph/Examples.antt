-- ===== src/CommitGraph/Examples.antt =====
-- Runs of the commit-graph reader, and the theorems at concrete inputs.
use webgit.Base.{ℕ, ◌≡◌, refl, true, false, [], ◌∷◌}
use webgit.Base.{
  zero, suc, ◌≤◌, arith, IsByte, get_or, replicate, Option, none, some, ok, err, Returns,
}
use webgit.Fs.{filled, FileSystemError}
use webgit.Hash.{cmp_bytes}
use webgit.Pack.Index.{entry, be_loop, be_words}
use webgit.Pack.Index.Sample.{
  named, entries, fanout, contents, file, below_three, ascending, bucket, entry_replicate,
}
use webgit.CommitGraph.{
  CommitGraph, read_array, read_vec, from_file_system, open_graph, open_file_in, check_header,
  read_graph, read_bloom, read_chunks, note_chunk,
}
use webgit.CommitGraph.Lookup.{
  commit_data, oid_at, read_parents, read_extra_edges, edges_loop, changed_path_filter, read_filter,
  lookup, record_of, all_records, records_loop, read_whole, reader, position_of, position_loop,
  path_unchanged,
}
use webgit.CommitGraph.Position.{IsGraph, LocatesIn, position_of-LocatesIn}
use webgit.CommitGraph.Edges.{read_extra_edges-Returns}
use webgit.CommitGraph.Filters.{
  add_paths, murmur_hash, text_hash, avalanche, mixed, scrambled, rotated, left, char_of,
}
use webgit.CommitGraph.Changed.{path_maybe_changed-add_paths}
use webgit.CommitGraph.Bloom.{
  BloomSettings, all_bits, bit_of, has_bit, path_maybe_changed, murmur3, widen, mix_key, mix_blocks,
  mix_tail, finish,
}

program : Unit {0}
unfolding all_bits bit_of has_bit path_maybe_changed commit_data oid_at read_array filled be_loop
    read_parents read_extra_edges edges_loop changed_path_filter read_filter read_vec lookup
    record_of all_records records_loop read_whole reader from_file_system position_of position_loop
    cmp_bytes path_unchanged open_graph open_file_in check_header read_graph read_bloom read_chunks
    note_chunk be_words murmur3 widen mix_key mix_blocks mix_tail finish
program = tt

-- The values that git's tests list for "Hello world!", and for "" with seed 0.
hello :
    murmur3 0
      (b'H' ∷ b'e' ∷ b'l' ∷ b'l' ∷ b'o' ∷ b' ' ∷ b'w' ∷ b'o' ∷ b'r' ∷ b'l' ∷ b'd' ∷ b'!' ∷ [])
      false
    ≡ 0x627b0c2c
unfolding program
hello = refl

-- The names of the sample index, as the table of names of a graph.
abbrev graph : CommitGraph
graph = record {
  info_dir = record { open_file = λ name. ok file };
  fanout = fanout.fanout;
  num_commits = 3;
  oidl_offset = 1032;
  cdat_offset = 0;
  edge_offset = some 1104;
  bidx_offset = none;
  bdat_offset = none;
  bloom = none;
  data_end = 1124;
}

ascends : (b c : ℕ) → b ≤ c → IsByte c → get_or graph.fanout b 0 ≤ get_or graph.fanout c 0
ascends zero c h k = omega arith
ascends (suc b) zero h k = absurd (omega arith)
ascends (suc b) (suc c) h k =
    omega (arith, entry_replicate 255 b (omega arith), entry_replicate 255 c (omega arith))

graph-IsGraph : IsGraph graph file entries
unfolding oid_at read_array filled entry
graph-IsGraph = record {
  range = record {
    reads = λ i l. below_three (λ i. oid_at graph file i ≡ ok (entries i)) refl refl refl i;
    sorted = λ i j hi. ascending i j;
  };
  starts = omega (arith, entry_replicate 255 254 (omega arith));
  ascends = ascends;
  below = bucket;
}

position_of-LocatesIn_example :
    (r : Option ℕ) × (position_of graph file (named 5) ≡ ok r)
    × LocatesIn graph file entries 0 graph.num_commits (named 5) r
position_of-LocatesIn_example =
    position_of-LocatesIn graph file entries (named 5) (omega arith) graph-IsGraph

read_extra_edges-Returns_example : Returns (read_extra_edges graph file 1)
read_extra_edges-Returns_example =
    read_extra_edges-Returns graph file contents 1104 1 (λ o n. refl) (omega arith) refl
      (omega arith) (omega arith)

abbrev settings : BloomSettings
settings = record { hash_version = 1; num_hashes = 7; bits_per_entry = 10 }

path_maybe_changed-add_paths_example :
    path_maybe_changed
      (add_paths (replicate 4 0) 1 7 ((b'a' ∷ []) ∷ (b'b' ∷ []) ∷ (b'c' ∷ []) ∷ []))
      settings
      (b'b' ∷ [])
    ≡ true
path_maybe_changed-add_paths_example =
    path_maybe_changed-add_paths ((b'a' ∷ []) ∷ []) ((b'c' ∷ []) ∷ []) (replicate 4 0) settings
      (b'b' ∷ []) (omega arith)

not_a_graph : open_graph (ok graph.info_dir) ≡ ok none
unfolding program
not_a_graph = refl

no_directory : open_graph (err FileSystemError.not_found) ≡ ok none
unfolding program
no_directory = refl

no_filters : path_unchanged graph 0 (b'a' ∷ []) ≡ ok false
unfolding program
no_filters = refl

not_in_graph : lookup graph (named 6) ≡ ok none
unfolding program
not_in_graph = refl

no_record : record_of graph (named 6) ≡ ok none
unfolding program
no_record = refl

-- Hashes that the tests of git expect of its own.
hello_world :
    murmur_hash false 0
      (b'H' ∷ b'e' ∷ b'l' ∷ b'l' ∷ b'o' ∷ b' ' ∷ b'w' ∷ b'o' ∷ b'r' ∷ b'l' ∷ b'd' ∷ b'!' ∷ [])
    ≡ 0x627b0c2c
unfolding murmur_hash text_hash avalanche mixed scrambled rotated left char_of
hello_world = refl

of_nothing : murmur_hash false 0 [] ≡ 0
unfolding murmur_hash text_hash avalanche
of_nothing = refl
