-- ===== src/Lib.antt =====
-- webgit is a Git repository viewer that runs in the browser. It fetches the objects of a bare
-- repository over HTTP with range requests, and does what a Git client does on them. The `gib-`
-- crates under crates/ hold that client: gib-hash names objects, gib-object parses them, gib-pack
-- reads them out of packfiles, gib-odb looks them up over all packs, gib-commitgraph reads the
-- commit-graph file, gib-fs reads files page by page through a cache, gib-bundle writes a bundle
-- for download and reads one back. This library models the crates that have logic of their own.
--
-- Files:
--   Base and Base/: names passed on, Boolean tests, lists measured by native numbers, masks on bytes,
--     and `Outcome`, the result of a fallible function: `ok`, `err`, `panic` for what Rust stops
--     on, `stuck` for a loop of the model that ran out of fuel.
--   Hash and Hash/: crates/gib-hash/src/lib.rs. `from_hex` reads an abbreviated name nibble by
--     nibble (`put_nibbles`), `first`, `last`, `compare` and `matches` are the range of names it
--     stands for, `merge` joins what two packs found.
--   Object and Object/: crates/gib-object/src/lib.rs, the object types, and `compute_id`; tree.rs,
--     the entries of a tree as its parser leaves them.
--   Diff and Diff/: crates/gib-diff/src/lib.rs, `tree_diff_impl` with its debug assertions, over a
--     lookup of objects and answers of `cancel` that are parameters, and `entry_name_cmp`.
--   Pack/Header and Pack/Header/: crates/gib-pack/src/pack.rs, `parse_object_header` with
--     `read_obj_type_size`, `read_delta_offset` and `read_delta_expected_size`.
--   Pack/Delta and Pack/Delta/: crates/gib-pack/src/pack.rs, `apply_delta`, one function for each
--     arm of its loop, over a buffer with a capacity that doubles and is below 2^31.
--   Pack/Chain and Pack/Chain/: crates/gib-pack/src/pack.rs, `form_deltified_chain`,
--     `read_pack_object_body`, `reconstruct_deltified_object_from_chain` and the cache of bases.
--     Chain/Stands says what object stands at an offset, by the format alone.
--   Pack/Index and Pack/Index/: crates/gib-pack/src/index.rs, the fanout table, the interpolation
--     search `partition_bucket`, lookup, expansion of abbreviations, and the tables of offsets.
--   Odb and Odb/: crates/gib-odb/src/lib.rs and cache.rs, the manifest of packs, the cache of
--     indexes, `resolve_prefix` and `find_packed_object` over all packs.
--   Fs: crates/gib-fs/src/lib.rs, the traits `File` and `Directory` as records of functions.
--   Fs/Lru and Fs/Lru/: crates/gib-fs/src/lru.rs, `ByteLru`, and the list of items that it
--     stands for.
--   Fs/Pages and Fs/Pages/: crates/gib-fs/src/page_read.rs, `CachingPageReader`. A read is a task;
--     Pages/System has the steps that it takes from one await to the next, in any order with those
--     of other reads, cancelled at any await, over a file that may fail at any read.
--   Bundle/Header and Bundle/Header/: crates/gib-bundle/src/writer.rs, `write_pack_header` and
--     `write_base_distance`.
--   Bundle/Window and Bundle/Window/: crates/gib-bundle/src/writer.rs, `best_delta` and `remember`.
--   Bundle/Writer: crates/gib-bundle/src/writer.rs, the pack. A writer is a record of the state, and
--     `append` the next state, or an error.
--   Bundle/Reader and Bundle/Reader/: crates/gib-bundle/src/reader.rs, `verify_pack`, `read_object`
--     and the window of bases, `keep`, over a store that is a record of functions.
--   Bundle/Lines and Bundle/Lines/: crates/gib-bundle/src/writer.rs and reader.rs, the lines in front
--     of the pack: `BundleWriter::new`, `read_header` and `read_bundle`.
--   Bundle/RoundTrip and Bundle/RoundTrip/: the writer and the reader together. zlib, SHA-1, the
--     deltas and the store are parameters, with what they promise in Bundle/Reader/Laws.
--   Attributes/Bracket and Attributes/Wildmatch: crates/gib-attributes/src/wildmatch.rs, `dowild` in
--     the steps of its loop. Wildmatch/Glob has the relation that the matcher is compared with.
--   CommitGraph and CommitGraph/: crates/gib-commitgraph/src/lib.rs and bloom.rs, opening the graph,
--     lookups by binary search, parents, and the Bloom filters of changed paths. Filters says
--     how git fills a filter, which no crate here does, apart from the code that reads one.
--   The Examples modules run the definitions and apply the theorems at concrete inputs.
--
-- Bytes are numbers below 256 in a list, `usize` is the 32-bit word of wasm32, the only target.
-- Release builds wrap on overflow and mask the distance of a shift; where a sum can wrap the
-- remainder is written out. `apply_delta` runs its loop on fuel, the length of the delta: each
-- round takes at least one byte off it. The loops of the header writers recurse on accessibility of
-- `<`, since each round divides what is left by 128. The searches of a pack index and of a
-- commit-graph run on fuel, the length of the range, since each probe leaves less of it. The list
-- of a merge's further parents is read on fuel 2^32, one for each index of 32 bits. The walk of two
-- trees takes one round of the inner loop for each entry, and one of the outer loop for each pair
-- of trees on the stack, which a caller's fuel bounds. The walk of a chain of deltas and the loop
-- that inflates a body run on fuel that a caller gives, since a malformed pack can keep either
-- going. Evictions recurse on the ages that are left. The matcher of patterns turns once more than
-- the pattern has bytes, and its star once more than the text has; a bracket takes at least one
-- byte a turn. The search for a missing page and for the end of a run turn at most once for each
-- byte up to the last page.
--
-- Not modelled: whatever waits on the network or on IndexedDB, the Leptos views under src/, the
-- crates that wrap C code (gib-xdiff, gib-diff-delta), the parsers written with nom, and zlib; the
-- walk of gib-bundle that collects the objects of a bundle, and in gib-odb the loose objects and
-- the lookup that chooses between them and the packs; the crates gib-ref, gib-mailmap, gib-patch,
-- gib-blame, gib-log, gib-archive and the facade gib; and the files of attributes in
-- gib-attributes.
pub mod Attributes
pub mod Base
pub mod Bundle
pub mod CommitGraph
pub mod Diff
pub mod Fs
pub mod Hash
pub mod Object
pub mod Odb
pub mod Pack
