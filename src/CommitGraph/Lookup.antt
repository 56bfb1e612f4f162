-- ===== src/CommitGraph/Lookup.antt =====
-- crates/gib-commitgraph/src/lib.rs: looking commits up in the graph.
use webgit.Base.{ℕ, zero, suc, ◌+◌, ◌-◌, ◌*◌, ◌/◌, ◌%◌, ◌^◌, Bytes, get_or, take, drop}
use webgit.Base.{List, [], ◌∷◌, Bool, true, false, not, Option, none, some, inl, inr}
use webgit.Base.{ltb, leb, ◌==◌, if◌then◌else◌, ok, err, panic, stuck, ok_or, ◌>>=◌}
use webgit.Fs.{File}
use webgit.Hash.{ObjectId, cmp_bytes}
use webgit.Pack.Index.{from_be_bytes}
use webgit.CommitGraph.{
  CommitGraph, CommitGraphEntry, CommitGraphError, GResult, graph_parent_none, has_extra_edges,
  position_mask, read_array, read_vec, from_file_system, commit_graph_name,
}
use webgit.CommitGraph.Bloom.{path_maybe_changed}
use Prim.Native.Nat.{Ordering}

unfoldable pub reader : CommitGraph → GResult File
reader g = from_file_system (g.info_dir.open_file commit_graph_name)

unfoldable pub oid_at : CommitGraph → File → ℕ → GResult ObjectId
oid_at g file pos = do
  buf ← read_array 20 file ((g.oidl_offset + pos * 20) % 2 ^ 64)
  ok (record { bytes = buf })

-- `while lower < upper`, on fuel.
unfoldable pub position_loop : ℕ → CommitGraph → File → ObjectId → ℕ → ℕ → GResult (Option ℕ)
position_loop zero g file id lower upper = if ltb lower upper then stuck else ok none
position_loop (suc fuel) g file id lower upper = elim (ltb lower upper) [
  | false ↦ ok none
  | true ↦ do
    let mid = (lower + upper) / 2
    oid ← oid_at g file mid
    elim (cmp_bytes oid.bytes id.bytes) [
      | Ordering.eq ↦ ok (some mid)
      | Ordering.lt ↦ position_loop fuel g file id (mid + 1) upper
      | Ordering.gt ↦ position_loop fuel g file id lower mid
    ]
]

-- Each round leaves less of the range, so its length is enough fuel.
unfoldable pub position_of : CommitGraph → File → ObjectId → GResult (Option ℕ)
position_of g file id =
    let first = get_or id.bytes 0 0 in
    let lower = if first == 0 then 0 else get_or g.fanout (first - 1) 0 in
    let upper = get_or g.fanout first 0 in position_loop (upper - lower) g file id lower upper

-- The loop of `read_extra_edges`, on fuel: the parents from `index` on.
unfoldable pub edges_loop : ℕ → CommitGraph → File → ℕ → ℕ → GResult (List ObjectId)
edges_loop zero g file edge_offset index = stuck
edges_loop (suc fuel) g file edge_offset index = do
  buf ← read_array 4 file ((edge_offset + index * 4) % 2 ^ 64)
  oid ← oid_at g file (position_mask (from_be_bytes buf))
  elim (has_extra_edges (from_be_bytes buf)) [
    | true ↦ ok (oid ∷ [])
    | false ↦ do oids ← edges_loop fuel g file edge_offset ((index + 1) % 2 ^ 32); ok (oid ∷ oids)
  ]

-- The index is a `u32`: from each position on there are less than 2^32 to read.
unfoldable pub read_extra_edges : CommitGraph → File → ℕ → GResult (List ObjectId)
read_extra_edges g file start = do
  edge_offset ← ok_or g.edge_offset CommitGraphError.corrupt
  edges_loop (2 ^ 32) g file edge_offset start

unfoldable pub read_parents : CommitGraph → File → ℕ → ℕ → GResult (List ObjectId)
read_parents g file parent1 parent2 = if parent1 == graph_parent_none then ok [] else (do
  first ← oid_at g file parent1
  rest ←
      (if parent2 == graph_parent_none
        then ok []
        else if has_extra_edges parent2
        then read_extra_edges g file (position_mask parent2)
        else (do second ← oid_at g file parent2; ok (second ∷ [])))
  ok (first ∷ rest))

unfoldable pub commit_data : CommitGraph → File → ℕ → GResult CommitGraphEntry
commit_data g file pos = do
  rec' ← read_array 36 file ((g.cdat_offset + pos * 36) % 2 ^ 64)
  let word0 = from_be_bytes (take 4 (drop 28 rec'))
  let word1 = from_be_bytes (take 4 (drop 32 rec'))
  parents ←
      read_parents g file (from_be_bytes (take 4 (drop 20 rec')))
        (from_be_bytes (take 4 (drop 24 rec')))
  ok (record {
    tree = record { bytes = take 20 rec' };
    parents = parents;
    commit_time = word0 % 4 * 2 ^ 32 + word1;
  })

unfoldable pub read_filter : File → ℕ → ℕ → ℕ → GResult (Option Bytes)
read_filter file bidx_offset bdat_offset pos = do
  end ← read_array 4 file ((bidx_offset + pos * 4) % 2 ^ 64)
  start ←
      (if pos == 0 then ok (0 ∷ []) else read_array 4 file ((bidx_offset + (pos - 1) * 4) % 2 ^ 64))
  if leb (from_be_bytes end) (from_be_bytes start) then ok none else (do
    filter ←
        read_vec file ((bdat_offset + 12 + from_be_bytes start) % 2 ^ 64)
          (from_be_bytes end - from_be_bytes start)
    ok (some filter))

unfoldable pub changed_path_filter : CommitGraph → File → ℕ → GResult (Option Bytes)
changed_path_filter g file pos = elim g.bidx_offset [
  | none ↦ ok none
  | some bidx_offset ↦ elim g.bdat_offset [
    | none ↦ ok none
    | some bdat_offset ↦ read_filter file bidx_offset bdat_offset pos
  ]
]

unfoldable pub lookup : CommitGraph → ObjectId → GResult (Option (ℕ × CommitGraphEntry))
lookup g id = do
  file ← reader g
  pos ← position_of g file id
  elim pos [ none ↦ ok none | some p ↦ do entry ← commit_data g file p; ok (some (p, entry)) ]

unfoldable pub path_unchanged : CommitGraph → ℕ → Bytes → GResult Bool
path_unchanged g pos path = elim g.bloom [
  | none ↦ ok false
  | some settings ↦ do
    file ← reader g
    filter ← changed_path_filter g file pos
    elim filter [ none ↦ ok false | some bytes ↦ ok (not (path_maybe_changed bytes settings path)) ]
]

unfoldable pub record_of :
    CommitGraph → ObjectId → GResult (Option (CommitGraphEntry × Option Bytes))
record_of g id = do
  file ← reader g
  pos ← position_of g file id
  elim pos [
    | none ↦ ok none
    | some p ↦ do
      entry ← commit_data g file p
      bloom ← changed_path_filter g file p
      ok (some (entry, bloom))
  ]

-- `for pos in 0..self.num_commits`, with `n` positions to go from `pos` on.
unfoldable pub records_loop :
    ℕ → ℕ → CommitGraph → File → GResult (List (ObjectId × CommitGraphEntry × Option Bytes))
records_loop zero pos g file = ok []
records_loop (suc n) pos g file = do
  oid ← oid_at g file pos
  entry ← commit_data g file pos
  bloom ← changed_path_filter g file pos
  rest ← records_loop n (pos + 1) g file
  ok ((oid, entry, bloom) ∷ rest)

-- The length is unwrapped as a `usize`, and a buffer past `isize::MAX` bytes panics as well.
unfoldable pub read_whole : File → ℕ → GResult Bytes
read_whole file len = if leb (2 ^ 31) len then panic else elim (file.read_segment 0 len) [
  | inl failure ↦ err (CommitGraphError.file_system failure)
  | inr read ↦ ok read
]

-- The read of the whole file that comes first only fills the cache of pages, or fails.
unfoldable pub all_records :
    CommitGraph → GResult (List (ObjectId × CommitGraphEntry × Option Bytes))
all_records g = do
  file ← reader g
  whole ← (if ltb 0 g.data_end then read_whole file g.data_end else ok [])
  records_loop g.num_commits 0 g file
