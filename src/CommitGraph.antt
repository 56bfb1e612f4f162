-- ===== src/CommitGraph.antt =====
-- crates/gib-commitgraph/src/lib.rs: the reader of git's commit-graph file.
-- Offsets are `u64`, whose sums wrap.
pub mod Bloom
pub mod Lookup
pub mod Position
pub mod Filters
pub mod Fills
pub mod Changed
pub mod Edges
mod Examples
use webgit.Base.{ℕ, zero, suc, ◌+◌, ◌-◌, ◌*◌, ◌/◌, ◌%◌, ◌^◌, max, Bytes, length, get_or, take, drop}
use webgit.Base.{List, [], ◌∷◌, ◌++◌, Bool, true, false, not, ◌||◌, Option, none, some, inl, inr}
use webgit.Base.{ltb, leb, ◌==◌, if◌then◌else◌, eq_bytes, ok, err, stuck, Outcome, ok_or, ◌>>=◌}
use webgit.Fs.{File, Directory, FileSystemError, filled}
use webgit.Hash.{ObjectId, cmp_bytes}
use webgit.Pack.Index.{from_be_bytes, be_words}
use webgit.CommitGraph.Bloom.{BloomSettings, path_maybe_changed}
use Prim.Native.Nat.{Ordering}

pub data CommitGraphError : Type 0 where
  file_system : FileSystemError → CommitGraphError
  corrupt : CommitGraphError

abbrev pub GResult {ℓ} : Type ℓ → Type ℓ
GResult A = Outcome CommitGraphError A

abbrev pub graph_parent_none : ℕ
graph_parent_none = 0x70000000

-- `& GRAPH_EXTRA_EDGES != 0` and `& GRAPH_POSITION_MASK` on a word of 32 bits.
abbrev pub has_extra_edges : ℕ → Bool
has_extra_edges word = leb 0x80000000 word

abbrev pub position_mask : ℕ → ℕ
position_mask word = word % 2 ^ 31

pub record CommitGraphEntry : Type 0 where
  pub tree : ObjectId
  pub parents : List ObjectId
  pub commit_time : ℕ

-- The pages that reads go through are left out.
pub record CommitGraph : Type 0 where
  pub info_dir : Directory
  pub fanout : List ℕ
  pub num_commits : ℕ
  pub oidl_offset : ℕ
  pub cdat_offset : ℕ
  pub edge_offset : Option ℕ
  pub bidx_offset : Option ℕ
  pub bdat_offset : Option ℕ
  pub bloom : Option BloomSettings
  pub data_end : ℕ

pub read_array : ℕ → File → ℕ → GResult Bytes
read_array n file offset = elim (file.read_segment offset n) [
  | inl failure ↦ err (CommitGraphError.file_system failure)
  | inr read ↦ if ltb (length read) n then err CommitGraphError.corrupt else ok (filled n read)
]

-- A buffer past `isize::MAX` bytes panics.
pub read_vec : File → ℕ → ℕ → GResult Bytes
read_vec file offset len =
    if leb (2 ^ 31) len then Outcome.panic else elim (file.read_segment offset len) [
      | inl failure ↦ err (CommitGraphError.file_system failure)
      | inr read ↦
          if ltb (length read) len then err CommitGraphError.corrupt else ok (filled len read)
    ]

unfoldable pub from_file_system {ℓ} : {A : Type ℓ} → Outcome FileSystemError A → GResult A
from_file_system (ok a) = ok a
from_file_system (err e) = err (CommitGraphError.file_system e)
from_file_system Outcome.panic = Outcome.panic
from_file_system stuck = stuck

-- What the loop over the chunk table has found.
pub record Chunks : Type 0 where
  oidf : Option ℕ
  oidl : Option ℕ
  cdat : Option ℕ
  edge : Option ℕ
  bidx : Option ℕ
  bdat : Option ℕ
  pub data_end : ℕ

abbrev no_chunks : Chunks
no_chunks = record {
  oidf = none;
  oidl = none;
  cdat = none;
  edge = none;
  bidx = none;
  bdat = none;
  data_end = 0;
}

pub note_chunk : Bytes → ℕ → Chunks → Chunks
note_chunk id offset c =
    if eq_bytes id (b'O' ∷ b'I' ∷ b'D' ∷ b'F' ∷ [])
    then record c { oidf = some offset }
    else if eq_bytes id (b'O' ∷ b'I' ∷ b'D' ∷ b'L' ∷ [])
    then record c { oidl = some offset }
    else if eq_bytes id (b'C' ∷ b'D' ∷ b'A' ∷ b'T' ∷ [])
    then record c { cdat = some offset }
    else if eq_bytes id (b'E' ∷ b'D' ∷ b'G' ∷ b'E' ∷ [])
    then record c { edge = some offset }
    else if eq_bytes id (b'B' ∷ b'I' ∷ b'D' ∷ b'X' ∷ [])
    then record c { bidx = some offset }
    else if eq_bytes id (b'B' ∷ b'D' ∷ b'A' ∷ b'T' ∷ [])
    then record c { bdat = some offset }
    else c

-- `for entry in table.as_chunks::<12>().0`
pub read_chunks : ℕ → Bytes → Chunks → Chunks
read_chunks zero table c = c
read_chunks (suc n) table c =
    let offset = from_be_bytes (take 8 (drop 4 table)) in
    let seen = record c { data_end = max c.data_end offset } in
    read_chunks n (drop 12 table) (note_chunk (take 4 table) offset seen)

pub read_bloom : File → Chunks → GResult (Option BloomSettings)
read_bloom file c = elim c.bidx [
  | none ↦ ok none
  | some bidx ↦ elim c.bdat [
    | none ↦ ok none
    | some bdat ↦ do
      hdr ← read_vec file bdat 12
      ok (
          some (record {
            hash_version = from_be_bytes (take 4 hdr);
            num_hashes = from_be_bytes (take 4 (drop 4 hdr));
            bits_per_entry = from_be_bytes (take 4 (drop 8 hdr));
          }))
  ]
]

pub read_graph : Directory → File → Bytes → GResult (Option CommitGraph)
read_graph info_dir file header = do
  table ← read_vec file 8 ((get_or header 6 0 + 1) * 12)
  let c = read_chunks (get_or header 6 0 + 1) table no_chunks
  elim c.oidf [
    | none ↦ ok none
    | some oidf_offset ↦ elim c.oidl [
      | none ↦ ok none
      | some oidl_offset ↦ elim c.cdat [
        | none ↦ ok none
        | some cdat_offset ↦ do
          fanout_bytes ← read_vec file oidf_offset 1024
          bloom ← read_bloom file c
          ok (
              some (record {
                info_dir = info_dir;
                fanout = be_words 256 fanout_bytes;
                num_commits = get_or (be_words 256 fanout_bytes) 255 0;
                oidl_offset = oidl_offset;
                cdat_offset = cdat_offset;
                edge_offset = c.edge;
                bidx_offset = c.bidx;
                bdat_offset = c.bdat;
                bloom = bloom;
                data_end = c.data_end;
              }))
      ]
    ]
  ]

abbrev pub commit_graph_name : Bytes
commit_graph_name =
    b'c' ∷ b'o' ∷ b'm' ∷ b'm' ∷ b'i' ∷ b't' ∷ b'-' ∷ b'g' ∷ b'r' ∷ b'a' ∷ b'p' ∷ b'h' ∷ []

-- The header, once it is read: the magic number, the versions, and no base graphs.
pub check_header : Directory → File → Bytes → GResult (Option CommitGraph)
check_header info_dir file header =
    if not (eq_bytes (take 4 header) (b'C' ∷ b'G' ∷ b'P' ∷ b'H' ∷ []))
      || not (get_or header 4 0 == 1)
      || not (get_or header 5 0 == 1)
    then ok none
    else if not (get_or header 7 0 == 0)
    then ok none
    else read_graph info_dir file header

pub open_file_in : Directory → GResult (Option CommitGraph)
open_file_in info_dir = elim (info_dir.open_file commit_graph_name) [
  | err FileSystemError.not_found ↦ ok none
  | err FileSystemError.other ↦ err (CommitGraphError.file_system FileSystemError.other)
  | Outcome.panic ↦ Outcome.panic
  | stuck ↦ stuck
  | ok file ↦ elim (file.read_segment 0 8) [
    | inl FileSystemError.not_found ↦ ok none
    | inl FileSystemError.other ↦ err (CommitGraphError.file_system FileSystemError.other)
    | inr header ↦ if length header == 8 then check_header info_dir file header else ok none
  ]
]

-- `CommitGraph::open`, on what opening the directory `info` gave.
pub open_graph : Outcome FileSystemError Directory → GResult (Option CommitGraph)
open_graph (err FileSystemError.not_found) = ok none
open_graph (err FileSystemError.other) = err (CommitGraphError.file_system FileSystemError.other)
open_graph Outcome.panic = Outcome.panic
open_graph stuck = stuck
open_graph (ok info_dir) = open_file_in info_dir
