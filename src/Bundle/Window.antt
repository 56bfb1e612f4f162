-- ===== src/Bundle/Window.antt =====
-- crates/gib-bundle/src/writer.rs: the last objects written, and the deltas that are made against
-- them. What the index of an object can match is gib-diff-delta's, which wraps C code: an `Engine`.
pub mod Budget
pub mod Offers
pub mod Memory
use webgit.Base.{ℕ, zero, suc, ◌+◌, ◌-◌, ◌*◌, ◌/◌, ◌%◌, ◌^◌, Bytes, List, [], ◌∷◌, ◌++◌, length}
use webgit.Base.{Bool, true, false, not, ◌&&◌, ◌||◌, leb, ltb, ◌==◌, if◌then◌else◌}
use webgit.Base.{Option, none, some, wrapping_add, wrapping_sub}
use webgit.Object.{ObjectType, commit, tag, blob, tree}

-- `DeltaIndex::new`, whether there is an index, and `DeltaIndex::delta` with a limit on the size.
pub record Engine : Type 0 where
  pub has_index : Bytes → Bool
  pub delta : Bytes → Bytes → ℕ → Option Bytes

abbrev pub window_len : ℕ
window_len = 32

abbrev pub max_depth : ℕ
max_depth = 50

abbrev pub window_memory_bytes : ℕ
window_memory_bytes = 64 * 1024 * 1024

pub data BaseIndex : Type 0 where
  unbuilt unindexable built : BaseIndex

pub record Candidate : Type 0 where
  pub offset : ℕ
  pub depth : ℕ
  pub object_type : ObjectType
  pub body : Bytes
  pub index : BaseIndex

pub record Delta : Type 0 where
  pub delta_data : Bytes
  pub base_offset : ℕ
  pub depth : ℕ

unfoldable pub same_type : ObjectType → ObjectType → Bool
same_type commit commit = true
same_type tag tag = true
same_type blob blob = true
same_type tree tree = true
same_type _ _ = false

unfoldable pub build_index : Engine → Candidate → Candidate
build_index engine candidate = record candidate {
  index = elim candidate.index [
    | unbuilt ↦ if engine.has_index candidate.body then built else unindexable
    | unindexable ↦ unindexable
    | built ↦ built
  ];
}

-- `max_size` and `ref_depth` before the scaling.
unfoldable pub first_budget : ℕ → Option Delta → ℕ × ℕ
first_budget target_size none = ((target_size - 40) / 2, 1)
first_budget target_size (some best) = (length best.delta_data, best.depth)

-- `max_size` after it, on a `usize`.
unfoldable pub budget : ℕ → Option Delta → ℕ → ℕ
budget target_size best depth =
    let (max_size, ref_depth) = first_budget target_size best in
    max_size * (max_depth - depth) % 2 ^ 32 / (max_depth - ref_depth + 1)

-- An equally small delta against a deeper base.
unfoldable pub is_worse : Bytes → ℕ → Option Delta → Bool
is_worse made depth none = false
is_worse made depth (some best) =
    length made == length best.delta_data && leb best.depth (depth + 1)

-- What the delta that the index gives does to the best so far.
unfoldable pub offer : Candidate → Option Bytes → Option Delta → Option Delta
offer candidate none best = best
offer candidate (some made) best =
    if is_worse made candidate.depth best
    then best
    else some
        (record { delta_data = made; base_offset = candidate.offset; depth = candidate.depth + 1 })

unfoldable pub offer_built : Engine → Bytes → ℕ → Candidate → Option Delta → Option Delta
offer_built engine body max_size candidate best = elim candidate.index [
  | built ↦ offer candidate (engine.delta candidate.body body max_size) best
  | unbuilt ↦ best
  | unindexable ↦ best
]

-- One turn of the loop of `best_delta`.
unfoldable pub try_candidate :
    Engine → ObjectType → Bytes → Candidate → Option Delta → Candidate × Option Delta
try_candidate engine object_type body candidate best =
    let max_size = budget (length body) best candidate.depth in
    if not (same_type candidate.object_type object_type) || leb max_depth candidate.depth
    then (candidate, best)
    else if max_size == 0
        || leb max_size (length body - length candidate.body)
        || ltb (length body) (length candidate.body / 32)
    then (candidate, best)
    else let candidate = build_index engine candidate in
      (candidate, offer_built engine body max_size candidate best)

-- The newest candidate stands at the end of the window, and is tried first.
unfoldable pub best_delta :
    Engine → ObjectType → Bytes → List Candidate → List Candidate × Option Delta
best_delta engine object_type body [] = ([], none)
best_delta engine object_type body (candidate ∷ window) =
    let (window, best) = best_delta engine object_type body window in
    let (candidate, best) = try_candidate engine object_type body candidate best in
    (candidate ∷ window, best)

pub record Window : Type 0 where
  pub window : List Candidate
  pub window_bytes : ℕ

-- `while self.window.len() > WINDOW || ..`
unfoldable pub drop_oldest : List Candidate → ℕ → Window
drop_oldest [] window_bytes = record { window = []; window_bytes = window_bytes }
drop_oldest (dropped ∷ window) window_bytes =
    elim (ltb window_len (length (dropped ∷ window))
      || (ltb window_memory_bytes window_bytes && ltb 1 (length (dropped ∷ window)))) [
        | true ↦ drop_oldest window (wrapping_sub window_bytes (length dropped.body))
        | false ↦ record { window = dropped ∷ window; window_bytes = window_bytes }
      ]

unfoldable pub remember : Candidate → Window → Window
remember candidate w =
    drop_oldest (w.window ++ candidate ∷ []) (wrapping_add w.window_bytes (length candidate.body))
