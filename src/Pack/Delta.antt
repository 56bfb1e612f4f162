-- ===== src/Pack/Delta.antt =====
-- crates/gib-pack/src/pack.rs: `apply_delta`, which rebuilds an object from a delta and its base.
-- `deltified[pos..]` is a list of what is left. A `usize` has 32 bits, as on wasm32, where the
-- program runs; no buffer is longer than `isize::MAX`.
pub mod Rounds
pub mod Written
pub mod Safe
pub mod Encode
pub mod Sizes
pub mod RoundTrip
use webgit.Base.{ℕ, zero, suc, ◌+◌, ◌-◌, ◌*◌, ◌/◌, ◌%◌, ◌^◌, Bytes, bit_and, length, max}
use webgit.Base.{Option, none, some, [], ◌∷◌, ◌++◌, ◌==◌, ltb, leb, ◌||◌, not, if◌then◌else◌}
pub use webgit.Base.{isize_max}
use webgit.Base.{drop, get_range, get_elem?, unwrap}
use webgit.Base.{ok, err, panic, stuck, ◌>>=◌, ok_or}
use webgit.Pack.{ObjectResult, malformed_delta}
use webgit.Pack.Header.{read_delta_expected_size}

abbrev pub usize_values : ℕ
usize_values = 2 ^ 32

-- The closure `take`: the next `len` bytes of the delta, and what is left behind them.
unfoldable pub take_bytes : Bytes → ℕ → ObjectResult (Bytes × Bytes)
take_bytes rest len = do
  slice ← ok_or (get_range rest 0 len) malformed_delta
  ok (slice, drop len rest)

-- One argument byte, which is there if the lowest bit of the instruction says so.
unfoldable pub read_arg : ℕ → Bytes → ObjectResult (ℕ × Bytes)
read_arg instruction rest =
    if bit_and instruction 1 == 0
    then ok (0, rest)
    else (do (slice, rest') ← take_bytes rest 1; b ← unwrap (get_elem? slice 0); ok (b, rest'))

-- `for byte in &mut bytes`: `n` argument bytes, the instruction shifted behind each. The bytes,
-- lowest first, what is left of the instruction, and what is left of the delta.
unfoldable pub read_args : ℕ → ℕ → Bytes → ObjectResult (Bytes × ℕ × Bytes)
read_args zero instruction rest = ok ([], instruction, rest)
read_args (suc n) instruction rest = do
  (byte, rest') ← read_arg instruction rest
  (bytes, instruction', rest'') ← read_args n (instruction / 2) rest'
  ok (byte ∷ bytes, instruction', rest'')

-- `u32::from_le_bytes`
unfoldable pub from_le_bytes : Bytes → ℕ
from_le_bytes [] = 0
from_le_bytes (b ∷ bs) = b + 256 * from_le_bytes bs

-- An instruction that carries its bytes: what is left, and the bytes that it appends.
unfoldable pub run_insert : ℕ → Bytes → ObjectResult (Bytes × Bytes)
run_insert i rest = do (slice, rest') ← take_bytes rest (bit_and i 0x7f); ok (rest', slice)

-- The run of the base that a copy names by its argument bytes.
unfoldable pub copied_run : Bytes → Bytes → Bytes → ObjectResult Bytes
copied_run base offset_bytes size_bytes =
    let offset = from_le_bytes offset_bytes in
    let encoded = from_le_bytes (size_bytes ++ (0 ∷ [])) in
    let size = if encoded == 0 then 0x10000 else encoded in
    ok_or (get_range base offset ((offset + size) % usize_values)) malformed_delta

-- An instruction that copies a run of the base.
unfoldable pub run_copy : Bytes → ℕ → Bytes → ObjectResult (Bytes × Bytes)
run_copy base i rest = do
  (offset_bytes, i', rest') ← read_args 4 i rest
  (size_bytes, i'', rest'') ← read_args 3 i' rest'
  run ← copied_run base offset_bytes size_bytes
  ok (rest'', run)

-- One round of the loop, on the instruction `i`.
unfoldable pub run_instruction : Bytes → ℕ → Bytes → ObjectResult (Bytes × Bytes)
run_instruction base i rest =
    if bit_and i 0x80 == 0 then run_insert i rest else run_copy base i rest

-- `Vec::extend_from_slice`: a buffer without room grows to twice its capacity at least, and panics
-- where that is past `isize::MAX` bytes.
unfoldable pub extend_from_slice : ℕ → Bytes → Bytes → ObjectResult (ℕ × Bytes)
extend_from_slice capacity body run =
    let needed = length body + length run in
    let grown = max 8 (max (2 * capacity) needed) in
    if leb needed capacity
    then ok (capacity, body ++ run)
    else if ltb isize_max grown
    then panic
    else ok (grown, body ++ run)

-- Each round takes the instruction's byte at least, so `length rest` rounds are enough.
unfoldable pub delta_loop : ℕ → Bytes → Bytes → ℕ → Bytes → ObjectResult Bytes
delta_loop fuel base [] capacity body = ok body
delta_loop zero base (i ∷ rest) capacity body = stuck
delta_loop (suc fuel) base (i ∷ rest) capacity body = do
  (rest', run) ← run_instruction base i rest
  (capacity', body') ← extend_from_slice capacity body run
  delta_loop fuel base rest' capacity' body'

-- `usize::try_from(size).unwrap_or(0)`
unfoldable pub reserved : ℕ → ℕ
reserved size = if ltb size usize_values then size else 0

-- `Vec::with_capacity`: the capacity, or a panic past `isize::MAX` bytes.
unfoldable pub with_capacity : ℕ → ObjectResult ℕ
with_capacity capacity = if ltb isize_max capacity then panic else ok capacity

-- What `apply_delta` does once it has read the size of the result.
unfoldable pub rebuild : Bytes → Bytes → ℕ → ObjectResult Bytes
rebuild base instructions reconstructed_body_size = do
  capacity ← with_capacity (reserved reconstructed_body_size)
  body ← delta_loop (length instructions) base instructions capacity []
  if not (reconstructed_body_size == length body) then err malformed_delta else ok body

unfoldable pub apply_delta : Bytes → Bytes → ObjectResult Bytes
apply_delta deltified base = do
  (bytes_read, base_object_size) ← read_delta_expected_size deltified
  if not (base_object_size == length base) then err malformed_delta else do
    let rest = drop bytes_read deltified
    (bytes_read', reconstructed_body_size) ← read_delta_expected_size rest
    rebuild base (drop bytes_read' rest) reconstructed_body_size
