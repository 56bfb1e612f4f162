-- ===== src/Pack/Delta/RoundTrip.antt =====
-- `apply_delta` rebuilds what the instructions of a delta say.
use webgit.Base.{
  ℕ, zero, suc, ◌+◌, ◌-◌, ◌*◌, ◌/◌, ◌%◌, ◌^◌, ◌≤◌, ◌<◌, All, Bytes, List, [], ◌∷◌, ◌++◌,
  append_assoc, append-nil,
}
use webgit.Base.{
  ◌≡◌, refl, ap, ◌∙◌, arith, length, take, drop, get_range, ltb, leb, ◌==◌, ok, Bool-cases, inl,
  inr, bit_and, length-append, take-append, drop-append, some, true, false, ==_self, le→leb,
}
use webgit.Base.Bits.{and_1, and_80, and_7f}
use webgit.Pack.Delta.{
  take_bytes, read_arg, read_args, from_le_bytes, copied_run, run_insert, run_copy, run_instruction,
  extend_from_slice, delta_loop, reserved, with_capacity, rebuild, apply_delta, isize_max,
}
use webgit.Pack.Delta.Encode.{
  Instruction, copy, insert, IsInstruction, appended, rebuilt, le_bytes, flags, flag, present,
  size_bytes, instruction_bytes, instructions_bytes, varint, delta_bytes,
}
use webgit.Pack.Delta.Sizes.{read_delta_expected_size-varint}

from_le_bytes-le_bytes_4 : (x : ℕ) → x < 2 ^ 32 → from_le_bytes (le_bytes 4 x) ≡ x
unfolding from_le_bytes le_bytes
from_le_bytes-le_bytes_4 x h = omega arith

from_le_bytes-le_bytes_3 : (x : ℕ) → x < 2 ^ 24 → from_le_bytes (le_bytes 3 x ++ (0 ∷ [])) ≡ x
unfolding from_le_bytes le_bytes
from_le_bytes-le_bytes_3 x h = omega arith

read_arg-present :
    (b high : ℕ) (tail : Bytes)
    → flag b + 2 * high < 256
    → read_arg (flag b + 2 * high) (present (b ∷ []) ++ tail) ≡ ok (b, tail)
unfolding read_arg take_bytes present flag
read_arg-present b high tail h = elim (Bool-cases (b == 0)) [
  | inl zero_byte ↦ rw zero_byte (ground (arith, and_1 (2 * high)))
  | inr some_byte ↦ rw some_byte (ground (arith, and_1 (1 + 2 * high)))
]

present-cons :
    (b : ℕ) (bs tail : Bytes) → present (b ∷ bs) ++ tail ≡ present (b ∷ []) ++ (present bs ++ tail)
unfolding present
present-cons b bs tail = ground arith

flag-le : (b : ℕ) → flag b ≤ 1
unfolding flag
flag-le b = ground arith

flags_half : (b high : ℕ) → (flag b + 2 * high) / 2 ≡ high
flags_half b high = omega (arith, flag-le b)

-- The bytes that are present, and the flags that say which, are read back as the bytes.
read_args-present :
    (bs : Bytes) (high : ℕ) (tail : Bytes)
    → flags bs high < 256
    → read_args (length bs) (flags bs high) (present bs ++ tail) ≡ ok (bs, high, tail)
unfolding read_args flags
read_args-present [] high tail h = unfold present in refl
read_args-present (b ∷ bs) high tail h = rw (
  present-cons b bs tail,
  read_arg-present b (flags bs high) (present bs ++ tail) h,
  flags_half b (flags bs high),
  read_args-present bs high tail (omega arith),
)

-- Seven flags under a one make an instruction with its top bit.
copy_flags_bounds :
    (offset size : ℕ)
    → (128 ≤ flags (le_bytes 4 offset) (flags (size_bytes size) 1))
      × (flags (le_bytes 4 offset) (flags (size_bytes size) 1) < 256)
unfolding flags le_bytes size_bytes
copy_flags_bounds offset size = omega (arith, flag-le)

read_four :
    (offset high : ℕ) (tail : Bytes)
    → flags (le_bytes 4 offset) high < 256
    → read_args 4 (flags (le_bytes 4 offset) high) (present (le_bytes 4 offset) ++ tail)
      ≡ ok (le_bytes 4 offset, high, tail)
unfolding le_bytes
read_four offset high tail h = read_args-present _ high tail h

read_three :
    (size : ℕ) (tail : Bytes)
    → read_args 3 (flags (size_bytes size) 1) (present (size_bytes size) ++ tail)
      ≡ ok (size_bytes size, 1, tail)
unfolding size_bytes le_bytes
read_three size tail = read_args-present _ 1 tail (unfold flags in (omega (arith, flag-le)))

get_range-take :
    (base : Bytes) (offset size : ℕ)
    → offset + size ≤ length base
    → get_range base offset (offset + size) ≡ some (take size (drop offset base))
get_range-take base offset size h = ground arith

copied_run-copy :
    (base : Bytes) (offset size : ℕ)
    → IsInstruction base (copy offset size)
    → length base ≤ isize_max
    → copied_run base (le_bytes 4 offset) (size_bytes size) ≡ ok (appended base (copy offset size))
unfolding copied_run size_bytes appended
copied_run-copy base offset size (pos, small, low, fits) h = elim (Bool-cases (size == 0x10000)) [
  | inl full ↦
      let e : (offset + 0x10000) % 2 ^ 32 ≡ offset + size = ground arith in
      rw (full, from_le_bytes-le_bytes_4 offset low, from_le_bytes-le_bytes_3 0 (omega arith))
        (rw (e, get_range-take base offset size fits))
  | inr other ↦
      let z : (size == 0) ≡ false = ground arith in
      let e : (offset + size) % 2 ^ 32 ≡ offset + size = omega arith in
      rw (other, from_le_bytes-le_bytes_4 offset low, from_le_bytes-le_bytes_3 size small)
        (rw (z, e, get_range-take base offset size fits))
]

run_copy-copy :
    (base : Bytes) (offset size : ℕ) (tail : Bytes)
    → IsInstruction base (copy offset size)
    → length base ≤ isize_max
    → run_copy base
        (flags (le_bytes 4 offset) (flags (size_bytes size) 1))
        ((present (le_bytes 4 offset) ++ present (size_bytes size)) ++ tail)
      ≡ ok (tail, appended base (copy offset size))
unfolding run_copy
run_copy-copy base offset size tail h hb =
    let b = copy_flags_bounds offset size in
    rw (
      append_assoc (present (le_bytes 4 offset)) (present (size_bytes size)) tail,
      read_four offset _ _ b.1,
      read_three size tail,
      copied_run-copy base offset size h hb,
    )

take_bytes-append : (xs ys : Bytes) → take_bytes (xs ++ ys) (length xs) ≡ ok (xs, ys)
unfolding take_bytes
take_bytes-append xs ys =
    let h : leb (length xs) (length (xs ++ ys)) ≡ true =
      le→leb _ _ (omega (arith, length-append xs ys)) in
    let z : leb 0 (length xs) ≡ true = le→leb _ _ (omega arith) in
    let n : length xs - 0 ≡ length xs = omega arith in
    rw (z, h, n, take-append xs ys, drop-append xs ys)

-- A buffer with room for the run keeps its capacity.
extend_from_slice-room :
    (capacity : ℕ) (body run : Bytes)
    → length body + length run ≤ capacity
    → extend_from_slice capacity body run ≡ ok (capacity, body ++ run)
unfolding extend_from_slice
extend_from_slice-room capacity body run h = ground arith

-- One round of the loop runs one instruction.
delta_loop-instruction :
    (fuel : ℕ) (base : Bytes) (i : Instruction) (tail : Bytes) (capacity : ℕ) (body : Bytes)
    → IsInstruction base i
    → length base ≤ isize_max
    → length body + length (appended base i) ≤ capacity
    → delta_loop (suc fuel) base (instruction_bytes i ++ tail) capacity body
      ≡ delta_loop fuel base tail capacity (body ++ appended base i)
unfolding delta_loop run_instruction instruction_bytes
delta_loop-instruction fuel base (copy offset size) tail capacity body h hb room =
    let (low, high) = copy_flags_bounds offset size in
    let op : ℕ = flags (le_bytes 4 offset) (flags (size_bytes size) 1) in
    let e : bit_and op 0x80 ≡ 128 = and_80 op high ∙ omega arith in
    rw (
      e,
      run_copy-copy base offset size tail h hb,
      extend_from_slice-room capacity body (appended base (copy offset size)) room,
    )
delta_loop-instruction fuel base (insert literal) tail capacity body h hb room =
    let e : bit_and (length literal) 0x80 ≡ 0 =
      and_80 (length literal) (omega arith) ∙ omega arith in
    let n : bit_and (length literal) 0x7f ≡ length literal =
      and_7f (length literal) (omega arith) ∙ omega arith in
    let fits =
      extend_from_slice-room capacity body literal (unfold appended in (omega (arith, room))) in
    unfold run_insert appended in rw (e, n, take_bytes-append literal tail, fits)

length-instruction_bytes : (i : Instruction) → 0 < length (instruction_bytes i)
unfolding instruction_bytes
length-instruction_bytes (copy offset size) = omega arith
length-instruction_bytes (insert literal) = omega arith

delta_loop-instructions :
    (is : List Instruction) (fuel : ℕ) (base : Bytes) (capacity : ℕ) (body : Bytes)
    → All (IsInstruction base) is
    → length base ≤ isize_max
    → length (instructions_bytes is) ≤ fuel
    → length body + length (rebuilt base is) ≤ capacity
    → delta_loop fuel base (instructions_bytes is) capacity body ≡ ok (body ++ rebuilt base is)
unfolding instructions_bytes rebuilt
delta_loop-instructions [] fuel base capacity body h hb hf room =
    unfold delta_loop in rw (append-nil body)
delta_loop-instructions (i ∷ is) zero base capacity body h hb hf room = absurd (
    omega (
      arith,
      length-append (instruction_bytes i) (instructions_bytes is),
      length-instruction_bytes i,
    ))
delta_loop-instructions (i ∷ is) (suc fuel) base capacity body h hb hf room =
    let parts = length-append (appended base i) (rebuilt base is) in
    let longer = length-append body (appended base i) in
    delta_loop-instruction fuel base i (instructions_bytes is) capacity body h.0 hb (omega arith)
    ∙ delta_loop-instructions is fuel base capacity (body ++ appended base i) h.1 hb
        (omega (
          arith,
          length-append (instruction_bytes i) (instructions_bytes is),
          length-instruction_bytes i,
        ))
        (omega arith)
    ∙ ap ok (append_assoc body (appended base i) (rebuilt base is))

-- A delta in git's format is applied to its base: the result is what its instructions rebuild.
pub apply_delta-delta_bytes :
    (base : Bytes) (is : List Instruction)
    → All (IsInstruction base) is
    → length base ≤ isize_max
    → length (rebuilt base is) ≤ isize_max
    → apply_delta (delta_bytes base is) base ≡ ok (rebuilt base is)
unfolding apply_delta rebuild reserved with_capacity delta_bytes
apply_delta-delta_bytes base is h hb hr =
    let rest : Bytes = varint 8 (length (rebuilt base is)) ++ instructions_bytes is in
    let cap : ltb (length (rebuilt base is)) (2 ^ 32) ≡ true = ground arith in
    let under : ltb isize_max (length (rebuilt base is)) ≡ false = ground arith in
    rw (
      read_delta_expected_size-varint (length base) rest (omega arith),
      ==_self (length base),
      drop-append (varint 8 (length base)) rest,
      read_delta_expected_size-varint (length (rebuilt base is)) (instructions_bytes is)
          (omega arith),
      drop-append (varint 8 (length (rebuilt base is))) (instructions_bytes is),
      cap,
      under,
      delta_loop-instructions is (length (instructions_bytes is)) base (length (rebuilt base is)) []
          h hb (omega arith) (omega arith),
      ==_self (length (rebuilt base is)),
    )
