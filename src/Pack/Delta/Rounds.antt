-- ===== src/Pack/Delta/Rounds.antt =====
-- One round of `apply_delta`, on any bytes.
use webgit.Base.{ℕ, zero, suc, ◌+◌, ◌/◌, ◌≤◌, Bytes, [], ◌∷◌}
use webgit.Base.{◌≡◌, arith, length, bit_and, ok}
use webgit.Base.{length-drop, length-take, Returns, Returns-bind, Returns-ok_or, bind-eq_ok}
use webgit.Pack.Header.{read_delta_expected_size, expected_size_loop, add_u64, shl_u64}
use webgit.Pack.Delta.{
  take_bytes, read_arg, read_args, run_insert, copied_run, run_copy, run_instruction,
}

expected_size_loop-Returns :
    (buf : Bytes) (n size shift : ℕ) → Returns (expected_size_loop buf n size shift)
unfolding expected_size_loop
expected_size_loop-Returns [] n size shift = tt
expected_size_loop-Returns (b ∷ buf) n size shift = ground (
  arith,
  expected_size_loop-Returns buf (n + 1) (add_u64 size (shl_u64 (bit_and b 0x7f) shift))
      (shift + 7),
)

pub read_delta_expected_size-Returns : (buf : Bytes) → Returns (read_delta_expected_size buf)
unfolding read_delta_expected_size
read_delta_expected_size-Returns buf = expected_size_loop-Returns buf 0 0 0

take_bytes-Returns : (rest : Bytes) (len : ℕ) → Returns (take_bytes rest len)
unfolding take_bytes
take_bytes-Returns rest len = ground arith

-- What `take` gives: a slice of the length asked for, and less of the delta.
take_bytes_parts :
    (rest slice rest' : Bytes) (len : ℕ)
    → take_bytes rest len ≡ ok (slice, rest')
    → (length slice ≡ len) × (length rest' + len ≡ length rest)
unfolding take_bytes
take_bytes_parts rest slice rest' len e = ground (arith, length-take len rest, length-drop len rest)

read_arg-Returns : (i : ℕ) (rest : Bytes) → Returns (read_arg i rest)
unfolding read_arg take_bytes
read_arg-Returns i [] = ground arith
read_arg-Returns i (b ∷ rest) = ground arith

read_arg_parts :
    (i : ℕ) (rest : Bytes) (b : ℕ) (rest' : Bytes)
    → read_arg i rest ≡ ok (b, rest')
    → length rest' ≤ length rest
unfolding read_arg take_bytes
read_arg_parts i [] b rest' e = ground arith
read_arg_parts i (x ∷ rest) b rest' e = ground arith

read_args-Returns : (n i : ℕ) (rest : Bytes) → Returns (read_args n i rest)
unfolding read_args
read_args-Returns zero i rest = tt
read_args-Returns (suc n) i rest =
    Returns-bind (read_arg i rest) _ (read_arg-Returns i rest) λ (b, rest') e.
      Returns-bind (read_args n (i / 2) rest') _ (read_args-Returns n (i / 2) rest') (λ a e'. tt)

read_args_parts :
    (n i : ℕ) (rest bytes : Bytes) (i' : ℕ) (rest' : Bytes)
    → read_args n i rest ≡ ok (bytes, i', rest')
    → length rest' ≤ length rest
unfolding read_args
read_args_parts zero i rest bytes i' rest' e = ground arith
read_args_parts (suc n) i rest bytes i' rest' e =
    let ((b, r), e1, k1) = bind-eq_ok (read_arg i rest) _ e in
    let ((bs, i1, r1), e2, k2) = bind-eq_ok (read_args n (i / 2) r) _ k1 in
    ground (arith, read_arg_parts i rest b r e1, read_args_parts n (i / 2) r bs i1 r1 e2)

run_insert-Returns : (i : ℕ) (rest : Bytes) → Returns (run_insert i rest)
unfolding run_insert
run_insert-Returns i rest =
    Returns-bind (take_bytes rest (bit_and i 0x7f)) _ (take_bytes-Returns rest _) (λ a e. tt)

copied_run-Returns : (base os ss : Bytes) → Returns (copied_run base os ss)
unfolding copied_run
copied_run-Returns base os ss = Returns-ok_or _ _

run_copy-Returns : (base : Bytes) (i : ℕ) (rest : Bytes) → Returns (run_copy base i rest)
unfolding run_copy
run_copy-Returns base i rest =
    Returns-bind (read_args 4 i rest) _ (read_args-Returns 4 i rest) λ (os, i', rest') e.
      Returns-bind (read_args 3 i' rest') _ (read_args-Returns 3 i' rest') λ (ss, i'', rest'') e'.
        Returns-bind (copied_run base os ss) _ (copied_run-Returns base os ss) (λ a e''. tt)

pub run_instruction-Returns :
    (base : Bytes) (i : ℕ) (rest : Bytes) → Returns (run_instruction base i rest)
unfolding run_instruction
run_instruction-Returns base i rest =
    ground (arith, run_insert-Returns i rest, run_copy-Returns base i rest)

run_insert_parts :
    (i : ℕ) (rest rest' run : Bytes)
    → run_insert i rest ≡ ok (rest', run)
    → length rest' ≤ length rest
unfolding run_insert
run_insert_parts i rest rest' run e =
    let ((slice, r), e1, k1) = bind-eq_ok (take_bytes rest (bit_and i 0x7f)) _ e in
    ground (arith, take_bytes_parts rest slice r (bit_and i 0x7f) e1)

run_copy_parts :
    (base : Bytes) (i : ℕ) (rest rest' run : Bytes)
    → run_copy base i rest ≡ ok (rest', run)
    → length rest' ≤ length rest
unfolding run_copy
run_copy_parts base i rest rest' run e =
    let ((os, i1, r1), e1, k1) = bind-eq_ok (read_args 4 i rest) _ e in
    let ((ss, i2, r2), e2, k2) = bind-eq_ok (read_args 3 i1 r1) _ k1 in
    let (copied, e3, k3) = bind-eq_ok (copied_run base os ss) _ k2 in
    ground (arith, read_args_parts 4 i rest os i1 r1 e1, read_args_parts 3 i1 r1 ss i2 r2 e2)

pub run_instruction_parts :
    (base : Bytes) (i : ℕ) (rest rest' run : Bytes)
    → run_instruction base i rest ≡ ok (rest', run)
    → length rest' ≤ length rest
unfolding run_instruction
run_instruction_parts base i rest rest' run e =
    ground (arith, run_insert_parts i rest rest' run, run_copy_parts base i rest rest' run)
