-- ===== src/Pack/Header/Safe.antt =====
-- The header reader on any bytes, well formed or not: it neither panics nor reads past its input.
use webgit.Base.{ℕ, ◌+◌, ◌-◌, ◌*◌, ◌≤◌, ◌<◌, IsU64, IsByte, All, Bytes, List, [], ◌∷◌}
use webgit.Base.{◌≡◌, arith, length, bit_and, some, ok}
use webgit.Base.{
  ◌==◌, if◌then◌else◌, Option-cases, inl, inr, get_range, length-drop, length-take, drop, take,
  Returns, Returns-bind, bind-eq_ok, ok_or,
}
use webgit.Base.Bits.{and_0f}
use webgit.Pack.{pack, corrupt_pack_file}
use webgit.Pack.Header.{
  PackObjectType, base, offset_delta, ref_delta, type_of, obj_type_size_loop, read_obj_type_size,
  delta_offset_loop, read_delta_offset, read_base, parse_object_header, add_u64, shl_u64,
}

obj_type_size_loop_ends :
    (buf : Bytes) (pos size : ℕ) (t : PackObjectType) (p : ℕ) (t' : PackObjectType) (n : ℕ)
    → 0 < pos
    → obj_type_size_loop buf pos (some t) size ≡ ok (p, t', n)
    → (pos < p) × (p ≤ pos + length buf) × IsU64 n
unfolding obj_type_size_loop
obj_type_size_loop_ends [] pos size t p t' n h e = absurd (cc)
obj_type_size_loop_ends (b ∷ buf) pos size t p t' n h e = ground (
  arith,
  obj_type_size_loop_ends buf (pos + 1)
      (add_u64 size (shl_u64 (bit_and b 0x7f) (4 + 7 * (pos - 1)))) t p t' n,
)

obj_type_size_loop-Returns :
    (buf : Bytes) (pos size : ℕ) (t : PackObjectType)
    → 0 < pos
    → Returns (obj_type_size_loop buf pos (some t) size)
unfolding obj_type_size_loop
obj_type_size_loop-Returns [] pos size t h = tt
obj_type_size_loop-Returns (b ∷ buf) pos size t h = ground (
  arith,
  obj_type_size_loop-Returns buf (pos + 1)
      (add_u64 size (shl_u64 (bit_and b 0x7f) (4 + 7 * (pos - 1)))) t,
)

read_obj_type_size_ends :
    (buf : Bytes) (p : ℕ) (t : PackObjectType) (n : ℕ)
    → All IsByte buf
    → read_obj_type_size buf ≡ ok (p, t, n)
    → (0 < p) × (p ≤ length buf) × IsU64 n
unfolding read_obj_type_size obj_type_size_loop
read_obj_type_size_ends [] p t n hb e = absurd (cc)
read_obj_type_size_ends (b ∷ buf) p t n hb e = elim (Option-cases (type_of (bit_and b 0x70))) [
  | inl no_type ↦ ground arith
  | inr (t', some_type) ↦
      ground (arith, and_0f b, obj_type_size_loop_ends buf 1 (bit_and b 0x0f) t' p t n)
]

read_obj_type_size-Returns : (buf : Bytes) → Returns (read_obj_type_size buf)
unfolding read_obj_type_size obj_type_size_loop
read_obj_type_size-Returns [] = tt
read_obj_type_size-Returns (b ∷ buf) = elim (Option-cases (type_of (bit_and b 0x70))) [
  | inl no_type ↦ ground arith
  | inr (t, some_type) ↦ ground (arith, obj_type_size_loop-Returns buf 1 (bit_and b 0x0f) t)
]

abbrev next_offset : ℕ → ℕ → ℕ → ℕ
next_offset b idx offset =
    add_u64 (shl_u64 (if idx == 0 then offset else add_u64 offset 1) 7) (bit_and b 0x7f)

delta_offset_loop_ends :
    (buf : Bytes) (idx offset p n : ℕ)
    → delta_offset_loop buf idx offset ≡ ok (p, n)
    → (idx < p) × (p ≤ idx + length buf) × IsU64 n
unfolding delta_offset_loop
delta_offset_loop_ends [] idx offset p n e = absurd (cc)
delta_offset_loop_ends (b ∷ buf) idx offset p n e =
    ground (arith, delta_offset_loop_ends buf (idx + 1) (next_offset b idx offset) p n)

delta_offset_loop-Returns :
    (buf : Bytes) (idx offset : ℕ) → Returns (delta_offset_loop buf idx offset)
unfolding delta_offset_loop
delta_offset_loop-Returns [] idx offset = tt
delta_offset_loop-Returns (b ∷ buf) idx offset =
    ground (arith, delta_offset_loop-Returns buf (idx + 1) (next_offset b idx offset))

get_range_ends :
    {A : Type 0} (xs ys : List A) (from to : ℕ)
    → get_range xs from to ≡ some ys
    → (from ≤ to) × (to ≤ length xs) × (length ys ≡ to - from)
get_range_ends xs ys from to e =
    ground (arith, length-take (to - from) (drop from xs), length-drop from xs)

read_base_ends :
    (buf : Bytes) (t t' : PackObjectType) (pos p : ℕ)
    → pos ≤ length buf
    → read_base buf t pos ≡ ok (t', p)
    → (pos ≤ p) × (p ≤ length buf)
unfolding read_base read_delta_offset
read_base_ends buf (base t) t' pos p h e = ground arith
read_base_ends buf (offset_delta d) t' pos p h e =
    let (rest, found, e') =
      bind-eq_ok (ok_or (get_range buf pos (length buf)) (pack corrupt_pack_file)) _ e in
    let ((n, offset), r, e'') = bind-eq_ok (delta_offset_loop rest 0 0) _ e' in
    ground (
      arith,
      get_range_ends buf rest pos (length buf) (ground arith),
      delta_offset_loop_ends rest 0 0 n offset r,
    )
read_base_ends buf (ref_delta id) t' pos p h e = ground arith

read_base-Returns : (buf : Bytes) (t : PackObjectType) (pos : ℕ) → Returns (read_base buf t pos)
unfolding read_base read_delta_offset
read_base-Returns buf (base t) pos = tt
read_base-Returns buf (offset_delta d) pos =
    ground (arith, delta_offset_loop-Returns (take (length buf - pos) (drop pos buf)) 0 0)
read_base-Returns buf (ref_delta id) pos = ground arith

-- On every input the header reader comes back with a value or an error, never a panic.
pub parse_object_header-Returns : (buf : Bytes) → Returns (parse_object_header buf)
unfolding parse_object_header
parse_object_header-Returns buf =
    Returns-bind (read_obj_type_size buf) _ (read_obj_type_size-Returns buf) λ (pos, t, n) e.
      Returns-bind (read_base buf t pos) _ (read_base-Returns buf t pos) (λ a e'. tt)

-- A header that is accepted has at least one byte and ends within the input, and its size is a u64.
pub parse_object_header_ends :
    (buf : Bytes) (t : PackObjectType) (size pos : ℕ)
    → All IsByte buf
    → parse_object_header buf ≡ ok (t, size, pos)
    → (0 < pos) × (pos ≤ length buf) × IsU64 size
unfolding parse_object_header
parse_object_header_ends buf t size pos hb e =
    let ((p, t0, n), r, e') = bind-eq_ok (read_obj_type_size buf) _ e in
    let ((t1, p1), r', e'') = bind-eq_ok (read_base buf t0 p) _ e' in
    ground (
      arith,
      read_obj_type_size_ends buf p t0 n hb r,
      read_base_ends buf t0 t1 p p1 (omega (arith, read_obj_type_size_ends buf p t0 n hb r)) r',
    )
