-- ===== src/Pack/Delta/Safe.antt =====
-- `apply_delta` on any bytes, well formed or not.
use webgit.Base.{ℕ, ◌≤◌, Bytes, []}
use webgit.Base.{◌≡◌, refl, arith, length, ok, err, panic, ◌>>=◌, not, false}
use webgit.Base.{
  ◌==◌, ==_self, ==_iff, ltb, ◌<◌, ◌^◌, ◌⊎◌, if◌then◌else◌, Bool-cases, inl, inr, drop, Returns,
  Returns-bind, Returns-if, bind-eq_ok,
}
use webgit.Pack.{ObjectResult, malformed_delta}
use webgit.Pack.Header.{read_delta_expected_size}
use webgit.Pack.Delta.{delta_loop, reserved, with_capacity, rebuild, apply_delta, isize_max}
use webgit.Pack.Delta.Rounds.{read_delta_expected_size-Returns}
use webgit.Pack.Delta.Written.{written, delta_loop-Returns, delta_loop-panics}

-- What stands in front of the instructions of a delta, the sizes of the base and of what is rebuilt,
-- and the instructions.
unfoldable pub declared : Bytes → ObjectResult (ℕ × ℕ × Bytes)
declared deltified = do
  (n, base_size) ← read_delta_expected_size deltified
  (m, size) ← read_delta_expected_size (drop n deltified)
  ok (base_size, size, drop m (drop n deltified))

declared_parts :
    (deltified : Bytes) (base_size size : ℕ) (instructions : Bytes)
    → declared deltified ≡ ok (base_size, size, instructions)
    → (n : ℕ) × (m : ℕ) × (read_delta_expected_size deltified ≡ ok (n, base_size))
      × (read_delta_expected_size (drop n deltified) ≡ ok (m, size))
      × (drop m (drop n deltified) ≡ instructions)
unfolding declared
declared_parts deltified base_size size instructions e =
    let ((n, b), e1, k1) = bind-eq_ok (read_delta_expected_size deltified) _ e in
    let ((m, r), e2, k2) = bind-eq_ok (read_delta_expected_size (drop n deltified)) _ k1 in
    (n, m, cc, cc, cc)

-- The body that the instructions append fits the buffer that the declared size reserves, or is less
-- than 2 ^ 30 bytes, so that a buffer that doubles is still one.
abbrev pub Fits : Bytes → ℕ → Bytes → Type 0
Fits base size instructions =
    (reserved size ≤ isize_max)
    × ((written (length instructions) base instructions ≤ reserved size)
        ⊎ (written (length instructions) base instructions < 2 ^ 30))

rebuild-Returns :
    (base instructions : Bytes) (size : ℕ)
    → Fits base size instructions
    → Returns (rebuild base instructions size)
unfolding rebuild with_capacity
rebuild-Returns base instructions size (least, room) =
    let fits : ltb isize_max (reserved size) ≡ false = ground arith in
    rw fits (
      Returns-bind (delta_loop (length instructions) base instructions (reserved size) []) _
        (delta_loop-Returns (length instructions) base instructions (reserved size) [] (omega arith)
          (elim room [ inl l ↦ inl (omega arith) | inr l ↦ inr (omega arith) ]))
        λ body e. Returns-if (not (size == length body)) _ _ tt tt)

rebuild_over :
    (base instructions : Bytes) (size : ℕ)
    → (isize_max < reserved size) ⊎ (isize_max < written (length instructions) base instructions)
    → rebuild base instructions size ≡ panic
unfolding rebuild with_capacity
rebuild_over base instructions size h = elim (Bool-cases (ltb isize_max (reserved size))) [
  | inl over ↦ rw over refl
  | inr fits ↦
      (let least : reserved size ≤ isize_max = ground arith in
        let more : isize_max < written (length instructions) base instructions = elim h [
          | inl k ↦ absurd (omega arith)
          | inr k ↦ k
        ] in
        rw
          (
            fits,
            delta_loop-panics (length instructions) base instructions (reserved size) []
                (omega arith) least (omega arith) (omega arith),
          )
          refl)
]

-- A delta of any bytes is applied without a panic, and the result is the body or an error, if, where
-- its header parses and declares the size of the base, the result that it declares is not from
-- 2 ^ 31 up to 2 ^ 32 bytes, and its instructions append no more bytes than the declared size
-- reserves, or less than 2 ^ 30.
pub apply_delta-Returns :
    (deltified base : Bytes)
    → ((size : ℕ) (instructions : Bytes)
        → declared deltified ≡ ok (length base, size, instructions)
        → Fits base size instructions)
    → Returns (apply_delta deltified base)
unfolding apply_delta declared
apply_delta-Returns deltified base fits =
    Returns-bind (read_delta_expected_size deltified) _ (read_delta_expected_size-Returns deltified)
      λ (n, base_size) e. elim (Bool-cases (base_size == length base)) [
        | inr ne ↦ rw ne tt
        | inl same ↦ rw same (
            Returns-bind (read_delta_expected_size (drop n deltified)) _
              (read_delta_expected_size-Returns (drop n deltified))
              λ (m, size) e'.
                let q : base_size ≡ length base = (==_iff base_size (length base)).0 same in
                rebuild-Returns base (drop m (drop n deltified)) size
                  (fits size (drop m (drop n deltified)) (rw (e, e', q) refl)))
      ]

-- A delta that declares the size of its base panics, and returns no error, if it declares a result
-- of 2 ^ 31 bytes or more that a `usize` can count, or if its instructions append 2 ^ 31 bytes or
-- more before the first that is malformed, whatever result it declares.
pub apply_delta_panics :
    (deltified base : Bytes) (size : ℕ) (instructions : Bytes)
    → declared deltified ≡ ok (length base, size, instructions)
    → (isize_max < reserved size) ⊎ (isize_max < written (length instructions) base instructions)
    → apply_delta deltified base ≡ panic
unfolding apply_delta
apply_delta_panics deltified base size instructions e over =
    let (n, m, e1, e2, e3) = declared_parts deltified (length base) size instructions e in
    rw (e1, ==_self (length base), e2, e3) (rebuild_over base instructions size over)

rebuild_size :
    (base instructions body : Bytes) (size : ℕ)
    → rebuild base instructions size ≡ ok body
    → size ≡ length body
unfolding rebuild
rebuild_size base instructions body size e =
    let (capacity, e1, k1) = bind-eq_ok (with_capacity (reserved size)) _ e in
    let (out, e2, k2) =
      bind-eq_ok (delta_loop (length instructions) base instructions capacity []) _ k1 in
    ground arith

second_size :
    (rest base body : Bytes)
    → (do (m, size) ← read_delta_expected_size rest; rebuild base (drop m rest) size) ≡ ok body
    → (m : ℕ) × (read_delta_expected_size rest ≡ ok (m, length body))
second_size rest base body e =
    let ((m, size), e1, k1) = bind-eq_ok (read_delta_expected_size rest) _ e in
    (m, rw (← rebuild_size base (drop m rest) body size k1) e1)

both_sizes :
    (rest base body : Bytes) (b : ℕ)
    → (if not (b == length base)
        then err malformed_delta
        else do (m, size) ← read_delta_expected_size rest; rebuild base (drop m rest) size)
      ≡ ok body
    → (b ≡ length base) × ((m : ℕ) × (read_delta_expected_size rest ≡ ok (m, length body)))
both_sizes rest base body b e = elim (Bool-cases (b == length base)) [
  | inr ne ↦ absurd (cc (rw ne at e))
  | inl same ↦ ((==_iff b (length base)).0 same, second_size rest base body (rw same at e))
]

-- What `apply_delta` accepts is what the delta's header declares: the base has the first size, and
-- the body that comes back has the second.
apply_delta_sizes :
    (deltified base body : Bytes)
    → apply_delta deltified base ≡ ok body
    → (instructions : Bytes) × (declared deltified ≡ ok (length base, length body, instructions))
unfolding apply_delta declared
apply_delta_sizes deltified base body e =
    let ((n, b), e1, k1) = bind-eq_ok (read_delta_expected_size deltified) _ e in
    let (same, (m, e2)) = both_sizes (drop n deltified) base body b k1 in
    (drop m (drop n deltified), rw (e1, e2, same) refl)
