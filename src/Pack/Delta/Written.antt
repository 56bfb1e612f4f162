-- ===== src/Pack/Delta/Written.antt =====
-- What the instructions of a delta append, and the buffer that takes it.
use webgit.Base.{ℕ, zero, suc, ◌+◌, ◌≤◌, Bytes, [], ◌∷◌, ◌++◌}
use webgit.Base.{◌≡◌, refl, arith, length, ok, err, panic, false}
use webgit.Base.{
  ltb, leb, max, ◌*◌, ◌<◌, ◌^◌, ◌⊎◌, length-append, stuck, Bool-cases, inl, inr, Returns,
  Returns-bind,
}
use webgit.Pack.{ObjectResult}
use webgit.Pack.Delta.{run_instruction, delta_loop, extend_from_slice, isize_max}
use webgit.Pack.Delta.Rounds.{run_instruction-Returns, run_instruction_parts}

-- What the instructions append, up to the first that is malformed: no buffer limits it.
unfoldable pub then_written : ObjectResult (Bytes × Bytes) → (Bytes → ℕ) → ℕ
then_written (ok (rest, run)) more = length run + more rest
then_written (err e) more = 0
then_written panic more = 0
then_written stuck more = 0

unfoldable pub written : ℕ → Bytes → Bytes → ℕ
written fuel base [] = 0
written zero base (i ∷ rest) = 0
written (suc fuel) base (i ∷ rest) = then_written (run_instruction base i rest) (written fuel base)

-- What is still to come fits the buffer, or whatever it may grow to fits.
abbrev pub Room : ℕ → ℕ → Type 0
Room capacity total = (total ≤ capacity) ⊎ (total < 2 ^ 30)

extend_from_slice-Room :
    (capacity more : ℕ) (body run : Bytes)
    → Room capacity (length body + (length run + more))
    → (capacity' : ℕ) × (extend_from_slice capacity body run ≡ ok (capacity', body ++ run))
      × Room capacity' (length (body ++ run) + more)
unfolding extend_from_slice
extend_from_slice-Room capacity more body run h =
    let total = length-append body run in
    elim (Bool-cases (leb (length body + length run) capacity)) [
      | inl room ↦
          (capacity, rw room refl, elim h [ inl l ↦ inl (omega arith) | inr l ↦ inr (omega arith) ])
      | inr full ↦
          (let over : capacity < length body + length run = ground arith in
            let low : length body + (length run + more) < 2 ^ 30 = elim h [
              | inl l ↦ absurd (omega arith)
              | inr l ↦ l
            ] in
            let fits : ltb isize_max (max 8 (max (2 * capacity) (length body + length run)))
                ≡ false =
              ground arith in
            (
              max 8 (max (2 * capacity) (length body + length run)),
              rw (full, fits) refl,
              inr (omega arith),
            ))
    ]

-- The loop ends: the fuel that `apply_delta` gives it is enough.
pub delta_loop-Returns :
    (fuel : ℕ) (base rest : Bytes) (capacity : ℕ) (body : Bytes)
    → length rest ≤ fuel
    → Room capacity (length body + written fuel base rest)
    → Returns (delta_loop fuel base rest capacity body)
unfolding delta_loop written then_written
delta_loop-Returns fuel base [] capacity body h room = tt
delta_loop-Returns zero base (i ∷ rest) capacity body h room = absurd (omega arith)
delta_loop-Returns (suc fuel) base (i ∷ rest) capacity body h room =
    Returns-bind (run_instruction base i rest) _ (run_instruction-Returns base i rest)
      λ (rest', run) e.
        let (capacity', extends, room') =
          extend_from_slice-Room capacity (written fuel base rest') body run (rw e at room) in
        rw extends (
          delta_loop-Returns fuel base rest' capacity' (body ++ run)
            (omega (arith, run_instruction_parts base i rest rest' run e)) room')

-- A buffer takes a run, and is then no larger than an allocation may be, or it panics.
extend_from_slice-cases :
    (capacity : ℕ) (body run : Bytes)
    → capacity ≤ isize_max
    → (extend_from_slice capacity body run ≡ panic)
      ⊎ ((capacity' : ℕ) × (extend_from_slice capacity body run ≡ ok (capacity', body ++ run))
          × (capacity' ≤ isize_max)
          × (length (body ++ run) ≤ isize_max))
unfolding extend_from_slice
extend_from_slice-cases capacity body run h =
    let total = length-append body run in
    let grown = max 8 (max (2 * capacity) (length body + length run)) in
    elim (Bool-cases (leb (length body + length run) capacity)) [
      | inl room ↦
          (let le : length body + length run ≤ capacity = ground arith in
            inr (capacity, rw room refl, h, omega arith))
      | inr full ↦ elim (Bool-cases (ltb isize_max grown)) [
        | inl over ↦ inl (rw (full, over) refl)
        | inr fits ↦
            (let le : grown ≤ isize_max = ground arith in
              inr (grown, rw (full, fits) refl, le, omega arith))
      ]
    ]

-- A loop whose instructions append more than any buffer holds panics: no size is compared before.
pub delta_loop-panics :
    (fuel : ℕ) (base rest : Bytes) (capacity : ℕ) (body : Bytes)
    → length rest ≤ fuel
    → capacity ≤ isize_max
    → length body ≤ isize_max
    → isize_max < length body + written fuel base rest
    → delta_loop fuel base rest capacity body ≡ panic
unfolding delta_loop written then_written
delta_loop-panics fuel base [] capacity body h least small over = absurd (omega arith)
delta_loop-panics zero base (i ∷ rest) capacity body h least small over = absurd (omega arith)
delta_loop-panics (suc fuel) base (i ∷ rest) capacity body h least small over =
    go (delta_loop-panics fuel base) (run_instruction base i rest) refl
  where
    go :
        ((rest' : Bytes) (capacity' : ℕ) (body' : Bytes)
          → length rest' ≤ fuel
          → capacity' ≤ isize_max
          → length body' ≤ isize_max
          → isize_max < length body' + written fuel base rest'
          → delta_loop fuel base rest' capacity' body' ≡ panic)
        → (m : ObjectResult (Bytes × Bytes)) → run_instruction base i rest ≡ m
        → delta_loop (suc fuel) base (i ∷ rest) capacity body ≡ panic
    go again (ok (rest', run)) e =
        let shorter = run_instruction_parts base i rest rest' run e in
        let more = rw e at over in
        rw e (elim (extend_from_slice-cases capacity body run least) [
          | inl p ↦ rw p refl
          | inr (capacity', extends, least', small') ↦ rw extends (
              again rest' capacity' (body ++ run) (omega arith) least' small'
                (omega (arith, more, length-append body run)))
        ])
    go again (err x) e = (let more = rw e at over in absurd (omega (arith, more)))
    go again panic e = rw e refl
    go again stuck e = (let more = rw e at over in absurd (omega (arith, more)))
