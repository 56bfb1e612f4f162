-- ===== src/Bundle/Window/Memory.antt =====
-- What the window holds.
use webgit.Base.{
  ℕ, suc, ◌+◌, ◌-◌, ◌%◌, ◌^◌, ◌≤◌, ◌<◌, arith, ◌≡◌, ◌⊎◌, refl, List, [], ◌∷◌, ◌++◌, length, All,
  All-append,
}
use webgit.Base.{◌&&◌, ◌||◌, ltb, Bool-cases, inl, inr}
use webgit.Bundle.Window.{window_len, window_memory_bytes, Candidate, Window, drop_oldest, remember}

unfoldable pub total : List Candidate → ℕ
total [] = 0
total (c ∷ window) = length c.body + total window

-- No slice is longer.
abbrev IsSlice : Candidate → Type 0
IsSlice c = length c.body < 2 ^ 31

-- At most 32 objects, at most 64 MiB of them unless there is only one, and the count is true.
pub record IsWindow (w : Window) : Type 0 where
  pub few : length w.window ≤ window_len
  pub counted : w.window_bytes ≡ total w.window
  pub slices : All IsSlice w.window
  pub fits : (w.window_bytes ≤ window_memory_bytes) ⊎ (length w.window ≤ 1)

total-append :
    (window : List Candidate) (c : Candidate)
    → total (window ++ c ∷ []) ≡ total window + length c.body
unfolding total
total-append [] c = omega arith
total-append (d ∷ window) c = omega (arith, total-append window c)

drop_oldest-IsWindow :
    (window : List Candidate)
    → total window < 2 ^ 32
    → All IsSlice window
    → IsWindow (drop_oldest window (total window))
unfolding drop_oldest total
drop_oldest-IsWindow [] h a = record {
  few = omega arith;
  counted = refl;
  slices = tt;
  fits = inr (omega arith);
}
drop_oldest-IsWindow (c ∷ window) h (s, a) =
    elim (Bool-cases (
      ltb window_len (suc (length window))
      || (ltb window_memory_bytes (length c.body + total window) && ltb 1 (suc (length window))))) [
        | inl e ↦
            (let m : (length c.body + total window + 2 ^ 32 - length c.body) % 2 ^ 32
                  ≡ total window =
                omega arith in
              rw (drop_oldest, e, m) (drop_oldest-IsWindow window (omega arith) a))
        | inr e ↦
            rw (drop_oldest, e)
              (record { few = ground arith; counted = refl; slices = (s, a); fits = ground arith })
      ]

total_small : (w : Window) → IsWindow w → total w.window < 2 ^ 31
unfolding total
total_small w h = go w.window h.slices (within h.fits)
  where
    within :
        (w.window_bytes ≤ window_memory_bytes) ⊎ (length w.window ≤ 1)
        → (total w.window ≤ window_memory_bytes) ⊎ (length w.window ≤ 1)
    within (inl k) = inl (omega (arith, h.counted))
    within (inr k) = inr k

    go :
        (window : List Candidate)
        → All IsSlice window
        → (total window ≤ window_memory_bytes) ⊎ (length window ≤ 1)
        → total window < 2 ^ 31
    go window a (inl k) = omega arith
    go [] a (inr k) = omega arith
    go (c ∷ []) a (inr k) = omega (arith, a.0)
    go (c ∷ d ∷ window) a (inr k) = absurd (omega arith)

-- Remembering an object, whose body is shorter than 2^31 bytes as every slice is, keeps a window of
-- at most 32 objects, that holds at most 64 MiB unless it holds one object, and whose count of its
-- bytes is true.
pub remember-IsWindow :
    (candidate : Candidate) (w : Window)
    → IsWindow w
    → IsSlice candidate
    → IsWindow (remember candidate w)
unfolding remember
remember-IsWindow candidate w h small =
    let now = total_small w h in
    let all = total-append w.window candidate in
    let count : (w.window_bytes + length candidate.body) % 2 ^ 32
        ≡ total (w.window ++ candidate ∷ []) =
      omega (arith, all, now, h.counted) in
    rw (remember, count)
      (drop_oldest-IsWindow (w.window ++ candidate ∷ []) (omega arith)
        (All-append IsSlice w.window (candidate ∷ []) h.slices (small, tt)))
