-- ===== src/Fs/Pages/Copies.antt =====
-- What a read has copied is the file's.
use webgit.Base.{
  ℕ, ◌+◌, ◌-◌, ◌*◌, ◌%◌, ◌^◌, ◌≤◌, ◌<◌, arith, ◌≡◌, refl, sym, ap, ◌∙◌, min, Bytes, length, take,
  drop, ◌++◌,
}
use webgit.Base.{
  ◌⊎◌, leb→le, take_over, take-drop-take, drop-drop, length-take, length-drop, take-append-take,
  get_range, length-append, leb, le→leb, ltb, ◌||◌, Bool-cases, inl, inr, true, false, some,
}
use webgit.Base.{ok, err, panic, stuck, isize_max}
use webgit.Fs.Pages.{
  page_size, PageResult, Request, first_page, last_page, Task, looking, waiting, fetching, copying,
  reading, finished, cancelled, ensured, after_fetch, copy_page, after_run,
}
use webgit.Fs.Pages.Runs.{IsAligned}

-- The two ways in which the loop that copies stops, and the one in which it does not.
not_leb→lt : (a b : ℕ) → leb a b ≡ false → b < a
not_leb→lt a b h = ground arith

short_of : (a b c : ℕ) → (ltb a page_size || leb b c) ≡ true → leb b c ≡ false → a < page_size
short_of a b c t q = ground arith

goes_over : (a b c : ℕ) → (ltb a page_size || leb b c) ≡ false → (page_size ≤ a) × (c < b)
goes_over a b c f = (ground arith, ground arith)

module _ (readahead : ℕ) (contents : Bytes) where
  -- A read that starts in the file, and whose offsets stay far from the end of the machine's words.
  pub record IsRead (req : Request) : Type 0 where
    pub inside : req.offset ≤ length contents
    pub some_bytes : 0 < req.len
    pub fits : req.offset + req.len + readahead + 8 * page_size < 2 ^ 64

  -- A run of the pages that the read asks for, with the readahead, fits a buffer.
  abbrev pub IsRoomy : Request → Type 0
  IsRoomy req = req.len + readahead + 4 * page_size ≤ isize_max

  -- The bytes that the read asks for.
  abbrev pub wanted : Request → Bytes
  wanted req = take req.len (drop req.offset contents)

  pub record Copied (req : Request) (page_offset page_start : ℕ) (out : Bytes) : Type 0 where
    pub read : IsRead req
    at_cursor : page_offset + page_start ≡ req.offset + length out
    on_page : page_start < page_size
    pub more : length out < req.len
    in_file : page_offset + page_start ≤ length contents
    so_far : out ≡ take (length out) (drop req.offset contents)

  abbrev pub Answers : Request → PageResult Bytes → Type 0
  Answers req (ok out) = out ≡ wanted req
  Answers req (err e) = Unit
  Answers req panic = ⊥
  Answers req stuck = ⊥

  -- What holds of a read wherever it stands.
  abbrev pub Right : Task → Type 0
  Right (looking req cursor) =
      IsRead req
      × (first_page req ≤ cursor)
      × (cursor < last_page req + page_size)
      × IsAligned cursor
  Right (waiting req cursor completion) =
      IsRead req
      × (first_page req ≤ cursor)
      × (cursor < last_page req + page_size)
      × IsAligned cursor
  Right (fetching req start end completion) =
      IsRead req
      × IsAligned start
      × (first_page req ≤ start)
      × (end < last_page req + readahead + 3 * page_size)
      × ((n : ℕ) × (end ≡ start + n * page_size) × (end < 2 ^ 64))
  Right (copying req page_offset page_start out) = Copied req page_offset page_start out
  Right (reading req page_offset page_start out) = Copied req page_offset page_start out
  Right (finished req r) = IsRoomy req → Answers req r
  Right (cancelled req) = Unit

  pub ensured-Right : (req : Request) → IsRead req → Right (ensured req)
  unfolding ensured
  ensured-Right req r = record {
    read = r;
    at_cursor = omega (arith, r.inside);
    on_page = omega arith;
    more = r.some_bytes;
    in_file = omega (arith, r.inside);
    so_far = refl;
  }

  pub after_fetch-Right :
      (req : Request) (start end : ℕ) (buf : Bytes)
      → IsRead req
      → first_page req ≤ end
      → IsAligned end
      → Right (after_fetch req start end buf)
  unfolding after_fetch
  after_fetch-Right req start end buf r from al =
      elim (Bool-cases (ltb (length buf) (end - start) || ltb (last_page req) end)) [
        | inl t ↦ rw t (ensured-Right req r)
        | inr f ↦ rw f (r, from, ground arith, al)
      ]

  -- The run that a turn of the loop copies goes on from what is there.
  run_goes_on :
      (req : Request) (page_offset page_start k : ℕ) (out : Bytes)
      → Copied req page_offset page_start out
      → page_start + k ≤ page_size
      → out ++ take k (drop page_start (take page_size (drop page_offset contents)))
        ≡ take (length out + k) (drop req.offset contents)
  run_goes_on req page_offset page_start k out c h =
      let run : take k (drop page_start (take page_size (drop page_offset contents)))
          ≡ take k (drop (length out) (drop req.offset contents)) =
        take-drop-take k page_start page_size (drop page_offset contents) h
        ∙ ap (take k) (
            drop-drop page_start page_offset contents
            ∙ ap (λ (i : ℕ). drop i contents) c.at_cursor
            ∙ sym (drop-drop (length out) req.offset contents)) in
      ap (out ++◌) run
      ∙ ap (◌++ take k (drop (length out) (drop req.offset contents))) c.so_far
      ∙ take-append-take (length out) k (drop req.offset contents)

  -- The run is there: the slice of the page is in range.
  run_of_page :
      (page_start n : ℕ) (page : Bytes)
      → page_start ≤ n
      → n ≤ length page
      → get_range page page_start n ≡ some (take (n - page_start) (drop page_start page))
  run_of_page page_start n page h k =
      let l = le→leb page_start n h in let r = le→leb n (length page) k in rw (l, r) refl

  same_bytes :
      (n m : ℕ) (xs : Bytes) → (n ≡ m) ⊎ ((length xs ≤ n) × (length xs ≤ m)) → take n xs ≡ take m xs
  same_bytes n m xs (inl e) = rw e refl
  same_bytes n m xs (inr (h, k)) = take_over n xs h ∙ sym (take_over m xs k)

  pub copy_page-Right :
      (req : Request) (page_offset page_start : ℕ) (out page : Bytes)
      → Copied req page_offset page_start out
      → page ≡ take page_size (drop page_offset contents)
      → Right (copy_page req page_offset page_start out page)
  unfolding copy_page after_run
  copy_page-Right req page_offset page_start out page c e =
      let size : length page ≡ min page_size (length contents - page_offset) =
        ap length e
        ∙ length-take page_size (drop page_offset contents)
        ∙ ap (min page_size) (length-drop page_offset contents) in
      let page_end : ℕ = min (length page) (page_start + req.len - length out) in
      let in_page : page_end ≤ length page = omega arith in
      let starts : page_start ≤ page_end =
        omega (arith, c.at_cursor, c.on_page, c.more, c.in_file) in
      let k : ℕ = page_end - page_start in
      let run : Bytes = take k (drop page_start page) in
      let run_size : length run ≡ k =
        length-take k (drop page_start page) ∙ omega (arith, length-drop page_start page) in
      let total : length (out ++ run) ≡ length out + k =
        length-append out run ∙ ap (length out +◌) run_size in
      let goes_on : out ++ run ≡ take (length out + k) (drop req.offset contents) =
        ap (λ (q : Bytes). out ++ take k (drop page_start q)) e
        ∙ run_goes_on req page_offset page_start k out c (omega arith) in
      let slice = run_of_page page_start page_end page starts in_page in
      elim (Bool-cases (ltb (length page) page_size || leb req.len (length (out ++ run)))) [
        | inl t ↦
            (let reach : (length out + k ≡ req.len)
                  ⊎ ((length (drop req.offset contents) ≤ length out + k)
                      × (length (drop req.offset contents) ≤ req.len)) =
                elim (Bool-cases (leb req.len (length (out ++ run)))) [
                  | inl q ↦ (let le = leb→le _ _ q in inl (omega arith))
                  | inr q ↦
                      (let short : length page < page_size =
                          short_of (length page) req.len (length (out ++ run)) t q in
                        let le : length (out ++ run) < req.len = not_leb→lt _ _ q in
                        inr (
                          omega (arith, c.at_cursor, length-drop req.offset contents),
                          omega (arith, c.at_cursor, length-drop req.offset contents),
                        ))
                ] in
              rw (copy_page, slice, t)
                (λ roomy. goes_on ∙ same_bytes (length out + k) req.len _ reach))
        | inr f ↦
            (let (full, le) = goes_over (length page) req.len (length (out ++ run)) f in
              let m : (page_offset + page_size) % 2 ^ 64 ≡ page_offset + page_size =
                omega (arith, c.at_cursor, c.read.fits) in
              rw (copy_page, slice, f, m)
                (record {
                  read = c.read;
                  at_cursor = omega (arith, c.at_cursor);
                  on_page = omega arith;
                  more = le;
                  in_file = omega arith;
                  so_far = goes_on ∙ ap (λ (n : ℕ). take n (drop req.offset contents)) (sym total);
                }))
      ]
