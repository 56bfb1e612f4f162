-- ===== src/Fs/Pages/Values.antt =====
-- The pages in the cache are the file's.
use webgit.Base.{
  ℕ, zero, suc, ◌+◌, ◌-◌, ◌*◌, ◌/◌, ◌%◌, ◌^◌, ◌≤◌, ◌<◌, arith, ◌≡◌, ap, ◌∙◌, Bytes, length, take,
  drop,
}
use webgit.Base.{take-drop-take, drop-take, drop-drop, length-take}
use webgit.Fs.Lru.{ByteLru}
use webgit.Fs.Lru.Values.{Values, Values-insert}
use webgit.Fs.Pages.{page_size, insert_chunks, PageCacheState, land, drop_guard}

module _ (contents : Bytes) where
  -- What a page's value ought to be.
  abbrev pub IsPage : ℕ → Bytes → Type 0
  IsPage page_offset page = page ≡ take page_size (drop page_offset contents)

  abbrev pub Pages : ByteLru Bytes → Type 0
  Pages pages = Values IsPage pages.entries

  insert_chunks-Pages :
      (n m start : ℕ) (buf : Bytes) (pages : ByteLru Bytes)
      → n * page_size ≤ m
      → start + m < 2 ^ 64
      → buf ≡ take m (drop start contents)
      → Pages pages
      → Pages (insert_chunks n start buf pages)
  unfolding insert_chunks
  insert_chunks-Pages zero m start buf pages h small e p = p
  insert_chunks-Pages (suc n) m start buf pages h small e p =
      let o : (start + page_size) % 2 ^ 64 ≡ start + page_size = omega arith in
      let first : take page_size buf ≡ take page_size (drop start contents) =
        ap (take page_size) e ∙ take-drop-take page_size 0 m (drop start contents) (omega arith) in
      let rest : drop page_size buf ≡ take (m - page_size) (drop (start + page_size) contents) =
        ap (drop page_size) e
        ∙ drop-take page_size m (drop start contents)
        ∙ ap (take (m - page_size)) (drop-drop page_size start contents) in
      rw (insert_chunks, o)
        (insert_chunks-Pages n (m - page_size) (start + page_size) (drop page_size buf) _
          (omega arith) (omega arith) rest
          (Values-insert IsPage pages start (take page_size buf) page_size p first))

  pub land-Pages :
      (start n completion : ℕ) (buf : Bytes) (state : PageCacheState)
      → start + n * page_size < 2 ^ 64
      → buf ≡ take (n * page_size) (drop start contents)
      → Pages state.pages
      → Pages (land start completion buf state).pages
  unfolding land drop_guard
  land-Pages start n completion buf state small e p =
      let short : length buf ≤ n * page_size =
        (rw e (omega (arith, length-take (n * page_size) (drop start contents)))) in
      insert_chunks-Pages ((length buf + (page_size - 1)) / page_size) (n * page_size) start buf
        state.pages (omega arith) small e p
