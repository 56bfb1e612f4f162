-- ===== src/Fs/Pages/Keeps.antt =====
-- A read stays the read that it began as.
use webgit.Base.{
  ℕ, ◌≡◌, refl, ◌∙◌, Bytes, Bool, true, false, Bool-cases, inl, inr, ◌==◌, ltb, leb, length, ◌||◌,
  ◌-◌, ◌++◌, Option, none, some, if◌then◌else◌, arith,
}
use webgit.Fs.Pages.{
  PageCacheState, NextStep, wait, fetch, Request, last_page, Task, begin, ensured, after_look,
  after_fetch, after_run, copy_page, page_size,
}
use webgit.Fs.Pages.System.{
  Move, look, wake, fetched, not_fetched, too_long, hit, miss, got, not_got, cancel, System, pick,
  Reach, initial, later, request_of,
}

if-request_of :
    (b : Bool) (x y : Task) (req : Request)
    → request_of x ≡ req
    → request_of y ≡ req
    → request_of (if b then x else y) ≡ req
if-request_of true x y req h k = h
if-request_of false x y req h k = k

begin-request_of : (req : Request) → request_of (begin req) ≡ req
unfolding begin request_of
begin-request_of req = if-request_of (req.len == 0) _ _ req refl refl

after_look-request_of :
    (req : Request) (cursor : ℕ) (s : NextStep) → request_of (after_look req cursor s) ≡ req
unfolding after_look request_of ensured
after_look-request_of req cursor NextStep.done = refl
after_look-request_of req cursor (wait completion) = refl
after_look-request_of req cursor (fetch start end completion) = refl

after_fetch-request_of :
    (req : Request) (start end : ℕ) (buf : Bytes) → request_of (after_fetch req start end buf) ≡ req
unfolding after_fetch request_of ensured
after_fetch-request_of req start end buf =
    if-request_of (ltb (length buf) (end - start) || ltb (last_page req) end) _ _ req refl refl

copy_page-request_of :
    (req : Request) (page_offset page_start : ℕ) (out page : Bytes)
    → request_of (copy_page req page_offset page_start out page) ≡ req
unfolding copy_page after_run request_of
copy_page-request_of req page_offset page_start out page = go _
  where
    go : (run : Option Bytes) → request_of (after_run req page_offset (length page) out run) ≡ req
    go none = refl
    go (some run) =
        if-request_of (ltb (length page) page_size || leb req.len (length (out ++ run))) _ _ req
          refl refl

module _ {readahead : ℕ} {contents : Bytes} where
  Move-request_of :
      {state state' : PageCacheState} {task task' : Task}
      → Move readahead contents state task state' task'
      → request_of task' ≡ request_of task
  unfolding request_of
  Move-request_of (look {req} {cursor} {s} e) = after_look-request_of req cursor s
  Move-request_of (wake e) = refl
  Move-request_of (fetched {req} {start} {end} buf fits e) =
      after_fetch-request_of req start end buf
  Move-request_of (not_fetched e fits) = refl
  Move-request_of (too_long over) = refl
  Move-request_of (hit {req} {page_offset} {page_start} {out} {page} e) =
      copy_page-request_of req page_offset page_start out page
  Move-request_of (miss e) = refl
  Move-request_of (got {req} {page_offset} {page_start} {out} page e) =
      copy_page-request_of req page_offset page_start out page
  Move-request_of (not_got e) = refl
  Move-request_of (cancel e q) = q

  pub Reach-request_of :
      {limit : ℕ} {requests : ℕ → Request} {s : System}
      → Reach readahead limit contents requests s
      → (i : ℕ) → request_of (s.tasks i) ≡ requests i
  Reach-request_of {requests} initial i = begin-request_of (requests i)
  Reach-request_of {requests} (later reach (pick {s} {task'} j m)) i = elim (Bool-cases (i == j)) [
    | inl e ↦
        (let q : i ≡ j = ground arith in rw (e, q) (Move-request_of m ∙ Reach-request_of reach j))
    | inr e ↦ rw e (Reach-request_of reach i)
  ]
