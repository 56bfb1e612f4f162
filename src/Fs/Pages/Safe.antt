-- ===== src/Fs/Pages/Safe.antt =====
-- Reads that share a cache return what is in the file, however their steps interleave.
use webgit.Base.{
  ℕ, suc, ◌+◌, ◌-◌, ◌*◌, ◌≤◌, ◌<◌, arith, ◌≡◌, refl, sym, ap, ◌∙◌, subst, Bytes, take, drop,
}
use webgit.Base.{Bool-cases, inl, inr, ◌==◌, some, none, ok, Option, ◌/◌}
use webgit.Fs.Lru.Values.{Values-get, get-Values, Values-insert, new-Values}
use webgit.Fs.Pages.{
  page_size, PageCacheState, NextStep, wait, fetch, next_step, push_run, PageResult, Request,
  first_page, last_page, Task, looking, waiting, fetching, copying, reading, finished, cancelled,
  begin, after_look, cached_page, keep_page, drop_guard,
}
use webgit.Fs.Pages.Runs.{IsAligned, Gives, Decision, next_step-Decision}
use webgit.Fs.Pages.Values.{IsPage, Pages, land-Pages}
use webgit.Fs.Pages.Copies.{
  IsRead, IsRoomy, Answers, Right, ensured-Right, after_fetch-Right, copy_page-Right,
}
use webgit.Fs.Pages.Keeps.{Reach-request_of}
use webgit.Fs.Pages.System.{
  Move, look, wake, fetched, not_fetched, too_long, hit, miss, got, not_got, cancel, on_drop,
  System, Step, pick, Reach, initial, later, request_of,
}

module _ (readahead : ℕ) (contents : Bytes) where
  abbrev Good : PageCacheState → Task → Type 0
  Good state task = Pages contents state.pages × Right readahead contents task

  begin-Right :
      (req : Request)
      → (0 < req.len → IsRead readahead contents req)
      → Right readahead contents (begin req)
  unfolding begin
  begin-Right req r = elim (Bool-cases (req.len == 0)) [
    | inl t ↦
        (let z : req.len ≡ 0 = ground arith in
          rw t (λ roomy. ap (λ (n : ℕ). take n (drop req.offset contents)) (sym z)))
    | inr f ↦
        (let pos : 0 < req.len = ground arith in
          rw f (r pos, omega arith, omega arith, (req.offset / page_size, refl)))
  ]

  decided :
      (state state' : PageCacheState) (req : Request) (cursor : ℕ) (s : NextStep)
      → IsRead readahead contents req
      → first_page req ≤ cursor
      → cursor < last_page req + page_size
      → IsAligned cursor
      → Pages contents state.pages
      → Decision readahead state cursor (last_page req) (s, state')
      → Good state' (after_look req cursor s)
  unfolding after_look push_run
  decided state state' req cursor NextStep.done r from lt al p e =
      (rw e p, ensured-Right readahead contents req r)
  decided state state' req cursor (wait completion) r from lt al p (e, at) =
      (rw e p, (r, from, lt, al))
  decided state state' req cursor (fetch start end completion) r from lt al p
        (e, fresh, start_al, start_from, start_lt, (n, whole, bound, free)) =
      (rw e p, (r, start_al, omega arith, omega arith, (suc n, whole, omega (arith, r.fits))))

  pub ok-Decision :
      (state state' : PageCacheState) (req : Request) (cursor : ℕ) (s : NextStep)
      → IsRead readahead contents req
      → first_page req ≤ cursor
      → cursor < last_page req + page_size
      → IsAligned cursor
      → next_step readahead state cursor (last_page req) ≡ ok (s, state')
      → Decision readahead state cursor (last_page req) (s, state')
  ok-Decision state state' req cursor s r from lt al e =
      subst (λ m. Gives m (Decision readahead state cursor (last_page req))) e
        (next_step-Decision readahead state cursor (last_page req) lt al (omega (arith, r.fits)))

  on_drop-pages : (task : Task) (state : PageCacheState) → (on_drop task state).pages ≡ state.pages
  unfolding on_drop drop_guard
  on_drop-pages (looking req cursor) state = refl
  on_drop-pages (waiting req cursor completion) state = refl
  on_drop-pages (fetching req start end completion) state = refl
  on_drop-pages (copying req page_offset page_start out) state = refl
  on_drop-pages (reading req page_offset page_start out) state = refl
  on_drop-pages (finished req r) state = refl
  on_drop-pages (cancelled req) state = refl

  cached_page-Pages :
      (state state' : PageCacheState) (page_offset : ℕ) (page : Option Bytes)
      → cached_page page_offset state ≡ (page, state')
      → Pages contents state.pages
      → Pages contents state'.pages
  unfolding cached_page
  cached_page-Pages state state' page_offset page e p =
      subst (λ (r : Option Bytes × PageCacheState). Pages contents r.1.pages) e
        (Values-get (IsPage contents) state.pages page_offset p)

  cached_page-IsPage :
      (state state' : PageCacheState) (page_offset : ℕ) (page : Bytes)
      → cached_page page_offset state ≡ (some page, state')
      → Pages contents state.pages
      → IsPage contents page_offset page
  unfolding cached_page
  cached_page-IsPage state state' page_offset page e p =
      get-Values (IsPage contents) state.pages page_offset page p
        (ap (λ (r : Option Bytes × PageCacheState). r.0) e)

  Move-Good :
      {state state' : PageCacheState} {task task' : Task}
      → Move readahead contents state task state' task'
      → Good state task
      → Good state' task'
  unfolding drop_guard keep_page
  Move-Good (look {state} {state'} {req} {cursor} {s} e) (p, (r, from, lt, al)) =
      decided state state' req cursor s r from lt al p
        (ok-Decision state state' req cursor s r from lt al e)
  Move-Good (wake e) (p, r) = (p, r)
  Move-Good (fetched {state} {req} {start} {end} {completion} buf fits e)
        (p, (r, (a, al), from, below, (n, whole, small))) =
      let size : end - start ≡ n * page_size = omega arith in
      (
        land-Pages contents start n completion buf state (omega arith)
            (e ∙ ap (λ (k : ℕ). take k (drop start contents)) size) p,
        after_fetch-Right readahead contents req start end buf r (omega arith) (a + n, omega arith),
      )
  Move-Good (not_fetched e fits) (p, r) = (p, λ roomy. tt)
  Move-Good (too_long {req} {start} {end} over) (p, (r, al, from, below, whole)) =
      (p, λ roomy. absurd (omega (arith, over, roomy, from, below, r.some_bytes)))
  Move-Good (hit {state} {state'} {req} {page_offset} {page_start} {out} {page} e) (p, c) = (
    cached_page-Pages state state' page_offset (some page) e p,
    copy_page-Right readahead contents req page_offset page_start out page c
        (cached_page-IsPage state state' page_offset page e p),
  )
  Move-Good (miss {state} {state'} {page_offset} e) (p, c) =
      (cached_page-Pages state state' page_offset none e p, c)
  Move-Good (got {state} {req} {page_offset} {page_start} {out} page e) (p, c) = (
    Values-insert (IsPage contents) state.pages page_offset page page_size p e,
    copy_page-Right readahead contents req page_offset page_start out page c e,
  )
  Move-Good (not_got e) (p, c) = (p, λ roomy. tt)
  Move-Good (cancel {state} {task = task} e q) (p, r) = (
    subst (λ (t : PageCacheState). Pages contents t.pages) (sym e)
        (subst (Pages contents) (sym (on_drop-pages task state)) p),
    tt,
  )

  -- Every page in the cache is the file's, and every read is right so far.
  pub record AllGood (s : System) : Type 0 where
    pub cache : Pages contents s.state.pages
    pub reads : (i : ℕ) → Right readahead contents (s.tasks i)

  Step-AllGood : {s t : System} → Step readahead contents s t → AllGood s → AllGood t
  Step-AllGood (pick {s} {state'} {task'} i m) g =
      let (p, r) = Move-Good m (g.cache, g.reads i) in
      record {
        cache = p;
        reads = λ j. elim (Bool-cases (j == i)) [ inl e ↦ rw e r | inr e ↦ rw e (g.reads j) ];
      }

  pub Reach-AllGood :
      {limit : ℕ} {requests : ℕ → Request} {s : System}
      → ((i : ℕ) → 0 < (requests i).len → IsRead readahead contents (requests i))
      → Reach readahead limit contents requests s
      → AllGood s
  Reach-AllGood {limit} {requests} r initial = record {
    cache = new-Values (IsPage contents) limit;
    reads = λ i. begin-Right (requests i) (r i);
  }
  Reach-AllGood r (later reach m) = Step-AllGood m (Reach-AllGood r reach)

  -- However the reads that share a cache interleave, are cancelled or fail, if each starts inside the
  -- file and far from the end of the machine's words, a read whose length, with the readahead and
  -- four pages, is below 2 ^ 31 does not panic, and where it ends without an error it has copied
  -- exactly the bytes of the file from its offset on, as many as it asked for or the file has.
  pub Reach-Answers :
      {limit : ℕ} {requests : ℕ → Request} {s : System}
      → ((i : ℕ) → 0 < (requests i).len → IsRead readahead contents (requests i))
      → Reach readahead limit contents requests s
      → (i : ℕ) → IsRoomy readahead contents (requests i)
      → (req : Request) (r : PageResult Bytes) → s.tasks i ≡ finished req r
      → Answers readahead contents (requests i) r
  unfolding request_of
  Reach-Answers {requests} {s} h reach i roomy req r e =
      let same : req ≡ requests i = sym (ap request_of e) ∙ Reach-request_of reach i in
      subst (λ (q : Request). Answers readahead contents q r) same
        (subst (Right readahead contents) e ((Reach-AllGood h reach).reads i)
          (subst (IsRoomy readahead contents) (sym same) roomy))
