-- ===== src/Fs/Pages/Registered.antt =====
-- In every reachable state the fetches on their way are those of the reads that fetch.
use webgit.Base.{
  ℕ, suc, ◌+◌, ◌-◌, ◌*◌, ◌<◌, arith, ◌≡◌, refl, sym, ap, ◌∙◌, subst, Bytes, length, ◌||◌,
}
use webgit.Base.{
  Bool, inr, ◌==◌, some, none, err, panic, [], ◌++◌, Option, true, false, leb, ltb, if◌then◌else◌,
}
use webgit.Fs.Lru.{new}
use webgit.Fs.Pages.{
  page_size, PageCacheState, InFlight, NextStep, wait, fetch, push_run, drop_guard, land, Task,
  looking, waiting, fetching, copying, reading, finished, cancelled, Request, begin, ensured,
  after_look, after_fetch, after_run, copy_page, cached_page, keep_page, last_page,
}
use webgit.Fs.Pages.Runs.{Decision}
use webgit.Fs.Pages.Copies.{IsRead, Right}
use webgit.Fs.Pages.Safe.{Reach-AllGood, ok-Decision}
use webgit.Fs.Pages.Flights.{
  Flights, fetch_of, wait_of, quiet-Flights, push-Flights, drop-Flights, new_run-Apart,
  in_flight_at-none, in_flight_at-In,
}
use webgit.Fs.Pages.System.{
  Move, look, wake, fetched, not_fetched, too_long, hit, miss, got, not_got, cancel, on_drop,
  System, update, pick, Reach, initial, later,
}

abbrev IsQuiet : Task → Type 0
IsQuiet t = (fetch_of t ≡ none) × (wait_of t ≡ none)

if-IsQuiet : (b : Bool) (x y : Task) → IsQuiet x → IsQuiet y → IsQuiet (if b then x else y)
if-IsQuiet true x y h k = h
if-IsQuiet false x y h k = k

begin-IsQuiet : (req : Request) → IsQuiet (begin req)
unfolding begin fetch_of wait_of
begin-IsQuiet req = if-IsQuiet (req.len == 0) _ _ (refl, refl) (refl, refl)

after_fetch-IsQuiet :
    (req : Request) (start end : ℕ) (buf : Bytes) → IsQuiet (after_fetch req start end buf)
unfolding after_fetch ensured fetch_of wait_of
after_fetch-IsQuiet req start end buf =
    if-IsQuiet (ltb (length buf) (end - start) || ltb (last_page req) end) _ _ (refl, refl)
      (refl, refl)

copy_page-IsQuiet :
    (req : Request) (page_offset page_start : ℕ) (out page : Bytes)
    → IsQuiet (copy_page req page_offset page_start out page)
unfolding copy_page after_run fetch_of wait_of
copy_page-IsQuiet req page_offset page_start out page = go _
  where
    go : (run : Option Bytes) → IsQuiet (after_run req page_offset (length page) out run)
    go none = (refl, refl)
    go (some run) =
        if-IsQuiet (ltb (length page) page_size || leb req.len (length (out ++ run))) _ _
          (refl, refl) (refl, refl)

pub fetching_of :
    (t : Task) (f : InFlight)
    → fetch_of t ≡ some f
    → (req : Request) × (t ≡ fetching req f.start f.end f.done)
unfolding fetch_of
fetching_of (looking req cursor) f e = cc
fetching_of (waiting req cursor completion) f e = cc
fetching_of (fetching req start end completion) f e =
    let same : record { start = start; end = end; done = completion } ≡ f = cc in
    (req, ap (λ (x : InFlight). fetching req x.start x.end x.done) same)
fetching_of (copying req page_offset page_start out) f e = cc
fetching_of (reading req page_offset page_start out) f e = cc
fetching_of (finished req r) f e = cc
fetching_of (cancelled req) f e = cc

abbrev pub FlightsOf : PageCacheState → (ℕ → Task) → Type 0
FlightsOf state tasks = Flights state.in_flight state.fresh state.completed tasks

module _ (tasks : ℕ → Task) (i : ℕ) where
  -- A step behind which the read neither fetches nor waits, and before which it fetched nothing.
  still-Flights :
      (state : PageCacheState) (t : Task)
      → FlightsOf state tasks
      → fetch_of (tasks i) ≡ none
      → IsQuiet t
      → FlightsOf state (update tasks i t)
  still-Flights state t F old (f, w) = quiet-Flights i t F old f (λ d e. cc)

  decided-Flights :
      (readahead last : ℕ) (state state' : PageCacheState) (req : Request) (cursor : ℕ)
      (s : NextStep)
      → FlightsOf state tasks
      → fetch_of (tasks i) ≡ none
      → Decision readahead state cursor last (s, state')
      → FlightsOf state' (update tasks i (after_look req cursor s))
  unfolding after_look fetch_of wait_of push_run ensured
  decided-Flights readahead last state state' req cursor NextStep.done F old e =
      rw e (still-Flights state (ensured req) F old (refl, refl))
  decided-Flights readahead last state state' req cursor (wait completion) F old (e, (page, at)) =
      rw e (
        quiet-Flights i (waiting req cursor completion) F old refl (λ d q. inr (
          let (f, k, r) = in_flight_at-In state.in_flight page completion at in
          let q' : completion ≡ d = cc in (f, k, r ∙ q'))))
  decided-Flights readahead last state state' req cursor (fetch start end completion) F old
        (e, c, (a, al), from, lt, (n, w, bound, free)) =
      let f : InFlight = record { start = start; end = end; done = state.fresh } in
      rw (e, c)
        (push-Flights i (fetching req start end state.fresh) f F old refl refl refl
          ((a, al), (a + suc n, omega arith), omega arith)
          (λ g k.
            new_run-Apart f g n (a, al) w (F.whole g k)
              (λ m l. in_flight_at-none state.in_flight (start + m * page_size) g (free m l) k)))

  on_drop-Flights :
      (state : PageCacheState) (task : Task) (req : Request)
      → FlightsOf state tasks
      → tasks i ≡ task
      → FlightsOf (on_drop task state) (update tasks i (cancelled req))
  unfolding on_drop fetch_of wait_of drop_guard
  on_drop-Flights state (looking r c) req F e =
      still-Flights state (cancelled req) F (ap fetch_of e) (refl, refl)
  on_drop-Flights state (waiting r c d) req F e =
      still-Flights state (cancelled req) F (ap fetch_of e) (refl, refl)
  on_drop-Flights state (fetching r start end completion) req F e =
      drop-Flights i (cancelled req) (record { start = start; end = end; done = completion }) F
        (ap fetch_of e) refl refl
  on_drop-Flights state (copying r p q out) req F e =
      still-Flights state (cancelled req) F (ap fetch_of e) (refl, refl)
  on_drop-Flights state (reading r p q out) req F e =
      still-Flights state (cancelled req) F (ap fetch_of e) (refl, refl)
  on_drop-Flights state (finished r x) req F e =
      still-Flights state (cancelled req) F (ap fetch_of e) (refl, refl)
  on_drop-Flights state (cancelled r) req F e =
      still-Flights state (cancelled req) F (ap fetch_of e) (refl, refl)

  cached_page-Flights :
      (state state' : PageCacheState) (page_offset : ℕ) (page : Option Bytes) (t : Task)
      → cached_page page_offset state ≡ (page, state')
      → FlightsOf state (update tasks i t)
      → FlightsOf state' (update tasks i t)
  unfolding cached_page
  cached_page-Flights state state' page_offset page t e F =
      subst (λ (r : Option Bytes × PageCacheState). FlightsOf r.1 (update tasks i t)) e F

  module _ (readahead : ℕ) (contents : Bytes) where
    Move-Flights :
        {state state' : PageCacheState} {task task' : Task}
        → Move readahead contents state task state' task'
        → tasks i ≡ task
        → Right readahead contents task
        → FlightsOf state tasks
        → FlightsOf state' (update tasks i task')
    unfolding fetch_of wait_of drop_guard land keep_page
    Move-Flights (look {state} {state'} {req} {cursor} {s} m) e (r, from, lt, al) F =
        decided-Flights readahead (last_page req) state state' req cursor s F (ap fetch_of e)
          (ok-Decision readahead contents state state' req cursor s r from lt al m)
    Move-Flights (wake {state} {req} {cursor} m) e r F =
        still-Flights state (looking req cursor) F (ap fetch_of e) (refl, refl)
    Move-Flights (fetched {state} {req} {start} {end} {completion} buf fits m) e r F =
        let (f, w) = after_fetch-IsQuiet req start end buf in
        drop-Flights i (after_fetch req start end buf)
          (record { start = start; end = end; done = completion }) F (ap fetch_of e) f w
    Move-Flights (not_fetched {state} {req} {start} {end} {completion} x fits) e r F =
        drop-Flights i (finished req (err x))
          (record { start = start; end = end; done = completion }) F (ap fetch_of e) refl refl
    Move-Flights (too_long {state} {req} {start} {end} {completion} over) e r F =
        drop-Flights i (finished req panic) (record { start = start; end = end; done = completion })
          F (ap fetch_of e) refl refl
    Move-Flights (hit {state} {state'} {req} {page_offset} {page_start} {out} {page} m) e r F =
        cached_page-Flights state state' page_offset (some page) _ m (
          still-Flights state _ F (ap fetch_of e)
            (copy_page-IsQuiet req page_offset page_start out page))
    Move-Flights (miss {state} {state'} {req} {page_offset} {page_start} {out} m) e r F =
        cached_page-Flights state state' page_offset none _ m (
          still-Flights state (reading req page_offset page_start out) F (ap fetch_of e)
            (refl, refl))
    Move-Flights (got {state} {req} {page_offset} {page_start} {out} page m) e r F =
        still-Flights state _ F (ap fetch_of e)
          (copy_page-IsQuiet req page_offset page_start out page)
    Move-Flights (not_got {state} {req} x) e r F =
        still-Flights state (finished req (err x)) F (ap fetch_of e) (refl, refl)
    Move-Flights (cancel {state} {task = task} {req} m q) e r F =
        subst (λ (s : PageCacheState). FlightsOf s (update tasks i (cancelled req))) (sym m)
          (on_drop-Flights state task req F e)

initial-Flights :
    (limit : ℕ) (requests : ℕ → Request)
    → FlightsOf
        (record { pages = new limit; in_flight = []; fresh = 0; completed = [] })
        (λ i. begin (requests i))
initial-Flights limit requests = record {
  owner = λ f k. absurd k.0;
  registered = λ i f e. (let q = (begin-IsQuiet (requests i)).0 in cc);
  unique = λ i j f g e e' q. (let q = (begin-IsQuiet (requests i)).0 in cc);
  older = λ f k. absurd k.0;
  whole = λ f k. absurd k.0;
  apart = λ f g k l ne. absurd k.0;
  waits = λ i d e. (let q = (begin-IsQuiet (requests i)).1 in cc);
}

module _ {readahead limit : ℕ} {contents : Bytes} {requests : ℕ → Request} where
  pub Reach-Flights :
      {s : System}
      → ((i : ℕ) → 0 < (requests i).len → IsRead readahead contents (requests i))
      → Reach readahead limit contents requests s
      → FlightsOf s.state s.tasks
  Reach-Flights r initial = initial-Flights limit requests
  Reach-Flights r (later reach (pick {s} i m)) =
      Move-Flights s.tasks i readahead contents m refl
        ((Reach-AllGood readahead contents r reach).reads i) (Reach-Flights r reach)
