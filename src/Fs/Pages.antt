-- ===== src/Fs/Pages.antt =====
-- crates/gib-fs/src/page_read.rs: a file read in pages, over a cache of pages that reads share.
-- A task is a read between two of its awaits. A completion is a number; the state holds the next
-- unused one and those that have fired, which are their `Rc`s in the code.
pub mod System
pub mod Runs
pub mod Values
pub mod Copies
pub mod Safe
pub mod Keeps
pub mod Flights
pub mod Registered
pub mod Wakes
mod Examples
use webgit.Base.{
  ℕ, zero, suc, ◌+◌, ◌-◌, ◌*◌, ◌/◌, ◌%◌, ◌^◌, min, max, Bytes, length, take, drop, get_range,
}
use webgit.Base.{
  List, [], ◌∷◌, ◌++◌, Bool, true, false, not, ◌&&◌, ◌||◌, ltb, leb, ◌==◌, if◌then◌else◌,
}
use webgit.Base.{Option, none, some, Outcome, ok, err, panic, stuck, ◌>>=◌}
use webgit.Fs.{FileSystemError}
use webgit.Fs.Lru.{ByteLru, contains_key, get, insert}

abbrev pub page_size : ℕ
page_size = 4096

-- `Offset + u64`
abbrev pub add_offset : ℕ → ℕ → ℕ
add_offset a b = (a + b) % 2 ^ 64

pub record InFlight : Type 0 where
  pub start : ℕ
  pub end : ℕ
  pub done : ℕ

pub record PageCacheState : Type 0 where
  pub pages : ByteLru Bytes
  pub in_flight : List InFlight
  pub fresh : ℕ
  pub completed : List ℕ

pub data NextStep : Type 0 where
  done : NextStep
  wait : ℕ → NextStep
  fetch : ℕ → ℕ → ℕ → NextStep

abbrev pub PageResult {ℓ} : Type ℓ → Type ℓ
PageResult A = Outcome FileSystemError A

pub in_flight_at : List InFlight → ℕ → Option ℕ
in_flight_at [] page = none
in_flight_at (f ∷ fs) page =
    if leb f.start page && ltb page f.end then some f.done else in_flight_at fs page

-- `while state.pages.contains_key(&page)`: the first page that is missing, if there is one.
pub first_missing : ℕ → ByteLru Bytes → ℕ → ℕ → PageResult (Option ℕ)
first_missing zero pages page last_page = stuck
first_missing (suc fuel) pages page last_page = elim (contains_key pages page) [
  | false ↦ ok (some page)
  | true ↦ elim (leb last_page page) [
    | true ↦ ok none
    | false ↦ first_missing fuel pages (add_offset page page_size) last_page
  ]
]

pub is_free : PageCacheState → ℕ → Bool
is_free state page =
    not (contains_key state.pages page)
    && (elim (in_flight_at state.in_flight page) [ none ↦ true | some completion ↦ false ])

-- `while end.0 < limit && ..`
pub extend_run : ℕ → PageCacheState → ℕ → ℕ → PageResult ℕ
extend_run zero state limit end = stuck
extend_run (suc fuel) state limit end = elim (ltb end limit && is_free state end) [
  | false ↦ ok end
  | true ↦ extend_run fuel state limit (add_offset end page_size)
]

pub run_limit : ℕ → ℕ → ℕ → ℕ
run_limit readahead start last_page =
    max (add_offset last_page page_size) (add_offset start (max readahead page_size))

-- `state.in_flight.push(..)` with a new completion.
pub push_run : ℕ → ℕ → PageCacheState → PageCacheState
push_run start end state = record state {
  in_flight = state.in_flight ++ record { start = start; end = end; done = state.fresh } ∷ [];
  fresh = suc state.fresh;
}

-- What `next_step` does about a page that is not cached.
pub claim : ℕ → PageCacheState → ℕ → ℕ → PageResult (NextStep × PageCacheState)
claim readahead state page last_page = elim (in_flight_at state.in_flight page) [
  | some completion ↦ ok (wait completion, state)
  | none ↦ (do
    let limit = run_limit readahead page last_page
    end ← extend_run (suc limit) state limit (add_offset page page_size)
    ok (fetch page end state.fresh, push_run page end state))
]

pub next_step : ℕ → PageCacheState → ℕ → ℕ → PageResult (NextStep × PageCacheState)
next_step readahead state cursor last_page = do
  missing ← first_missing (suc (last_page - cursor)) state.pages cursor last_page
  elim missing [
    | none ↦ ok (NextStep.done, state)
    | some page ↦ claim readahead state page last_page
  ]

-- `retain(|f| !f.done.ptr_eq(&self.done))`
pub retain : ℕ → List InFlight → List InFlight
retain completion [] = []
retain completion (f ∷ fs) =
    (let rest = retain completion fs in if f.done == completion then rest else f ∷ rest)

-- `InFlightGuard::drop`
pub drop_guard : ℕ → PageCacheState → PageCacheState
drop_guard completion state = record state {
  in_flight = retain completion state.in_flight;
  completed = completion ∷ state.completed;
}

-- `for chunk in buf.chunks(PAGE_SIZE)`, with the number of chunks.
pub insert_chunks : ℕ → ℕ → Bytes → ByteLru Bytes → ByteLru Bytes
insert_chunks zero page_offset buf pages = pages
insert_chunks (suc n) page_offset buf pages =
    insert_chunks n (add_offset page_offset page_size) (drop page_size buf)
      (insert pages page_offset (take page_size buf) page_size)

pub land : ℕ → ℕ → Bytes → PageCacheState → PageCacheState
land start completion buf state = drop_guard completion (record state {
  pages = insert_chunks ((length buf + (page_size - 1)) / page_size) start buf state.pages;
})

-- The arguments of `read_segment`: the offset, and the length of the buffer.
pub record Request : Type 0 where
  pub offset : ℕ
  pub len : ℕ

abbrev pub first_page : Request → ℕ
first_page req = req.offset / page_size * page_size

abbrev pub last_page : Request → ℕ
last_page req = (req.offset + req.len - 1) / page_size * page_size

-- A read between two awaits; `out` is what it has copied into the buffer.
pub data Task : Type 0 where
  looking : Request → ℕ → Task
  waiting : Request → ℕ → ℕ → Task
  fetching : Request → ℕ → ℕ → ℕ → Task
  copying : Request → ℕ → ℕ → Bytes → Task
  reading : Request → ℕ → ℕ → Bytes → Task
  finished : Request → PageResult Bytes → Task
  cancelled : Request → Task

pub begin : Request → Task
begin req = if req.len == 0 then finished req (ok []) else looking req (first_page req)

-- `ensure_pages` has returned: the loop that copies starts.
pub ensured : Request → Task
ensured req = copying req (first_page req) (req.offset - first_page req) []

pub after_look : Request → ℕ → NextStep → Task
after_look req cursor NextStep.done = ensured req
after_look req cursor (wait completion) = waiting req cursor completion
after_look req cursor (fetch start end completion) = fetching req start end completion

pub after_fetch : Request → ℕ → ℕ → Bytes → Task
after_fetch req start end buf =
    if ltb (length buf) (end - start) || ltb (last_page req) end
    then ensured req
    else looking req end

-- One turn of the loop that copies, with the page that `get_page` returned. The slice of the page
-- panics where it starts behind the page's end.
pub after_run : Request → ℕ → ℕ → Bytes → Option Bytes → Task
after_run req page_offset page_len out none = finished req panic
after_run req page_offset page_len out (some run) =
    let out' = out ++ run in
    if ltb page_len page_size || leb req.len (length out')
    then finished req (ok out')
    else copying req (add_offset page_offset page_size) 0 out'

pub copy_page : Request → ℕ → ℕ → Bytes → Bytes → Task
copy_page req page_offset page_start out page =
    after_run req page_offset (length page) out
      (get_range page page_start (min (length page) (page_start + req.len - length out)))

-- `cached_page`
pub cached_page : ℕ → PageCacheState → Option Bytes × PageCacheState
cached_page page_offset state =
    let (page, pages) = get state.pages page_offset in (page, record state { pages = pages })

-- The end of `get_page`.
pub keep_page : ℕ → Bytes → PageCacheState → PageCacheState
keep_page page_offset page state = record state {
  pages = insert state.pages page_offset page page_size;
}
