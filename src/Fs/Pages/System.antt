-- ===== src/Fs/Pages/System.antt =====
-- Reads of one file that share a cache of pages, and run one between the awaits of others.
use webgit.Base.{ℕ, ◌-◌, ◌≡◌, Bytes, take, drop, [], ◌==◌, if◌then◌else◌}
use webgit.Base.{none, some, ok, err, panic, In, isize_max, ◌≤◌, ◌<◌, suc}
use webgit.Fs.{FileSystemError}
use webgit.Fs.Lru.{new}
use webgit.Fs.Pages.{
  page_size, PageCacheState, NextStep, next_step, drop_guard, land, Request, Task, looking, waiting,
  fetching, copying, reading, finished, cancelled, begin, after_look, after_fetch, copy_page,
  cached_page, keep_page, last_page,
}

-- What is dropped with a read that is cancelled.
unfoldable pub on_drop : Task → PageCacheState → PageCacheState
on_drop (fetching req start end completion) state = drop_guard completion state
on_drop _ state = state

unfoldable pub request_of : Task → Request
request_of (looking req cursor) = req
request_of (waiting req cursor completion) = req
request_of (fetching req start end completion) = req
request_of (copying req page_offset page_start out) = req
request_of (reading req page_offset page_start out) = req
request_of (finished req r) = req
request_of (cancelled req) = req

-- What a read does from one await to the next. The file holds `contents`, and a read of it may fail.
pub data Move (readahead : ℕ) (contents : Bytes)
    : PageCacheState → Task → PageCacheState → Task → Type 0 where
  look :
      {state state' : PageCacheState} {req : Request} {cursor : ℕ} {s : NextStep}
      → next_step readahead state cursor (last_page req) ≡ ok (s, state')
      → Move readahead contents state (looking req cursor) state' (after_look req cursor s)
  wake :
      {state : PageCacheState} {req : Request} {cursor completion : ℕ}
      → In completion state.completed
      → Move readahead contents state (waiting req cursor completion) state (looking req cursor)
  fetched :
      {state : PageCacheState} {req : Request} {start end completion : ℕ} (buf : Bytes)
      → end - start ≤ isize_max
      → buf ≡ take (end - start) (drop start contents)
      → Move readahead contents state
          (fetching req start end completion)
          (land start completion buf state)
          (after_fetch req start end buf)
  not_fetched :
      {state : PageCacheState} {req : Request} {start end completion : ℕ} (e : FileSystemError)
      → end - start ≤ isize_max
      → Move readahead contents state
          (fetching req start end completion)
          (drop_guard completion state)
          (finished req (err e))
  -- The buffer of the run, `vec![0u8; span_len]`, is past `isize::MAX` bytes, or its length is no
  -- `usize`. The panic drops the guard.
  too_long :
      {state : PageCacheState} {req : Request} {start end completion : ℕ}
      → isize_max < end - start
      → Move readahead contents state
          (fetching req start end completion)
          (drop_guard completion state)
          (finished req panic)
  hit :
      {state state' : PageCacheState} {req : Request} {page_offset page_start : ℕ}
      {out page : Bytes}
      → cached_page page_offset state ≡ (some page, state')
      → Move readahead contents state
          (copying req page_offset page_start out)
          state'
          (copy_page req page_offset page_start out page)
  miss :
      {state state' : PageCacheState} {req : Request} {page_offset page_start : ℕ} {out : Bytes}
      → cached_page page_offset state ≡ (none, state')
      → Move readahead contents state
          (copying req page_offset page_start out)
          state'
          (reading req page_offset page_start out)
  got :
      {state : PageCacheState} {req : Request} {page_offset page_start : ℕ} {out : Bytes}
      (page : Bytes)
      → page ≡ take page_size (drop page_offset contents)
      → Move readahead contents state
          (reading req page_offset page_start out)
          (keep_page page_offset page state)
          (copy_page req page_offset page_start out page)
  not_got :
      {state : PageCacheState} {req : Request} {page_offset page_start : ℕ} {out : Bytes}
      (e : FileSystemError)
      → Move readahead contents state
          (reading req page_offset page_start out)
          state
          (finished req (err e))
  cancel :
      {state state' : PageCacheState} {task : Task} {req : Request}
      → state' ≡ on_drop task state
      → req ≡ request_of task
      → Move readahead contents state task state' (cancelled req)

pub record System : Type 0 where
  pub state : PageCacheState
  pub tasks : ℕ → Task

abbrev pub update {ℓ} : {A : Type ℓ} → (ℕ → A) → ℕ → A → ℕ → A
update f i a j = if j == i then a else f j

pub data Step (readahead : ℕ) (contents : Bytes) : System → System → Type 0 where
  pick :
      {s : System} {state' : PageCacheState} {task' : Task} (i : ℕ)
      → Move readahead contents s.state (s.tasks i) state' task'
      → Step readahead contents s (record { state = state'; tasks = update s.tasks i task' })

-- The reads begin over a cache that holds and fetches nothing.
pub data Reach (readahead limit : ℕ) (contents : Bytes) (requests : ℕ → Request)
    : System → Type 0 where
  initial : Reach readahead limit contents requests (record {
    state = record { pages = new limit; in_flight = []; fresh = 0; completed = [] };
    tasks = λ i. begin (requests i);
  })
  later :
      {s t : System}
      → Reach readahead limit contents requests s
      → Step readahead contents s t
      → Reach readahead limit contents requests t

-- A run of a number of steps.
pub data Steps (readahead : ℕ) (contents : Bytes) : ℕ → System → System → Type 0 where
  stay : {s : System} → Steps readahead contents 0 s s
  step :
      {n : ℕ} {s t u : System}
      → Step readahead contents s t
      → Steps readahead contents n t u
      → Steps readahead contents (suc n) s u
