-- ===== src/Fs/Pages/Examples.antt =====
-- Runs of reads over a cache of pages, and the theorems at them.
use webgit.Base.{
  ℕ, ◌<◌, ◌≤◌, ◌==◌, arith, ◌≡◌, ◌⊎◌, refl, Bytes, [], ◌∷◌, replicate, length-replicate, Bool-cases,
  inl, inr, if◌then◌else◌, ok, panic,
}
use webgit.Fs.Lru.{
  new, get, insert, remove, touch, next_tick, evict, evict_loop, add_entry, lookup, put, erase,
  contains_key,
}
use webgit.Fs.Pages.{
  PageCacheState, Request, in_flight_at, first_missing, is_free, extend_run, run_limit, push_run,
  claim, next_step, retain, drop_guard, insert_chunks, land, begin, ensured, after_look,
  after_fetch, after_run, copy_page, cached_page, keep_page, looking, finished,
}
use webgit.Fs.Pages.System.{look, fetched, hit, System, Steps, pick, Reach, initial, later}
use webgit.Fs.Pages.Copies.{IsRead, Answers}
use webgit.Fs.Pages.Runs.{Gives, Decision, next_step-Decision}
use webgit.Fs.Pages.Safe.{Reach-Answers}
use webgit.Fs.Pages.Wakes.{Reach-Apart, waiting-resumes}

program : Unit {0}
unfolding in_flight_at first_missing is_free extend_run run_limit push_run claim next_step retain
    drop_guard insert_chunks land begin ensured after_look after_fetch after_run copy_page
    cached_page keep_page contains_key get insert remove touch next_tick evict evict_loop add_entry
    lookup put erase new
program = tt

-- A file of five bytes, read by two reads at once.
abbrev five : Bytes
five = 1 ∷ 2 ∷ 3 ∷ 4 ∷ 5 ∷ []

abbrev reads : ℕ → Request
reads i =
    if i == 0
    then record { offset = 1; len = 3 }
    else if i == 1
    then record { offset = 2; len = 9 }
    else record { offset = 0; len = 0 }

abbrev Reached : System → Type 0
Reached = Reach 0 100000 five reads

record Run : Type 0 where
  pub last : System
  pub reach : Reached last

-- The first fetches the page, and the second waits for it.
both : Run
unfolding program
both = record { last = _; reach = later (later initial (pick 0 (look refl))) (pick 1 (look refl)) }

-- The first has its bytes.
answered : Run
unfolding program both
answered = record {
  last = _;
  reach = later (later both.reach (pick 0 (fetched _ (omega arith) refl))) (pick 0 (hit refl));
}

reads-IsRead : (i : ℕ) → 0 < (reads i).len → IsRead 0 five (reads i)
reads-IsRead i h = elim (Bool-cases (i == 0)) [
  | inl e ↦ rw e (record { inside = omega arith; some_bytes = omega arith; fits = omega arith })
  | inr e ↦ elim (Bool-cases (i == 1)) [
    | inl f ↦
        rw (e, f) (record { inside = omega arith; some_bytes = omega arith; fits = omega arith })
    | inr f ↦ (let h' = rw (e, f) at h in absurd (omega arith))
  ]
]

Reach-Answers_example : Answers 0 five (reads 0) (ok (2 ∷ 3 ∷ 4 ∷ []))
unfolding program both answered
Reach-Answers_example =
    Reach-Answers 0 five reads-IsRead answered.reach 0 (omega arith) (reads 0) (ok (2 ∷ 3 ∷ 4 ∷ []))
      refl

waiting-resumes_example :
    (n : ℕ) × (t : System) × (n ≤ 2)
    × Steps 0 five n both.last t
    × (t.tasks 1 ≡ looking (reads 1) 0)
unfolding program both
waiting-resumes_example = waiting-resumes reads-IsRead both.reach 1 (reads 1) 0 0 refl

-- A longer file, and reads of its two pages.
abbrev long : Bytes
long = replicate 5000 7

abbrev pages_of : ℕ → Request
pages_of i =
    if i == 0
    then record { offset = 0; len = 1 }
    else if i == 1
    then record { offset = 4096; len = 1 }
    else record { offset = 0; len = 0 }

pages_of-IsRead : (i : ℕ) → 0 < (pages_of i).len → IsRead 0 long (pages_of i)
pages_of-IsRead i h = elim (Bool-cases (i == 0)) [
  | inl e ↦ rw e (record { inside = omega arith; some_bytes = omega arith; fits = omega arith })
  | inr e ↦ elim (Bool-cases (i == 1)) [
    | inl f ↦
        rw (e, f)
          (record {
            inside = omega (arith, length-replicate {A = ℕ} 5000 7);
            some_bytes = omega arith;
            fits = omega arith;
          })
    | inr f ↦ (let h' = rw (e, f) at h in absurd (omega arith))
  ]
]

record RunOfPages : Type 0 where
  pub last : System
  pub reach : Reach 0 100000 long pages_of last

apart : RunOfPages
unfolding program
apart = record { last = _; reach = later (later initial (pick 0 (look refl))) (pick 1 (look refl)) }

Reach-Apart_example : (4096 ≤ 4096) ⊎ (8192 ≤ 0)
unfolding program apart
Reach-Apart_example =
    Reach-Apart pages_of-IsRead apart.reach 0 1 (pages_of 0) (pages_of 1) 0 4096 0 4096 8192 1
      (omega arith) refl refl

-- Both pages missing: one run of them.
empty : PageCacheState
empty = record { pages = new 100000; in_flight = []; fresh = 0; completed = [] }

next_step-Decision_example : Gives (next_step 0 empty 0 4096) (Decision 0 empty 0 4096)
next_step-Decision_example = next_step-Decision 0 empty 0 4096 (omega arith) (0, refl) (omega arith)

-- A read that starts behind the end of the file, on its last page, panics.
behind_the_end :
    copy_page (record { offset = 9; len = 1 }) 0 9 [] five
    ≡ finished (record { offset = 9; len = 1 }) panic
unfolding program
behind_the_end = refl
