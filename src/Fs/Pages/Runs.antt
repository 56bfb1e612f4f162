-- ===== src/Fs/Pages/Runs.antt =====
-- What `next_step` decides: it ends, and a run it claims is made of whole pages and ends in bounds.
use webgit.Base.{ℕ, zero, suc, ◌+◌, ◌-◌, ◌*◌, ◌%◌, ◌^◌, ◌≤◌, ◌<◌, arith, ◌≡◌, refl}
use webgit.Base.{
  Bool-cases, Option-cases, inl, inr, Bytes, ltb, leb, ◌&&◌, ◌==◌, true, Option, none, some,
}
use webgit.Base.{ok, ◌>>=◌, err, panic, stuck}
use webgit.Fs.Lru.{ByteLru, contains_key}
use webgit.Fs.Pages.{
  page_size, add_offset, PageCacheState, NextStep, wait, fetch, PageResult, in_flight_at,
  first_missing, is_free, extend_run, run_limit, push_run, claim, next_step,
}

-- What a result satisfies: it is a value, and the value does.
abbrev pub Gives {ℓ} : {A : Type ℓ} → PageResult A → (A → Type 0) → Type 0
Gives (ok a) P = P a
Gives (err e) P = ⊥
Gives panic P = ⊥
Gives stuck P = ⊥

Gives-bind {ℓ κ} :
    {A : Type ℓ} {B : Type κ} (m : PageResult A) (f : A → PageResult B) (P : A → Type 0)
    (Q : B → Type 0)
    → Gives m P
    → ((a : A) → P a → Gives (f a) Q)
    → Gives (m >>= f) Q
Gives-bind (ok a) f P Q h k = k a h
Gives-bind (err e) f P Q h k = h
Gives-bind panic f P Q h k = h
Gives-bind stuck f P Q h k = h

abbrev pub IsAligned : ℕ → Type 0
IsAligned page = (a : ℕ) × (page ≡ a * page_size)

-- The first page missing lies from the cursor on, and before the page behind the last.
abbrev Missing : ℕ → ℕ → Option ℕ → Type 0
Missing cursor last none = Unit
Missing cursor last (some page) = (cursor ≤ page) × (page < last + page_size) × IsAligned page

first_missing-Missing :
    (fuel : ℕ) (pages : ByteLru Bytes) (cursor page last : ℕ)
    → cursor ≤ page
    → last - page < fuel
    → page < last + page_size
    → last + page_size < 2 ^ 64
    → IsAligned page
    → Gives (first_missing fuel pages page last) (Missing cursor last)
unfolding first_missing
first_missing-Missing zero pages cursor page last from h k small (a, al) = absurd (omega arith)
first_missing-Missing (suc fuel) pages cursor page last from h k small (a, al) =
    elim (Bool-cases (contains_key pages page)) [
      | inr e ↦ rw (first_missing, e) (from, k, (a, al))
      | inl e ↦ elim (Bool-cases (leb last page)) [
        | inl e' ↦ rw (first_missing, e, e') tt
        | inr e' ↦
            (let m : (page + page_size) % 2 ^ 64 ≡ page + page_size = ground arith in
              let lt : page < last = ground arith in
              rw (first_missing, e, e', m)
                (first_missing-Missing fuel pages cursor (page + page_size) last (omega arith)
                  (omega arith) (omega arith) small (suc a, omega arith)))
      ]
    ]

-- A run of whole pages from `start`, none of them on its way.
abbrev pub Whole : PageCacheState → ℕ → ℕ → ℕ → Type 0
Whole state start limit end =
    (n : ℕ) × (end ≡ start + suc n * page_size)
    × (end < limit + page_size)
    × ((k : ℕ) → k < suc n → in_flight_at state.in_flight (start + k * page_size) ≡ none)

is_free-none :
    (state : PageCacheState) (page : ℕ)
    → is_free state page ≡ true
    → in_flight_at state.in_flight page ≡ none
unfolding is_free
is_free-none state page h = elim (Option-cases (in_flight_at state.in_flight page)) [
  | inl e ↦ e
  | inr (completion, e) ↦ (let h' = rw e at h in absurd (ground arith))
]

extend_run-Whole :
    (fuel n : ℕ) (state : PageCacheState) (start limit bound end : ℕ)
    → limit - end < fuel
    → end ≡ start + suc n * page_size
    → limit ≤ bound
    → end < bound + page_size
    → ((k : ℕ) → k < suc n → in_flight_at state.in_flight (start + k * page_size) ≡ none)
    → bound + page_size < 2 ^ 64
    → Gives (extend_run fuel state limit end) (Whole state start bound)
unfolding extend_run
extend_run-Whole zero n state start limit bound end h e le k free small = absurd (omega arith)
extend_run-Whole (suc fuel) n state start limit bound end h e le k free small =
    elim (Bool-cases (ltb end limit && is_free state end)) [
      | inr f ↦ rw (extend_run, f) (n, e, k, free)
      | inl t ↦
          (let lt : end < limit = ground arith in
            let m : (end + page_size) % 2 ^ 64 ≡ end + page_size = omega arith in
            let here : in_flight_at state.in_flight end ≡ none =
              is_free-none state end (ground arith) in
            let free' : (j : ℕ)
                → j < suc (suc n)
                → in_flight_at state.in_flight (start + j * page_size) ≡ none =
              (λ j l. elim (Bool-cases (j == suc n)) [
                | inl q ↦
                    (let at_end : start + j * page_size ≡ end = ground arith in rw at_end here)
                | inr q ↦ free j (ground arith)
              ]) in
            rw (extend_run, t, m)
              (extend_run-Whole fuel (suc n) state start limit bound (end + page_size) (omega arith)
                (omega arith) le (omega arith) free' small))
    ]

-- What a decision says, where `last` is the last page of the read.
abbrev pub Decision : ℕ → PageCacheState → ℕ → ℕ → NextStep × PageCacheState → Type 0
Decision readahead state cursor last (NextStep.done, state') = state' ≡ state
Decision readahead state cursor last (wait completion, state') =
    (state' ≡ state) × ((page : ℕ) × (in_flight_at state.in_flight page ≡ some completion))
Decision readahead state cursor last (fetch start end completion, state') =
    (state' ≡ push_run start end state)
    × (completion ≡ state.fresh)
    × IsAligned start
    × (cursor ≤ start)
    × (start < last + page_size)
    × Whole state start (last + readahead + 2 * page_size) end

claim-Decision :
    (readahead : ℕ) (state : PageCacheState) (cursor page last : ℕ)
    → cursor ≤ page
    → page < last + page_size
    → IsAligned page
    → last + readahead + 4 * page_size < 2 ^ 64
    → Gives (claim readahead state page last) (Decision readahead state cursor last)
unfolding claim run_limit
claim-Decision readahead state cursor page last from lt aligned small =
    elim (Option-cases (in_flight_at state.in_flight page)) [
      | inr (completion, e) ↦ rw (claim, e) (refl, (page, e))
      | inl e ↦
          (let limit : ℕ = run_limit readahead page last in
            let below : limit ≤ last + readahead + page_size + page_size = omega arith in
            let m : (page + page_size) % 2 ^ 64 ≡ page + page_size = omega arith in
            let first_free : (k : ℕ)
                → k < 1
                → in_flight_at state.in_flight (page + k * page_size) ≡ none =
              (λ k l. (let here : page + k * page_size ≡ page = omega arith in rw here e)) in
            rw (claim, e)
              (Gives-bind (extend_run (suc limit) state limit (add_offset page page_size)) _
                (Whole state page (last + readahead + 2 * page_size)) _
                (extend_run-Whole (suc limit) 0 state page limit (last + readahead + 2 * page_size)
                  (add_offset page page_size) (omega arith) (omega arith) (omega arith)
                  (omega arith) first_free (omega arith))
                (λ end w. (refl, refl, aligned, from, lt, w))))
    ]

-- From an aligned cursor not behind the last page, `next_step` ends with a decision: it changes
-- nothing and is done, or it waits for a completion that is registered for a page, or it registers
-- one new run with a fresh completion, of at least one whole page, that starts not before the cursor and not
-- behind the last page, ends in bounds, and has no page that is on its way.
pub next_step-Decision :
    (readahead : ℕ) (state : PageCacheState) (cursor last : ℕ)
    → cursor < last + page_size
    → IsAligned cursor
    → last + readahead + 4 * page_size < 2 ^ 64
    → Gives (next_step readahead state cursor last) (Decision readahead state cursor last)
unfolding next_step
next_step-Decision readahead state cursor last lt aligned small =
    Gives-bind (first_missing (suc (last - cursor)) state.pages cursor last) _ (Missing cursor last)
      _
      (first_missing-Missing (suc (last - cursor)) state.pages cursor cursor last (omega arith)
        (omega arith) lt (omega arith) aligned)
      go
  where
    go :
        (missing : Option ℕ)
        → Missing cursor last missing
        → Gives
            (elim missing [
              | none ↦ ok (NextStep.done, state)
              | some page ↦ claim readahead state page last
            ])
            (Decision readahead state cursor last)
    go none h = refl
    go (some page) (from, l, al) = claim-Decision readahead state cursor page last from l al small
