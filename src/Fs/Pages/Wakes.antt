-- ===== src/Fs/Pages/Wakes.antt =====
-- In every reachable state no two fetches overlap, and no read waits for a fetch that is gone.
use webgit.Base.{ℕ, ◌-◌, ◌<◌, ◌≤◌, arith, ◌≡◌, ◌≢◌, refl, sym, ap, ◌∙◌, subst, Bytes, take, drop}
use webgit.Base.{inl, inr, ◌⊎◌, panic, isize_max, Bool-cases, In, ltb}
use webgit.Fs.Pages.{
  InFlight, drop_guard, land, Task, looking, waiting, fetching, finished, Request, after_fetch,
}
use webgit.Fs.Pages.Copies.{IsRead}
use webgit.Fs.Pages.Flights.{fetch_of, wait_of, update_same, update_other}
use webgit.Fs.Pages.System.{
  Move, Step, Steps, stay, step, wake, fetched, too_long, System, pick, Reach,
}
use webgit.Fs.Pages.Registered.{fetching_of, Reach-Flights}

module _ {readahead : ℕ} {contents : Bytes} where
  -- A read whose completion has fired looks again in one step of its own.
  wakes :
      (s : System) (i : ℕ) (req : Request) (cursor d : ℕ)
      → s.tasks i ≡ waiting req cursor d
      → In d s.state.completed
      → (t : System) × Step readahead contents s t × (t.tasks i ≡ looking req cursor)
  wakes s i req cursor d e k =
      let m : Move readahead contents s.state (s.tasks i) s.state (looking req cursor) =
        subst (λ (t : Task). Move readahead contents s.state t s.state (looking req cursor)) (sym e)
          (wake k) in
      (_, pick i m, update_same s.tasks i (looking req cursor))

  -- A read that fetches ends its fetch in one step, which fires the completion and leaves the task of
  -- every other read as it was.
  fires :
      (s : System) (j : ℕ) (req : Request) (f : InFlight)
      → s.tasks j ≡ fetching req f.start f.end f.done
      → (t : System) × Step readahead contents s t
        × In f.done t.state.completed
        × ((i : ℕ) → i ≢ j → t.tasks i ≡ s.tasks i)
  unfolding land drop_guard
  fires s j req f e = elim (Bool-cases (ltb isize_max (f.end - f.start))) [
    | inl long ↦
        (let m : Move readahead contents s.state (s.tasks j) (drop_guard f.done s.state)
              (finished req panic) =
            subst
              (λ (t : Task).
                Move readahead contents s.state t (drop_guard f.done s.state) (finished req panic))
              (sym e) (too_long (ground arith)) in
          (_, pick j m, inl refl, λ i ne. update_other s.tasks j _ i ne))
    | inr fits ↦
        (let buf = take (f.end - f.start) (drop f.start contents) in
          let state' = land f.start f.done buf s.state in
          let m : Move readahead contents s.state (s.tasks j) state'
              (after_fetch req f.start f.end buf) =
            subst
              (λ (t : Task).
                Move readahead contents s.state t state' (after_fetch req f.start f.end buf))
              (sym e) (fetched buf (ground arith) refl) in
          (_, pick j m, inl refl, λ i ne. update_other s.tasks j _ i ne))
  ]

module _ {readahead limit : ℕ} {contents : Bytes} {requests : ℕ → Request} where
  -- Two fetches that are on their way at once never ask for the same page.
  pub Reach-Apart :
      {s : System}
      → ((i : ℕ) → 0 < (requests i).len → IsRead readahead contents (requests i))
      → Reach readahead limit contents requests s
      → (i j : ℕ) (req req' : Request) (start end d start' end' d' : ℕ) → i ≢ j
      → s.tasks i ≡ fetching req start end d
      → s.tasks j ≡ fetching req' start' end' d'
      → (end ≤ start') ⊎ (end' ≤ start)
  unfolding fetch_of
  Reach-Apart r reach i j req req' start end d start' end' d' ne e e' =
      let F = Reach-Flights r reach in
      let f : InFlight = record { start = start; end = end; done = d } in
      let g : InFlight = record { start = start'; end = end'; done = d' } in
      F.apart f g (F.registered i f (ap fetch_of e)) (F.registered j g (ap fetch_of e'))
        (λ q. ne (F.unique i j f g (ap fetch_of e) (ap fetch_of e') q))

  -- No wake-up is lost: from every reachable state in which a read waits for the fetch of another, at
  -- most two steps lead to a state in which it looks again, from where it looked.
  pub waiting-resumes :
      {s : System}
      → ((i : ℕ) → 0 < (requests i).len → IsRead readahead contents (requests i))
      → Reach readahead limit contents requests s
      → (i : ℕ) (req : Request) (cursor d : ℕ) → s.tasks i ≡ waiting req cursor d
      → (n : ℕ) × (t : System) × (n ≤ 2)
        × Steps readahead contents n s t
        × (t.tasks i ≡ looking req cursor)
  unfolding wait_of
  waiting-resumes {s} r reach i req cursor d e =
      elim ((Reach-Flights r reach).waits i d (ap wait_of e)) [
        | inl k ↦
            (let (t, one, looks) = wakes s i req cursor d e k in
              (1, t, omega arith, step one stay, looks))
        | inr (f, k, q) ↦
            (let (j, o) = (Reach-Flights r reach).owner f k in
              let (req', ej) = fetching_of (s.tasks j) f o in
              let ne : i ≢ j = (λ p. (let p' = ap s.tasks p in cc)) in
              let (t, one, fired, others) = fires s j req' f ej in
              let (u, two, looks) =
                wakes t i req cursor d (others i ne ∙ e)
                  (subst (λ (c : ℕ). In c t.state.completed) q fired) in
              (2, u, omega arith, step one (step two stay), looks))
      ]
