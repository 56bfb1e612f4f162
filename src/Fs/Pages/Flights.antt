-- ===== src/Fs/Pages/Flights.antt =====
-- The runs on their way: one fetch for each, none over another, and each with those that wait for it.
use webgit.Base.{ℕ, suc, ◌+◌, ◌-◌, ◌*◌, ◌<◌, ◌≤◌, arith, ◌≡◌, ◌≢◌, refl, sym, ap, ◌∙◌, subst}
use webgit.Base.{
  Bool-cases, inl, inr, ◌⊎◌, ◌==◌, some, none, List, [], ◌∷◌, ◌++◌, Option, In, In-append,
  In-append_left, In-append_right, false, ==_self, leb, ltb, ◌&&◌, leb→le, ==_iff,
}
use webgit.Fs.Pages.{page_size, InFlight, in_flight_at, retain, Task, waiting, fetching}
use webgit.Fs.Pages.Runs.{IsAligned}
use webgit.Fs.Pages.System.{update}

outside : (a b p : ℕ) → (leb a p && ltb p b) ≡ false → (p < a) ⊎ (b ≤ p)
outside a b p h = ground arith

pub in_flight_at-none :
    (fs : List InFlight) (page : ℕ) (f : InFlight)
    → in_flight_at fs page ≡ none
    → In f fs
    → (page < f.start) ⊎ (f.end ≤ page)
unfolding in_flight_at
in_flight_at-none [] page f h k = absurd k.0
in_flight_at-none (g ∷ fs) page f h k = elim (Bool-cases (leb g.start page && ltb page g.end)) [
  | inl t ↦ (let h' = rw (in_flight_at, t) at h in cc)
  | inr t ↦ elim k [
    | inl e ↦
        subst (λ (q : InFlight). (page < q.start) ⊎ (q.end ≤ page)) (sym e)
          (outside g.start g.end page t)
    | inr k' ↦ in_flight_at-none fs page f (rw (in_flight_at, t) at h) k'
  ]
]

pub in_flight_at-In :
    (fs : List InFlight) (page completion : ℕ)
    → in_flight_at fs page ≡ some completion
    → (f : InFlight) × In f fs × (f.done ≡ completion)
unfolding in_flight_at
in_flight_at-In [] page completion h = cc
in_flight_at-In (g ∷ fs) page completion h =
    elim (Bool-cases (leb g.start page && ltb page g.end)) [
      | inl t ↦
          (let h' : ◌≡◌ {A = Option ℕ} (some g.done) (some completion) =
              rw (in_flight_at, t) at h in
            (g, inl refl, cc))
      | inr t ↦
          (let (f, k, e) = in_flight_at-In fs page completion (rw (in_flight_at, t) at h) in
            (f, inr k, e))
    ]

retain-In :
    (completion : ℕ) (fs : List InFlight) (f : InFlight)
    → In f (retain completion fs)
    → In f fs × (f.done ≢ completion)
unfolding retain
retain-In completion [] f h = absurd h.0
retain-In completion (g ∷ fs) f h = elim (Bool-cases (g.done == completion)) [
  | inl t ↦ (let (k, n) = retain-In completion fs f (rw (retain, t) at h) in (inr k, n))
  | inr t ↦ elim (rw (retain, t) at h) [
    | inl e ↦ (
      inl e,
      λ q.
          (let q' : g.done ≡ completion = sym (ap (λ (k : InFlight). k.done) e) ∙ q in
            absurd (ground arith)),
    )
    | inr k ↦ (let (k', n) = retain-In completion fs f k in (inr k', n))
  ]
]

In-retain :
    (completion : ℕ) (fs : List InFlight) (f : InFlight)
    → In f fs
    → f.done ≢ completion
    → In f (retain completion fs)
unfolding retain
In-retain completion [] f h n = h
In-retain completion (g ∷ fs) f h n = elim (Bool-cases (g.done == completion)) [
  | inl t ↦
      rw (retain, t)
        (elim h [
          | inl e ↦
              (let q : g.done ≡ completion = ground arith in
                absurd (n (ap (λ (k : InFlight). k.done) e ∙ q)))
          | inr k ↦ In-retain completion fs f k n
        ])
  | inr t ↦ rw (retain, t) (elim h [ inl e ↦ inl e | inr k ↦ inr (In-retain completion fs f k n) ])
]

-- What a read is fetching, and what it waits for.
unfoldable pub fetch_of : Task → Option InFlight
fetch_of (fetching req start end completion) =
    some (record { start = start; end = end; done = completion })
fetch_of _ = none

unfoldable pub wait_of : Task → Option ℕ
wait_of (waiting req cursor completion) = some completion
wait_of _ = none

abbrev Registered : List InFlight → ℕ → Type 0
Registered fs completion = (f : InFlight) × In f fs × (f.done ≡ completion)

abbrev Apart : InFlight → InFlight → Type 0
Apart f g = (f.end ≤ g.start) ⊎ (g.end ≤ f.start)

pub record Flights (fs : List InFlight) (fresh : ℕ) (fired : List ℕ) (tasks : ℕ → Task)
    : Type 0 where
  pub owner : (f : InFlight) → In f fs → (i : ℕ) × (fetch_of (tasks i) ≡ some f)
  pub registered : (i : ℕ) (f : InFlight) → fetch_of (tasks i) ≡ some f → In f fs
  pub unique :
      (i j : ℕ) (f g : InFlight)
      → fetch_of (tasks i) ≡ some f
      → fetch_of (tasks j) ≡ some g
      → f.done ≡ g.done
      → i ≡ j
  pub older : (f : InFlight) → In f fs → f.done < fresh
  pub whole : (f : InFlight) → In f fs → IsAligned f.start × IsAligned f.end × (f.start < f.end)
  pub apart : (f g : InFlight) → In f fs → In g fs → f.done ≢ g.done → Apart f g
  pub waits : (i d : ℕ) → wait_of (tasks i) ≡ some d → In d fired ⊎ Registered fs d

module _ (tasks : ℕ → Task) (i : ℕ) (t : Task) where
  pub update_same : update tasks i t i ≡ t
  update_same = rw (==_self i) refl

  pub update_other : (j : ℕ) → j ≢ i → update tasks i t j ≡ tasks j
  update_other j ne = (let e : (j == i) ≡ false = ground arith in rw e refl)

  -- What another reads of the tasks is what it read, and what the one reads is its own.
  module _ {ℓ} {B : Type ℓ} (look : Task → B) where
    update_cases :
        (j : ℕ) (b : B)
        → look (update tasks i t j) ≡ b
        → ((j ≡ i) × (look t ≡ b)) ⊎ ((j ≢ i) × (look (tasks j) ≡ b))
    update_cases j b h = elim (Bool-cases (j == i)) [
      | inl e ↦ inl (ground arith, rw e at h)
      | inr e ↦ inr (λ q. ground arith, rw e at h)
    ]

    update_keeps : (j : ℕ) (b : B) → j ≢ i → look (tasks j) ≡ b → look (update tasks i t j) ≡ b
    update_keeps j b ne h = ap look (update_other j ne) ∙ h

-- A run none of whose pages is on its way.
pub new_run-Apart :
    (f g : InFlight) (n : ℕ)
    → IsAligned f.start
    → f.end ≡ f.start + suc n * page_size
    → IsAligned g.start × IsAligned g.end × (g.start < g.end)
    → ((k : ℕ)
        → k < suc n
        → (f.start + k * page_size < g.start) ⊎ (g.end ≤ f.start + k * page_size))
    → Apart f g
new_run-Apart f g n (a, ea) e ((b, eb), (c, ec), lt) free =
    elim (Bool-cases (leb g.start f.start)) [
      | inl t ↦ elim (free 0 (omega arith)) [
        | inl h ↦ (let le = leb→le _ _ t in absurd (omega arith))
        | inr h ↦ inr (omega arith)
      ]
      | inr t ↦ elim (Bool-cases (leb f.end g.start)) [
        | inl u ↦ inl (leb→le _ _ u)
        | inr u ↦
            (let below : f.start < g.start = ground arith in
              let within : g.start < f.end = ground arith in
              elim (free (b - a) (omega arith)) [
                | inl h ↦ absurd (omega arith)
                | inr h ↦ absurd (omega arith)
              ])
      ]
    ]

module _ {fs : List InFlight} {fresh : ℕ} {fired : List ℕ} {tasks : ℕ → Task} where
  -- A read that fetches nothing before or behind its step.
  pub quiet-Flights :
      (i : ℕ) (t : Task)
      → Flights fs fresh fired tasks
      → fetch_of (tasks i) ≡ none
      → fetch_of t ≡ none
      → ((d : ℕ) → wait_of t ≡ some d → In d fired ⊎ Registered fs d)
      → Flights fs fresh fired (update tasks i t)
  quiet-Flights i t F old new w = record {
    owner = λ f k.
        (let (j, e) = F.owner f k in
          (
            j,
            update_keeps tasks i t fetch_of j (some f)
                (λ q. (let e' = ap (λ (n : ℕ). fetch_of (tasks n)) q in cc)) e,
          ));
    registered = λ j f e. F.registered j f (was j f e);
    unique = λ j k f g e e' q. F.unique j k f g (was j f e) (was k g e') q;
    older = F.older;
    whole = F.whole;
    apart = F.apart;
    waits = λ j d e. elim (update_cases tasks i t wait_of j (some d) e) [
      | inl (q, e') ↦ w d e'
      | inr (ne, e') ↦ F.waits j d e'
    ];
  }
    where
      was :
          (j : ℕ) (f : InFlight)
          → fetch_of (update tasks i t j) ≡ some f
          → fetch_of (tasks j) ≡ some f
      was j f e = elim (update_cases tasks i t fetch_of j (some f) e) [
        | inl (q, e') ↦ cc
        | inr (ne, e') ↦ e'
      ]

  pub push-Flights :
      (i : ℕ) (t : Task) (f : InFlight)
      → Flights fs fresh fired tasks
      → fetch_of (tasks i) ≡ none
      → fetch_of t ≡ some f
      → wait_of t ≡ none
      → f.done ≡ fresh
      → IsAligned f.start × IsAligned f.end × (f.start < f.end)
      → ((g : InFlight) → In g fs → Apart f g)
      → Flights (fs ++ f ∷ []) (suc fresh) fired (update tasks i t)
  push-Flights i t f F old new quiet is_fresh al free = record {
    owner = λ g k. elim (In-append g fs (f ∷ []) k) [
      | inl k' ↦
          (let (j, e) = F.owner g k' in
            (
              j,
              update_keeps tasks i t fetch_of j (some g)
                  (λ q. (let e' = ap (λ (n : ℕ). fetch_of (tasks n)) q in cc)) e,
            ))
      | inr k' ↦ (i, ap fetch_of (update_same tasks i t) ∙ new ∙ ap some (sym (only g k')))
    ];
    registered = λ j g e. elim (update_cases tasks i t fetch_of j (some g) e) [
      | inl (q, e') ↦ In-append_right g fs (f ∷ []) (inl cc)
      | inr (ne, e') ↦ In-append_left g fs (f ∷ []) (F.registered j g e')
    ];
    unique = λ j k g h e e' q. elim (update_cases tasks i t fetch_of j (some g) e) [
      | inl (ji, eg) ↦ elim (update_cases tasks i t fetch_of k (some h) e') [
        | inl (ki, eh) ↦ cc
        | inr (nk, eh) ↦
            (let o = F.older h (F.registered k h eh) in
              let fg : f ≡ g = cc in
              let d = ap (λ (x : InFlight). x.done) fg in absurd (omega arith))
      ]
      | inr (nj, eg) ↦ elim (update_cases tasks i t fetch_of k (some h) e') [
        | inl (ki, eh) ↦
            (let o = F.older g (F.registered j g eg) in
              let fh : f ≡ h = cc in
              let d = ap (λ (x : InFlight). x.done) fh in absurd (omega arith))
        | inr (nk, eh) ↦ F.unique j k g h eg eh q
      ]
    ];
    older = λ g k. elim (In-append g fs (f ∷ []) k) [
      | inl k' ↦ (let o = F.older g k' in omega arith)
      | inr k' ↦ (let d = ap (λ (x : InFlight). x.done) (only g k') in omega arith)
    ];
    whole = λ g k. elim (In-append g fs (f ∷ []) k) [
      | inl k' ↦ F.whole g k'
      | inr k' ↦
          subst (λ (x : InFlight). IsAligned x.start × IsAligned x.end × (x.start < x.end))
            (sym (only g k')) al
    ];
    apart = λ g h k l ne. elim (In-append g fs (f ∷ []) k) [
      | inl k' ↦ elim (In-append h fs (f ∷ []) l) [
        | inl l' ↦ F.apart g h k' l' ne
        | inr l' ↦ swap h g (free g k') (only h l')
      ]
      | inr k' ↦ elim (In-append h fs (f ∷ []) l) [
        | inl l' ↦ subst (λ (x : InFlight). Apart x h) (sym (only g k')) (free h l')
        | inr l' ↦ absurd (ne (ap (λ (x : InFlight). x.done) (only g k' ∙ sym (only h l'))))
      ]
    ];
    waits = λ j d e. elim (update_cases tasks i t wait_of j (some d) e) [
      | inl (q, e') ↦ cc
      | inr (ne, e') ↦ elim (F.waits j d e') [
        | inl k ↦ inl k
        | inr (g, k, q) ↦ inr (g, In-append_left g fs (f ∷ []) k, q)
      ]
    ];
  }
    where
      only : (g : InFlight) → In g (f ∷ []) → g ≡ f
      only g (inl e) = e
      only g (inr k) = absurd k.0

      swap : (h g : InFlight) → Apart f g → h ≡ f → Apart g h
      swap h g (inl a) e = subst (λ (x : InFlight). Apart g x) (sym e) (inr a)
      swap h g (inr a) e = subst (λ (x : InFlight). Apart g x) (sym e) (inl a)

  -- The fetch of a read ends, whichever way.
  pub drop-Flights :
      (i : ℕ) (t : Task) (f : InFlight)
      → Flights fs fresh fired tasks
      → fetch_of (tasks i) ≡ some f
      → fetch_of t ≡ none
      → wait_of t ≡ none
      → Flights (retain f.done fs) fresh (f.done ∷ fired) (update tasks i t)
  drop-Flights i t f F old new quiet = record {
    owner = λ g k.
        (let (k', ne) = retain-In f.done fs g k in
          let (j, e) = F.owner g k' in
          (
            j,
            update_keeps tasks i t fetch_of j (some g)
                (λ q.
                  (let e' = ap (λ (n : ℕ). fetch_of (tasks n)) q in
                    let fg : g ≡ f = cc in ne (ap (λ (x : InFlight). x.done) fg)))
                e,
          ));
    registered = λ j g e. elim (update_cases tasks i t fetch_of j (some g) e) [
      | inl (q, e') ↦ cc
      | inr (ne, e') ↦
          In-retain f.done fs g (F.registered j g e') (λ q. ne (F.unique j i g f e' old q))
    ];
    unique = λ j k g h e e' q. F.unique j k g h (was j g e) (was k h e') q;
    older = λ g k. F.older g (retain-In f.done fs g k).0;
    whole = λ g k. F.whole g (retain-In f.done fs g k).0;
    apart = λ g h k l ne. F.apart g h (retain-In f.done fs g k).0 (retain-In f.done fs h l).0 ne;
    waits = λ j d e. elim (update_cases tasks i t wait_of j (some d) e) [
      | inl (q, e') ↦ cc
      | inr (ne, e') ↦ elim (F.waits j d e') [
        | inl k ↦ inl (inr k)
        | inr (g, k, q) ↦ elim (Bool-cases (g.done == f.done)) [
          | inl u ↦ inl (inl (sym q ∙ (==_iff g.done f.done).0 u))
          | inr u ↦ inr (g, In-retain f.done fs g k (λ r. ground arith), q)
        ]
      ]
    ];
  }
    where
      was :
          (j : ℕ) (g : InFlight)
          → fetch_of (update tasks i t j) ≡ some g
          → fetch_of (tasks j) ≡ some g
      was j g e = elim (update_cases tasks i t fetch_of j (some g) e) [
        | inl (q, e') ↦ cc
        | inr (ne, e') ↦ e'
      ]
