-- ===== src/Fs/Lru/Refines.antt =====
-- The cache holds its list of items, and `get` and `insert` do to it what they do to the list.
use webgit.Base.{
  wrapping_sub, ℕ, suc, ◌+◌, ◌%◌, ◌^◌, ◌≤◌, ◌<◌, arith, ◌≡◌, ◌≢◌, refl, sym, ◌∙◌, List, [], ◌∷◌,
  ◌++◌, Option, none, some,
}
use webgit.Base.{Bool-cases, ◌==◌, inl, inr, Option-cases}
use webgit.Fs.Lru.{ByteLru, LruEntry, lookup, put, erase, get, remove, touch, next_tick}
use webgit.Fs.Lru.Maps.{lookup-put, lookup-put_other, lookup-erase, lookup-erase_other}
use webgit.Fs.Lru.Recency.{
  Item, find, without, total, used, find-without, find-without_other, without-absent, find-key,
  append_none, total-append, total-without,
}
use webgit.Fs.Lru.Ages.{
  Ages, entry_of, Ages-find, Ages-frame, Ages-without, Ages-append, Ages-IsDistinct, Ages-raise,
  put_age,
}

module _ {ℓ} {V : Type ℓ} where
  -- The items of the cache are `l`, the least recently used first.
  pub record Represents (c : ByteLru V) (l : List (Item V)) : Type ℓ where
    pub ages : Ages c.entries (suc c.tick) 0 c.by_age l
    pub only : (k : ℕ) → find k l ≡ none → lookup k c.entries ≡ none
    pub size : c.bytes ≡ total l
    pub fits : total l ≤ c.limit
    pub limit : c.limit < 2 ^ 32

  abbrev pub value_of : Option (Item V) → Option V
  value_of none = none
  value_of (some x) = some x.value

  next_tick-Represents :
      (c : ByteLru V) (l : List (Item V))
      → Represents c l
      → c.tick + 1 < 2 ^ 64
      → Represents (next_tick c) l
  unfolding next_tick
  next_tick-Represents c l r h = record {
    ages =
        (let e : (c.tick + 1) % 2 ^ 64 ≡ c.tick + 1 = omega arith in
          rw e (
            Ages-raise c.entries (suc c.tick) (suc (c.tick + 1)) 0 c.by_age l r.ages
              (omega arith)));
    only = r.only;
    size = r.size;
    fits = r.fits;
    limit = r.limit;
  }

  only_erased :
      (c : ByteLru V) (l : List (Item V)) (key : ℕ)
      → Represents c l
      → (k : ℕ) → find k (without key l) ≡ none
      → lookup k (erase key c.entries) ≡ none
  only_erased c l key r k h = elim (Bool-cases (k == key)) [
    | inl t ↦ (let e : k ≡ key = ground arith in rw e (lookup-erase key c.entries))
    | inr n ↦
        (let ne : k ≢ key = ground arith in
          lookup-erase_other key k c.entries ne
          ∙ r.only k (sym (find-without_other key k l ne) ∙ h))
  ]

  abbrev removed : ByteLru V → ℕ → LruEntry V → ByteLru V
  removed c key entry = record {
    entries = erase key c.entries;
    by_age = erase entry.tick c.by_age;
    tick = c.tick;
    bytes = wrapping_sub c.bytes entry.bytes;
    limit = c.limit;
  }

  remove-absent : (c : ByteLru V) (key : ℕ) → lookup key c.entries ≡ none → remove c key ≡ c
  unfolding remove
  remove-absent c key e = rw (e, remove) refl

  remove-present :
      (c : ByteLru V) (key : ℕ) (entry : LruEntry V)
      → lookup key c.entries ≡ some entry
      → remove c key ≡ removed c key entry
  unfolding remove
  remove-present c key entry e = rw (e, remove) refl

  removed-Represents :
      (c : ByteLru V) (l : List (Item V)) (key t : ℕ) (x : Item V)
      → Represents c l
      → find key l ≡ some x
      → lookup key c.entries ≡ some (entry_of x t)
      → Represents (removed c key (entry_of x t)) (without key l)
  removed-Represents c l key t x r h e =
      let parts = total-without key l x (Ages-IsDistinct _ _ _ _ l r.ages) h in
      let kept = Ages-without c.entries (suc c.tick) 0 t key x c.by_age l r.ages h e in
      record {
        ages =
            Ages-frame c.entries (erase key c.entries) (suc c.tick) (suc c.tick) 0
              (erase t c.by_age) (without key l) key kept (find-without key l) (omega arith)
              (λ i ne. lookup-erase_other key i c.entries ne);
        only = only_erased c l key r;
        size = omega (arith, r.size, r.fits, r.limit);
        fits = omega (arith, r.fits);
        limit = r.limit;
      }

  pub remove-Represents :
      (c : ByteLru V) (l : List (Item V)) (key : ℕ)
      → Represents c l
      → Represents (remove c key) (without key l)
  remove-Represents c l key r = elim (Option-cases (find key l)) [
    | inl absent ↦ rw (remove-absent c key (r.only key absent), without-absent key l absent) r
    | inr (x, h) ↦
        (let (t, m1, m2, m3) = Ages-find c.entries (suc c.tick) 0 c.by_age l key x r.ages h in
          rw (remove-present c key (entry_of x t) m3) (removed-Represents c l key t x r h m3))
  ]

  pub only_put :
      (entries : List (ℕ × LruEntry V)) (l : List (Item V)) (key : ℕ) (x : Item V) (e : LruEntry V)
      → x.key ≡ key
      → ((k : ℕ) → k ≢ key → find k l ≡ none → lookup k entries ≡ none)
      → (k : ℕ) → find k (l ++ (x ∷ [])) ≡ none
      → lookup k (put key e entries) ≡ none
  only_put entries l key x e q only k h =
      let (ne, absent) = append_none k l x h in
      let ne' : k ≢ key = omega arith in lookup-put_other key k e entries ne' ∙ only k ne' absent

  touch-Represents :
      (c : ByteLru V) (l : List (Item V)) (key t : ℕ) (x : Item V)
      → Represents c l
      → c.tick + 1 < 2 ^ 64
      → find key l ≡ some x
      → lookup key c.entries ≡ some (entry_of x t)
      → Represents (touch (next_tick c) key (entry_of x t)) (without key l ++ (x ∷ []))
  unfolding touch next_tick
  touch-Represents c l key t x r small h e =
      let m : (c.tick + 1) % 2 ^ 64 ≡ c.tick + 1 = omega arith in
      let q : x.key ≡ key = find-key key l x h in
      let kept = Ages-without c.entries (suc c.tick) 0 t key x c.by_age l r.ages h e in
      let last =
        put_age c.entries (suc c.tick) 0 (c.tick + 1) key (erase t c.by_age) (without key l) kept
          (omega arith) in
      let parts = total-without key l x (Ages-IsDistinct _ _ _ _ l r.ages) h in
      let sum = total-append (without key l) x in
      record {
        ages =
            rw (m, last)
              (Ages-append c.entries (put key (entry_of x (c.tick + 1)) c.entries) (suc c.tick) 0
                (c.tick + 1) key x (erase t c.by_age) (without key l) kept (find-without key l)
                (omega arith) (omega arith) (sym q)
                (lookup-put key (entry_of x (c.tick + 1)) c.entries)
                (λ i ne. lookup-put_other key i (entry_of x (c.tick + 1)) c.entries ne));
        only =
            only_put c.entries (without key l) key x (entry_of x ((c.tick + 1) % 2 ^ 64)) q
              (λ k ne absent. r.only k (sym (find-without_other key k l ne) ∙ absent));
        size = omega (arith, r.size);
        fits = omega (arith, r.fits);
        limit = r.limit;
      }

  get-absent :
      (c : ByteLru V) (key : ℕ) → lookup key c.entries ≡ none → get c key ≡ (none, next_tick c)
  unfolding get
  get-absent c key e = rw (e, get) refl

  get-present :
      (c : ByteLru V) (key : ℕ) (entry : LruEntry V)
      → lookup key c.entries ≡ some entry
      → get c key ≡ (some entry.value, touch (next_tick c) key entry)
  unfolding get
  get-present c key entry e = rw (e, get) refl

  used-absent : (key : ℕ) (l : List (Item V)) → find key l ≡ none → used key l ≡ l
  unfolding used
  used-absent key l h = rw (h, used) refl

  used-present :
      (key : ℕ) (l : List (Item V)) (x : Item V)
      → find key l ≡ some x
      → used key l ≡ without key l ++ (x ∷ [])
  unfolding used
  used-present key l x h = rw (h, used) refl

  -- `get` gives the value of the item with the key, if there is one, and makes it the most
  -- recently used; the counter of uses is below its limit of 2^64 - 1.
  pub get-Represents :
      (c : ByteLru V) (l : List (Item V)) (key : ℕ)
      → Represents c l
      → c.tick + 1 < 2 ^ 64
      → ((get c key).0 ≡ value_of (find key l)) × Represents (get c key).1 (used key l)
  get-Represents c l key r small = elim (Option-cases (find key l)) [
    | inl absent ↦
        rw (get-absent c key (r.only key absent), used-absent key l absent, absent)
          (refl, next_tick-Represents c l r small)
    | inr (x, h) ↦
        (let (t, m1, m2, m3) = Ages-find c.entries (suc c.tick) 0 c.by_age l key x r.ages h in
          rw (get-present c key (entry_of x t) m3, used-present key l x h, h)
            (refl, touch-Represents c l key t x r small h m3))
  ]
