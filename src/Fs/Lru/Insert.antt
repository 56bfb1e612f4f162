-- ===== src/Fs/Lru/Insert.antt =====
-- Inserting into the cache, and the eviction that follows.
use webgit.Base.{
  wrapping_sub, ℕ, suc, ◌+◌, ◌%◌, ◌^◌, ◌<◌, arith, ◌≡◌, ◌≢◌, refl, ap, ◌∙◌, List, [], ◌∷◌, ◌++◌,
  none, some,
}
use webgit.Base.{true, false, Bool-cases, ◌==◌, inl, inr, ltb, not_ltb→le}
use mathlib.Core.Path.{subst}
use webgit.Fs.Lru.{
  ByteLru, LruEntry, lookup, put, erase, insert, remove, next_tick, evict, evict_loop, add_entry,
  with_ages,
}
use webgit.Fs.Lru.Maps.{lookup-put, lookup-put_other, lookup-erase, lookup-erase_other}
use webgit.Fs.Lru.Recency.{
  Item, find, without, total, trim, trim-more, trim-done, added, find-without, total-append,
  total-without_le,
}
use webgit.Fs.Lru.Ages.{Ages, entry_of, Ages-frame, Ages-append, Ages-weaken, put_age}
use webgit.Fs.Lru.Refines.{Represents, remove-Represents, only_put}

module _ {ℓ} {V : Type ℓ} where
  -- A cache that may hold too much, when `ages` is what is left of `by_age`.
  record Pending (c : ByteLru V) (lo : ℕ) (ages : List (ℕ × ℕ)) (l : List (Item V)) : Type ℓ where
    pub along : Ages c.entries (suc c.tick) lo ages l
    pub only : (k : ℕ) → find k l ≡ none → lookup k c.entries ≡ none
    pub size : c.bytes ≡ total l
    pub small : total l < 2 ^ 32
    pub limit : c.limit < 2 ^ 32

  abbrev evicted : ByteLru V → ℕ → LruEntry V → ByteLru V
  evicted c key entry = record {
    entries = erase key c.entries;
    by_age = c.by_age;
    tick = c.tick;
    bytes = wrapping_sub c.bytes entry.bytes;
    limit = c.limit;
  }

  evict-evicted :
      (c : ByteLru V) (key : ℕ) (entry : LruEntry V)
      → lookup key c.entries ≡ some entry
      → evict key c ≡ evicted c key entry
  unfolding evict
  evict-evicted c key entry e = rw (e, evict) refl

  evicted-Pending :
      (c : ByteLru V) (lo t k : ℕ) (ages : List (ℕ × ℕ)) (x : Item V) (l : List (Item V))
      → Pending c lo ((t, k) ∷ ages) (x ∷ l)
      → Pending (evicted c k (entry_of x t)) (suc t) ages l
  unfolding find total
  evicted-Pending c lo t k ages x l p =
      let (l1, l2, l3, l4, l5, a) = p.along in
      record {
        along =
            Ages-frame c.entries (erase k c.entries) (suc c.tick) (suc c.tick) (suc t) ages l k a l5
              (omega arith) (λ i ne. lookup-erase_other k i c.entries ne);
        only = λ i h. elim (Bool-cases (i == k)) [
          | inl q ↦ (let e : i ≡ k = ground arith in rw e (lookup-erase k c.entries))
          | inr n ↦
              (let ne : i ≢ k = ground arith in
                let h' : find i (x ∷ l) ≡ none = ground arith in
                lookup-erase_other k i c.entries ne ∙ p.only i h')
        ];
        size = omega (arith, p.size, p.small);
        small = omega (arith, p.small);
        limit = p.limit;
      }

  evict_loop-more :
      (c : ByteLru V) (t k : ℕ) (ages : List (ℕ × ℕ))
      → ltb c.limit c.bytes ≡ true
      → evict_loop ((t, k) ∷ ages) c ≡ evict_loop ages (evict k c)
  unfolding evict_loop
  evict_loop-more c t k ages e = rw (e, evict_loop) refl

  evict_loop-done :
      (c : ByteLru V) (t k : ℕ) (ages : List (ℕ × ℕ))
      → ltb c.limit c.bytes ≡ false
      → evict_loop ((t, k) ∷ ages) c ≡ with_ages ((t, k) ∷ ages) c
  unfolding evict_loop
  evict_loop-done c t k ages e = rw (e, evict_loop) refl

  evict_loop-Represents :
      (lo : ℕ) (ages : List (ℕ × ℕ)) (l : List (Item V)) (c : ByteLru V)
      → Pending c lo ages l
      → Represents (evict_loop ages c) (trim c.limit l)
  unfolding evict_loop trim
  evict_loop-Represents lo [] [] c p = record {
    ages = tt;
    only = p.only;
    size = p.size;
    fits = unfold total in (omega arith);
    limit = p.limit;
  }
  evict_loop-Represents lo [] (x ∷ l) c p = absurd p.along.0
  evict_loop-Represents lo (q ∷ ages) [] c p = absurd p.along.0
  evict_loop-Represents lo ((t, k) ∷ ages) (x ∷ l) c p =
      let (l1, l2, l3, l4, l5, a) = p.along in
      elim (Bool-cases (ltb c.limit (total (x ∷ l)))) [
        | inl e ↦
            (let e' : ltb c.limit c.bytes ≡ true = ap (ltb c.limit) p.size ∙ e in
              rw
                (
                  evict_loop-more c t k ages e',
                  trim-more c.limit x l e,
                  evict-evicted c k (entry_of x t) l4,
                )
                (evict_loop-Represents (suc t) ages l (evicted c k (entry_of x t))
                  (evicted-Pending c lo t k ages x l p)))
        | inr e ↦
            (let e' : ltb c.limit c.bytes ≡ false = ap (ltb c.limit) p.size ∙ e in
              rw (evict_loop-done c t k ages e', trim-done c.limit x l e)
                (record {
                  ages =
                      Ages-weaken c.entries (suc c.tick) 0 lo ((t, k) ∷ ages) (x ∷ l) p.along
                        (omega arith);
                  only = p.only;
                  size = p.size;
                  fits = not_ltb→le _ _ e;
                  limit = p.limit;
                }))
      ]

  add_entry-Pending :
      (c : ByteLru V) (l : List (Item V)) (key : ℕ) (value : V) (bytes : ℕ)
      → Represents c l
      → c.tick + 1 < 2 ^ 64
      → find key l ≡ none
      → total l + bytes < 2 ^ 32
      → Pending
          (add_entry (next_tick c) key value bytes)
          0
          (add_entry (next_tick c) key value bytes).by_age
          (l ++ (record { key = key; value = value; bytes = bytes } ∷ []))
  unfolding add_entry next_tick
  add_entry-Pending c l key value bytes r small absent room =
      let x : Item V = record { key = key; value = value; bytes = bytes } in
      let m : (c.tick + 1) % 2 ^ 64 ≡ c.tick + 1 = omega arith in
      let last =
        put_age c.entries (suc c.tick) 0 (c.tick + 1) key c.by_age l r.ages (omega arith) in
      let sum = total-append l x in
      record {
        along =
            rw (m, last)
              (Ages-append c.entries (put key (entry_of x (c.tick + 1)) c.entries) (suc c.tick) 0
                (c.tick + 1) key x c.by_age l r.ages absent (omega arith) (omega arith) refl
                (lookup-put key (entry_of x (c.tick + 1)) c.entries)
                (λ i ne. lookup-put_other key i (entry_of x (c.tick + 1)) c.entries ne));
        only =
            only_put c.entries l key x (entry_of x ((c.tick + 1) % 2 ^ 64)) refl
              (λ k ne none_there. r.only k none_there);
        size = omega (arith, r.size);
        small = omega arith;
        limit = r.limit;
      }

  remove-limit : (c : ByteLru V) (key : ℕ) → (remove c key).limit ≡ c.limit
  unfolding remove
  remove-limit c key = ground arith

  pub remove-tick : (c : ByteLru V) (key : ℕ) → (remove c key).tick ≡ c.tick
  unfolding remove
  remove-tick c key = ground arith

  -- What `insert` does to a cache without the key.
  abbrev pub entered : ByteLru V → ℕ → V → ℕ → ByteLru V
  entered c key value bytes =
      evict_loop (add_entry (next_tick c) key value bytes).by_age
        (add_entry (next_tick c) key value bytes)

  entered-Represents :
      (c : ByteLru V) (l : List (Item V)) (key : ℕ) (value : V) (bytes : ℕ)
      → Represents c l
      → c.tick + 1 < 2 ^ 64
      → find key l ≡ none
      → total l + bytes < 2 ^ 32
      → Represents
          (entered c key value bytes)
          (trim c.limit (l ++ (record { key = key; value = value; bytes = bytes } ∷ [])))
  unfolding add_entry next_tick
  entered-Represents c l key value bytes r small absent room =
      evict_loop-Represents 0 _ _ _ (add_entry-Pending c l key value bytes r small absent room)

  insert-large :
      (c : ByteLru V) (key : ℕ) (value : V) (bytes : ℕ)
      → ltb c.limit bytes ≡ true
      → insert c key value bytes ≡ remove c key
  unfolding insert
  insert-large c key value bytes e = rw (remove-limit c key, e) refl

  pub insert-small :
      (c : ByteLru V) (key : ℕ) (value : V) (bytes : ℕ)
      → ltb c.limit bytes ≡ false
      → insert c key value bytes ≡ entered (remove c key) key value bytes
  unfolding insert
  insert-small c key value bytes e = rw (remove-limit c key, e) refl

  added-large :
      (limit : ℕ) (x : Item V) (l : List (Item V))
      → ltb limit x.bytes ≡ true
      → added limit x l ≡ without x.key l
  unfolding added
  added-large limit x l e = rw e refl

  pub added-small :
      (limit : ℕ) (x : Item V) (l : List (Item V))
      → ltb limit x.bytes ≡ false
      → added limit x l ≡ trim limit (without x.key l ++ (x ∷ []))
  unfolding added
  added-small limit x l e = rw e refl

  -- `insert` puts the value last under its key, whatever the key held before, and evicts the least
  -- recently used items until the rest fits; a value over the limit only takes the key out. The
  -- counter of uses is below its limit of 2^64 - 1, and the values with the new one are below 2^32
  -- bytes.
  pub insert-Represents :
      (c : ByteLru V) (l : List (Item V)) (key : ℕ) (value : V) (bytes : ℕ)
      → Represents c l
      → c.tick + 1 < 2 ^ 64
      → total l + bytes < 2 ^ 32
      → Represents
          (insert c key value bytes)
          (added c.limit (record { key = key; value = value; bytes = bytes }) l)
  insert-Represents c l key value bytes r small room =
      let gone = remove-Represents c l key r in
      let less = total-without_le key l in
      let lim = remove-limit c key in
      let x : Item V = record { key = key; value = value; bytes = bytes } in
      elim (Bool-cases (ltb c.limit bytes)) [
        | inl e ↦ rw (insert-large c key value bytes e, added-large c.limit x l e) gone
        | inr e ↦
            (let put_in =
                entered-Represents (remove c key) (without key l) key value bytes gone
                  (omega (arith, remove-tick c key)) (find-without key l) (omega arith) in
              rw (insert-small c key value bytes e, added-small c.limit x l e)
                (subst
                  (λ limit.
                    Represents (entered (remove c key) key value bytes)
                      (trim limit (without key l ++ (x ∷ []))))
                  lim put_in))
      ]
