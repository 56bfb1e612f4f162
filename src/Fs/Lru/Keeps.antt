-- ===== src/Fs/Lru/Keeps.antt =====
-- A value that was inserted is there at the next `get`.
use webgit.Base.{
  ℕ, ◌+◌, ◌%◌, ◌^◌, ◌≤◌, ◌<◌, arith, ◌≡◌, refl, ap, ◌∙◌, List, [], ◌∷◌, ◌++◌, none, some,
}
use webgit.Base.{false, ltb}
use webgit.Fs.Lru.{
  ByteLru, new, lookup, get, insert, next_tick, add_entry, evict_loop, evict, remove,
}
use webgit.Fs.Lru.Recency.{Item, find, without, total, trim, added, find-without}
use webgit.Fs.Lru.Refines.{Represents, value_of, get-Represents}
use webgit.Fs.Lru.Insert.{insert-Represents, insert-small, added-small, remove-tick, entered}

module _ {ℓ} {V : Type ℓ} where
  find-last :
      (l : List (Item V)) (x : Item V) → find x.key l ≡ none → find x.key (l ++ (x ∷ [])) ≡ some x
  unfolding find
  find-last [] x h = ground arith
  find-last (y ∷ l) x h = ground (arith, find-last l x)

  -- Trimming keeps the last item if it fits alone.
  find-trim :
      (limit : ℕ) (l : List (Item V)) (x : Item V)
      → x.bytes ≤ limit
      → find x.key l ≡ none
      → find x.key (trim limit (l ++ (x ∷ []))) ≡ some x
  unfolding find trim total
  find-trim limit [] x h absent = ground arith
  find-trim limit (y ∷ l) x h absent =
      let rest : find x.key l ≡ none = ground arith in
      let last = find-last (y ∷ l) x absent in ground (arith, find-trim limit l x)

  -- A new cache is empty.
  pub new-Represents : (limit : ℕ) → limit < 2 ^ 32 → Represents {V = V} (new limit) []
  unfolding new find total lookup
  new-Represents limit h = record {
    ages = tt;
    only = λ k e. refl;
    size = refl;
    fits = omega arith;
    limit = h;
  }

  evict-tick : (k : ℕ) (c : ByteLru V) → (evict k c).tick ≡ c.tick
  unfolding evict
  evict-tick k c = ground arith

  evict_loop-tick : (ages : List (ℕ × ℕ)) (c : ByteLru V) → (evict_loop ages c).tick ≡ c.tick
  unfolding evict_loop
  evict_loop-tick [] c = refl
  evict_loop-tick ((t, k) ∷ ages) c =
      ground (arith, evict_loop-tick ages (evict k c), evict-tick k c)

  entered-tick :
      (c : ByteLru V) (key : ℕ) (value : V) (bytes : ℕ)
      → (entered c key value bytes).tick ≡ (next_tick c).tick
  unfolding add_entry
  entered-tick c key value bytes = evict_loop-tick _ _

  -- Inserting a value counts as one use.
  insert-tick :
      (c : ByteLru V) (key : ℕ) (value : V) (bytes : ℕ)
      → bytes ≤ c.limit
      → (insert c key value bytes).tick ≡ (c.tick + 1) % 2 ^ 64
  unfolding next_tick
  insert-tick c key value bytes h =
      let small : ltb c.limit bytes ≡ false = ground arith in
      ap (λ (d : ByteLru V). d.tick) (insert-small c key value bytes small)
      ∙ (entered-tick (remove c key) key value bytes
          ∙ ap (λ (t : ℕ). (t + 1) % 2 ^ 64) (remove-tick c key))

  -- A value within the limit is what the next `get` of its key gives, whatever was evicted for it.
  -- The counter of uses has room for both, and the values with the new one are below 2^32 bytes.
  pub get-insert :
      (c : ByteLru V) (l : List (Item V)) (key : ℕ) (value : V) (bytes : ℕ)
      → Represents c l
      → bytes ≤ c.limit
      → c.tick + 2 < 2 ^ 64
      → total l + bytes < 2 ^ 32
      → (get (insert c key value bytes) key).0 ≡ some value
  get-insert c l key value bytes r h small room =
      let x : Item V = record { key = key; value = value; bytes = bytes } in
      let fits : ltb c.limit bytes ≡ false = ground arith in
      let put_in = insert-Represents c l key value bytes r (omega arith) room in
      let counts = insert-tick c key value bytes h in
      let m : (c.tick + 1) % 2 ^ 64 ≡ c.tick + 1 = omega arith in
      let (gives, rest) = get-Represents (insert c key value bytes) _ key put_in (omega arith) in
      let there : find key (added c.limit x l) ≡ some x =
        ap (find key) (added-small c.limit x l fits)
        ∙ find-trim c.limit (without key l) x h (find-without key l) in
      gives ∙ ap value_of there
