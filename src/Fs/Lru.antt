-- ===== src/Fs/Lru.antt =====
-- crates/gib-fs/src/lru.rs: a cache bounded by the bytes of its values.
-- Keys are offsets of pages. A map is a list of pairs; `put` keeps the ascending order of keys.
pub mod Maps
pub mod Recency
pub mod Ages
pub mod Refines
pub mod Insert
pub mod Values
pub mod Keeps
mod Examples
use webgit.Base.{ℕ, ◌+◌, ◌-◌, ◌%◌, ◌^◌, List, [], ◌∷◌, Bool, true, false, Option, none, some}
use webgit.Base.{ltb, ◌==◌, if◌then◌else◌}
use webgit.Base.{wrapping_add, wrapping_sub}
use Prim.Native.Nat.{compare as cmp, Ordering}

module _ {ℓ} {V : Type ℓ} where
  unfoldable pub lookup : ℕ → List (ℕ × V) → Option V
  lookup k [] = none
  lookup k ((j, v) ∷ m) = if k == j then some v else lookup k m

  unfoldable pub put : ℕ → V → List (ℕ × V) → List (ℕ × V)
  put k v [] = (k, v) ∷ []
  put k v ((j, w) ∷ m) = elim (cmp k j) [
    | Ordering.lt ↦ (k, v) ∷ (j, w) ∷ m
    | Ordering.eq ↦ (k, v) ∷ m
    | Ordering.gt ↦ (j, w) ∷ put k v m
  ]

  unfoldable pub erase : ℕ → List (ℕ × V) → List (ℕ × V)
  erase k [] = []
  erase k ((j, v) ∷ m) = (let rest = erase k m in if k == j then rest else (j, v) ∷ rest)

pub record LruEntry {ℓ} (V : Type ℓ) : Type ℓ where
  pub value : V
  pub bytes : ℕ
  pub tick : ℕ

pub record ByteLru {ℓ} (V : Type ℓ) : Type ℓ where
  pub entries : List (ℕ × LruEntry V)
  pub by_age : List (ℕ × ℕ)
  pub tick : ℕ
  pub bytes : ℕ
  pub limit : ℕ

module _ {ℓ} {V : Type ℓ} where
  unfoldable pub new : ℕ → ByteLru V
  new limit = record { entries = []; by_age = []; tick = 0; bytes = 0; limit = limit }

  pub unbounded : ByteLru V
  unbounded = new (2 ^ 32 - 1)

  unfoldable pub next_tick : ByteLru V → ByteLru V
  next_tick c = record {
    entries = c.entries;
    by_age = c.by_age;
    tick = (c.tick + 1) % 2 ^ 64;
    bytes = c.bytes;
    limit = c.limit;
  }

  unfoldable pub contains_key : ByteLru V → ℕ → Bool
  contains_key c key = elim (lookup key c.entries) [ none ↦ false | some entry ↦ true ]

  unfoldable pub touch : ByteLru V → ℕ → LruEntry V → ByteLru V
  touch c key entry = record {
    entries =
        put key (record { value = entry.value; bytes = entry.bytes; tick = c.tick }) c.entries;
    by_age = put c.tick key (erase entry.tick c.by_age);
    tick = c.tick;
    bytes = c.bytes;
    limit = c.limit;
  }

  unfoldable pub get : ByteLru V → ℕ → Option V × ByteLru V
  get c key = elim (lookup key c.entries) [
    | none ↦ (none, next_tick c)
    | some entry ↦ (some entry.value, touch (next_tick c) key entry)
  ]

  unfoldable pub remove : ByteLru V → ℕ → ByteLru V
  remove c key = elim (lookup key c.entries) [
    | none ↦ c
    | some entry ↦ record {
      entries = erase key c.entries;
      by_age = erase entry.tick c.by_age;
      tick = c.tick;
      bytes = wrapping_sub c.bytes entry.bytes;
      limit = c.limit;
    }
  ]

  -- One round of the loop of `insert`: the oldest key goes, and its entry with it.
  unfoldable pub evict : ℕ → ByteLru V → ByteLru V
  evict oldest c = elim (lookup oldest c.entries) [
    | none ↦ c
    | some evicted ↦ record {
      entries = erase oldest c.entries;
      by_age = c.by_age;
      tick = c.tick;
      bytes = wrapping_sub c.bytes evicted.bytes;
      limit = c.limit;
    }
  ]

  abbrev pub with_ages : List (ℕ × ℕ) → ByteLru V → ByteLru V
  with_ages ages c = record {
    entries = c.entries;
    by_age = ages;
    tick = c.tick;
    bytes = c.bytes;
    limit = c.limit;
  }

  -- `while self.bytes > self.limit`, over what is left of `by_age`.
  unfoldable pub evict_loop : List (ℕ × ℕ) → ByteLru V → ByteLru V
  evict_loop [] c = with_ages [] c
  evict_loop ((age, oldest) ∷ ages) c = elim (ltb c.limit c.bytes) [
    | true ↦ evict_loop ages (evict oldest c)
    | false ↦ with_ages ((age, oldest) ∷ ages) c
  ]

  unfoldable pub add_entry : ByteLru V → ℕ → V → ℕ → ByteLru V
  add_entry c key value bytes = record {
    entries = put key (record { value = value; bytes = bytes; tick = c.tick }) c.entries;
    by_age = put c.tick key c.by_age;
    tick = c.tick;
    bytes = wrapping_add c.bytes bytes;
    limit = c.limit;
  }

  unfoldable pub insert : ByteLru V → ℕ → V → ℕ → ByteLru V
  insert c key value bytes =
      let removed = remove c key in
      if ltb removed.limit bytes
      then removed
      else let added = add_entry (next_tick removed) key value bytes in
        evict_loop added.by_age added
