-- ===== src/Pack/Chain/Ends.antt =====
-- A chain that does not end.
use webgit.Base.{
  ℕ, zero, suc, IsU64, ◌≡◌, refl, arith, List, [], ◌∷◌, Option, Option-cases, none, some, inl, inr,
  ok, stuck,
}
use webgit.Fs.Lru.{get, next_tick, lookup}
use webgit.Pack.Header.{offset_delta}
use webgit.Pack.Chain.{
  PackObject, CachedBase, IndexedPackFile, key, Bases, read_pack_object_header, base_offset,
  cached_base, next_offset, go_on, follow, chain_loop, form_deltified_chain,
}

-- What the cache does not have it does not have after a look.
get-get_none : (c : Bases) (k : ℕ) → (get c k).0 ≡ none → (get (get c k).1 k).0 ≡ none
unfolding get next_tick
get-get_none c k e = elim (Option-cases (lookup k c.entries)) [
  | inl q ↦ rw (get, q, q) refl
  | inr (entry, q) ↦
      (let n : ◌≡◌ {A = Option CachedBase} (some entry.value) none = rw (get, q) at e in cc)
]

cached_base_again :
    (p : IndexedPackFile) (bases : Bases) (offset : ℕ)
    → (cached_base p bases offset).0 ≡ none
    → (cached_base p (cached_base p bases offset).1 offset).0 ≡ none
unfolding cached_base
cached_base_again p bases offset e = go p.delta_bases e
  where
    go :
        (number : Option ℕ)
        → (elim number as (λ _. Option CachedBase × Bases) [
          | none ↦ (none, bases)
          | some n ↦ get bases (key n offset)
        ]).0
          ≡ none
        → (elim number as (λ _. Option CachedBase × Bases) [
          | none ↦ (
            none,
            (elim number as (λ _. Option CachedBase × Bases) [
              | none ↦ (none, bases)
              | some n ↦ get bases (key n offset)
            ]).1,
          )
          | some n ↦
              get
                (elim number as (λ _. Option CachedBase × Bases) [
                  | none ↦ (none, bases)
                  | some n ↦ get bases (key n offset)
                ]).1
                (key n offset)
        ]).0
          ≡ none
    go none e = refl
    go (some n) e = get-get_none bases (key n offset) e

zero_back : (offset : ℕ) → IsU64 offset → base_offset offset 0 ≡ offset
unfolding base_offset
zero_back offset h = omega arith

module _ (p : IndexedPackFile) (offset : ℕ) (object : PackObject) (in_range : IsU64 offset)
    (head : read_pack_object_header p.pack_file offset ≡ ok (offset_delta 0, object)) where
  chain_loop_stuck :
      (fuel : ℕ) (bases : Bases) (chain : List PackObject)
      → (cached_base p bases offset).0 ≡ none
      → chain_loop fuel p bases offset chain ≡ stuck
  unfolding chain_loop follow next_offset go_on
  chain_loop_stuck zero bases chain e = refl
  chain_loop_stuck (suc fuel) bases chain e =
      rw (chain_loop, e, head, zero_back offset in_range)
        (chain_loop_stuck fuel (cached_base p bases offset).1 (object ∷ chain)
          (cached_base_again p bases offset e))

  -- A delta whose header says that its base stands where it stands itself is followed for ever:
  -- however many rounds the loop turns it has no answer, neither a value nor an error, when the cache
  -- does not have the offset.
  pub form_deltified_chain_stuck :
      (fuel : ℕ) (bases : Bases)
      → (cached_base p bases offset).0 ≡ none
      → form_deltified_chain fuel p bases offset ≡ stuck
  unfolding form_deltified_chain
  form_deltified_chain_stuck fuel bases e = chain_loop_stuck fuel bases [] e
