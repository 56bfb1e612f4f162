-- ===== src/Fs/Lru/Values.antt =====
-- What holds of every value in the cache, with its key, goes on holding.
use webgit.Base.{ℕ, subst, ◌≡◌, ◌≢◌, sym, ◌∙◌, arith, Bool-cases, Option-cases, inl, inr, ◌==◌}
use webgit.Base.{List, [], ◌∷◌, Option, some, ltb}
use webgit.Fs.Lru.{
  ByteLru, LruEntry, lookup, put, erase, new, next_tick, touch, get, remove, evict, evict_loop,
  add_entry, insert,
}
use webgit.Fs.Lru.Maps.{lookup-put, lookup-put_other, lookup-erase, lookup-erase_other}

module _ {ℓ κ} {V : Type ℓ} (P : ℕ → V → Type κ) where
  abbrev pub Values : List (ℕ × LruEntry V) → Type (ℓ ⊔ κ)
  Values entries = (k : ℕ) (entry : LruEntry V) → lookup k entries ≡ some entry → P k entry.value

  value_of_some :
      (k : ℕ) (a b : LruEntry V)
      → P k a.value
      → ◌≡◌ {A = Option (LruEntry V)} (some a) (some b)
      → P k b.value
  value_of_some k a b h e = (let q : a ≡ b = cc in subst (λ x. P k x.value) q h)

  Values-put :
      (k : ℕ) (entry : LruEntry V) (entries : List (ℕ × LruEntry V))
      → Values entries
      → P k entry.value
      → Values (put k entry entries)
  Values-put k entry entries h p i found e = elim (Bool-cases (i == k)) [
    | inl t ↦
        (let q : k ≡ i = ground arith in
          subst (λ j. P j found.value) q
            (value_of_some k entry found p (
              sym (lookup-put k entry entries)
              ∙ subst (λ j. lookup j (put k entry entries) ≡ some found) (sym q) e)))
    | inr f ↦
        (let ne : i ≢ k = ground arith in
          h i found (sym (lookup-put_other k i entry entries ne) ∙ e))
  ]

  Values-erase :
      (k : ℕ) (entries : List (ℕ × LruEntry V)) → Values entries → Values (erase k entries)
  Values-erase k entries h i found e = elim (Bool-cases (i == k)) [
    | inl t ↦
        (let q : i ≡ k = ground arith in
          let e' : lookup k (erase k entries) ≡ some found =
            subst (λ j. lookup j (erase k entries) ≡ some found) q e in
          let n = sym (lookup-erase k entries) ∙ e' in cc)
    | inr f ↦
        (let ne : i ≢ k = ground arith in h i found (sym (lookup-erase_other k i entries ne) ∙ e))
  ]

  pub Values-get : (c : ByteLru V) (key : ℕ) → Values c.entries → Values (get c key).1.entries
  unfolding get next_tick touch
  Values-get c key h = elim (Option-cases (lookup key c.entries)) [
    | inl e ↦ rw (get, e) h
    | inr (entry, e) ↦ rw (get, e) (Values-put key _ c.entries h (h key entry e))
  ]

  pub get-Values :
      (c : ByteLru V) (key : ℕ) (v : V) → Values c.entries → (get c key).0 ≡ some v → P key v
  unfolding get
  get-Values c key v h e = elim (Option-cases (lookup key c.entries)) [
    | inl q ↦ (let n = rw (get, q) at e in cc)
    | inr (entry, q) ↦
        (let n : ◌≡◌ {A = Option V} (some entry.value) (some v) = rw (get, q) at e in
          let q' : entry.value ≡ v = cc in subst (P key) q' (h key entry q))
  ]

  Values-remove : (c : ByteLru V) (key : ℕ) → Values c.entries → Values (remove c key).entries
  unfolding remove
  Values-remove c key h = elim (Option-cases (lookup key c.entries)) [
    | inl e ↦ rw (remove, e) h
    | inr (entry, e) ↦ rw (remove, e) (Values-erase key c.entries h)
  ]

  Values-evict : (c : ByteLru V) (key : ℕ) → Values c.entries → Values (evict key c).entries
  unfolding evict
  Values-evict c key h = elim (Option-cases (lookup key c.entries)) [
    | inl e ↦ rw (evict, e) h
    | inr (entry, e) ↦ rw (evict, e) (Values-erase key c.entries h)
  ]

  Values-evict_loop :
      (ages : List (ℕ × ℕ)) (c : ByteLru V) → Values c.entries → Values (evict_loop ages c).entries
  unfolding evict_loop
  Values-evict_loop [] c h = h
  Values-evict_loop ((age, oldest) ∷ ages) c h = elim (Bool-cases (ltb c.limit c.bytes)) [
    | inl e ↦ rw (evict_loop, e) (Values-evict_loop ages (evict oldest c) (Values-evict c oldest h))
    | inr e ↦ rw (evict_loop, e) h
  ]

  pub Values-insert :
      (c : ByteLru V) (key : ℕ) (value : V) (bytes : ℕ)
      → Values c.entries
      → P key value
      → Values (insert c key value bytes).entries
  unfolding insert add_entry next_tick
  Values-insert c key value bytes h p = elim (Bool-cases (ltb (remove c key).limit bytes)) [
    | inl e ↦ rw (insert, e) (Values-remove c key h)
    | inr e ↦ rw (insert, e) (Values-evict_loop _ _ (Values-put key _ _ (Values-remove c key h) p))
  ]

  pub new-Values : (limit : ℕ) → Values (new {V = V} limit).entries
  unfolding new lookup
  new-Values limit k entry e = cc
