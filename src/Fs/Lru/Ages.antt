-- ===== src/Fs/Lru/Ages.antt =====
-- The ages of the entries run along with the list of items.
use webgit.Base.{
  ℕ, suc, ◌≤◌, ◌<◌, arith, ◌≡◌, ◌≢◌, refl, sym, ap, ◌∙◌, List, [], ◌∷◌, ◌++◌, none, some,
}
use webgit.Base.{true, false, Bool-cases, inl, inr, ◌==◌}
use webgit.Fs.Lru.{LruEntry, lookup, put, erase}
use webgit.Fs.Lru.Recency.{
  Item, find, without, find-without_other, without-absent, find-append, IsDistinct,
}

module _ {ℓ} {V : Type ℓ} where
  abbrev pub entry_of : Item V → ℕ → LruEntry V
  entry_of x t = record { value = x.value; bytes = x.bytes; tick = t }

  -- The ages, from `lo` on and below `hi`, ascend with the items, and each item has its entry.
  abbrev pub Ages : List (ℕ × LruEntry V) → ℕ → ℕ → List (ℕ × ℕ) → List (Item V) → Type ℓ
  Ages entries hi lo [] [] = Unit {ℓ}
  Ages entries hi lo [] (x ∷ l) = ⊥ × Unit {ℓ}
  Ages entries hi lo (a ∷ ages) [] = ⊥ × Unit {ℓ}
  Ages entries hi lo ((t, k) ∷ ages) (x ∷ l) =
      (lo ≤ t)
      × (t < hi)
      × (k ≡ x.key)
      × (lookup k entries ≡ some (entry_of x t))
      × (find k l ≡ none)
      × Ages entries hi (suc t) ages l

  -- What an item's entry and age are.
  pub Ages-find :
      (entries : List (ℕ × LruEntry V)) (hi lo : ℕ) (ages : List (ℕ × ℕ)) (l : List (Item V))
      (k : ℕ) (x : Item V)
      → Ages entries hi lo ages l
      → find k l ≡ some x
      → (t : ℕ) × (lo ≤ t) × (t < hi) × (lookup k entries ≡ some (entry_of x t))
  unfolding find
  Ages-find entries hi lo [] [] k x a h = cc
  Ages-find entries hi lo [] (y ∷ l) k x a h = absurd a.0
  Ages-find entries hi lo (p ∷ ages) [] k x a h = absurd a.0
  Ages-find entries hi lo ((t, j) ∷ ages) (y ∷ l) k x (l1, l2, l3, l4, l5, a) h =
      elim (Bool-cases (k == y.key)) [
        | inl e ↦
            (let q : k ≡ j = ground arith in
              let same : y ≡ x = (let h' = rw e at h in cc) in (t, l1, l2, rw (q, sym same) l4))
        | inr n ↦
            (let (t', m1, m2, m3) = Ages-find entries hi (suc t) ages l k x a (rw n at h) in
              (t', omega arith, m2, m3))
      ]

  -- Entries of other keys may change.
  pub Ages-frame :
      (entries entries' : List (ℕ × LruEntry V)) (hi hi' lo : ℕ) (ages : List (ℕ × ℕ))
      (l : List (Item V)) (k : ℕ)
      → Ages entries hi lo ages l
      → find k l ≡ none
      → hi ≤ hi'
      → ((i : ℕ) → i ≢ k → lookup i entries' ≡ lookup i entries)
      → Ages entries' hi' lo ages l
  unfolding find
  Ages-frame entries entries' hi hi' lo [] [] k a h le other = tt
  Ages-frame entries entries' hi hi' lo [] (y ∷ l) k a h le other = absurd a.0
  Ages-frame entries entries' hi hi' lo (p ∷ ages) [] k a h le other = absurd a.0
  Ages-frame entries entries' hi hi' lo ((t, j) ∷ ages) (y ∷ l) k (l1, l2, l3, l4, l5, a) h le
        other =
      let ne : j ≢ k = ground arith in
      let rest : find k l ≡ none = ground arith in
      (
        l1,
        omega arith,
        l3,
        other j ne ∙ l4,
        l5,
        Ages-frame entries entries' hi hi' (suc t) ages l k a rest le other,
      )

  -- Every age is at least `lo`.
  erase_age :
      (entries : List (ℕ × LruEntry V)) (hi lo t : ℕ) (ages : List (ℕ × ℕ)) (l : List (Item V))
      → Ages entries hi lo ages l
      → t < lo
      → erase t ages ≡ ages
  unfolding erase
  erase_age entries hi lo t [] l a h = refl
  erase_age entries hi lo t (p ∷ ages) [] a h = absurd a.0
  erase_age entries hi lo t ((t', j) ∷ ages) (y ∷ l) (l1, l2, l3, l4, l5, a) h =
      let n : (t == t') ≡ false = ground arith in
      rw (n, erase_age entries hi (suc t') t ages l a (omega arith)) refl

  pub put_age :
      (entries : List (ℕ × LruEntry V)) (hi lo t k : ℕ) (ages : List (ℕ × ℕ)) (l : List (Item V))
      → Ages entries hi lo ages l
      → hi ≤ t
      → put t k ages ≡ ages ++ ((t, k) ∷ [])
  unfolding put
  put_age entries hi lo t k [] l a h = refl
  put_age entries hi lo t k (p ∷ ages) [] a h = absurd a.0
  put_age entries hi lo t k ((t', j) ∷ ages) (y ∷ l) (l1, l2, l3, l4, l5, a) h =
      ground (arith, put_age entries hi (suc t') t k ages l a h)

  pub Ages-weaken :
      (entries : List (ℕ × LruEntry V)) (hi lo lo' : ℕ) (ages : List (ℕ × ℕ)) (l : List (Item V))
      → Ages entries hi lo' ages l
      → lo ≤ lo'
      → Ages entries hi lo ages l
  Ages-weaken entries hi lo lo' [] [] a h = tt
  Ages-weaken entries hi lo lo' [] (y ∷ l) a h = absurd a.0
  Ages-weaken entries hi lo lo' (p ∷ ages) [] a h = absurd a.0
  Ages-weaken entries hi lo lo' ((t, j) ∷ ages) (y ∷ l) (l1, l2, l3, l4, l5, a) h =
      (omega arith, l2, l3, l4, l5, a)

  abbrev tick_of : LruEntry V → ℕ
  tick_of e = e.tick

  -- Taking an item out takes its age out.
  pub Ages-without :
      (entries : List (ℕ × LruEntry V)) (hi lo t k : ℕ) (x : Item V) (ages : List (ℕ × ℕ))
      (l : List (Item V))
      → Ages entries hi lo ages l
      → find k l ≡ some x
      → lookup k entries ≡ some (entry_of x t)
      → Ages entries hi lo (erase t ages) (without k l)
  unfolding find without erase
  Ages-without entries hi lo t k x [] [] a h e = cc
  Ages-without entries hi lo t k x [] (y ∷ l) a h e = absurd a.0
  Ages-without entries hi lo t k x (p ∷ ages) [] a h e = absurd a.0
  Ages-without entries hi lo t k x ((t', j) ∷ ages) (y ∷ l) (l1, l2, l3, l4, l5, a) h e =
      elim (Bool-cases (k == y.key)) [
        | inl q ↦
            (let kj : k ≡ j = ground arith in
              let e' : lookup j entries ≡ some (entry_of x t) = rw (sym kj) e in
              let same : entry_of x t ≡ entry_of y t' = cc in
              let tt' : t ≡ t' = ap tick_of same in
              let ages' : erase t ages ≡ ages =
                erase_age entries hi (suc t') t ages l a (omega arith) in
              let items : without k l ≡ l = without-absent k l (rw kj l5) in
              let q' : (t == t') ≡ true = ground arith in
              rw (q', q, ages', items) (Ages-weaken entries hi lo (suc t') ages l a (omega arith)))
        | inr n ↦
            (let h' = rw n at h in
              let (t2, m1, m2, m3) = Ages-find entries hi (suc t') ages l k x a h' in
              let same : entry_of x t ≡ entry_of x t2 = cc in
              let t2' : t ≡ t2 = ap tick_of same in
              let q' : (t == t') ≡ false = ground arith in
              let ne : j ≢ k = ground arith in
              rw (q', n)
                (
                  l1,
                  l2,
                  l3,
                  l4,
                  find-without_other k j l ne ∙ l5,
                  Ages-without entries hi (suc t') t k x ages l a h' e,
                ))
      ]

  pub Ages-raise :
      (entries : List (ℕ × LruEntry V)) (hi hi' lo : ℕ) (ages : List (ℕ × ℕ)) (l : List (Item V))
      → Ages entries hi lo ages l
      → hi ≤ hi'
      → Ages entries hi' lo ages l
  Ages-raise entries hi hi' lo [] [] a h = tt
  Ages-raise entries hi hi' lo [] (y ∷ l) a h = absurd a.0
  Ages-raise entries hi hi' lo (p ∷ ages) [] a h = absurd a.0
  Ages-raise entries hi hi' lo ((t, j) ∷ ages) (y ∷ l) (l1, l2, l3, l4, l5, a) h =
      (l1, omega arith, l3, l4, l5, Ages-raise entries hi hi' (suc t) ages l a h)

  -- A new item comes last.
  pub Ages-append :
      (entries entries' : List (ℕ × LruEntry V)) (hi lo t k : ℕ) (x : Item V) (ages : List (ℕ × ℕ))
      (l : List (Item V))
      → Ages entries hi lo ages l
      → find k l ≡ none
      → lo ≤ t
      → hi ≤ t
      → k ≡ x.key
      → lookup k entries' ≡ some (entry_of x t)
      → ((i : ℕ) → i ≢ k → lookup i entries' ≡ lookup i entries)
      → Ages entries' (suc t) lo (ages ++ ((t, k) ∷ [])) (l ++ (x ∷ []))
  unfolding find
  Ages-append entries entries' hi lo t k x [] [] a h lt le q e other =
      (lt, omega arith, q, e, refl, tt)
  Ages-append entries entries' hi lo t k x [] (y ∷ l) a h lt le q e other = absurd a.0
  Ages-append entries entries' hi lo t k x (p ∷ ages) [] a h lt le q e other = absurd a.0
  Ages-append entries entries' hi lo t k x ((t', j) ∷ ages) (y ∷ l) (l1, l2, l3, l4, l5, a) h lt le
        q e other =
      let ne : j ≢ k = ground arith in
      let rest : find k l ≡ none = ground arith in
      let far : j ≢ x.key = omega arith in
      (
        l1,
        omega arith,
        l3,
        other j ne ∙ l4,
        find-append j l x l5 far,
        Ages-append entries entries' hi (suc t') t k x ages l a rest (omega arith) le q e other,
      )

  pub Ages-IsDistinct :
      (entries : List (ℕ × LruEntry V)) (hi lo : ℕ) (ages : List (ℕ × ℕ)) (l : List (Item V))
      → Ages entries hi lo ages l
      → IsDistinct l
  Ages-IsDistinct entries hi lo [] [] a = tt
  Ages-IsDistinct entries hi lo [] (y ∷ l) a = absurd a.0
  Ages-IsDistinct entries hi lo (p ∷ ages) [] a = absurd a.0
  Ages-IsDistinct entries hi lo ((t, j) ∷ ages) (y ∷ l) (l1, l2, l3, l4, l5, a) =
      (ap (λ (k : ℕ). find k l) (sym l3) ∙ l5, Ages-IsDistinct entries hi (suc t) ages l a)
