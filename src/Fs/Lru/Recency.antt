-- ===== src/Fs/Lru/Recency.antt =====
-- What the cache promises: a list of items, the least recently used first.
use webgit.Base.{
  ℕ, ◌+◌, ◌≤◌, arith, ◌≡◌, ◌≢◌, refl, ap, ◌∙◌, true, false, Bool-cases, inl, inr, List, [], ◌∷◌,
  ◌++◌, Option, none, some,
}
use webgit.Base.{ltb, ◌==◌, if◌then◌else◌}

pub record Item {ℓ} (V : Type ℓ) : Type ℓ where
  pub key : ℕ
  pub value : V
  pub bytes : ℕ

module _ {ℓ} {V : Type ℓ} where
  unfoldable pub find : ℕ → List (Item V) → Option (Item V)
  find k [] = none
  find k (x ∷ l) = if k == x.key then some x else find k l

  unfoldable pub without : ℕ → List (Item V) → List (Item V)
  without k [] = []
  without k (x ∷ l) = (let rest = without k l in if k == x.key then rest else x ∷ rest)

  unfoldable pub total : List (Item V) → ℕ
  total [] = 0
  total (x ∷ l) = x.bytes + total l

  -- A use moves the item to the end.
  unfoldable pub used : ℕ → List (Item V) → List (Item V)
  used k l = elim (find k l) [ none ↦ l | some x ↦ without k l ++ (x ∷ []) ]

  -- Items leave from the front until the rest fits.
  unfoldable pub trim : ℕ → List (Item V) → List (Item V)
  trim limit [] = []
  trim limit (x ∷ l) = elim (ltb limit (total (x ∷ l))) [ true ↦ trim limit l | false ↦ x ∷ l ]

  unfoldable pub added : ℕ → Item V → List (Item V) → List (Item V)
  added limit x l =
      if ltb limit x.bytes then without x.key l else trim limit (without x.key l ++ (x ∷ []))

  pub find-without : (k : ℕ) (l : List (Item V)) → find k (without k l) ≡ none
  unfolding find without
  find-without k [] = refl
  find-without k (x ∷ l) = ground (arith, find-without k l)

  pub find-without_other : (k i : ℕ) (l : List (Item V)) → i ≢ k → find i (without k l) ≡ find i l
  unfolding find without
  find-without_other k i [] h = refl
  find-without_other k i (x ∷ l) h = ground (arith, find-without_other k i l)

  pub without-absent : (k : ℕ) (l : List (Item V)) → find k l ≡ none → without k l ≡ l
  unfolding find without
  without-absent k [] h = refl
  without-absent k (x ∷ l) h = ground (arith, without-absent k l)

  pub find-key : (k : ℕ) (l : List (Item V)) (x : Item V) → find k l ≡ some x → x.key ≡ k
  unfolding find
  find-key k [] x h = cc
  find-key k (y ∷ l) x h = ground (arith, find-key k l x)

  pub find-append :
      (k : ℕ) (l : List (Item V)) (x : Item V)
      → find k l ≡ none
      → k ≢ x.key
      → find k (l ++ (x ∷ [])) ≡ none
  unfolding find
  find-append k [] x h n = ground arith
  find-append k (y ∷ l) x h n = ground (arith, find-append k l x)

  pub append_none :
      (k : ℕ) (l : List (Item V)) (x : Item V)
      → find k (l ++ (x ∷ [])) ≡ none
      → (k ≢ x.key) × (find k l ≡ none)
  unfolding find
  append_none k [] x h = ground arith
  append_none k (y ∷ l) x h = ground (arith, append_none k l x)

  pub total-append : (l : List (Item V)) (x : Item V) → total (l ++ (x ∷ [])) ≡ total l + x.bytes
  unfolding total
  total-append [] x = omega arith
  total-append (y ∷ l) x = omega (arith, total-append l x)

  -- No key twice.
  abbrev pub IsDistinct : List (Item V) → Type ℓ
  IsDistinct [] = Unit {ℓ}
  IsDistinct (x ∷ l) = (find x.key l ≡ none) × IsDistinct l

  pub total-without :
      (k : ℕ) (l : List (Item V)) (x : Item V)
      → IsDistinct l
      → find k l ≡ some x
      → total (without k l) + x.bytes ≡ total l
  unfolding total without find
  total-without k [] x d h = cc
  total-without k (y ∷ l) x (fresh, d) h = elim (Bool-cases (k == y.key)) [
    | inl e ↦
        (let q : k ≡ y.key = ground arith in
          let keep : without k l ≡ l = without-absent k l (ap (λ (j : ℕ). find j l) q ∙ fresh) in
          let same = rw e at h in
          let b : y.bytes ≡ x.bytes = ground arith in rw (e, keep) (omega arith))
    | inr n ↦ (let h' = rw n at h in rw n (omega (arith, total-without k l x d h')))
  ]

  pub total-without_le : (k : ℕ) (l : List (Item V)) → total (without k l) ≤ total l
  unfolding total without
  total-without_le k [] = omega arith
  total-without_le k (y ∷ l) = ground (arith, total-without_le k l)

  pub trim-more :
      (limit : ℕ) (x : Item V) (l : List (Item V))
      → ltb limit (total (x ∷ l)) ≡ true
      → trim limit (x ∷ l) ≡ trim limit l
  unfolding trim
  trim-more limit x l e = rw (e, trim) refl

  pub trim-done :
      (limit : ℕ) (x : Item V) (l : List (Item V))
      → ltb limit (total (x ∷ l)) ≡ false
      → trim limit (x ∷ l) ≡ x ∷ l
  unfolding trim
  trim-done limit x l e = rw (e, trim) refl
