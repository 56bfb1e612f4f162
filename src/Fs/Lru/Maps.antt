-- ===== src/Fs/Lru/Maps.antt =====
-- Maps as lists of pairs: what a lookup finds behind `put` and `erase`.
use webgit.Base.{ℕ, arith, ◌≡◌, ◌≢◌, refl, List, [], ◌∷◌, none, some}
use webgit.Fs.Lru.{lookup, put, erase}

module _ {ℓ} {V : Type ℓ} where
  pub lookup-put : (k : ℕ) (v : V) (m : List (ℕ × V)) → lookup k (put k v m) ≡ some v
  unfolding lookup put
  lookup-put k v [] = ground arith
  lookup-put k v ((j, w) ∷ m) = ground (arith, lookup-put k v m)

  pub lookup-put_other :
      (k i : ℕ) (v : V) (m : List (ℕ × V)) → i ≢ k → lookup i (put k v m) ≡ lookup i m
  unfolding lookup put
  lookup-put_other k i v [] h = ground arith
  lookup-put_other k i v ((j, w) ∷ m) h = ground (arith, lookup-put_other k i v m)

  pub lookup-erase : (k : ℕ) (m : List (ℕ × V)) → lookup k (erase k m) ≡ none
  unfolding lookup erase
  lookup-erase k [] = refl
  lookup-erase k ((j, w) ∷ m) = ground (arith, lookup-erase k m)

  pub lookup-erase_other : (k i : ℕ) (m : List (ℕ × V)) → i ≢ k → lookup i (erase k m) ≡ lookup i m
  unfolding lookup erase
  lookup-erase_other k i [] h = refl
  lookup-erase_other k i ((j, w) ∷ m) h = ground (arith, lookup-erase_other k i m)
