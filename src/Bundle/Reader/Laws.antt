-- ===== src/Bundle/Reader/Laws.antt =====
-- What the writer and the reader of a bundle rely on of the crates they call and of the store.
use webgit.Base.{
  ℕ, ◌≡◌, ◌≢◌, ◌+◌, ◌-◌, ◌++◌, arith, refl, Bytes, length, true, some, ok, Option, List, In, leb,
  le→leb, get_range,
}
use webgit.Base.{length-append, drop-append, take-append, ◌∙◌, ap}
use webgit.Object.{RawObject, compute_id}
use webgit.Hash.{ObjectId}
use webgit.Pack.Delta.{apply_delta}
use webgit.Bundle.Window.Budget.{KeepsLimit}
use webgit.Bundle.Writer.{Crates}
use webgit.Bundle.Reader.{ObjectStore}

-- zlib gives back what it was given, wherever that ends; a delta rebuilds its target, and is no
-- longer than it was to be; SHA-1 has 20 bytes.
pub record IsSound (crates : Crates) : Type 0 where
  pub inflates :
      (x tail : Bytes)
      → crates.decompress (crates.compress x ++ tail) (length x)
        ≡ (true, x, length (crates.compress x))
  pub applies :
      (base body d : Bytes) (limit : ℕ)
      → crates.engine.delta base body limit ≡ some d
      → apply_delta d base ≡ ok body
  pub keeps : KeepsLimit crates.engine
  pub hash_len : (x : Bytes) → length (crates.sha1 x) ≡ 20

-- A store that does not fail, and holds under each name what was put there last.
pub record IsStore {S : Type 0} (store : ObjectStore S) (view : S → ObjectId → Option RawObject)
    : Type 0 where
  pub puts :
      (s : S) (id : ObjectId) (object : RawObject)
      → (t : S) × (store.put s id object ≡ ok t)
        × (view t id ≡ some object)
        × ((other : ObjectId) → other ≢ id → view t other ≡ view s other)
  pub gets : (s : S) (id : ObjectId) → store.get s id ≡ ok (view s id)

-- No two of the objects have the same name.
abbrev pub NoCollision : (Bytes → Bytes) → List RawObject → Type 0
NoCollision sha1 objects =
    (a b : RawObject) → In a objects → In b objects → compute_id sha1 a ≡ compute_id sha1 b → a ≡ b

-- The middle of three parts.
pub get_range-middle :
    (a b c : Bytes) (n : ℕ)
    → length c ≡ n
    → get_range (a ++ (b ++ c)) (length a) (length (a ++ (b ++ c)) - n) ≡ some b
get_range-middle a b c n e =
    let all : length (a ++ (b ++ c)) ≡ length a + (length b + length c) =
      length-append a (b ++ c) ∙ ap (length a +◌) (length-append b c) in
    let end : length (a ++ (b ++ c)) - n ≡ length a + length b = omega arith in
    let l : leb (length a) (length a + length b) ≡ true = le→leb _ _ (omega arith) in
    let r : leb (length a + length b) (length (a ++ (b ++ c))) ≡ true = le→leb _ _ (omega arith) in
    let k : length a + length b - length a ≡ length b = omega arith in
    rw (end, l, r, k, drop-append a (b ++ c), take-append b c) refl
