-- ===== src/Diff/Names.antt =====
-- crates/gib-diff/src/lib.rs: the order in which the entries of two trees are walked.
use webgit.Base.{ℕ, zero, suc, min, ◌≡◌, refl, ◌≢◌, Bytes, All, Bool, true, false, [], ◌∷◌, ◌++◌}
use webgit.Base.{arith, length, take, get_elem?}
use webgit.Hash.{cmp_bytes}
use webgit.Object.Trees.{TreeEntry, is_tree}
use webgit.Diff.{entry_name_cmp, byte_at, or_slash, cmp_option, then_with}
use Prim.Native.Nat.{compare, Ordering}

abbrev pub IsName : Bytes → Type 0
IsName name = All (λ b. b ≢ b'/') name

-- A name as git sorts it.
pub sort_name : Bytes → Bool → Bytes
sort_name name true = name ++ b'/' ∷ []
sort_name name false = name

-- The comparison of two names of which `common` bytes are compared first.
unfoldable names_at : ℕ → Bytes → Bool → Bytes → Bool → Ordering
names_at common l s r t =
    then_with (cmp_bytes (take common l) (take common r))
      (cmp_option (or_slash (get_elem? l common) s) (or_slash (get_elem? r common) t))

names_at-cons :
    (c a b : ℕ) (l r : Bytes) (s t : Bool)
    → names_at (suc c) (a ∷ l) s (b ∷ r) t ≡ then_with (compare a b) (names_at c l s r t)
unfolding names_at then_with cmp_bytes
names_at-cons c a b l r s t = ground arith

then_with-cons :
    (a b : ℕ) (l r : Bytes) → then_with (compare a b) (cmp_bytes l r) ≡ cmp_bytes (a ∷ l) (b ∷ r)
unfolding then_with cmp_bytes
then_with-cons a b l r = ground arith

sort_name-cons : (a : ℕ) (l : Bytes) (s : Bool) → sort_name (a ∷ l) s ≡ a ∷ sort_name l s
unfolding sort_name
sort_name-cons a l true = refl
sort_name-cons a l false = refl

slash_first : (b : ℕ) (r : Bytes) → b ≢ b'/' → compare b'/' b ≡ cmp_bytes (b'/' ∷ []) (b ∷ r)
unfolding cmp_bytes
slash_first b r h = ground arith

slash_last : (a : ℕ) (l : Bytes) → a ≢ b'/' → compare a b'/' ≡ cmp_bytes (a ∷ l) (b'/' ∷ [])
unfolding cmp_bytes
slash_last a l h = ground arith

names_at-sort_name :
    (c : ℕ) (l r : Bytes) (s t : Bool)
    → c ≡ min (length l) (length r)
    → IsName l
    → IsName r
    → names_at c l s r t ≡ cmp_bytes (sort_name l s) (sort_name r t)
unfolding names_at sort_name then_with cmp_bytes cmp_option or_slash
names_at-sort_name zero [] [] true true e h k = refl
names_at-sort_name zero [] [] true false e h k = refl
names_at-sort_name zero [] [] false true e h k = refl
names_at-sort_name zero [] [] false false e h k = refl
names_at-sort_name zero [] (b ∷ r) true t e h (k, ks) =
    rw (sort_name-cons b r t) (slash_first b (sort_name r t) k)
names_at-sort_name zero [] (b ∷ r) false t e h k = rw (sort_name-cons b r t) refl
names_at-sort_name zero (a ∷ l) [] s true e (h, hs) k =
    rw (sort_name-cons a l s) (slash_last a (sort_name l s) h)
names_at-sort_name zero (a ∷ l) [] s false e h k = rw (sort_name-cons a l s) refl
names_at-sort_name zero (a ∷ l) (b ∷ r) s t e h k = ground arith
names_at-sort_name (suc c) [] r s t e h k = ground arith
names_at-sort_name (suc c) (a ∷ l) [] s t e h k = ground arith
names_at-sort_name (suc c) (a ∷ l) (b ∷ r) s t e (h, hs) (k, ks) =
    let q = names_at-sort_name c l r s t (omega arith) hs ks in
    rw (names_at-cons c a b l r s t, q, sort_name-cons a l s, sort_name-cons b r t)
      (then_with-cons a b (sort_name l s) (sort_name r t))

-- Two entries whose names hold no slash are walked in the order in which git sorts a tree: that of
-- their names as bytes, with a slash behind the name of each directory.
pub entry_name_cmp-sort_name :
    (l r : TreeEntry)
    → IsName l.name
    → IsName r.name
    → entry_name_cmp l r
      ≡ cmp_bytes
          (sort_name l.name (is_tree l.entry_type))
          (sort_name r.name (is_tree r.entry_type))
unfolding entry_name_cmp byte_at names_at
entry_name_cmp-sort_name l r h k =
    names_at-sort_name (min (length l.name) (length r.name)) l.name r.name (is_tree l.entry_type)
      (is_tree r.entry_type) refl h k
