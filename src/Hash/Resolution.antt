-- ===== src/Hash/Resolution.antt =====
-- Merging what several packs found.
use webgit.Base.{◌≡◌, refl, arith, Bool, true, List, [], ◌∷◌, ◌++◌, ◌&&◌, if◌then◌else◌}
use webgit.Base.{Bool-cases, inl, inr}
use webgit.Hash.{ObjectId, PrefixResolution, not_found, found, ambiguous, merge, eq_id}
use webgit.Hash.Order.{cmp_bytes_refl, cmp_bytes-eq}

pub eq_id_refl : (a : ObjectId) → eq_id a a ≡ true
unfolding eq_id
eq_id_refl a = ground (arith, cmp_bytes_refl a.bytes)

pub eq_id→eq : (a b : ObjectId) → eq_id a b ≡ true → a ≡ b
unfolding eq_id
eq_id→eq a b h = ground (arith, cmp_bytes-eq a.bytes b.bytes)

unfoldable pub all_same : ObjectId → List ObjectId → Bool
all_same a [] = true
all_same a (b ∷ bs) = eq_id a b && all_same a bs

-- What a list of matches resolves to: nothing, one name however often, or more than one name.
unfoldable pub resolve : List ObjectId → PrefixResolution
resolve [] = not_found
resolve (a ∷ as') = if all_same a as' then found a else ambiguous

all_same-append :
    (a : ObjectId) (xs ys : List ObjectId)
    → all_same a (xs ++ ys) ≡ (all_same a xs && all_same a ys)
unfolding all_same
all_same-append a [] ys = refl
all_same-append a (x ∷ xs) ys = ground (arith, all_same-append a xs ys)

merge-not_found : (r : PrefixResolution) → merge not_found r ≡ r
unfolding merge
merge-not_found not_found = refl
merge-not_found _ = refl

merge-found_resolve :
    (a : ObjectId) (ys : List ObjectId)
    → merge (found a) (resolve ys) ≡ (if all_same a ys then found a else ambiguous)
unfolding merge resolve all_same
merge-found_resolve a [] = refl
merge-found_resolve a (b ∷ bs) = elim (Bool-cases (eq_id a b)) [
  | inl e ↦ ground (arith, eq_id→eq a b e)
  | inr e ↦ ground arith
]

-- Merging the answers for two lists of matches is the answer for the two lists together.
pub merge-resolve : (xs ys : List ObjectId) → merge (resolve xs) (resolve ys) ≡ resolve (xs ++ ys)
unfolding resolve
merge-resolve [] ys = merge-not_found _
merge-resolve (a ∷ as') ys =
    unfold merge in ground (arith, all_same-append a as' ys, merge-found_resolve a ys)
