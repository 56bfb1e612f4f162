-- ===== src/Hash/Order.antt =====
-- The lexicographic order on bytes is a linear order.
use webgit.Base.{Bytes, ◌≡◌, refl, arith, [], ◌∷◌}
use webgit.Hash.{cmp_bytes}
use Prim.Native.Nat.{Ordering}

pub cmp_bytes_refl : (a : Bytes) → cmp_bytes a a ≡ Ordering.eq
unfolding cmp_bytes
cmp_bytes_refl [] = refl
cmp_bytes_refl (a ∷ as') = ground (arith, cmp_bytes_refl as')

pub cmp_bytes-eq : (a b : Bytes) → cmp_bytes a b ≡ Ordering.eq → a ≡ b
unfolding cmp_bytes
cmp_bytes-eq [] [] h = refl
cmp_bytes-eq [] (b ∷ bs) h = ground arith
cmp_bytes-eq (a ∷ as') [] h = ground arith
cmp_bytes-eq (a ∷ as') (b ∷ bs) h = ground (arith, cmp_bytes-eq as' bs)

cmp_bytes-swap_lt : (a b : Bytes) → cmp_bytes a b ≡ Ordering.lt → cmp_bytes b a ≡ Ordering.gt
unfolding cmp_bytes
cmp_bytes-swap_lt [] [] h = ground arith
cmp_bytes-swap_lt [] (b ∷ bs) h = refl
cmp_bytes-swap_lt (a ∷ as') [] h = ground arith
cmp_bytes-swap_lt (a ∷ as') (b ∷ bs) h = ground (arith, cmp_bytes-swap_lt as' bs)

cmp_bytes-swap_gt : (a b : Bytes) → cmp_bytes a b ≡ Ordering.gt → cmp_bytes b a ≡ Ordering.lt
unfolding cmp_bytes
cmp_bytes-swap_gt [] [] h = ground arith
cmp_bytes-swap_gt [] (b ∷ bs) h = ground arith
cmp_bytes-swap_gt (a ∷ as') [] h = refl
cmp_bytes-swap_gt (a ∷ as') (b ∷ bs) h = ground (arith, cmp_bytes-swap_gt as' bs)

pub cmp_bytes_trans :
    (a b c : Bytes)
    → cmp_bytes a b ≡ Ordering.lt
    → cmp_bytes b c ≡ Ordering.lt
    → cmp_bytes a c ≡ Ordering.lt
unfolding cmp_bytes
cmp_bytes_trans [] [] c h k = ground arith
cmp_bytes_trans [] (b ∷ bs) [] h k = ground arith
cmp_bytes_trans [] (b ∷ bs) (c ∷ cs) h k = refl
cmp_bytes_trans (a ∷ as') [] c h k = ground arith
cmp_bytes_trans (a ∷ as') (b ∷ bs) [] h k = ground arith
cmp_bytes_trans (a ∷ as') (b ∷ bs) (c ∷ cs) h k = ground (arith, cmp_bytes_trans as' bs cs)
