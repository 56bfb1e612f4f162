-- ===== src/Hash/FromHex.antt =====
-- `from_hex`: the abbreviated name that a text of hexadecimal digits spells.
use webgit.Base.{ℕ, zero, suc, ◌/◌, ◌%◌, ◌≤◌, Bytes, All, length}
use webgit.Base.{◌≡◌, ◌∙◌, arith, Bool, true, false, [], ◌∷◌, some}
use webgit.Base.{◌==◌, drop, replicate}
use webgit.Hash.{ObjectId, IsId, ObjectIdPrefix, compare, matches, put_nibbles, from_hex}
use webgit.Hash.Prefix.{IsZero, IsPadded, IsPrefix, compare_at}
use webgit.Hash.Hex.{
  nibbles, spells, agree, width, is_eq, width-half, compare_at-agree, Written, put_nibbles-Written,
}

IsZero-bytes : (bs : Bytes) → All IsZero (nibbles bs) → All IsZero bs
unfolding nibbles
IsZero-bytes [] z = tt
IsZero-bytes (b ∷ bs) z = (omega arith, IsZero-bytes bs z.1.1)

zeros→IsPadded :
    (k : ℕ) (odd : Bool) (bs : Bytes)
    → All IsZero (drop (width k odd) (nibbles bs))
    → IsPadded k odd bs
unfolding nibbles
zeros→IsPadded zero true [] z = tt
zeros→IsPadded k odd [] z = tt
zeros→IsPadded zero true (b ∷ bs) z = (z.0, IsZero-bytes bs z.1)
zeros→IsPadded zero false (b ∷ bs) z = (omega arith, IsZero-bytes bs z.1.1)
zeros→IsPadded (suc k) odd (b ∷ bs) z = zeros→IsPadded k odd bs z

-- What an accepted text gives, field by field.
from_hex-fields :
    (s : Bytes) (p : ObjectIdPrefix)
    → from_hex s ≡ some p
    → (p.nibbles ≡ length s) × (length s ≤ 40) × (put_nibbles (replicate 20 0) 0 s ≡ some p.bytes)
unfolding from_hex
from_hex-fields s p e = ground arith

from_hex-Written :
    (s ns : Bytes) (p : ObjectIdPrefix)
    → from_hex s ≡ some p
    → Written (replicate 20 0) 0 (length s) s ns p.bytes
from_hex-Written s ns p e =
    let (n, h, w) = from_hex-fields s p e in
    put_nibbles-Written (replicate 20 0) 0 (length s) s ns p.bytes (omega arith)
      (unfold nibbles in (omega arith)) (omega arith) (omega arith) w

-- The name that `from_hex` accepts is well formed: 20 bytes, with zeros past its digits.
pub from_hex-IsPrefix : (s : Bytes) (p : ObjectIdPrefix) → from_hex s ≡ some p → IsPrefix p
from_hex-IsPrefix s p e =
    let w = from_hex-Written s [] p e in
    let f = from_hex-fields s p e in
    record {
      size = w.size;
      bytes = w.bytes;
      short = omega (arith, f.0, f.1);
      padded =
          zeros→IsPadded (p.nibbles / 2) (p.nibbles % 2 == 1) p.bytes
            (rw (width-half, f.0) w.zeros);
    }

matches-is_eq :
    (p : ObjectIdPrefix) (id : ObjectId)
    → matches p id ≡ is_eq (compare_at (p.nibbles / 2) (p.nibbles % 2 == 1) id.bytes p.bytes)
unfolding matches compare compare_at
matches-is_eq p id = ground arith

-- An abbreviated name matches exactly the names whose first hexadecimal digits it spells.
pub matches-from_hex :
    (s : Bytes) (p : ObjectIdPrefix) (id : ObjectId)
    → from_hex s ≡ some p
    → IsId id
    → matches p id ≡ spells s (nibbles id.bytes)
matches-from_hex s p id e hid =
    let w = from_hex-Written s (nibbles id.bytes) p e in
    let f = from_hex-fields s p e in
    matches-is_eq p id
    ∙ compare_at-agree (p.nibbles / 2) (p.nibbles % 2 == 1) id.bytes p.bytes
        (omega (arith, hid.0, w.size)) (rw width-half (omega (arith, f.0, f.1, w.size)))
    ∙ rw (width-half, f.0) (unfold agree in w.digits)
