-- ===== src/Hash.antt =====
-- crates/gib-hash/src/lib.rs: object names, abbreviated names, and what resolving one found.
-- A slice of bytes is a list of numbers below 256; `[u8; 20]` is such a list of length 20.
pub mod Order
pub mod Prefix
pub mod Hex
pub mod FromHex
pub mod Resolution
mod Examples
use webgit.Base.{ℕ, zero, suc, ◌+◌, ◌-◌, ◌*◌, ◌/◌, ◌%◌, ◌≤◌, Bytes, IsByte, All, length, bit_or}
use webgit.Base.{◌≡◌, Bool, true, false, ◌&&◌, Option, none, some, List, [], ◌∷◌, ◌++◌}
use webgit.Base.{leb, ◌==◌, if◌then◌else◌, take, drop, get_or, set, replicate}
use Prim.Native.Nat.{compare as cmp, Ordering}

pub record ObjectId : Type 0 where
  pub bytes : Bytes

abbrev pub IsId : ObjectId → Type 0
IsId id = (length id.bytes ≡ 20) × All IsByte id.bytes

-- The order of `[u8]`, which `ObjectId` derives: the first byte that differs decides, and a proper
-- prefix comes first.
unfoldable pub cmp_bytes : Bytes → Bytes → Ordering
cmp_bytes [] [] = Ordering.eq
cmp_bytes [] (b ∷ bs) = Ordering.lt
cmp_bytes (a ∷ as') [] = Ordering.gt
cmp_bytes (a ∷ as') (b ∷ bs) = elim (cmp a b) [
  | Ordering.lt ↦ Ordering.lt
  | Ordering.eq ↦ cmp_bytes as' bs
  | Ordering.gt ↦ Ordering.gt
]

-- `char::to_digit(16)` on a byte.
unfoldable pub to_digit : ℕ → Option ℕ
to_digit c =
    if leb b'0' c && leb c b'9'
    then some (c - b'0')
    else if leb b'a' c && leb c b'f'
    then some (c - b'a' + 10)
    else if leb b'A' c && leb c b'F'
    then some (c - b'A' + 10)
    else none

pub record ObjectIdPrefix : Type 0 where
  pub bytes : Bytes
  pub nibbles : ℕ

-- One round of the loop of `from_hex`: `bytes[i / 2] |= nibble << (4 or 0)`.
unfoldable pub put_nibble : Bytes → ℕ → ℕ → Bytes
put_nibble bytes i nibble =
    set bytes (i / 2)
      (bit_or (get_or bytes (i / 2) 0) (if i % 2 == 0 then nibble * 16 % 256 else nibble))

unfoldable pub put_nibbles : Bytes → ℕ → Bytes → Option Bytes
put_nibbles bytes i [] = some bytes
put_nibbles bytes i (c ∷ cs) = elim (to_digit c) [
  | none ↦ none
  | some nibble ↦ put_nibbles (put_nibble bytes i nibble) (suc i) cs
]

unfoldable pub from_hex : Bytes → Option ObjectIdPrefix
from_hex s =
    if leb 4 (length s) && leb (length s) 40
    then elim (put_nibbles (replicate 20 0) 0 s) [
      | none ↦ none
      | some bytes ↦ some (record { bytes = bytes; nibbles = length s })
    ]
    else none

unfoldable pub first_byte : ObjectIdPrefix → ℕ
first_byte p = get_or p.bytes 0 0

unfoldable pub first : ObjectIdPrefix → ObjectId
first p = record { bytes = p.bytes }

-- `for byte in &mut bytes[from..] { *byte = 0xff; }`
pub fill_ff : ℕ → Bytes → Bytes
fill_ff from [] = []
fill_ff zero (b ∷ bs) = 0xff ∷ fill_ff zero bs
fill_ff (suc from) (b ∷ bs) = b ∷ fill_ff from bs

pub last : ObjectIdPrefix → ObjectId
last p =
    let full_bytes = p.nibbles / 2 in
    if p.nibbles % 2 == 1
    then record {
      bytes =
          fill_ff (full_bytes + 1)
            (set p.bytes full_bytes (bit_or (get_or p.bytes full_bytes 0) 0x0f));
    }
    else record { bytes = fill_ff full_bytes p.bytes }

unfoldable pub compare : ObjectIdPrefix → ObjectId → Ordering
compare p id =
    let full_bytes = p.nibbles / 2 in
    elim (cmp_bytes (take full_bytes id.bytes) (take full_bytes p.bytes)) [
      | Ordering.lt ↦ Ordering.lt
      | Ordering.gt ↦ Ordering.gt
      | Ordering.eq ↦
          if p.nibbles % 2 == 1
          then cmp (get_or id.bytes full_bytes 0 / 16) (get_or p.bytes full_bytes 0 / 16)
          else Ordering.eq
    ]

unfoldable pub matches : ObjectIdPrefix → ObjectId → Bool
matches p id = elim (compare p id) [
  | Ordering.lt ↦ false
  | Ordering.eq ↦ true
  | Ordering.gt ↦ false
]

unfoldable pub eq_id : ObjectId → ObjectId → Bool
eq_id a b = elim (cmp_bytes a.bytes b.bytes) [
  | Ordering.lt ↦ false
  | Ordering.eq ↦ true
  | Ordering.gt ↦ false
]

pub data PrefixResolution : Type 0 where
  not_found : PrefixResolution
  found : ObjectId → PrefixResolution
  ambiguous : PrefixResolution

-- The arms of the source's match, in its order.
unfoldable pub merge : PrefixResolution → PrefixResolution → PrefixResolution
merge ambiguous other = ambiguous
merge not_found ambiguous = ambiguous
merge (found a) ambiguous = ambiguous
merge not_found not_found = not_found
merge not_found (found b) = found b
merge (found a) not_found = found a
merge (found a) (found b) = if eq_id a b then found a else ambiguous
