-- ===== src/Hash/Examples.antt =====
-- Runs on abbreviated names, and the theorems at concrete inputs.
use webgit.Base.{◌≡◌, refl, arith, some, none, [], ◌∷◌, Bytes, replicate, ◌++◌}
use webgit.Hash.{ObjectId, IsId, ObjectIdPrefix, from_hex, put_nibbles, put_nibble, to_digit}
use webgit.Hash.{compare, matches, cmp_bytes, first, last, fill_ff, merge, ambiguous, found, eq_id}
use webgit.Hash.Prefix.{IsPrefix, place, compare-place}
use webgit.Hash.Hex.{nibbles, spells}
use webgit.Hash.FromHex.{from_hex-IsPrefix, matches-from_hex}
use webgit.Hash.Resolution.{resolve, all_same, merge-resolve}

program : Unit {0}
unfolding from_hex put_nibbles put_nibble to_digit compare matches cmp_bytes first last fill_ff
    nibbles spells merge eq_id resolve all_same
program = tt

-- "abc1f"
abbrev text : Bytes
text = b'a' ∷ b'b' ∷ b'C' ∷ b'1' ∷ b'f' ∷ []

abbrev short : ObjectIdPrefix
short = record { bytes = 0xab ∷ 0xc1 ∷ 0xf0 ∷ replicate 17 0; nibbles = 5 }

abbrev inside : ObjectId
inside = record { bytes = 0xab ∷ 0xc1 ∷ 0xf7 ∷ replicate 17 9 }

abbrev outside : ObjectId
outside = record { bytes = 0xab ∷ 0xc2 ∷ 0x07 ∷ replicate 17 9 }

reads_text : from_hex text ≡ some short
unfolding program
reads_text = refl

three_digits : from_hex (b'a' ∷ b'b' ∷ b'c' ∷ []) ≡ none
unfolding program
three_digits = refl

not_hex : from_hex (b'a' ∷ b'b' ∷ b'c' ∷ b'g' ∷ []) ≡ none
unfolding program
not_hex = refl

last_of_range : (last short).bytes ≡ 0xab ∷ 0xc1 ∷ 0xff ∷ replicate 17 0xff
unfolding program
last_of_range = refl

inside-IsId : IsId inside
inside-IsId = omega arith

short-IsPrefix : IsPrefix short
short-IsPrefix = from_hex-IsPrefix text short reads_text

matches-from_hex_example : matches short inside ≡ spells text (nibbles inside.bytes)
matches-from_hex_example = matches-from_hex text short inside reads_text inside-IsId

compare-place_example :
    compare short outside ≡ place outside.bytes (first short).bytes (last short).bytes
compare-place_example = compare-place short outside short-IsPrefix (omega arith)

two_packs : merge (found inside) (found outside) ≡ ambiguous
unfolding program
two_packs = refl

merge-resolve_example :
    merge (resolve (inside ∷ [])) (resolve (inside ∷ outside ∷ []))
    ≡ resolve ((inside ∷ []) ++ (inside ∷ outside ∷ []))
merge-resolve_example = merge-resolve (inside ∷ []) (inside ∷ outside ∷ [])
