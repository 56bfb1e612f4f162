-- ===== src/Odb/Names.antt =====
-- The names of packs, and the manifest that lists them.
use webgit.Base.{
  eq_bytes_refl, ◌-◌, arith, ◌≡◌, refl, ◌∙◌, true, false, Bytes, List, [], ◌∷◌, ◌++◌, map, length,
  All,
}
use webgit.Base.{some, ok, ◌==◌, leb, le→leb, take-append, drop-append, length-append, All-append}
use webgit.Odb.{
  PackName, new, from_pack_filename, strip_suffix, dot_idx, dot_pack, split_lines, parse_line,
  parse_lines, parse_info_packs,
}

strip_suffix-append : (base suffix : Bytes) → strip_suffix (base ++ suffix) suffix ≡ some base
strip_suffix-append base suffix =
    let n : length (base ++ suffix) - length suffix ≡ length base =
      omega (arith, length-append base suffix) in
    let h : leb (length suffix) (length (base ++ suffix)) ≡ true =
      le→leb _ _ (omega (arith, length-append base suffix)) in
    rw (h, n, drop-append base suffix, eq_bytes_refl suffix, take-append base suffix) refl

abbrev pub named : Bytes → PackName
named base = record { index_filename = base ++ dot_idx; pack_filename = base ++ dot_pack }

-- A pack is named alike from either of its two files.
names_agree :
    (base : Bytes)
    → (new (base ++ dot_idx) ≡ some (named base))
      × (from_pack_filename (base ++ dot_pack) ≡ some (named base))
unfolding new from_pack_filename
names_agree base = (
  rw (strip_suffix-append base dot_idx, new) refl,
  rw (strip_suffix-append base dot_pack, from_pack_filename) refl,
)

-- A line has no line feed in it.
abbrev IsLine : Bytes → Type 0
IsLine bs = All (λ b. (b == b'\n') ≡ false) bs

abbrev manifest_line : Bytes → Bytes
manifest_line base = b'P' ∷ b' ' ∷ (base ++ dot_pack)

-- The manifest as `git update-server-info` writes it.
pub manifest : List Bytes → Bytes
manifest [] = []
manifest (base ∷ bases) = manifest_line base ++ (b'\n' ∷ manifest bases)

split_lines-line :
    (line rest : Bytes)
    → IsLine line
    → split_lines (line ++ (b'\n' ∷ rest)) ≡ (line, (split_lines rest).0 ∷ (split_lines rest).1)
unfolding split_lines
split_lines-line [] rest h = refl
split_lines-line (b ∷ bs) rest (hb, h) = rw (split_lines-line bs rest h, hb) refl

parse_line-manifest : (base : Bytes) → parse_line (manifest_line base) ≡ ok (named base)
unfolding parse_line
parse_line-manifest base = (let (a, b) = names_agree base in rw b refl)

parse_info_packs-line :
    (line rest : Bytes)
    → IsLine line
    → parse_info_packs (line ++ (b'\n' ∷ rest))
      ≡ parse_lines (line ∷ (split_lines rest).0 ∷ (split_lines rest).1)
unfolding parse_info_packs
parse_info_packs-line line rest h = rw (split_lines-line line rest h) refl

parse_lines-manifest :
    (base : Bytes) (lines : List Bytes) (names : List PackName)
    → parse_lines lines ≡ ok names
    → parse_lines (manifest_line base ∷ lines) ≡ ok (named base ∷ names)
unfolding parse_lines
parse_lines-manifest base lines names e = rw (parse_line-manifest base, e) refl

-- Reading a manifest that was written from names without line feeds gives the packs it names, in
-- order.
pub parse_info_packs-manifest :
    (bases : List Bytes)
    → All IsLine bases
    → parse_info_packs (manifest bases) ≡ ok (map named bases)
unfolding parse_info_packs parse_lines manifest split_lines
parse_info_packs-manifest [] h = refl
parse_info_packs-manifest (base ∷ bases) (hb, h) =
    let line : IsLine (manifest_line base) =
      (refl, (refl, All-append _ base dot_pack hb (refl, (refl, (refl, (refl, (refl, tt))))))) in
    parse_info_packs-line (manifest_line base) (manifest bases) line
    ∙ parse_lines-manifest base
        ((split_lines (manifest bases)).0 ∷ (split_lines (manifest bases)).1) (map named bases)
        (parse_info_packs-manifest bases h)
