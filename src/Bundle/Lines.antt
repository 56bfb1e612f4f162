-- ===== src/Bundle/Lines.antt =====
-- crates/gib-bundle/src: the lines in front of the pack, as the writer puts them and as the reader
-- takes them. The hexadecimal form of a name is the hex crate's.
pub mod RoundTrip
use webgit.Base.{ℕ, zero, suc, ◌+◌, ◌-◌, Bytes, List, [], ◌∷◌, ◌++◌, length, drop}
use webgit.Base.{Bool, true, false, not, ◌&&◌, ◌||◌, leb, ltb, ◌==◌, eq_bytes, if◌then◌else◌}
use webgit.Base.{Option, none, some, ok, err, stuck, ◌>>=◌, ok_or}
use webgit.Hash.{ObjectId}
use webgit.Bundle.Writer.{
  Crates, BundleResult, BundleWriter, start_pack, no_refs, bad_ref_name, not_a_bundle,
  no_blank_line, no_ref_name, not_utf8, unknown_capability, no_object,
}
use webgit.Bundle.Reader.{ObjectStore, read_pack}

-- `Display` of an object's name, and `ObjectId::from_hex`.
pub record Hex : Type 0 where
  pub to_hex : ObjectId → Bytes
  pub from_hex : Bytes → Option ObjectId

pub record BundleRef : Type 0 where
  pub name : Bytes
  pub id : ObjectId

pub record BundleHeader : Type 0 where
  pub version : ℕ
  pub refs : List BundleRef
  pub prerequisites : List ObjectId
  pub pack_offset : ℕ

-- "# v2 git bundle"
abbrev pub signature : ℕ → Bytes
signature version =
    b'#'
    ∷ b' '
    ∷ b'v'
    ∷ (b'0' + version)
    ∷ b' '
    ∷ b'g'
    ∷ b'i'
    ∷ b't'
    ∷ b' '
    ∷ b'b'
    ∷ b'u'
    ∷ b'n'
    ∷ b'd'
    ∷ b'l'
    ∷ b'e'
    ∷ []

abbrev pub line_feed : ℕ
line_feed = 10

-- `str::contains` of the two characters that no name may have.
unfoldable pub has_separator : Bytes → Bool
has_separator [] = false
has_separator (b ∷ name) = (b == b' ' || b == line_feed) || has_separator name

unfoldable pub is_empty : Bytes → Bool
is_empty [] = true
is_empty (b ∷ bytes) = false

module _ (hex : Hex) where
  unfoldable pub ref_lines : List BundleRef → BundleResult Bytes
  ref_lines [] = ok []
  ref_lines (r ∷ refs) =
      if is_empty r.name || has_separator r.name
      then err bad_ref_name
      else do lines ← ref_lines refs; ok (hex.to_hex r.id ++ b' ' ∷ (r.name ++ line_feed ∷ lines))

  -- `BundleWriter::new`
  unfoldable pub new_writer : List BundleRef → ℕ → BundleResult BundleWriter
  new_writer [] objects = err no_refs
  new_writer (r ∷ refs) objects = do
    lines ← ref_lines (r ∷ refs)
    ok (start_pack (signature 2 ++ line_feed ∷ (lines ++ line_feed ∷ [])) objects)

-- The bytes in front of the first of a kind, and those behind it.
unfoldable pub split_at : ℕ → Bytes → Option (Bytes × Bytes)
split_at c [] = none
split_at c (b ∷ bytes) =
    let rest = split_at c bytes in
    if b == c
    then some ([], bytes)
    else elim rest [ none ↦ none | some (line, tail) ↦ some (b ∷ line, tail) ]

abbrev pub split_line : Bytes → Option (Bytes × Bytes)
split_line bytes = split_at line_feed bytes

-- `str::from_utf8`: the ranges that the bytes behind a first byte have to be in.
abbrev pub tail : ℕ × ℕ
tail = (0x80, 0xbf)

abbrev pub is_in : ℕ → ℕ × ℕ → Bool
is_in b range = leb range.0 b && leb b range.1

unfoldable pub continuation : ℕ → Option (List (ℕ × ℕ))
continuation b =
    if leb b 0x7f
    then some []
    else if is_in b (0xc2, 0xdf)
    then some (tail ∷ [])
    else if b == 0xe0
    then some ((0xa0, 0xbf) ∷ tail ∷ [])
    else if b == 0xed
    then some ((0x80, 0x9f) ∷ tail ∷ [])
    else if is_in b (0xe1, 0xef)
    then some (tail ∷ tail ∷ [])
    else if b == 0xf0
    then some ((0x90, 0xbf) ∷ tail ∷ tail ∷ [])
    else if is_in b (0xf1, 0xf3)
    then some (tail ∷ tail ∷ tail ∷ [])
    else if b == 0xf4
    then some ((0x80, 0x8f) ∷ tail ∷ tail ∷ [])
    else none

unfoldable pub utf8_loop : List (ℕ × ℕ) → Bytes → Bool
utf8_loop [] [] = true
utf8_loop (range ∷ ranges) [] = false
utf8_loop (range ∷ ranges) (b ∷ bytes) = is_in b range && utf8_loop ranges bytes
utf8_loop [] (b ∷ bytes) = elim (continuation b) [
  | none ↦ false
  | some ranges ↦ utf8_loop ranges bytes
]

abbrev pub is_utf8 : Bytes → Bool
is_utf8 bytes = utf8_loop [] bytes

abbrev pub strip_prefix : ℕ → Bytes → Option Bytes
strip_prefix c [] = none
strip_prefix c (b ∷ line) = if b == c then some line else none

-- "object-format=sha1"
abbrev pub object_format : Bytes
object_format =
    b'o' ∷ b'b' ∷ b'j' ∷ b'e' ∷ b'c' ∷ b't' ∷ b'-' ∷ b'f' ∷ b'o' ∷ b'r' ∷ b'm' ∷ b'a' ∷ b't' ∷ b'='
    ∷ b's' ∷ b'h' ∷ b'a' ∷ b'1' ∷ []

unfoldable pub read_capability : Bytes → BundleResult (Unit {0})
read_capability capability =
    if eq_bytes capability object_format then ok tt else err unknown_capability

unfoldable pub read_version : Bytes → BundleResult ℕ
read_version line =
    if eq_bytes line (signature 2)
    then ok 2
    else if eq_bytes line (signature 3)
    then ok 3
    else err not_a_bundle

module _ (hex : Hex) where
  unfoldable pub read_id : Bytes → BundleResult (ObjectId × Option Bytes)
  read_id line = elim (split_at b' ' line) [
    | none ↦ (do id ← ok_or (hex.from_hex line) no_object; ok (id, none))
    | some (digits, rest) ↦ (do
      id ← ok_or (hex.from_hex digits) no_object
      ok (id, (if is_empty rest then none else some rest)))
  ]

  -- What a line adds to the header: a capability, a prerequisite, or a ref.
  unfoldable pub read_ref : Bytes → BundleHeader → BundleResult BundleHeader
  read_ref line header = do
    (id, rest) ← read_id line
    name ← ok_or rest no_ref_name
    if is_utf8 name
        then ok (record header { refs = header.refs ++ record { name = name; id = id } ∷ [] })
        else err not_utf8

  unfoldable pub read_prerequisite : Bytes → BundleHeader → BundleResult BundleHeader
  read_prerequisite prerequisite header = do
    (id, rest) ← read_id prerequisite
    ok (record header { prerequisites = header.prerequisites ++ id ∷ [] })

  unfoldable pub read_plain_line : Bytes → BundleHeader → BundleResult BundleHeader
  read_plain_line line header = elim (strip_prefix b'-' line) [
    | some prerequisite ↦ read_prerequisite prerequisite header
    | none ↦ read_ref line header
  ]

  unfoldable pub read_line : Bytes → BundleHeader → BundleResult BundleHeader
  read_line line header =
      if header.version == 3
      then elim (strip_prefix b'@' line) [
        | some capability ↦ (do known ← read_capability capability; ok header)
        | none ↦ read_plain_line line header
      ]
      else read_plain_line line header

  -- One line: the blank one ends the header, and any other goes to `next` with what is behind it.
  unfoldable pub take_line :
      (Bytes → BundleHeader → BundleResult BundleHeader)
      → ℕ
      → Bytes
      → Bytes
      → BundleHeader
      → BundleResult BundleHeader
  take_line next total line rest header =
      if is_empty line
      then ok (record header { pack_offset = total - length rest })
      else do header' ← read_line line header; next rest header'

  -- The loop, on at least as much fuel as there are lines; `total` is the length of the bundle.
  unfoldable pub header_lines : ℕ → ℕ → Bytes → BundleHeader → BundleResult BundleHeader
  header_lines zero total bytes header = stuck
  header_lines (suc fuel) total bytes header = do
    (line, rest) ← ok_or (split_line bytes) no_blank_line
    take_line (header_lines fuel total) total line rest header

  unfoldable pub read_header : Bytes → BundleResult BundleHeader
  read_header bundle = do
    (first, rest) ← ok_or (split_line bundle) not_a_bundle
    version ← read_version first
    header_lines (length bundle) (length bundle) rest
        (record { version = version; refs = []; prerequisites = []; pack_offset = 0 })

  unfoldable pub read_bundle :
      {S : Type 0} → ObjectStore S → Crates → Bytes → S → BundleResult (S × BundleHeader × ℕ)
  read_bundle store crates bundle s = do
    header ← read_header bundle
    (t, objects) ← read_pack store crates (drop header.pack_offset bundle) s
    ok (t, header, objects)
