-- ===== src/Bundle/Lines/RoundTrip.antt =====
-- The lines that the writer puts in front of a pack, read by the reader.
use webgit.Base.{
  ℕ, zero, suc, ◌+◌, ◌-◌, ◌≤◌, ◌<◌, ◌≡◌, refl, sym, ap, ◌∙◌, subst, arith, Bytes, List, [], ◌∷◌,
  ◌++◌, append_assoc, append-nil, All, length, length-append,
}
use webgit.Base.{
  Bool, true, false, ◌||◌, ◌==◌, if◌then◌else◌, Bool-cases, inl, inr, none, some, ok, err,
  bind-eq_ok,
}
use webgit.Hash.{ObjectId, IsId}
use webgit.Bundle.Writer.{BundleResult, bad_ref_name}
use webgit.Bundle.Lines.{
  Hex, BundleRef, BundleHeader, signature, line_feed, has_separator, is_empty, ref_lines, split_at,
  split_line, is_utf8, strip_prefix, read_version, read_id, read_ref, read_plain_line, read_line,
  take_line, header_lines, read_header,
}

-- The digits are those of hexadecimal numbers, and are read back.
pub record IsHex (hex : Hex) : Type 0 where
  pub digits : (id : ObjectId) → IsId id → All (λ (b : ℕ). (b'0' ≤ b) × (b ≤ b'f')) (hex.to_hex id)
  pub reads : (id : ObjectId) → IsId id → hex.from_hex (hex.to_hex id) ≡ some id

abbrev Lacks : ℕ → Bytes → Type 0
Lacks c bytes = All (λ (b : ℕ). (b == c) ≡ false) bytes

split_at_lem : (c : ℕ) (xs ys : Bytes) → Lacks c xs → split_at c (xs ++ c ∷ ys) ≡ some (xs, ys)
unfolding split_at
split_at_lem c [] ys h = (let e : (c == c) ≡ true = ground arith in rw e refl)
split_at_lem c (x ∷ xs) ys (e, h) = rw (e, split_at_lem c xs ys h) refl

Lacks-append : (c : ℕ) (xs ys : Bytes) → Lacks c xs → Lacks c ys → Lacks c (xs ++ ys)
Lacks-append c [] ys h k = k
Lacks-append c (x ∷ xs) ys (e, h) k = (e, Lacks-append c xs ys h k)

Lacks-digits :
    (c : ℕ) (xs : Bytes) → c < b'0' → All (λ (b : ℕ). (b'0' ≤ b) × (b ≤ b'f')) xs → Lacks c xs
Lacks-digits c [] h k = tt
Lacks-digits c (x ∷ xs) h ((l, u), k) = (ground arith, Lacks-digits c xs h k)

Lacks-has_separator :
    (name : Bytes) → has_separator name ≡ false → Lacks b' ' name × Lacks line_feed name
unfolding has_separator
Lacks-has_separator [] e = (tt, tt)
Lacks-has_separator (b ∷ name) e = elim (Bool-cases (b == b' ')) [
  | inl s ↦ (let n = rw s at e in cc)
  | inr s ↦ elim (Bool-cases (b == line_feed)) [
    | inl f ↦ (let n = rw (s, f) at e in cc)
    | inr f ↦ (let (a, c) = Lacks-has_separator name (rw (s, f) at e) in ((s, a), (f, c)))
  ]
]

abbrev pub line_of : Hex → BundleRef → Bytes
line_of hex r = hex.to_hex r.id ++ b' ' ∷ r.name

no_dash :
    (digits name : Bytes)
    → All (λ (b : ℕ). (b'0' ≤ b) × (b ≤ b'f')) digits
    → strip_prefix b'-' (digits ++ b' ' ∷ name) ≡ none
no_dash [] name h = refl
no_dash (b ∷ digits) name ((l, u), h) = (let e : (b == b'-') ≡ false = ground arith in rw e refl)

is_empty-append : (xs ys : Bytes) (b : ℕ) → is_empty (xs ++ b ∷ ys) ≡ false
unfolding is_empty
is_empty-append [] ys b = refl
is_empty-append (x ∷ xs) ys b = refl

-- What the writer accepts of a ref.
abbrev IsRef : BundleRef → Type 0
IsRef r = (is_empty r.name ≡ false) × (has_separator r.name ≡ false)

accepted :
    (a b : Bool) {A : Type 0} (m : BundleResult A) (v : A)
    → (if a || b then err bad_ref_name else m) ≡ ok v
    → (a ≡ false) × (b ≡ false) × (m ≡ ok v)
accepted true b m v e = cc
accepted false true m v e = cc
accepted false false m v e = (refl, refl, e)

-- A ref whose name is a text, and whose object has a name.
abbrev pub IsText : BundleRef → Type 0
IsText r = (is_utf8 r.name ≡ true) × IsId r.id

abbrev pub front : Bytes → Bytes
front lines = signature 2 ++ line_feed ∷ (lines ++ line_feed ∷ [])

module _ (hex : Hex) (is_hex : IsHex hex) where
  read_line_of :
      (r : BundleRef) (header : BundleHeader)
      → header.version ≡ 2
      → IsRef r
      → IsText r
      → read_line hex (line_of hex r) header ≡ ok (record header { refs = header.refs ++ r ∷ [] })
  unfolding read_line read_plain_line read_ref read_id
  read_line_of r header two (some_name, plain) (utf8, name) =
      let digits = is_hex.digits r.id name in
      let not_three : (header.version == 3) ≡ false = ground arith in
      let parts =
        split_at_lem b' ' (hex.to_hex r.id) r.name (Lacks-digits b' ' _ (omega arith) digits) in
      rw
        (
          not_three,
          read_plain_line,
          no_dash (hex.to_hex r.id) r.name digits,
          read_id,
          parts,
          is_hex.reads r.id name,
          some_name,
          utf8,
        )
        refl

  ref_lines-cons :
      (r : BundleRef) (refs : List BundleRef) (lines : Bytes)
      → ref_lines hex (r ∷ refs) ≡ ok lines
      → IsRef r
        × (rest : Bytes) × (ref_lines hex refs ≡ ok rest)
        × (line_of hex r ++ line_feed ∷ rest ≡ lines)
  unfolding ref_lines
  ref_lines-cons r refs lines e =
      let (a, b, e') = accepted (is_empty r.name) (has_separator r.name) _ lines e in
      let (rest, e1, e2) = bind-eq_ok (ref_lines hex refs) _ e' in
      let q : hex.to_hex r.id ++ b' ' ∷ (r.name ++ line_feed ∷ rest) ≡ lines = cc in
      ((a, b), rest, e1, append_assoc (hex.to_hex r.id) (b' ' ∷ r.name) (line_feed ∷ rest) ∙ q)

  header_lines_end :
      (fuel total : ℕ) (pack : Bytes) (header : BundleHeader)
      → header_lines hex (suc fuel) total (line_feed ∷ pack) header
        ≡ ok (record header { pack_offset = total - length pack })
  unfolding header_lines take_line split_at is_empty
  header_lines_end fuel total pack header = refl

  header_lines_step :
      (fuel total : ℕ) (bytes line rest : Bytes) (header header' : BundleHeader)
      → split_line bytes ≡ some (line, rest)
      → is_empty line ≡ false
      → read_line hex line header ≡ ok header'
      → header_lines hex (suc fuel) total bytes header ≡ header_lines hex fuel total rest header'
  unfolding header_lines take_line
  header_lines_step fuel total bytes line rest header header' s e r = rw (s, take_line, e, r) refl

  header_lines_lem :
      (refs : List BundleRef) (fuel total : ℕ) (lines pack : Bytes) (header : BundleHeader)
      → length refs < fuel
      → header.version ≡ 2
      → All IsText refs
      → ref_lines hex refs ≡ ok lines
      → header_lines hex fuel total (lines ++ line_feed ∷ pack) header
        ≡ ok (record header { refs = header.refs ++ refs; pack_offset = total - length pack })
  unfolding ref_lines
  header_lines_lem refs zero total lines pack header h two texts e = absurd (omega arith)
  header_lines_lem [] (suc fuel) total lines pack header h two texts e =
      let none_left : [] ≡ lines = cc in
      subst
        (λ (l : Bytes).
          header_lines hex (suc fuel) total (l ++ line_feed ∷ pack) header
          ≡ ok (record header { refs = header.refs ++ []; pack_offset = total - length pack }))
        none_left
        (header_lines_end fuel total pack header
          ∙ ap
              (λ (rs : List BundleRef).
                ok (record header { refs = rs; pack_offset = total - length pack }))
              (sym (append-nil header.refs)))
  header_lines_lem (r ∷ refs) (suc fuel) total lines pack header h two (text, texts) e =
      let (is_ref, rest, e1, e2) = ref_lines-cons r refs lines e in
      let line = line_of hex r in
      let behind : Bytes = rest ++ line_feed ∷ pack in
      let header' : BundleHeader = record header { refs = header.refs ++ r ∷ [] } in
      let bytes : lines ++ line_feed ∷ pack ≡ line ++ line_feed ∷ behind =
        ap (◌++ (line_feed ∷ pack)) (sym e2)
        ∙ append_assoc line (line_feed ∷ rest) (line_feed ∷ pack) in
      let (_, no_feed) = Lacks-has_separator r.name is_ref.1 in
      let whole_line : Lacks line_feed line =
        Lacks-append line_feed (hex.to_hex r.id) (b' ' ∷ r.name)
          (Lacks-digits line_feed _ (omega arith) (is_hex.digits r.id text.1)) (refl, no_feed) in
      let split = split_at_lem line_feed line behind whole_line in
      let full = is_empty-append (hex.to_hex r.id) r.name b' ' in
      let read = read_line_of r header two is_ref text in
      let loop = header_lines_lem refs fuel total rest pack header' (omega arith) two texts e1 in
      ap (λ (b : Bytes). header_lines hex (suc fuel) total b header) bytes
      ∙ header_lines_step fuel total (line ++ line_feed ∷ behind) line behind header header' split
          full read
      ∙ loop
      ∙ ap
          (λ (rs : List BundleRef).
            ok (record header { refs = rs; pack_offset = total - length pack }))
          (append_assoc header.refs (r ∷ []) refs)

  length-ref_lines :
      (refs : List BundleRef) (lines : Bytes)
      → ref_lines hex refs ≡ ok lines
      → length refs ≤ length lines
  length-ref_lines [] lines e = omega arith
  length-ref_lines (r ∷ refs) lines e =
      let (_, rest, e1, e2) = ref_lines-cons r refs lines e in
      omega (
        arith,
        length-ref_lines refs rest e1,
        ap (λ (b : Bytes). length b) e2,
        length-append (line_of hex r) (line_feed ∷ rest),
      )

  -- The refs are read back, and where the pack begins.
  pub read_header_lem :
      (refs : List BundleRef) (lines pack : Bytes)
      → All IsText refs
      → ref_lines hex refs ≡ ok lines
      → read_header hex (front lines ++ pack)
        ≡ ok (record {
          version = 2;
          refs = refs;
          prerequisites = [];
          pack_offset = length (front lines);
        })
  unfolding read_header read_version split_at
  read_header_lem refs lines pack texts e =
      let all : ℕ = length (front lines ++ pack) in
      let long : all ≡ length (front lines) + length pack = length-append (front lines) pack in
      let some_fuel : length (front lines) ≡ 17 + length lines =
        omega (arith, length-append lines (line_feed ∷ [])) in
      let header : BundleHeader = record {
        version = 2;
        refs = [];
        prerequisites = [];
        pack_offset = 0;
      } in
      let enough : length refs < all =
        omega (arith, length-ref_lines refs lines e, long, some_fuel) in
      let begins : all - length pack ≡ length (front lines) = omega (arith, long) in
      ap (λ (b : Bytes). header_lines hex all all b header)
        (append_assoc lines (line_feed ∷ []) pack)
      ∙ header_lines_lem refs all all lines pack header enough refl texts e
      ∙ ap
          (λ (n : ℕ). ok (record { version = 2; refs = refs; prerequisites = []; pack_offset = n }))
          begins
