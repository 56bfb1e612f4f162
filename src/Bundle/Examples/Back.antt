-- ===== src/Bundle/Examples/Back.antt =====
-- The theorem on reading a bundle back, for two equal objects, of which the second is a delta.
use webgit.Base.{
  ℕ, suc, ◌≡◌, ◌≤◌, refl, sym, ◌∙◌, arith, Bytes, [], ◌∷◌, ◌++◌, length, length-append, length-take,
  take-append, ok, All, inl, inr, true, leb, le→leb, eq_bytes, eq_bytes-eq, eq_bytes_refl, Option,
  some, Bool-cases,
}
use webgit.Hash.{ObjectId}
use webgit.Object.{RawObject}
use webgit.Pack.Delta.{apply_delta}
use webgit.Bundle.Writer.{BundleWriter, start_pack, append_all, finish}
use webgit.Bundle.Reader.{eq_id, find_id}
use webgit.Bundle.Reader.Laws.{IsSound, IsStore, NoCollision}
use webgit.Bundle.RoundTrip.Kept.{IsViewed, eq_id-eq}
use webgit.Bundle.RoundTrip.Packs.{IsShort}
use webgit.Bundle.RoundTrip.Bundles.{read_bundle-finish}
use webgit.Bundle.Writer.{pending, take_out, no_ref_name, BundleResult}
use webgit.Bundle.Lines.{
  Hex, BundleRef, signature, line_feed, object_format, new_writer, read_bundle, has_separator,
  is_empty, ref_lines, split_at, continuation, utf8_loop, read_capability, read_version, read_id,
  read_ref, read_prerequisite, read_plain_line, read_line, take_line, header_lines, read_header,
}
use webgit.Bundle.Lines.RoundTrip.{IsHex, IsText}
use webgit.Base.{◌+◌, ◌<◌, ◌*◌, ◌/◌, ◌%◌, ◌-◌, ap, ltb, IsByte, err, if◌then◌else◌}
use webgit.Object.{compute_id}
use webgit.Bundle.Examples.Copies.{zero_blob}
use webgit.Bundle.Examples.Copies.{
  program, zeros, copies, toy, two, Stored, by_id, copies-KeepsLimit,
}

lines_program : Unit {0}
unfolding new_writer read_bundle has_separator is_empty ref_lines split_at continuation utf8_loop
    read_capability read_version read_id read_ref read_prerequisite read_plain_line read_line
    take_line header_lines read_header
lines_program = tt

if_same :
    (base body d : Bytes) (limit : ℕ)
    → copies.delta base body limit ≡ some d
    → (base ≡ zeros 60) × (body ≡ zeros 60) × (d ≡ 60 ∷ 60 ∷ 0x90 ∷ 60 ∷ [])
if_same base body d limit e = elim (Bool-cases (eq_bytes base (zeros 60))) [
  | inl a ↦ elim (Bool-cases (eq_bytes body (zeros 60))) [
    | inl b ↦ elim (Bool-cases (leb 4 limit)) [
      | inl c ↦ (let e' = rw (a, b, c) at e in (eq_bytes-eq _ _ a, eq_bytes-eq _ _ b, cc))
      | inr c ↦ (let e' = rw (a, b, c) at e in cc)
    ]
    | inr b ↦ (let e' = rw (a, b) at e in cc)
  ]
  | inr a ↦ (let e' = rw a at e in cc)
]

copy_all : apply_delta (60 ∷ 60 ∷ 0x90 ∷ 60 ∷ []) (zeros 60) ≡ ok (zeros 60)
unfolding program zeros
copy_all = refl

toy-IsSound : IsSound toy
unfolding zeros
toy-IsSound = record {
  inflates = λ x tail.
      let long : leb (suc (length x)) (suc (length (x ++ tail))) ≡ true =
        le→leb _ _ (omega (arith, length-append x tail)) in
      rw (long, take-append x tail) refl;
  applies =
      λ base body d limit e. let (a, b, c) = if_same base body d limit e in rw (a, b, c) copy_all;
  keeps = copies-KeepsLimit;
  hash_len = λ x. omega (arith, length-take 20 (x ++ zeros 20), length-append x (zeros 20));
}

abbrev view : Stored → ObjectId → Option RawObject
view s id = find_id id s

by_id-IsStore : IsStore by_id view
unfolding find_id
by_id-IsStore = record {
  puts = λ s id object. (
    ((id, object) ∷ s),
    refl,
    rw (eq_bytes_refl id.bytes) refl,
    λ other ne. elim (Bool-cases (eq_id id other)) [
      | inl t ↦ absurd (ne (sym (eq_id-eq id other t)))
      | inr f ↦ rw f refl
    ],
  );
  gets = λ s id. refl;
}

apart : NoCollision toy.sha1 two
apart a b (inl p) (inl q) e = p ∙ sym q
apart a b (inl p) (inr (inl q)) e = p ∙ sym q
apart a b (inr (inl p)) (inl q) e = p ∙ sym q
apart a b (inr (inl p)) (inr (inl q)) e = p ∙ sym q
apart a b (inr (inr p)) m e = absurd p.0
apart a b m (inr (inr q)) e = absurd q.0

-- Two digits for each byte.
abbrev digit : ℕ → ℕ
digit d = if ltb d 10 then b'0' + d else 87 + d

abbrev digit_value : ℕ → ℕ
digit_value c = if ltb c 58 then c - b'0' else c - 87

encode : Bytes → Bytes
encode [] = []
encode (b ∷ bytes) = digit (b / 16) ∷ digit (b % 16) ∷ encode bytes

decode : Bytes → Bytes
decode (a ∷ b ∷ digits) = (digit_value a * 16 + digit_value b) ∷ decode digits
decode _ = []

abbrev two_digits : Hex
two_digits = record {
  to_hex = λ id. encode id.bytes;
  from_hex = λ digits. some (record { bytes = decode digits });
}

digit_value-digit : (d : ℕ) → d < 16 → digit_value (digit d) ≡ d
digit_value-digit d h = ground arith

digit_range : (d : ℕ) → d < 16 → (b'0' ≤ digit d) × (digit d ≤ b'f')
digit_range d h = ground arith

decode-encode : (bytes : Bytes) → All IsByte bytes → decode (encode bytes) ≡ bytes
unfolding encode decode
decode-encode [] h = refl
decode-encode (b ∷ bytes) (small, h) =
    let high = digit_value-digit (b / 16) (omega arith) in
    let low = digit_value-digit (b % 16) (omega arith) in
    let whole : digit_value (digit (b / 16)) * 16 + digit_value (digit (b % 16)) ≡ b =
      omega (arith, high, low) in
    rw (whole, decode-encode bytes h) refl

encode_range :
    (bytes : Bytes) → All IsByte bytes → All (λ (b : ℕ). (b'0' ≤ b) × (b ≤ b'f')) (encode bytes)
unfolding encode
encode_range [] h = tt
encode_range (b ∷ bytes) (small, h) =
    (digit_range (b / 16) (omega arith), (digit_range (b % 16) (omega arith), encode_range bytes h))

two_digits-IsHex : IsHex two_digits
two_digits-IsHex = record {
  digits = λ id is_id. encode_range id.bytes is_id.1;
  reads = λ id is_id.
      ap (λ (bytes : Bytes). some (record { bytes = bytes })) (decode-encode id.bytes is_id.1);
}

-- "main", at the two objects' name.
abbrev main : BundleRef
main = record { name = b'm' ∷ b'a' ∷ b'i' ∷ b'n' ∷ []; id = compute_id toy.sha1 zero_blob }

abbrev opened : BundleResult BundleWriter → BundleWriter
opened r = elim r [ ok w ↦ w | _ ↦ start_pack [] 0 ]

abbrev begun : BundleWriter
begun = opened (new_writer two_digits (main ∷ []) 2)

begins : new_writer two_digits (main ∷ []) 2 ≡ ok begun
unfolding program zeros lines_program encode
begins = refl

abbrev written : BundleWriter
written = opened (append_all toy two begun)

two_written : append_all toy two begun ≡ ok written
unfolding program zeros lines_program encode
two_written = refl

main-IsText : IsText main
unfolding program zeros lines_program
main-IsText = (refl, (refl, omega arith))

short : All IsShort two
unfolding zeros
short = omega arith

read_bundle-finish_example :
    (bundle : Bytes) × (finish toy written ≡ ok bundle)
    × (t : Stored) × (begins : ℕ) × (read_bundle two_digits by_id toy bundle []
        ≡ ok (
          t,
          record { version = 2; refs = main ∷ []; prerequisites = []; pack_offset = begins },
          2,
        ))
    × All (IsViewed by_id toy view two t) two
read_bundle-finish_example =
    read_bundle-finish by_id toy two_digits view two toy-IsSound two_digits-IsHex by_id-IsStore
      apart (main ∷ []) [] begun written (omega arith) short (main-IsText, tt) begins two_written

-- "# v3 git bundle", a capability, a prerequisite, and the line that ends the header.
abbrev version_three : Bytes
version_three =
    signature 3
    ++ line_feed ∷ (b'@' ∷ object_format)
    ++ line_feed ∷ (b'-' ∷ encode (1 ∷ 2 ∷ []))
    ++ line_feed ∷ line_feed ∷ b'P' ∷ []

third_version :
    read_header two_digits version_three
    ≡ ok (record {
      version = 3;
      refs = [];
      prerequisites = record { bytes = 1 ∷ 2 ∷ [] } ∷ [];
      pack_offset = 43;
    })
unfolding lines_program encode decode
third_version = refl

-- The same capability in a bundle of version 2 names no ref.
no_capability :
    read_header two_digits
      (signature 2 ++ line_feed ∷ (b'@' ∷ object_format) ++ line_feed ∷ line_feed ∷ [])
    ≡ err no_ref_name
unfolding lines_program encode decode
no_capability = refl

taken : pending (take_out begun).1 ≡ 0
unfolding take_out pending
taken = refl
