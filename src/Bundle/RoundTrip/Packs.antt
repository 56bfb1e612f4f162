-- ===== src/Bundle/RoundTrip/Packs.antt =====
-- A bundle that was written is read back.
use webgit.Base.{
  ℕ, ◌+◌, ◌-◌, ◌^◌, ◌≤◌, ◌<◌, ◌≡◌, refl, sym, ap, ◌∙◌, subst, arith, Bytes, List, [], ◌∷◌, ◌++◌,
  append_assoc, append-nil, In, inl, inr, All, Option, ok, length, length-append, take-append,
  drop-append, eq_bytes_refl, true, false, ltb, ◌==◌, ==_self, ==_iff,
}
use webgit.Hash.{ObjectId}
use webgit.Object.{RawObject}
use webgit.Pack.Index.{from_be_bytes, be_loop}
use webgit.Bundle.Writer.{
  Crates, BundleWriter, max_bundle_bytes, to_be_bytes, pack_magic, pack_bytes, start_pack,
  append_all, finish,
}
use webgit.Bundle.Reader.{
  ObjectStore, PackReader, header_len, trailer_len, verify_pack, read_loop, read_pack,
}
use webgit.Bundle.Reader.Laws.{IsSound, IsStore, NoCollision}
use webgit.Bundle.RoundTrip.Kept.{IsViewed}
use webgit.Bundle.RoundTrip.Steps.{Follows}
use webgit.Bundle.RoundTrip.Loops.{IsGrown, IsMember, append_all_lem}

-- The first bytes of a pack of `n` objects.
abbrev front : ℕ → Bytes
front n = pack_magic ++ (to_be_bytes 2 ++ to_be_bytes n)

from_be_bytes-to_be_bytes : (n : ℕ) → n < 2 ^ 32 → from_be_bytes (to_be_bytes n) ≡ n
unfolding be_loop
from_be_bytes-to_be_bytes n h = omega arith

version_two : from_be_bytes (to_be_bytes 2) ≡ 2
version_two = from_be_bytes-to_be_bytes 2 (omega arith)

regroup : (a b c d e : Bytes) → (((a ++ b) ++ c) ++ d) ++ e ≡ a ++ ((b ++ (c ++ d)) ++ e)
regroup a b c d e = simp append_assoc

regroup_nil : (a b c : Bytes) → a ++ ((b ++ []) ++ c) ≡ (a ++ b) ++ c
regroup_nil a b c = simp (append-nil, append_assoc)

start_pack-written : (header : Bytes) (n : ℕ) → (start_pack header n).written ≡ header_len
unfolding start_pack pack_bytes
start_pack-written header n = refl

module _ {S : Type 0} (store : ObjectStore S) (crates : Crates) where
  verify_pack_lem :
      (n : ℕ) (entries : Bytes)
      → n < 2 ^ 32
      → length (crates.sha1 (front n ++ entries)) ≡ trailer_len
      → verify_pack store crates ((front n ++ entries) ++ crates.sha1 (front n ++ entries)) ≡ ok n
  unfolding verify_pack
  verify_pack_lem n entries small closes =
      let body : Bytes = front n ++ entries in
      let trailer : Bytes = crates.sha1 body in
      let long : length (body ++ trailer) ≡ length body + length trailer =
        length-append body trailer in
      let enough : ltb (length (body ++ trailer)) (header_len + trailer_len) ≡ false =
        ground arith in
      let end : length (body ++ trailer) - trailer_len ≡ length body = omega arith in
      rw (end, take-append body trailer, drop-append body trailer)
        (rw (enough, version_two, eq_bytes_refl trailer, from_be_bytes-to_be_bytes n small) refl)

abbrev pub IsShort : RawObject → Type 0
IsShort object = length object.body ≤ max_bundle_bytes

-- What is read again: every object is in the store, under its name.
module _ {S : Type 0} (store : ObjectStore S) (crates : Crates)
    (view : S → ObjectId → Option RawObject) (objects : List RawObject) (sound : IsSound crates)
    (lawful : IsStore store view) (apart : NoCollision crates.sha1 objects) where
  members :
      (added : List RawObject)
      → ((x : RawObject) → In x added → In x objects)
      → All IsShort added
      → All (IsMember store crates view objects) added
  members [] f h = tt
  members (x ∷ added) f (p, h) = ((f x (inl refl), p), members added (λ y m. f y (inr m)) h)

  starts :
      (header : Bytes) (s : S)
      → Follows store crates view objects
          (start_pack header (length objects))
          (record { store = s; seen = []; window = []; order = []; window_bytes = 0 })
  unfolding start_pack pack_bytes
  starts header s = record { held = tt; packed = tt }

  finish_lem :
      (header entries : Bytes) (w : BundleWriter)
      → IsGrown (start_pack header (length objects)) entries (length objects) w
      → (w.hashed ≡ front (length objects) ++ entries)
        × (w.written ≡ header_len + length entries)
        × (finish crates w ≡ ok (header ++ (w.hashed ++ crates.sha1 w.hashed)))
  unfolding start_pack pack_bytes finish
  finish_lem header entries w grown =
      let count : w.appended ≡ w.objects = omega (arith, grown.appended, grown.objects) in
      let hashed : w.hashed ≡ front (length objects) ++ entries = grown.hashed in
      let out : w.out ≡ header ++ w.hashed =
        grown.out
        ∙ regroup header pack_magic (to_be_bytes 2) (to_be_bytes (length objects)) entries
        ∙ ap (header ++◌) (sym hashed) in
      (
        hashed,
        omega (arith, grown.written),
        rw (count, ==_self w.objects, out)
            (ap ok (append_assoc header w.hashed (crates.sha1 w.hashed))),
      )

  -- For objects whose bodies are no longer than the largest bundle, of which there are less than
  -- 2^32 and no two have the same name: when the writer has taken all of them, it finishes a bundle
  -- that ends with a pack, the reader accepts that pack and counts as many objects, and then its
  -- store holds every object under its name.
  pub read_pack-finish :
      (header : Bytes) (s : S) (w : BundleWriter)
      → length objects < 2 ^ 32
      → All IsShort objects
      → append_all crates objects (start_pack header (length objects)) ≡ ok w
      → (pack : Bytes) × (finish crates w ≡ ok (header ++ pack))
        × (t : S) × (read_pack store crates pack s ≡ ok (t, length objects))
        × All (IsViewed store crates view objects t) objects
  unfolding read_pack
  read_pack-finish header s w few short e =
      let n : ℕ = length objects in
      let (entries, grown, reads) =
        append_all_lem store crates view objects sound lawful apart objects (start_pack header n) w
          (members objects (λ x m. m) short) e in
      let (hashed, long, finished) = finish_lem header entries w grown in
      let trailer : Bytes = crates.sha1 (front n ++ entries) in
      let pack : Bytes = (front n ++ entries) ++ trailer in
      let r : PackReader S = record {
        store = s;
        seen = [];
        window = [];
        order = [];
        window_bytes = 0;
      } in
      let closes = sound.hash_len (front n ++ entries) in
      let (r', read, viewed, _) =
        reads r (front n) [] trailer (starts header s) (sym (start_pack-written header n)) closes in
      let from : (start_pack header n).written ≡ header_len = start_pack-written header n in
      let read' : read_loop store crates n pack r header_len ≡ ok (r', w.written) =
        subst (λ (b : Bytes). read_loop store crates n b r header_len ≡ ok (r', w.written))
          (regroup_nil (front n) entries trailer)
          (subst
            (λ (p : ℕ).
              read_loop store crates n (front n ++ ((entries ++ []) ++ trailer)) r p
              ≡ ok (r', w.written))
            from read) in
      let at_end : (w.written == length pack - trailer_len) ≡ true =
        (==_iff w.written (length pack - trailer_len)).1
          (omega (arith, long, closes, length-append (front n ++ entries) trailer)) in
      (
        pack,
        finished ∙ ap (λ (h : Bytes). ok (header ++ (h ++ crates.sha1 h))) hashed,
        r'.store,
        rw (verify_pack_lem store crates n entries few closes, read', at_end) refl,
        viewed,
      )
