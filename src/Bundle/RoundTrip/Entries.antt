-- ===== src/Bundle/RoundTrip/Entries.antt =====
-- One object of a pack, stored whole or as a delta, read by the reader.
use webgit.Base.{
  ℕ, ◌+◌, ◌-◌, ◌≤◌, ◌<◌, ◌≡◌, refl, arith, Bytes, List, ◌++◌, In, ltb, false, Option, some, ok,
  length, get_range, drop-append, ==_self,
}
use webgit.Object.{ObjectType, RawObject, compute_id}
use webgit.Pack.Header.{PackObjectType, offset_delta, parse_object_header}
use webgit.Hash.{ObjectId}
use webgit.Bundle.Writer.{Crates, max_bundle_bytes}
use webgit.Bundle.Reader.{
  ObjectStore, PackReader, trailer_len, find_at, inflate, rebuild, object_of, keep_object,
  read_object, or_bundle_error,
}
use webgit.Bundle.Reader.Windows.{Held}
use webgit.Bundle.Reader.Laws.{IsSound, IsStore, NoCollision}
use webgit.Bundle.RoundTrip.Kept.{IsHeld, IsViewed, find_base_lem}

within : (n : ℕ) → n ≤ max_bundle_bytes → ltb max_bundle_bytes n ≡ false
within n h = ground arith

no_longer : (a b : ℕ) → a ≤ b → ltb b a ≡ false
no_longer a b h = ground arith

module _ {S : Type 0} (store : ObjectStore S) (crates : Crates) (sound : IsSound crates) where
  inflate-compress :
      (x tail : Bytes)
      → inflate store crates (crates.compress x ++ tail) (length x)
        ≡ ok (x, length (crates.compress x))
  unfolding inflate
  inflate-compress x tail = rw (sound.inflates x tail, ==_self (length x)) refl

  pub read_object_lem :
      (bytes : Bytes) (r r' : PackReader S) (pos : ℕ) (header payload tail : Bytes)
      (type : PackObjectType) (object : RawObject)
      → get_range bytes pos (length bytes - trailer_len)
        ≡ some (header ++ (crates.compress payload ++ tail))
      → parse_object_header (header ++ (crates.compress payload ++ tail))
        ≡ ok (type, length payload, length header)
      → length payload ≤ max_bundle_bytes
      → object_of store crates r pos type payload ≡ ok object
      → keep_object store crates r pos object ≡ ok r'
      → read_object store crates bytes r pos
        ≡ ok (r', pos + length header + length (crates.compress payload))
  unfolding read_object or_bundle_error
  read_object_lem bytes r r' pos header payload tail type object range parsed small made kept =
      let rest = crates.compress payload ++ tail in
      rw
        (
          range,
          parsed,
          within (length payload) small,
          drop-append header rest,
          inflate-compress payload tail,
          made,
          kept,
        )
        refl

  -- A delta against an object that the reader has read.
  module _ (view : S → ObjectId → Option RawObject) (objects : List RawObject)
      (lawful : IsStore store view) (apart : NoCollision crates.sha1 objects) where
    pub object_of-delta :
        (r : PackReader S) (pos offset limit : ℕ) (object_type : ObjectType) (from body d : Bytes)
        → Held (IsHeld store crates view objects) r.window
        → offset < pos
        → find_at offset r.seen
          ≡ some (compute_id crates.sha1 (record { object_type = object_type; body = from }))
        → In (record { object_type = object_type; body = from }) objects
        → IsViewed store crates view objects r.store
            (record { object_type = object_type; body = from })
        → crates.engine.delta from body limit ≡ some d
        → object_of store crates r pos (offset_delta (pos - offset)) d
          ≡ ok (record { object_type = object_type; body = body })
    unfolding object_of rebuild or_bundle_error
    object_of-delta r pos offset limit object_type from body d held before at among viewed made =
        let o : RawObject = record { object_type = object_type; body = from } in
        let near = no_longer (pos - offset) pos (omega arith) in
        let back : pos - (pos - offset) ≡ offset = omega arith in
        rw
          (
            near,
            back,
            at,
            find_base_lem store crates view objects lawful apart r o among held viewed,
            sound.applies from body d limit made,
          )
          refl
