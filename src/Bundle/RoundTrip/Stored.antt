-- ===== src/Bundle/RoundTrip/Stored.antt =====
-- How the writer stores an object is how the reader makes it out.
use webgit.Base.{
  ℕ, ◌+◌, ◌-◌, ◌*◌, ◌/◌, ◌≤◌, ◌<◌, ◌≡◌, refl, arith, Bytes, List, [], ◌++◌, In, Option, none, some,
  ok, length,
}
use native.Mathlib.Nat.{mul-le-mul_left}
use webgit.Hash.{ObjectId}
use webgit.Object.{RawObject, compute_id}
use webgit.Pack.Header.{PackObjectType, base, offset_delta, parse_object_header}
use webgit.Bundle.Header.{type_bits, ofs_delta, write_pack_header}
use webgit.Bundle.Header.RoundTrip.{parse-whole_header, parse-delta_header}
use webgit.Bundle.Window.{Delta, max_depth}
use webgit.Bundle.Window.Budget.{IsSmall}
use webgit.Bundle.Window.Offers.{Rebuilds}
use webgit.Bundle.Writer.{Crates, max_bundle_bytes, stored}
use webgit.Bundle.Reader.{ObjectStore, PackReader, find_at, object_of}
use webgit.Bundle.Reader.Windows.{Held}
use webgit.Bundle.Reader.Laws.{IsSound, IsStore, NoCollision}
use webgit.Bundle.RoundTrip.Kept.{IsHeld, IsViewed}
use webgit.Bundle.RoundTrip.Entries.{object_of-delta}
use webgit.Bundle.RoundTrip.Headers.{write_pack_header_nonempty, write_base_distance_nonempty}

delta_fits :
    (n l depth : ℕ)
    → n ≤ max_bundle_bytes
    → 1 ≤ depth
    → depth ≤ max_depth
    → l * max_depth ≤ (n - 40) / 2 * (max_depth + 1 - depth)
    → l ≤ max_bundle_bytes
delta_fits n l depth small deep shallow h =
    let q : ℕ = (n - 40) / 2 in
    let scaled : q * (max_depth + 1 - depth) ≤ q * max_depth = mul-le-mul_left q (omega arith) in
    omega (arith, h, scaled)

module _ {S : Type 0} (store : ObjectStore S) (crates : Crates)
    (view : S → ObjectId → Option RawObject) (objects : List RawObject) where
  -- The reader has read the object at that offset, and has put it into the store.
  abbrev pub At : ℕ → PackReader S → ℕ → RawObject → Type 0
  At written r offset object =
      (offset < written)
      × (find_at offset r.seen ≡ some (compute_id crates.sha1 object))
      × In object objects
      × IsViewed store crates view objects r.store object

  -- What the reader makes of the parts that the writer stores.
  pub record IsReadable (r : PackReader S) (pos : ℕ) (object : RawObject)
      (header payload more : Bytes) : Type 0 where
    pub type : PackObjectType
    pub parsed : parse_object_header (header ++ more) ≡ ok (type, length payload, length header)
    pub fits : length payload ≤ max_bundle_bytes
    pub made : object_of store crates r pos type payload ≡ ok object
    pub nonempty : 0 < length header

  module _ (sound : IsSound crates) (lawful : IsStore store view)
      (apart : NoCollision crates.sha1 objects) where
    pub stored-IsReadable :
        (r : PackReader S) (written : ℕ) (object : RawObject) (best : Option Delta) (more : Bytes)
        → written ≤ max_bundle_bytes
        → length object.body ≤ max_bundle_bytes
        → Held (IsHeld store crates view objects) r.window
        → IsSmall (length object.body) best
        → Rebuilds crates.engine (At written r) object.object_type object.body best
        → IsReadable r written object
            (stored crates object.object_type object.body written best).0
            (stored crates object.object_type object.body written best).1
            more
    unfolding stored object_of
    stored-IsReadable r written object none more near small held budget from = record {
      type = base object.object_type;
      parsed = parse-whole_header object.object_type (length object.body) more (omega arith);
      fits = small;
      made = refl;
      nonempty = write_pack_header_nonempty (type_bits object.object_type) (length object.body);
    }
    stored-IsReadable r written object (some d) more near small held (deep, shallow, budget)
          (body, limit, (before, at, among, viewed), delta) =
        let size : ℕ = length d.delta_data in
        let fits = delta_fits (length object.body) size d.depth small deep shallow budget in
        record {
          type = offset_delta (written - d.base_offset);
          parsed =
              parse-delta_header size (written - d.base_offset) more (omega arith) (omega arith);
          fits = fits;
          made =
              object_of-delta store crates sound view objects lawful apart r written d.base_offset
                limit object.object_type body object.body d.delta_data held before at among viewed
                delta;
          nonempty =
              write_base_distance_nonempty (write_pack_header [] ofs_delta size)
                (written - d.base_offset) (write_pack_header_nonempty ofs_delta size);
        }
