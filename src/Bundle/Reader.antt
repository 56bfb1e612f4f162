-- ===== src/Bundle/Reader.antt =====
-- crates/gib-bundle/src/reader.rs: the pack of a bundle, read back into a store.
pub mod Windows
pub mod Laws
pub mod Puts
use webgit.Base.{ℕ, zero, suc, ◌+◌, ◌-◌, ◌*◌, ◌^◌, Bytes, List, [], ◌∷◌, ◌++◌, length, take, drop}
use webgit.Base.{Bool, true, false, not, ◌&&◌, ltb, leb, ◌==◌, eq_bytes, if◌then◌else◌}
use webgit.Base.{Option, none, some, Outcome, ok, err, panic, stuck, ◌>>=◌, ok_or, get_range}
use webgit.Base.{wrapping_add, wrapping_sub}
use webgit.Object.{RawObject, compute_id}
use webgit.Hash.{ObjectId}
use webgit.Pack.{PackObjectError, ObjectResult}
use webgit.Pack.Index.{from_be_bytes}
use webgit.Pack.Header.{PackObjectType, base, offset_delta, ref_delta, parse_object_header}
use webgit.Pack.Delta.{apply_delta}
use webgit.Bundle.Window.{window_memory_bytes}
use webgit.Bundle.Writer.{
  Crates, BundleError, BundleResult, max_bundle_bytes, pack_magic, no_pack, not_a_pack,
  pack_version, damaged, unaccounted, ends_mid_object, object_too_large, did_not_inflate,
  base_before_pack, no_such_base, bad_header, bad_delta, missing_base,
}

-- The trait `ObjectStore`.
pub record ObjectStore (S : Type 0) : Type 0 where
  pub put : S → ObjectId → RawObject → BundleResult S
  pub get : S → ObjectId → BundleResult (Option RawObject)

abbrev pub header_len : ℕ
header_len = 12

abbrev pub trailer_len : ℕ
trailer_len = 20

abbrev pub eq_id : ObjectId → ObjectId → Bool
eq_id a b = eq_bytes a.bytes b.bytes

-- `BTreeMap`s: an insertion hides what was there, and `remove` takes every trace.
unfoldable pub find_id : ObjectId → List (ObjectId × RawObject) → Option RawObject
find_id id [] = none
find_id id ((key, object) ∷ window) = if eq_id key id then some object else find_id id window

unfoldable pub remove_id : ObjectId → List (ObjectId × RawObject) → List (ObjectId × RawObject)
remove_id id [] = []
remove_id id ((key, object) ∷ window) =
    (let rest = remove_id id window in if eq_id key id then rest else (key, object) ∷ rest)

unfoldable pub find_at : ℕ → List (ℕ × ObjectId) → Option ObjectId
find_at offset [] = none
find_at offset ((key, id) ∷ seen) = if key == offset then some id else find_at offset seen

pub record PackReader (S : Type 0) : Type 0 where
  pub store : S
  pub seen : List (ℕ × ObjectId)
  pub window : List (ObjectId × RawObject)
  pub order : List ObjectId
  pub window_bytes : ℕ

module _ {S : Type 0} where
  -- `while self.window_bytes > WINDOW_MEMORY_BYTES && self.order.len() > 1`
  unfoldable pub forget_oldest : List ObjectId → PackReader S → PackReader S
  forget_oldest [] r = record r { order = [] }
  forget_oldest (oldest ∷ order) r =
      elim (ltb window_memory_bytes r.window_bytes && ltb 1 (length (oldest ∷ order))) [
        | true ↦ forget_oldest order (elim (find_id oldest r.window) [
          | none ↦ r
          | some dropped ↦ record r {
            window = remove_id oldest r.window;
            window_bytes = wrapping_sub r.window_bytes (length dropped.body);
          }
        ])
        | false ↦ record r { order = oldest ∷ order }
      ]

  unfoldable pub keep : ObjectId → RawObject → PackReader S → PackReader S
  keep id object r =
      let order : List ObjectId = elim (find_id id r.window) [
        | none ↦ r.order ++ id ∷ []
        | some _ ↦ r.order
      ] in
      forget_oldest order (record r {
        window = (id, object) ∷ remove_id id r.window;
        window_bytes = wrapping_add r.window_bytes (length object.body);
      })

-- `map_err`
unfoldable pub or_bundle_error {ℓ} :
    {A : Type ℓ} → (PackObjectError → BundleError) → ObjectResult A → BundleResult A
or_bundle_error f (ok a) = ok a
or_bundle_error f (err e) = err (f e)
or_bundle_error f panic = panic
or_bundle_error f stuck = stuck

module _ {S : Type 0} (store : ObjectStore S) (crates : Crates) where
  unfoldable pub inflate : Bytes → ℕ → BundleResult (Bytes × ℕ)
  inflate input size =
      let (finished, body, consumed) = crates.decompress input size in
      if not finished
      then err did_not_inflate
      else if not (length body == size)
      then err did_not_inflate
      else ok (body, consumed)

  unfoldable pub find_base : PackReader S → ObjectId → BundleResult RawObject
  find_base r id = elim (find_id id r.window) [
    | some object ↦ ok object
    | none ↦ (do found ← store.get r.store id; ok_or found (missing_base id))
  ]

  unfoldable pub rebuild : PackReader S → ObjectId → Bytes → BundleResult RawObject
  rebuild r base_id delta = do
    found ← find_base r base_id
    body ← or_bundle_error bad_delta (apply_delta delta found.body)
    ok (record { object_type = found.object_type; body = body })

  -- The `match object_type`.
  unfoldable pub object_of : PackReader S → ℕ → PackObjectType → Bytes → BundleResult RawObject
  object_of r pos (base object_type) stored =
      ok (record { object_type = object_type; body = stored })
  object_of r pos (offset_delta distance) stored = do
    base_at ← (if ltb pos distance then err base_before_pack else ok (pos - distance))
    base_id ← ok_or (find_at base_at r.seen) no_such_base
    rebuild r base_id stored
  object_of r pos (ref_delta base_id) stored = rebuild r base_id stored

  unfoldable pub keep_object : PackReader S → ℕ → RawObject → BundleResult (PackReader S)
  keep_object r pos object = do
    let id = compute_id crates.sha1 object
    let r' = keep id object (record r { seen = (pos, id) ∷ r.seen })
    stored ← store.put r'.store id object
    ok (record r' { store = stored })

  unfoldable pub read_object : Bytes → PackReader S → ℕ → BundleResult (PackReader S × ℕ)
  read_object bytes r pos = do
    rest ← ok_or (get_range bytes pos (length bytes - trailer_len)) ends_mid_object
    (object_type, size, header) ← or_bundle_error bad_header (parse_object_header rest)
    if ltb max_bundle_bytes size then err object_too_large else do
      (stored, consumed) ← inflate (drop header rest) size
      object ← object_of r pos object_type stored
      r' ← keep_object r pos object
      ok (r', pos + header + consumed)

  unfoldable pub read_loop : ℕ → Bytes → PackReader S → ℕ → BundleResult (PackReader S × ℕ)
  read_loop zero bytes r pos = ok (r, pos)
  read_loop (suc n) bytes r pos = do (r', pos') ← read_object bytes r pos; read_loop n bytes r' pos'

  unfoldable pub verify_pack : Bytes → BundleResult ℕ
  verify_pack bytes =
      if ltb (length bytes) (header_len + trailer_len)
      then err no_pack
      else if not (eq_bytes (take 4 bytes) pack_magic)
      then err not_a_pack
      else if not (from_be_bytes (take 4 (drop 4 bytes)) == 2)
      then err pack_version
      else if not (
          eq_bytes (crates.sha1 (take (length bytes - trailer_len) bytes))
            (drop (length bytes - trailer_len) bytes))
      then err damaged
      else ok (from_be_bytes (take 4 (drop 8 bytes)))

  -- `read_bundle` from behind the header on, without its reports of progress.
  unfoldable pub read_pack : Bytes → S → BundleResult (S × ℕ)
  read_pack bytes s = do
    total ← verify_pack bytes
    (r, pos) ←
        read_loop total bytes
          (record { store = s; seen = []; window = []; order = []; window_bytes = 0 }) header_len
    if not (pos == length bytes - trailer_len) then err unaccounted else ok (r.store, total)
