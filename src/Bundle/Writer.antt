-- ===== src/Bundle/Writer.antt =====
-- crates/gib-bundle/src/writer.rs: the pack behind the header of a bundle, an object at a time.
use webgit.Base.{ℕ, suc, ◌+◌, ◌-◌, ◌*◌, ◌/◌, ◌%◌, ◌^◌, Bytes, List, [], ◌∷◌, ◌++◌, length}
use webgit.Base.{Bool, not, ltb, ◌==◌, if◌then◌else◌, Option, none, some}
use webgit.Base.{Outcome, ok, err, ◌>>=◌}
use webgit.Object.{ObjectType, RawObject}
use webgit.Hash.{ObjectId}
use webgit.Pack.{PackObjectError}
use webgit.Bundle.Header.{type_bits, ofs_delta, write_pack_header, write_base_distance}
use webgit.Bundle.Window.{Engine, Candidate, Delta, unbuilt, Window, best_delta, remember}

-- The crates that the writer and the reader call: SHA-1, zlib's two directions, and the deltas. The
-- last two results of `decompress` are what came out, and how much of the input that took.
pub record Crates : Type 0 where
  pub sha1 : Bytes → Bytes
  pub compress : Bytes → Bytes
  pub decompress : Bytes → ℕ → Bool × Bytes × ℕ
  pub engine : Engine

-- The failures of both, which are texts in the code.
pub data BundleError : Type 0 where
  no_refs bad_ref_name over_limit wrong_count : BundleError
  not_a_bundle no_blank_line no_ref_name not_utf8 unknown_capability no_object : BundleError
  no_pack not_a_pack pack_version damaged unaccounted : BundleError
  ends_mid_object object_too_large did_not_inflate base_before_pack no_such_base : BundleError
  bad_header bad_delta : PackObjectError → BundleError
  missing_base : ObjectId → BundleError
  store_failed : BundleError

abbrev pub BundleResult {ℓ} : Type ℓ → Type ℓ
BundleResult A = Outcome BundleError A

abbrev pub max_bundle_bytes : ℕ
max_bundle_bytes = 256 * 1024 * 1024

-- `hashed` is what the hasher has been given.
pub record BundleWriter : Type 0 where
  pub out : Bytes
  pub window : Window
  pub hashed : Bytes
  pub written : ℕ
  pub appended : ℕ
  pub objects : ℕ

unfoldable pub pack_bytes : Bytes → BundleWriter → BundleWriter
pack_bytes bytes w = record w {
  hashed = w.hashed ++ bytes;
  out = w.out ++ bytes;
  written = w.written + length bytes;
}

-- `u32::to_be_bytes`
abbrev pub to_be_bytes : ℕ → Bytes
to_be_bytes n = n / 2 ^ 24 % 256 ∷ n / 2 ^ 16 % 256 ∷ n / 2 ^ 8 % 256 ∷ n % 256 ∷ []

abbrev pub pack_magic : Bytes
pack_magic = b'P' ∷ b'A' ∷ b'C' ∷ b'K' ∷ []

-- The end of `new`, behind the lines of the header.
unfoldable pub start_pack : Bytes → ℕ → BundleWriter
start_pack header objects = pack_bytes (to_be_bytes objects) (
    pack_bytes (to_be_bytes 2) (
      pack_bytes pack_magic (record {
        out = header;
        window = record { window = []; window_bytes = 0 };
        hashed = [];
        written = 0;
        appended = 0;
        objects = objects;
      })))

module _ (crates : Crates) where
  unfoldable pub finish_object : Bytes → Bytes → BundleWriter → BundleResult BundleWriter
  finish_object header payload w =
      let deflated = crates.compress payload in
      if ltb max_bundle_bytes (w.written + length header + length deflated)
      then err over_limit
      else ok (pack_bytes deflated (pack_bytes header w))

  -- What stands in front of the deflated bytes, those bytes before they are deflated, and the depth.
  unfoldable pub stored : ObjectType → Bytes → ℕ → Option Delta → Bytes × Bytes × ℕ
  stored object_type body offset none =
      (write_pack_header [] (type_bits object_type) (length body), body, 0)
  stored object_type body offset (some delta) = (
    write_base_distance (write_pack_header [] ofs_delta (length delta.delta_data))
        (offset - delta.base_offset),
    delta.delta_data,
    delta.depth,
  )

  abbrev pub with_window : List Candidate → BundleWriter → BundleWriter
  with_window window w = record w {
    window = record { window = window; window_bytes = w.window.window_bytes };
  }

  unfoldable pub after_append : ObjectType → Bytes → ℕ → ℕ → BundleWriter → BundleWriter
  after_append object_type body offset depth w = record w {
    window =
        remember
          (record {
            offset = offset;
            depth = depth;
            object_type = object_type;
            body = body;
            index = unbuilt;
          })
          w.window;
    appended = suc w.appended;
  }

  unfoldable pub append : ObjectType → Bytes → BundleWriter → BundleResult BundleWriter
  append object_type body w = do
    let (window, best) = best_delta crates.engine object_type body w.window.window
    let (header, payload, depth) = stored object_type body w.written best
    w' ← finish_object header payload (with_window window w)
    ok (after_append object_type body w.written depth w')

  unfoldable pub append_all : List RawObject → BundleWriter → BundleResult BundleWriter
  append_all [] w = ok w
  append_all (object ∷ objects) w = do
    w' ← append object.object_type object.body w
    append_all objects w'

  unfoldable pub finish : BundleWriter → BundleResult Bytes
  finish w =
      if not (w.appended == w.objects) then err wrong_count else ok (w.out ++ crates.sha1 w.hashed)

-- What is waiting to be taken, and taking it.
unfoldable pub pending : BundleWriter → ℕ
pending w = length w.out

unfoldable pub take_out : BundleWriter → Bytes × BundleWriter
take_out w = (w.out, record w { out = [] })
