-- ===== src/Bundle/RoundTrip/Bundles.antt =====
-- A whole bundle, the lines of its header and its pack, written and read back.
use webgit.Base.{
  ℕ, ◌≡◌, refl, ap, ◌∙◌, ◌<◌, ◌^◌, Bytes, List, [], ◌∷◌, ◌++◌, All, Option, ok, bind-eq_ok, length,
  drop-append,
}
use webgit.Hash.{ObjectId}
use webgit.Object.{RawObject}
use webgit.Bundle.Writer.{Crates, BundleWriter, start_pack, append_all, finish}
use webgit.Bundle.Reader.{ObjectStore}
use webgit.Bundle.Reader.Laws.{IsSound, IsStore, NoCollision}
use webgit.Bundle.Lines.{Hex, BundleRef, ref_lines, new_writer, read_bundle}
use webgit.Bundle.Lines.RoundTrip.{IsHex, IsText, front, read_header_lem}
use webgit.Bundle.RoundTrip.Kept.{IsViewed}
use webgit.Bundle.RoundTrip.Packs.{IsShort, read_pack-finish}

module _ {S : Type 0} (store : ObjectStore S) (crates : Crates) (hex : Hex)
    (view : S → ObjectId → Option RawObject) (objects : List RawObject) (sound : IsSound crates)
    (is_hex : IsHex hex) (lawful : IsStore store view)
    (apart : NoCollision crates.sha1 objects) where
  new_writer_lem :
      (refs : List BundleRef) (n : ℕ) (w : BundleWriter)
      → new_writer hex refs n ≡ ok w
      → (lines : Bytes) × (ref_lines hex refs ≡ ok lines) × (start_pack (front lines) n ≡ w)
  unfolding new_writer
  new_writer_lem [] n w e = cc
  new_writer_lem (r ∷ refs) n w e =
      let (lines, e1, e2) = bind-eq_ok (ref_lines hex (r ∷ refs)) _ e in
      let same : start_pack (front lines) n ≡ w = cc in (lines, e1, same)

  -- For refs whose names are UTF-8 and stand for names of twenty bytes, and objects whose bodies are no longer than the largest bundle, of
  -- which there are less than 2^32 and no two have the same name: when the writer has taken all of
  -- them, it finishes a bundle, and reading that bundle gives the refs in order and as many objects,
  -- and leaves a store that holds every object under its name.
  pub read_bundle-finish :
      (refs : List BundleRef) (s : S) (w w' : BundleWriter)
      → length objects < 2 ^ 32
      → All IsShort objects
      → All IsText refs
      → new_writer hex refs (length objects) ≡ ok w
      → append_all crates objects w ≡ ok w'
      → (bundle : Bytes) × (finish crates w' ≡ ok bundle)
        × (t : S) × (begins : ℕ) × (read_bundle hex store crates bundle s
            ≡ ok (
              t,
              record { version = 2; refs = refs; prerequisites = []; pack_offset = begins },
              length objects,
            ))
        × All (IsViewed store crates view objects t) objects
  unfolding read_bundle
  read_bundle-finish refs s w w' few short texts e added =
      let (lines, e1, same) = new_writer_lem refs (length objects) w e in
      let header : Bytes = front lines in
      let (pack, finished, t, read, viewed) =
        read_pack-finish store crates view objects sound lawful apart header s w' few short
          (ap (append_all crates objects) same ∙ added) in
      (
        header ++ pack,
        finished,
        t,
        length header,
        rw (read_header_lem hex is_hex refs lines pack texts e1, drop-append header pack, read)
            refl,
        viewed,
      )
