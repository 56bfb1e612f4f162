-- ===== src/Bundle/RoundTrip/Loops.antt =====
-- The objects that a run of the writer adds, and the run of the reader over them.
use webgit.Base.{
  ℕ, ◌+◌, ◌≤◌, ◌≡◌, refl, sym, ap, ◌∙◌, subst, arith, Bytes, List, [], ◌∷◌, ◌++◌, append_assoc,
  append-nil, In, All, ok, length, length-append, bind-eq_ok, Option,
}
use webgit.Hash.{ObjectId}
use webgit.Object.{RawObject}
use webgit.Bundle.Writer.{Crates, BundleWriter, max_bundle_bytes, append, append_all}
use webgit.Bundle.Reader.{ObjectStore, PackReader, trailer_len, read_object, read_loop}
use webgit.Bundle.Reader.Laws.{IsSound, IsStore, NoCollision}
use webgit.Bundle.RoundTrip.Kept.{IsViewed}
use webgit.Bundle.RoundTrip.Written.{entry, append_lem}
use webgit.Bundle.RoundTrip.Steps.{Follows, Lasting, read_object-append}

-- `n` objects more, in these bytes.
pub record IsGrown (w : BundleWriter) (entries : Bytes) (n : ℕ) (w' : BundleWriter) : Type 0 where
  pub hashed : w'.hashed ≡ w.hashed ++ entries
  pub out : w'.out ≡ w.out ++ entries
  pub written : w'.written ≡ w.written + length entries
  pub appended : w'.appended ≡ w.appended + n
  pub objects : w'.objects ≡ w.objects

module _ {S : Type 0} (store : ObjectStore S) (crates : Crates)
    (view : S → ObjectId → Option RawObject) (objects : List RawObject) where
  -- The reader gets past these bytes, wherever they stand, with the objects in its store.
  abbrev pub Reads : List RawObject → BundleWriter → Bytes → BundleWriter → Type 0
  Reads added w entries w' =
      (r : PackReader S) (pre tail trailer : Bytes)
      → Follows store crates view objects w r
      → length pre ≡ w.written
      → length trailer ≡ trailer_len
      → (r' : PackReader S) × (read_loop store crates (length added)
            (pre ++ ((entries ++ tail) ++ trailer)) r w.written
          ≡ ok (r', w'.written))
        × All (IsViewed store crates view objects r'.store) added
        × Lasting store crates view objects r.store r'.store

  abbrev pub IsMember : RawObject → Type 0
  IsMember object = In object objects × (length object.body ≤ max_bundle_bytes)

  module _ (sound : IsSound crates) (lawful : IsStore store view)
      (apart : NoCollision crates.sha1 objects) where
    pub append_all_lem :
        (added : List RawObject) (w w' : BundleWriter)
        → All IsMember added
        → append_all crates added w ≡ ok w'
        → (entries : Bytes) × IsGrown w entries (length added) w' × Reads added w entries w'
    unfolding append_all read_loop
    append_all_lem [] w w' all e =
        let same : w ≡ w' = cc in
        subst
          (λ (v : BundleWriter). (entries : Bytes) × IsGrown w entries 0 v × Reads [] w entries v)
          same
          (
            [],
            record {
              hashed = sym (append-nil w.hashed);
              out = sym (append-nil w.out);
              written = omega arith;
              appended = omega arith;
              objects = refl;
            },
            λ r pre tail trailer f at closes. (r, refl, tt, λ x among viewed. viewed),
          )
    append_all_lem (object ∷ added) w w' ((among, small), all) e =
        let (v, e1, e2) = bind-eq_ok (append crates object.object_type object.body w) _ e in
        let (finished, count, _) = append_lem crates object w v e1 in
        let (entries, grown, reads) = append_all_lem added v w' all e2 in
        let first = entry crates object w in
        (
          first ++ entries,
          record {
            hashed =
                grown.hashed
                ∙ ap (◌++ entries) finished.hashed
                ∙ append_assoc w.hashed first entries;
            out = grown.out ∙ ap (◌++ entries) finished.out ∙ append_assoc w.out first entries;
            written = omega (arith, grown.written, finished.written, length-append first entries);
            appended = omega (arith, grown.appended, count);
            objects = grown.objects ∙ finished.objects;
          },
          λ r pre tail trailer f at closes.
              let (r1, read, f1, viewed, lasts) =
                read_object-append store crates view objects sound lawful apart object w v r pre
                  (entries ++ tail) trailer e1 among small f at closes in
              let (r', loop, all_viewed, lasts') =
                reads r1 (pre ++ first) tail trailer f1
                  (omega (arith, length-append pre first, at, finished.written)) closes in
              let whole : Bytes = pre ++ (((first ++ entries) ++ tail) ++ trailer) in
              let now : pre ++ ((first ++ (entries ++ tail)) ++ trailer) ≡ whole =
                simp append_assoc in
              let then' : (pre ++ first) ++ ((entries ++ tail) ++ trailer) ≡ whole =
                simp append_assoc in
              let read' : read_object store crates whole r w.written ≡ ok (r1, v.written) =
                subst (λ (b : Bytes). read_object store crates b r w.written ≡ ok (r1, v.written))
                  now read in
              let loop' : read_loop store crates (length added) whole r1 v.written
                  ≡ ok (r', w'.written) =
                subst
                  (λ (b : Bytes).
                    read_loop store crates (length added) b r1 v.written ≡ ok (r', w'.written))
                  then' loop in
              (
                r',
                rw read' loop',
                (lasts' object among viewed, all_viewed),
                λ x x_among h. lasts' x x_among (lasts x x_among h),
              ),
        )
