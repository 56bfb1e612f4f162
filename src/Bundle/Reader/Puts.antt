-- ===== src/Bundle/Reader/Puts.antt =====
-- What reading a bundle does to the store.
use webgit.Base.{
  ℕ, zero, suc, ◌+◌, ◌-◌, ◌≡◌, refl, ap, sym, ◌∙◌, Bytes, List, [], ◌∷◌, length, drop,
}
use webgit.Base.{ltb, not, ◌==◌, ok, ◌>>=◌, ok_or, get_range}
use webgit.Base.{Given, Given-bind, Given-if, Given-ok, Given-value, Given-weaken}
use webgit.Object.{RawObject, compute_id}
use webgit.Bundle.Writer.{
  Crates, BundleError, BundleResult, ends_mid_object, bad_header, max_bundle_bytes,
}
use webgit.Pack.Header.{parse_object_header}
use webgit.Bundle.Reader.{
  header_len, trailer_len, or_bundle_error, inflate, object_of, verify_pack, ObjectStore,
  PackReader, keep, keep_object, read_object, read_loop, read_pack,
}
use webgit.Bundle.Reader.Windows.{keep-store}

module _ {S : Type 0} (store : ObjectStore S) (crates : Crates) where
  -- Each of the objects under its name, in order.
  unfoldable pub put_all : List RawObject → S → BundleResult S
  put_all [] s = ok s
  put_all (object ∷ objects) s = do
    s' ← store.put s (compute_id crates.sha1 object) object
    put_all objects s'

  abbrev pub Put : S → S → Type 0
  Put s s' = (object : RawObject) × (store.put s (compute_id crates.sha1 object) object ≡ ok s')

  abbrev pub Puts : ℕ → S → S → Type 0
  Puts n s s' = (objects : List RawObject) × (length objects ≡ n) × (put_all objects s ≡ ok s')

  Puts-suc : (n : ℕ) (a b c : S) → Put a b → Puts n b c → Puts (suc n) a c
  unfolding put_all
  Puts-suc n a b c (object, put) (objects, count, rest) =
      (object ∷ objects, ap suc count, rw (put_all, put) rest)

  -- A step of the reader puts one object; so many steps put so many.
  abbrev PutBy : PackReader S → PackReader S × ℕ → Type 0
  PutBy r x = Put r.store x.0.store

  abbrev PutsBy : ℕ → PackReader S → PackReader S × ℕ → Type 0
  PutsBy n r x = Puts n r.store x.0.store

  abbrev PutKept : PackReader S → PackReader S → Type 0
  PutKept r r' = Put r.store r'.store

  keep_object-Put :
      (r : PackReader S) (pos : ℕ) (object : RawObject)
      → Given (PutKept r) (keep_object store crates r pos object)
  unfolding keep_object
  keep_object-Put r pos object =
      let id = compute_id crates.sha1 object in
      let kept = keep id object (record r { seen = (pos, id) ∷ r.seen }) in
      let same = (keep-store id object (record r { seen = (pos, id) ∷ r.seen })).0 in
      Given-bind (PutKept r) (store.put kept.store id object) _ (λ s put.
        Given-ok BundleError (PutKept r)
          (object, ap (λ (t : S). store.put t id object) (sym same) ∙ put))

  read_object-Put :
      (bytes : Bytes) (r : PackReader S) (pos : ℕ)
      → Given (PutBy r) (read_object store crates bytes r pos)
  unfolding read_object
  read_object-Put bytes r pos =
      Given-bind (PutBy r)
        (ok_or (get_range bytes pos (length bytes - trailer_len)) ends_mid_object) _
        λ rest e1.
          Given-bind (PutBy r) (or_bundle_error bad_header (parse_object_header rest)) _ λ h e2.
            Given-if (PutBy r) (ltb max_bundle_bytes h.1) _ _ (
              Given-bind (PutBy r) (inflate store crates (drop h.2 rest) h.1) _ λ stored e3.
                Given-bind (PutBy r) (object_of store crates r pos h.0 stored.0) _ λ object e4.
                  Given-bind (PutBy r) (keep_object store crates r pos object) _ λ r' e5.
                    Given-ok BundleError (PutBy r) {a = (r', pos + h.2 + stored.1)}
                      (Given-value (PutKept r) (keep_object-Put r pos object) e5))

  read_loop-Puts :
      (n : ℕ) (bytes : Bytes) (r : PackReader S) (pos : ℕ)
      → Given (PutsBy n r) (read_loop store crates n bytes r pos)
  unfolding read_loop put_all
  read_loop-Puts zero bytes r pos =
      Given-ok BundleError (PutsBy zero r) {a = (r, pos)} ([], refl, refl)
  read_loop-Puts (suc n) bytes r pos =
      Given-bind (PutsBy (suc n) r) (read_object store crates bytes r pos) _ λ x e.
        Given-weaken (PutsBy n x.0) (PutsBy (suc n) r) _ (read_loop-Puts n bytes x.0 x.1) λ y rest.
          Puts-suc n r.store x.0.store y.0.store
            (Given-value (PutBy r) (read_object-Put bytes r pos) e) rest

  abbrev PutsAll : S → S × ℕ → Type 0
  PutsAll s x = Puts x.1 s x.0

  -- What read_pack accepts it has put into the store, and nothing else: as many objects as it
  -- reports, one after another, each under the name that its own bytes have.
  pub read_pack-Puts :
      (bytes : Bytes) (s s' : S) (total : ℕ)
      → read_pack store crates bytes s ≡ ok (s', total)
      → Puts total s s'
  unfolding read_pack
  read_pack-Puts bytes s s' total e =
      let r : PackReader S = record {
        store = s;
        seen = [];
        window = [];
        order = [];
        window_bytes = 0;
      } in
      Given-value (PutsAll s)
        (Given-bind (PutsAll s) (verify_pack store crates bytes) _ λ n e1.
          Given-bind (PutsAll s) (read_loop store crates n bytes r header_len) _ λ x e2.
            Given-if (PutsAll s) (not (x.1 == length bytes - trailer_len)) _ _ (
              Given-ok BundleError (PutsAll s) {a = (x.0.store, n)}
                (Given-value (PutsBy n r) (read_loop-Puts n bytes r header_len) e2)))
        e
