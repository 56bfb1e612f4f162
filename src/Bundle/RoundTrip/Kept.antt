-- ===== src/Bundle/RoundTrip/Kept.antt =====
-- What the reader finds of the objects that it has kept.
use webgit.Base.{
  ℕ, ◌≡◌, ◌≢◌, refl, sym, ap, ◌∙◌, subst, Bytes, List, ◌∷◌, In, Bool-cases, Option-cases, inl, inr,
  true, false, Option, some, ok, eq_bytes-eq, eq_bytes_refl,
}
use webgit.Object.{RawObject, compute_id}
use webgit.Hash.{ObjectId}
use webgit.Bundle.Writer.{Crates}
use webgit.Bundle.Reader.{ObjectStore, PackReader, find_id, keep, keep_object, find_base, eq_id}
use webgit.Bundle.Reader.Windows.{Held, keep-Held, find_id-Held, keep-store}
use webgit.Bundle.Reader.Laws.{IsStore, NoCollision}

pub eq_id-eq : (a b : ObjectId) → eq_id a b ≡ true → a ≡ b
eq_id-eq a b e = ap (λ (bytes : Bytes). record { bytes = bytes }) (eq_bytes-eq a.bytes b.bytes e)

eq_id-ne : (a b : ObjectId) → eq_id a b ≡ false → a ≢ b
eq_id-ne a b e same =
    let t : eq_id a a ≡ true = eq_bytes_refl a.bytes in
    let f : eq_id a a ≡ false = subst (λ (x : ObjectId). eq_id a x ≡ false) (sym same) e in cc

module _ {S : Type 0} (store : ObjectStore S) (crates : Crates)
    (view : S → ObjectId → Option RawObject) (objects : List RawObject) where
  -- An entry of the reader's window; an object that the store holds under its name.
  abbrev pub IsHeld : ObjectId → RawObject → Type 0
  IsHeld id object = (id ≡ compute_id crates.sha1 object) × In object objects

  abbrev pub IsViewed : S → RawObject → Type 0
  IsViewed s object = view s (compute_id crates.sha1 object) ≡ some object

  pub record IsKept (r : PackReader S) (pos : ℕ) (object : RawObject) (r' : PackReader S)
      : Type 0 where
    pub seen : r'.seen ≡ (pos, compute_id crates.sha1 object) ∷ r.seen
    pub held : Held IsHeld r'.window
    pub viewed : IsViewed r'.store object
    pub views : (x : RawObject) → In x objects → IsViewed r.store x → IsViewed r'.store x

  module _ (lawful : IsStore store view) (apart : NoCollision crates.sha1 objects) where
    views_kept :
        (s t : S) (object x : RawObject)
        → In object objects
        → In x objects
        → IsViewed t object
        → ((other : ObjectId) → other ≢ compute_id crates.sha1 object → view t other ≡ view s other)
        → IsViewed s x
        → IsViewed t x
    views_kept s t object x among x_among here others h =
        let id_x = compute_id crates.sha1 x in
        let id = compute_id crates.sha1 object in
        elim (Bool-cases (eq_id id_x id)) [
          | inl e ↦
              subst (IsViewed t) (apart object x among x_among (sym (eq_id-eq id_x id e))) here
          | inr e ↦ others id_x (eq_id-ne id_x id e) ∙ h
        ]

    pub keep_object-IsKept :
        (r : PackReader S) (pos : ℕ) (object : RawObject)
        → In object objects
        → Held IsHeld r.window
        → (r' : PackReader S) × (keep_object store crates r pos object ≡ ok r')
          × IsKept r pos object r'
    unfolding keep_object
    keep_object-IsKept r pos object among h =
        let id = compute_id crates.sha1 object in
        let seen : PackReader S = record r { seen = (pos, id) ∷ r.seen } in
        let kept : PackReader S = keep id object seen in
        let (same_store, same_seen) = keep-store id object seen in
        let (t, put, here, others) = lawful.puts kept.store id object in
        let r' : PackReader S = record kept { store = t } in
        (
          r',
          rw put refl,
          record {
            seen = same_seen;
            held = keep-Held IsHeld id object seen h (refl, among);
            viewed = here;
            views = λ x x_among v.
                views_kept kept.store t object x among x_among here others
                  (subst (λ (s : S). IsViewed s x) (sym same_store) v);
          },
        )

    pub find_base_lem :
        (r : PackReader S) (object : RawObject)
        → In object objects
        → Held IsHeld r.window
        → IsViewed r.store object
        → find_base store crates r (compute_id crates.sha1 object) ≡ ok object
    unfolding find_base
    find_base_lem r object among h viewed =
        let id = compute_id crates.sha1 object in
        elim (Option-cases (find_id id r.window)) [
          | inl e ↦ rw (find_base, e, lawful.gets r.store id, viewed) refl
          | inr (found, e) ↦
              (let (same, found_among) = find_id-Held IsHeld id r.window found h e in
                let eq = apart found object found_among among (sym same) in
                rw (find_base, e) (ap ok eq))
        ]
