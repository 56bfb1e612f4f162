-- ===== src/Bundle/Reader/Windows.antt =====
-- What the reader's window holds is what it was given, under its name.
use webgit.Base.{
  ℕ, ◌≡◌, refl, ap, List, [], ◌∷◌, length, All, ◌&&◌, ltb, Bool-cases, Option-cases, inl, inr,
}
use webgit.Base.{Option, some, eq_bytes-eq, subst}
use webgit.Object.{RawObject}
use webgit.Hash.{ObjectId}
use webgit.Bundle.Window.{window_memory_bytes}
use webgit.Bundle.Reader.{PackReader, find_id, remove_id, forget_oldest, keep, eq_id}

abbrev pub Held : (ObjectId → RawObject → Type 0) → List (ObjectId × RawObject) → Type 0
Held P window = All (λ (entry : ObjectId × RawObject). P entry.0 entry.1) window

module _ (P : ObjectId → RawObject → Type 0) where
  remove_id-Held :
      (id : ObjectId) (window : List (ObjectId × RawObject))
      → Held P window
      → Held P (remove_id id window)
  unfolding remove_id
  remove_id-Held id [] h = tt
  remove_id-Held id ((key, object) ∷ window) (p, h) = elim (Bool-cases (eq_id key id)) [
    | inl e ↦ rw (remove_id, e) (remove_id-Held id window h)
    | inr e ↦ rw (remove_id, e) (p, remove_id-Held id window h)
  ]

  forget_oldest-Held :
      {S : Type 0} (order : List ObjectId) (r : PackReader S)
      → Held P r.window
      → Held P (forget_oldest order r).window
  unfolding forget_oldest
  forget_oldest-Held [] r h = h
  forget_oldest-Held (oldest ∷ order) r h =
      elim (Bool-cases
        (ltb window_memory_bytes r.window_bytes && ltb 1 (length (oldest ∷ order)))) [
          | inl e ↦ elim (Option-cases (find_id oldest r.window)) [
            | inl q ↦ rw (forget_oldest, e, q) (forget_oldest-Held order r h)
            | inr (dropped, q) ↦
                rw (forget_oldest, e, q)
                  (forget_oldest-Held order _ (remove_id-Held oldest r.window h))
          ]
          | inr e ↦ rw (forget_oldest, e) h
        ]

  pub keep-Held :
      {S : Type 0} (id : ObjectId) (object : RawObject) (r : PackReader S)
      → Held P r.window
      → P id object
      → Held P (keep id object r).window
  unfolding keep
  keep-Held id object r h p = forget_oldest-Held _ _ (p, remove_id-Held id r.window h)

-- What is found is held under that name.
pub find_id-Held :
    (P : ObjectId → RawObject → Type 0) (id : ObjectId) (window : List (ObjectId × RawObject))
    (object : RawObject)
    → Held P window
    → find_id id window ≡ some object
    → P id object
unfolding find_id
find_id-Held P id [] object h e = cc
find_id-Held P id ((key, o) ∷ window) object (p, h) e = elim (Bool-cases (eq_id key id)) [
  | inl t ↦
      (let e' : ◌≡◌ {A = Option RawObject} (some o) (some object) = rw (find_id, t) at e in
        let q : o ≡ object = cc in
        let k : key ≡ id =
          ap (λ (b : List ℕ). record { bytes = b }) (eq_bytes-eq key.bytes id.bytes t) in
        subst (P id) q (subst (λ (i : ObjectId). P i o) k p))
  | inr f ↦ find_id-Held P id window object h (rw (find_id, f) at e)
]

-- The walk goes on with the store and the offsets as they are.
module _ {S : Type 0} where
  forget_oldest-store :
      (order : List ObjectId) (r : PackReader S)
      → ((forget_oldest order r).store ≡ r.store) × ((forget_oldest order r).seen ≡ r.seen)
  unfolding forget_oldest
  forget_oldest-store [] r = (refl, refl)
  forget_oldest-store (oldest ∷ order) r =
      elim (Bool-cases
        (ltb window_memory_bytes r.window_bytes && ltb 1 (length (oldest ∷ order)))) [
          | inl e ↦ elim (Option-cases (find_id oldest r.window)) [
            | inl q ↦ rw (forget_oldest, e, q) (forget_oldest-store order r)
            | inr (dropped, q) ↦ rw (forget_oldest, e, q) (forget_oldest-store order _)
          ]
          | inr e ↦ rw (forget_oldest, e) (refl, refl)
        ]

  pub keep-store :
      (id : ObjectId) (object : RawObject) (r : PackReader S)
      → ((keep id object r).store ≡ r.store) × ((keep id object r).seen ≡ r.seen)
  unfolding keep
  keep-store id object r = forget_oldest-store _ _
