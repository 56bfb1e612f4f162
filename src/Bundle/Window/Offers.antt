-- ===== src/Bundle/Window/Offers.antt =====
-- Every candidate of the window is an object that is in the pack, and every delta is against one.
use webgit.Base.{
  ℕ, ◌≡◌, refl, sym, Bytes, List, [], ◌∷◌, ◌++◌, length, All, All-append, Bool, true, false, not,
  ◌||◌, ◌&&◌, leb, ltb, ◌==◌, Bool-cases, Option-cases, inl, inr,
}
use webgit.Base.{Option, none, some, wrapping_sub, subst, ◌-◌, ◌/◌}
use webgit.Object.{ObjectType, commit, tag, blob, tree, RawObject}
use webgit.Bundle.Window.{
  Engine, max_depth, window_len, window_memory_bytes, Candidate, Delta, BaseIndex, build_index,
  budget, is_worse, offer, offer_built, try_candidate, best_delta, same_type, Window, drop_oldest,
  remember, unbuilt, unindexable, built,
}

same_type-eq : (a b : ObjectType) → same_type a b ≡ true → a ≡ b
unfolding same_type
same_type-eq commit commit e = refl
same_type-eq tag tag e = refl
same_type-eq blob blob e = refl
same_type-eq tree tree e = refl
same_type-eq commit tag e = cc
same_type-eq commit blob e = cc
same_type-eq commit tree e = cc
same_type-eq tag commit e = cc
same_type-eq tag blob e = cc
same_type-eq tag tree e = cc
same_type-eq blob commit e = cc
same_type-eq blob tag e = cc
same_type-eq blob tree e = cc
same_type-eq tree commit e = cc
same_type-eq tree tag e = cc
same_type-eq tree blob e = cc

-- `At offset object`: the pack has the object there.
module _ (engine : Engine) (At : ℕ → RawObject → Type 0) where
  abbrev pub object_in : Candidate → RawObject
  object_in c = record { object_type = c.object_type; body = c.body }

  abbrev pub IsPacked : Candidate → Type 0
  IsPacked c = At c.offset (object_in c)

  -- A delta that rebuilds the object from one of its type in the pack.
  abbrev pub Rebuilds : ObjectType → Bytes → Option Delta → Type 0
  Rebuilds object_type body none = Unit
  Rebuilds object_type body (some d) =
      (base : Bytes) × (limit : ℕ) × At d.base_offset
        (record { object_type = object_type; body = base })
      × (engine.delta base body limit ≡ some d.delta_data)

  offer-Rebuilds :
      (body : Bytes) (limit : ℕ) (c : Candidate) (best : Option Delta)
      → IsPacked c
      → Rebuilds c.object_type body best
      → Rebuilds c.object_type body (offer c (engine.delta c.body body limit) best)
  unfolding offer
  offer-Rebuilds body limit c best p h = elim (Option-cases (engine.delta c.body body limit)) [
    | inl e ↦ rw (offer, e) h
    | inr (made, e) ↦ elim (Bool-cases (is_worse made c.depth best)) [
      | inl w ↦ rw (offer, e, w) h
      | inr w ↦ rw (offer, e, w) (c.body, limit, p, e)
    ]
  ]

  offer_built-Rebuilds :
      (body : Bytes) (limit : ℕ) (c : Candidate) (best : Option Delta)
      → IsPacked c
      → Rebuilds c.object_type body best
      → Rebuilds c.object_type body (offer_built engine body limit c best)
  unfolding offer_built
  offer_built-Rebuilds body limit c best p h = go c.index
    where
      go :
          (index : BaseIndex)
          → Rebuilds c.object_type body (elim index [
            | built ↦ offer c (engine.delta c.body body limit) best
            | unbuilt ↦ best
            | unindexable ↦ best
          ])
      go unbuilt = h
      go unindexable = h
      go built = offer-Rebuilds body limit c best p h

  type_of_offer : (a b : ObjectType) (r : Bool) → (not (same_type a b) || r) ≡ false → a ≡ b
  type_of_offer a b r e = elim (Bool-cases (same_type a b)) [
    | inl t ↦ same_type-eq a b t
    | inr f ↦ (let e' = rw f at e in cc)
  ]

  try_candidate-Rebuilds :
      (object_type : ObjectType) (body : Bytes) (c : Candidate) (best : Option Delta)
      → IsPacked c
      → Rebuilds object_type body best
      → IsPacked (try_candidate engine object_type body c best).0
        × Rebuilds object_type body (try_candidate engine object_type body c best).1
  unfolding try_candidate build_index
  try_candidate-Rebuilds object_type body c best p h =
      let max_size : ℕ = budget (length body) best c.depth in
      elim (Bool-cases (not (same_type c.object_type object_type) || leb max_depth c.depth)) [
        | inl e ↦ rw (try_candidate, e) (p, h)
        | inr e ↦
            elim (Bool-cases (
              max_size == 0
              || leb max_size (length body - length c.body)
              || ltb (length body) (length c.body / 32))) [
                | inl f ↦ rw (try_candidate, e, f) (p, h)
                | inr f ↦
                    (let t = type_of_offer c.object_type object_type _ e in
                      rw (try_candidate, e, f)
                        (
                          p,
                          subst
                              (λ (k : ObjectType).
                                Rebuilds k body
                                  (offer_built engine body max_size (build_index engine c) best))
                              t
                              (offer_built-Rebuilds body max_size (build_index engine c) best p
                                (subst (λ (k : ObjectType). Rebuilds k body best) (sym t) h)),
                        ))
              ]
      ]

  pub best_delta-Rebuilds :
      (object_type : ObjectType) (body : Bytes) (window : List Candidate)
      → All IsPacked window
      → All IsPacked (best_delta engine object_type body window).0
        × Rebuilds object_type body (best_delta engine object_type body window).1
  unfolding best_delta
  best_delta-Rebuilds object_type body [] a = (tt, tt)
  best_delta-Rebuilds object_type body (c ∷ window) (p, a) =
      let (a', h) = best_delta-Rebuilds object_type body window a in
      let (p', h') = try_candidate-Rebuilds object_type body c _ p h in ((p', a'), h')

module _ (P : Candidate → Type 0) where
  drop_oldest-All :
      (window : List Candidate) (window_bytes : ℕ)
      → All P window
      → All P (drop_oldest window window_bytes).window
  unfolding drop_oldest
  drop_oldest-All [] n a = tt
  drop_oldest-All (c ∷ window) n (p, a) =
      elim (Bool-cases (
        ltb window_len (length (c ∷ window))
        || (ltb window_memory_bytes n && ltb 1 (length (c ∷ window))))) [
          | inl e ↦ rw (drop_oldest, e) (drop_oldest-All window (wrapping_sub n (length c.body)) a)
          | inr e ↦ rw (drop_oldest, e) (p, a)
        ]

  pub remember-All :
      (c : Candidate) (w : Window) → All P w.window → P c → All P (remember c w).window
  unfolding remember
  remember-All c w a p =
      drop_oldest-All (w.window ++ c ∷ []) _ (All-append P w.window (c ∷ []) a (p, tt))
