-- ===== src/Pack/Chain/Whole.antt =====
-- What stands at an offset is what is read, whatever the cache holds that is right.
use webgit.Base.{
  ℕ, zero, suc, ◌<◌, ◌≡◌, refl, sym, ap, ◌∙◌, subst, arith, Bytes, List, [], ◌∷◌, Option,
  Option-cases, none, some, inl, inr, ok,
}
use webgit.Object.{ObjectType}
use webgit.Fs.Lru.{get}
use webgit.Fs.Lru.Values.{Values, Values-get, get-Values}
use webgit.Pack.{ObjectResult}
use webgit.Pack.Header.{PackObjectType, base, offset_delta, ref_delta}
use webgit.Pack.Delta.{apply_delta}
use webgit.Pack.Chain.{
  Zlib, PackObject, CachedBase, IndexedPackFile, ChainBase, stored, cached, base_type, key, Bases,
  Chain, read_pack_object_body, cached_base, keep_base, next_offset, go_on, follow, chain_loop,
  form_deltified_chain, rebuild_loop, base_body, reconstruct_deltified_object_from_chain,
  read_object,
}
use webgit.Pack.Chain.Stands.{made, Stands, IsObject, Stands-unique, whole_has_no_next}

module _ {Z : Type 0} (zlib : Zlib Z) (rounds : ℕ) (p : IndexedPackFile) where
  abbrev pub IsBase : ℕ → CachedBase → Type 0
  IsBase k v =
      (number offset : ℕ)
      → p.delta_bases ≡ some number
      → k ≡ key number offset
      → IsObject zlib rounds p offset v

  -- Each body that the cache has for the pack is the object that stands at its offset.
  abbrev pub IsRight : Bases → Type 0
  IsRight bases = Values IsBase bases.entries

  cached_base-some :
      (bases : Bases) (offset number : ℕ)
      → p.delta_bases ≡ some number
      → cached_base p bases offset ≡ get bases (key number offset)
  unfolding cached_base
  cached_base-some bases offset number e = rw (cached_base, e) refl

  cached_base-none :
      (bases : Bases) (offset : ℕ)
      → p.delta_bases ≡ none
      → cached_base p bases offset ≡ (none, bases)
  unfolding cached_base
  cached_base-none bases offset e = rw (cached_base, e) refl

  pub cached_base-IsRight :
      (bases : Bases) (offset : ℕ) → IsRight bases → IsRight (cached_base p bases offset).1
  cached_base-IsRight bases offset h = elim (Option-cases p.delta_bases) [
    | inl e ↦
        subst (λ (x : Option CachedBase × Bases). IsRight x.1)
          (sym (cached_base-none bases offset e)) h
    | inr (number, e) ↦
        subst (λ (x : Option CachedBase × Bases). IsRight x.1)
          (sym (cached_base-some bases offset number e))
          (Values-get IsBase bases (key number offset) h)
  ]

  pub cached_base-IsObject :
      (bases : Bases) (offset : ℕ) (v : CachedBase)
      → IsRight bases
      → (cached_base p bases offset).0 ≡ some v
      → IsObject zlib rounds p offset v
  cached_base-IsObject bases offset v h e = elim (Option-cases p.delta_bases) [
    | inl q ↦
        (let n : ◌≡◌ {A = Option CachedBase} none (some v) =
            ap (λ (x : Option CachedBase × Bases). x.0) (sym (cached_base-none bases offset q))
            ∙ e in
          cc)
    | inr (number, q) ↦
        (let n : (get bases (key number offset)).0 ≡ some v =
            ap (λ (x : Option CachedBase × Bases). x.0)
              (sym (cached_base-some bases offset number q))
            ∙ e in
          get-Values IsBase bases (key number offset) v h n number offset q refl)
  ]

  -- From one body, the chain's deltas lead to another.
  abbrev Builds : List PackObject → Bytes → Bytes → Type 0
  Builds [] body out = body ≡ out
  Builds (object ∷ chain) body out =
      (delta : Bytes) × (rebuilt : Bytes) × (read_pack_object_body zlib rounds p.pack_file object
        ≡ ok delta)
      × (apply_delta delta body ≡ ok rebuilt)
      × Builds chain rebuilt out

  rebuild_loop-Builds :
      (chain : List PackObject) (bases : Bases) (object_type : ObjectType) (at : Option ℕ)
      (body out : Bytes)
      → Builds chain body out
      → (bases' : Bases) × (rebuild_loop zlib rounds p bases object_type chain at body
          ≡ ok (bases', out))
  unfolding rebuild_loop
  rebuild_loop-Builds [] bases object_type at body out e =
      (bases, ap (λ (b : Bytes). ok (bases, b)) e)
  rebuild_loop-Builds (object ∷ chain) bases object_type at body out
        (delta, rebuilt, d, made, rest) =
      let (bases', e) =
        rebuild_loop-Builds chain (keep_base p bases at object_type body) object_type
          (some object.offset) rebuilt out rest in
      (bases', rw (rebuild_loop, d, made) e)

  -- The loop has found a chain that leads to `out`.
  abbrev Found : ObjectResult Chain → ObjectType → Bytes → Type 0
  Found r object_type out =
      (bases : Bases) × (chain : List PackObject) × (from : ChainBase) × (at : Option ℕ)
      × (body : Bytes) × (r ≡ ok (bases, chain, from))
      × (base_type from ≡ object_type)
      × (base_body zlib rounds p from ≡ ok (at, body))
      × Builds chain body out

  follow-next :
      (next : ℕ → List PackObject → ObjectResult Chain) (bases : Bases) (offset at : ℕ)
      (chain : List PackObject) (kind : PackObjectType) (object : PackObject)
      → next_offset p offset kind ≡ ok (some at)
      → follow next p bases offset chain kind object ≡ next at (object ∷ chain)
  unfolding follow go_on
  follow-next next bases offset at chain (base t) object e =
      absurd (whole_has_no_next zlib rounds p offset at t e)
  follow-next next bases offset at chain (offset_delta d) object e = rw (follow, e) refl
  follow-next next bases offset at chain (ref_delta id) object e = rw (follow, e) refl

  Found_hit :
      (n fuel offset : ℕ) (v hit : CachedBase) (bases : Bases) (chain : List PackObject)
      (out : Bytes)
      → Stands zlib rounds p n offset v
      → IsRight bases
      → Builds chain v.body out
      → (cached_base p bases offset).0 ≡ some hit
      → Found (chain_loop (suc fuel) p bases offset chain) v.object_type out
  unfolding chain_loop base_body
  Found_hit n fuel offset v hit bases chain out s right b e =
      let (m, found) = cached_base-IsObject bases offset hit right e in
      let same = Stands-unique zlib rounds p m n offset hit v found s in
      (
        (cached_base p bases offset).1,
        chain,
        cached hit.object_type hit.body,
        none,
        hit.body,
        rw (chain_loop, e) refl,
        ap (λ (c : CachedBase). c.object_type) same,
        refl,
        subst (λ (c : CachedBase). Builds chain c.body out) (sym same) b,
      )

  chain_loop-Found :
      (n fuel offset : ℕ) (v : CachedBase) (bases : Bases) (chain : List PackObject) (out : Bytes)
      → Stands zlib rounds p n offset v
      → n < fuel
      → IsRight bases
      → Builds chain v.body out
      → Found (chain_loop fuel p bases offset chain) v.object_type out
  unfolding chain_loop follow base_body
  chain_loop-Found n zero offset v bases chain out s h right b = absurd (omega arith)
  chain_loop-Found zero (suc fuel) offset v bases chain out (object, head, body) h right b =
      elim (Option-cases (cached_base p bases offset).0) [
        | inl e ↦ (
          (cached_base p bases offset).1,
          chain,
          stored v.object_type object,
          some object.offset,
          v.body,
          rw (chain_loop, e, head) refl,
          refl,
          rw body refl,
          b,
        )
        | inr (hit, e) ↦
            Found_hit zero fuel offset v hit bases chain out (object, head, body) right b e
      ]
  chain_loop-Found (suc n) (suc fuel) offset v bases chain out
        (object, kind, at, from, delta, head, step, d, s, rebuilt) h right b =
      elim (Option-cases (cached_base p bases offset).0) [
        | inl e ↦
            (let bases' = (cached_base p bases offset).1 in
              let next : chain_loop (suc fuel) p bases offset chain
                  ≡ chain_loop fuel p bases' at (object ∷ chain) =
                rw (chain_loop, e, head)
                  (follow-next (chain_loop fuel p bases') bases' offset at chain kind object
                    step) in
              subst (λ (r : ObjectResult Chain). Found r v.object_type out) (sym next)
                (chain_loop-Found n fuel at (made v.object_type from) bases' (object ∷ chain) out s
                  (omega arith) (cached_base-IsRight bases offset right)
                  (delta, v.body, d, rebuilt, b)))
        | inr (hit, e) ↦
            Found_hit (suc n) fuel offset v hit bases chain out
              (object, kind, at, from, delta, head, step, d, s, rebuilt) right b e
      ]

  -- What stands at an offset is what is read there, in as many rounds as it has deltas and one more,
  -- whatever right bodies the cache holds.
  pub read_object-Stands :
      (n fuel offset : ℕ) (v : CachedBase) (bases : Bases)
      → Stands zlib rounds p n offset v
      → n < fuel
      → IsRight bases
      → (bases' : Bases) × (read_object zlib rounds fuel p bases offset ≡ ok (bases', v))
  unfolding read_object form_deltified_chain reconstruct_deltified_object_from_chain
  read_object-Stands n fuel offset v bases s h right =
      let (bases1, chain, from, at, body, found, type, first, b) =
        chain_loop-Found n fuel offset v bases [] v.body s h right refl in
      let (bases', rebuilt) = rebuild_loop-Builds chain bases1 (base_type from) at body v.body b in
      (
        bases',
        rw (found, first, rebuilt) (ap (λ (t : ObjectType). ok (bases', made t v.body)) type),
      )
