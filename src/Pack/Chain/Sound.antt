-- ===== src/Pack/Chain/Sound.antt =====
-- What is read at an offset stands there, and the cache stays right.
use webgit.Base.{
  ℕ, zero, suc, ◌≡◌, refl, sym, ◌∙◌, subst, arith, Bytes, List, [], ◌∷◌, Option, Option-cases, none,
  some, inl, inr, ok, length,
}
use webgit.Base.{Given, Given-bind, Given-ok, Given-stuck, Given-value}
use webgit.Object.{ObjectType}
use webgit.Fs.Lru.{insert}
use webgit.Fs.Lru.Values.{Values-insert}
use webgit.Pack.{ObjectResult, PackObjectError}
use webgit.Pack.Header.{PackObjectType, base, offset_delta, ref_delta}
use webgit.Pack.Delta.{apply_delta}
use webgit.Pack.Chain.{
  Zlib, PackObject, CachedBase, IndexedPackFile, ChainBase, stored, cached, base_type, key, Bases,
  Chain, read_pack_object_header, read_pack_object_body, cached_base, keep_base, next_offset, go_on,
  follow, chain_loop, form_deltified_chain, rebuild_loop, base_body,
  reconstruct_deltified_object_from_chain, read_object,
}
use webgit.Pack.Chain.Stands.{made, IsObject, header_offset}
use webgit.Pack.Chain.Whole.{IsBase, IsRight, cached_base-IsRight, cached_base-IsObject}

module _ {Z : Type 0} (zlib : Zlib Z) (rounds : ℕ) (p : IndexedPackFile) where
  -- Each object of the chain is a delta against what stands where the one behind it does.
  abbrev Waits : List PackObject → ℕ → ℕ → Type 0
  Waits [] at start = at ≡ start
  Waits (object ∷ chain) at start =
      (offset : ℕ) × (kind : PackObjectType) × (read_pack_object_header p.pack_file offset
        ≡ ok (kind, object))
      × (next_offset p offset kind ≡ ok (some at))
      × Waits chain offset start

  abbrev From : ChainBase → ℕ → Type 0
  From (stored object_type object) at =
      read_pack_object_header p.pack_file at ≡ ok (base object_type, object)
  From (cached object_type body) at = IsObject zlib rounds p at (made object_type body)

  abbrev Leads : ℕ → Chain → Type 0
  Leads start c = IsRight zlib rounds p c.0 × (at : ℕ) × Waits c.1 at start × From c.2 at

  module _ (start : ℕ) (next : ℕ → List PackObject → ObjectResult Chain) (bases : Bases)
      (offset : ℕ) (chain : List PackObject) (object : PackObject)
      (right : IsRight zlib rounds p bases) (waits : Waits chain offset start)
      (rest : (at : ℕ) (c : List PackObject)
        → Waits c at start
        → Given (Leads start) (next at c)) where
    step-Leads :
        (kind : PackObjectType) (at : Option ℕ)
        → read_pack_object_header p.pack_file offset ≡ ok (kind, object)
        → next_offset p offset kind ≡ ok at
        → Given (Leads start) (go_on next object chain at)
    unfolding go_on
    step-Leads kind none head e = Given-stuck PackObjectError (Leads start)
    step-Leads kind (some at) head e = rest at (object ∷ chain) (offset, kind, head, e, waits)

    follow-Leads :
        (kind : PackObjectType)
        → read_pack_object_header p.pack_file offset ≡ ok (kind, object)
        → Given (Leads start) (follow next p bases offset chain kind object)
    unfolding follow
    follow-Leads (base object_type) head =
        Given-ok PackObjectError (Leads start) {a = (bases, chain, stored object_type object)}
          (right, offset, waits, head)
    follow-Leads (offset_delta d) head =
        Given-bind (Leads start) (next_offset p offset (offset_delta d)) _
          (λ at e. step-Leads (offset_delta d) at head e)
    follow-Leads (ref_delta id) head =
        Given-bind (Leads start) (next_offset p offset (ref_delta id)) _
          (λ at e. step-Leads (ref_delta id) at head e)

  chain_loop-Leads :
      (fuel offset start : ℕ) (bases : Bases) (chain : List PackObject)
      → IsRight zlib rounds p bases
      → Waits chain offset start
      → Given (Leads start) (chain_loop fuel p bases offset chain)
  unfolding chain_loop
  chain_loop-Leads zero offset start bases chain right waits =
      Given-stuck PackObjectError (Leads start)
  chain_loop-Leads (suc fuel) offset start bases chain right waits =
      let bases' = (cached_base p bases offset).1 in
      let right' = cached_base-IsRight zlib rounds p bases offset right in
      elim (Option-cases (cached_base p bases offset).0) [
        | inl e ↦
            rw (chain_loop, e)
              (Given-bind (Leads start) (read_pack_object_header p.pack_file offset) _ (λ h head.
                follow-Leads start (chain_loop fuel p bases') bases' offset chain h.1 right' waits
                  (λ at c w. chain_loop-Leads fuel at start bases' c right' w) h.0 head))
        | inr (hit, e) ↦
            rw (chain_loop, e)
              (Given-ok PackObjectError (Leads start)
                {a = (bases', chain, cached hit.object_type hit.body)}
                (
                  right',
                  offset,
                  waits,
                  cached_base-IsObject zlib rounds p bases offset hit right e,
                ))
      ]

  -- Where the body that is to be kept stands, if that is known.
  abbrev IsAt : Option ℕ → ℕ → Type 0
  IsAt place at = (o : ℕ) → place ≡ some o → o ≡ at

  keep_base-IsRight :
      (bases : Bases) (place : Option ℕ) (at : ℕ) (object_type : ObjectType) (body : Bytes)
      → IsRight zlib rounds p bases
      → IsAt place at
      → IsObject zlib rounds p at (made object_type body)
      → IsRight zlib rounds p (keep_base p bases place object_type body)
  unfolding keep_base
  keep_base-IsRight bases none at object_type body right known s = right
  keep_base-IsRight bases (some o) at object_type body right known s =
      let kept : Bases → Bases = λ b. b in
      elim (Option-cases p.delta_bases) [
        | inl e ↦ subst (IsRight zlib rounds p) (sym (keep_none o e)) right
        | inr (number, e) ↦ subst (IsRight zlib rounds p) (sym (keep_some o number e)) (
            Values-insert (IsBase zlib rounds p) bases (key number o) (made object_type body)
              (length body) right
              (λ number' offset' e' k.
                let same : ◌≡◌ {A = Option ℕ} (some number) (some number') = sym e ∙ e' in
                let n : number ≡ number' = cc in
                let q : at ≡ offset' = omega (arith, known o refl) in
                subst (λ (x : ℕ). IsObject zlib rounds p x (made object_type body)) q s))
      ]
    where
      keep_none :
          (o : ℕ) → p.delta_bases ≡ none → keep_base p bases (some o) object_type body ≡ bases
      keep_none o e = rw (keep_base, e) refl

      keep_some :
          (o number : ℕ)
          → p.delta_bases ≡ some number
          → keep_base p bases (some o) object_type body
            ≡ insert bases (key number o) (made object_type body) (length body)
      keep_some o number e = rw (keep_base, e) refl

  abbrev Rebuilt : ℕ → ObjectType → Bases × Bytes → Type 0
  Rebuilt start object_type x =
      IsRight zlib rounds p x.0 × IsObject zlib rounds p start (made object_type x.1)

  rebuild_loop-Rebuilt :
      (chain : List PackObject) (bases : Bases) (object_type : ObjectType) (place : Option ℕ)
      (body : Bytes) (at start : ℕ)
      → IsRight zlib rounds p bases
      → IsAt place at
      → IsObject zlib rounds p at (made object_type body)
      → Waits chain at start
      → Given
          (Rebuilt start object_type)
          (rebuild_loop zlib rounds p bases object_type chain place body)
  unfolding rebuild_loop
  rebuild_loop-Rebuilt [] bases object_type place body at start right known s waits =
      Given-ok PackObjectError (Rebuilt start object_type) {a = (bases, body)}
        (right, subst (λ (x : ℕ). IsObject zlib rounds p x (made object_type body)) waits s)
  rebuild_loop-Rebuilt (object ∷ chain) bases object_type place body at start right known s
        (offset, kind, head, step, waits) =
      Given-bind (Rebuilt start object_type) (read_pack_object_body zlib rounds p.pack_file object)
        _
        λ delta e1. Given-bind (Rebuilt start object_type) (apply_delta delta body) _ λ rebuilt e2.
          rebuild_loop-Rebuilt chain (keep_base p bases place object_type body) object_type
            (some object.offset) rebuilt offset start
            (keep_base-IsRight bases place at object_type body right known s)
            (λ o e.
              let q : object.offset ≡ o = cc in
              sym q ∙ header_offset p.pack_file offset kind object head)
            (suc s.0, (object, kind, at, body, delta, head, step, e1, s.1, e2)) waits

  abbrev IsBody : ObjectType → ℕ → Option ℕ × Bytes → Type 0
  IsBody object_type at x = IsAt x.0 at × IsObject zlib rounds p at (made object_type x.1)

  base_body-IsBody :
      (from : ChainBase) (at : ℕ)
      → From from at
      → Given (IsBody (base_type from) at) (base_body zlib rounds p from)
  unfolding base_body
  base_body-IsBody (stored object_type object) at head =
      Given-bind (IsBody object_type at) (read_pack_object_body zlib rounds p.pack_file object) _
        λ body e.
          Given-ok PackObjectError (IsBody object_type at) {a = (some object.offset, body)} (
            λ o q.
                (let k : object.offset ≡ o = cc in
                  sym k ∙ header_offset p.pack_file at (base object_type) object head),
            (zero, (object, head, e)),
          )
  base_body-IsBody (cached object_type body) at s =
      Given-ok PackObjectError (IsBody object_type at) {a = (none, body)} (λ o q. absurd (cc), s)

  abbrev Read : ℕ → Bases × CachedBase → Type 0
  Read offset x = IsRight zlib rounds p x.0 × IsObject zlib rounds p offset x.1

  -- What is read at an offset is the object that stands there, and what it leaves in the cache is
  -- right if what was there was.
  pub read_object-IsObject :
      (fuel offset : ℕ) (bases bases' : Bases) (v : CachedBase)
      → IsRight zlib rounds p bases
      → read_object zlib rounds fuel p bases offset ≡ ok (bases', v)
      → IsRight zlib rounds p bases' × IsObject zlib rounds p offset v
  unfolding read_object form_deltified_chain reconstruct_deltified_object_from_chain
  read_object-IsObject fuel offset bases bases' v right e =
      Given-value (Read offset)
        (Given-bind (Read offset) (chain_loop fuel p bases offset []) _ λ c found.
          let (right1, at, waits, from) =
            Given-value (Leads offset) (chain_loop-Leads fuel offset offset bases [] right refl)
              found in
          Given-bind (Read offset)
            (reconstruct_deltified_object_from_chain zlib rounds p c.0 c.1 c.2) _
            λ x rebuilt.
              Given-ok PackObjectError (Read offset) {a = (x.0, made (base_type c.2) x.1)} (
                Given-value (Rebuilt offset (base_type c.2))
                  (Given-bind (Rebuilt offset (base_type c.2)) (base_body zlib rounds p c.2) _
                    λ b first.
                      let (known, s) =
                        Given-value (IsBody (base_type c.2) at) (base_body-IsBody c.2 at from)
                          first in
                      rebuild_loop-Rebuilt c.1 c.0 (base_type c.2) b.0 b.1 at offset right1 known s
                        waits)
                  rebuilt))
        e
