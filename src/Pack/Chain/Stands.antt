-- ===== src/Pack/Chain/Stands.antt =====
-- What object stands at an offset of a pack, by the format alone: with no cache and no loop.
use webgit.Base.{
  ◌+◌, ◌%◌, ◌^◌, ℕ, zero, suc, ◌≡◌, sym, ap, ◌∙◌, subst, Bytes, some, ok, Bool-cases, inl, inr, leb,
  length, bind-eq_ok,
}
use webgit.Object.{ObjectType}
use webgit.Fs.{File, or_err}
use webgit.Pack.{ObjectResult, pack, file_system}
use webgit.Pack.Header.{PackObjectType, base, parse_object_header}
use webgit.Pack.Delta.{apply_delta}
use webgit.Pack.Chain.{
  Zlib, PackObject, CachedBase, IndexedPackFile, read_pack_object_header, read_pack_object_body,
  next_offset, max_object_header_len,
}

abbrev pub made : ObjectType → Bytes → CachedBase
made object_type body = record { object_type = object_type; body = body }

CachedBase-eq : (v w : CachedBase) → v.object_type ≡ w.object_type → v.body ≡ w.body → v ≡ w
CachedBase-eq v w e f = λ i. record { object_type = e i; body = f i }

module _ {Z : Type 0} (zlib : Zlib Z) (rounds : ℕ) (p : IndexedPackFile) where
  -- With `n` deltas: a whole object, or a delta that rebuilds it from what stands where its header
  -- leads.
  abbrev pub Stands : ℕ → ℕ → CachedBase → Type 0
  Stands zero offset v =
      (object : PackObject) × (read_pack_object_header p.pack_file offset
        ≡ ok (base v.object_type, object))
      × (read_pack_object_body zlib rounds p.pack_file object ≡ ok v.body)
  Stands (suc n) offset v =
      (object : PackObject) × (kind : PackObjectType) × (at : ℕ) × (from : Bytes) × (delta : Bytes)
      × (read_pack_object_header p.pack_file offset ≡ ok (kind, object))
      × (next_offset p offset kind ≡ ok (some at))
      × (read_pack_object_body zlib rounds p.pack_file object ≡ ok delta)
      × Stands n at (made v.object_type from)
      × (apply_delta delta from ≡ ok v.body)

  abbrev pub IsObject : ℕ → CachedBase → Type 0
  IsObject offset v = (n : ℕ) × Stands n offset v

  pub whole_has_no_next :
      (offset at : ℕ) (object_type : ObjectType)
      → next_offset p offset (base object_type) ≡ ok (some at)
      → ⊥
  unfolding next_offset
  whole_has_no_next offset at object_type e = cc

  whole_or_delta :
      (m offset : ℕ) (v w : CachedBase) → Stands zero offset v → Stands (suc m) offset w → ⊥
  whole_or_delta m offset v w (o, h, b) (o', kind, at, from, delta, h', step, d, s, made') =
      let same : ◌≡◌ {A = ObjectResult (PackObjectType × PackObject)} (ok (base v.object_type, o))
          (ok (kind, o')) =
        sym h ∙ h' in
      let k : kind ≡ base v.object_type = cc in
      whole_has_no_next offset at v.object_type
        (subst (λ (x : PackObjectType). next_offset p offset x ≡ ok (some at)) k step)

  -- At most one object stands at an offset.
  pub Stands-unique :
      (n m offset : ℕ) (v w : CachedBase) → Stands n offset v → Stands m offset w → v ≡ w
  Stands-unique zero zero offset v w (o, h, b) (o', h', b') =
      let same : ◌≡◌ {A = ObjectResult (PackObjectType × PackObject)} (ok (base v.object_type, o))
          (ok (base w.object_type, o')) =
        sym h ∙ h' in
      let t : v.object_type ≡ w.object_type = cc in
      let k : o ≡ o' = cc in let q : v.body ≡ w.body = cc in CachedBase-eq v w t q
  Stands-unique zero (suc m) offset v w a b = absurd (whole_or_delta m offset v w a b)
  Stands-unique (suc n) zero offset v w a b = absurd (whole_or_delta n offset w v b a)
  Stands-unique (suc n) (suc m) offset v w (o, kind, at, from, delta, h, step, d, s, body)
        (o', kind', at', from', delta', h', step', d', s', body') =
      let same : ◌≡◌ {A = ObjectResult (PackObjectType × PackObject)} (ok (kind, o))
          (ok (kind', o')) =
        sym h ∙ h' in
      let k : kind ≡ kind' = cc in
      let q : o ≡ o' = cc in
      let a : at ≡ at' = cc in
      let s2 : Stands m at (made w.object_type from') =
        subst (λ (x : ℕ). Stands m x (made w.object_type from')) (sym a) s' in
      let u = Stands-unique n m at (made v.object_type from) (made w.object_type from') s s2 in
      let t : v.object_type ≡ w.object_type = ap (λ (c : CachedBase). c.object_type) u in
      let f : from ≡ from' = ap (λ (c : CachedBase). c.body) u in
      let e : delta ≡ delta' = cc in let g : v.body ≡ w.body = cc in CachedBase-eq v w t g

-- A header's object is at the offset that it was read at.
pub header_offset :
    (pack_file : File) (offset : ℕ) (kind : PackObjectType) (object : PackObject)
    → read_pack_object_header pack_file offset ≡ ok (kind, object)
    → object.offset ≡ offset
unfolding read_pack_object_header
header_offset pack_file offset kind object e =
    let (buf, e1, e2) =
      bind-eq_ok (or_err (pack_file.read_segment offset max_object_header_len) (pack file_system)) _
        e in
    let (h, e3, e4) = bind-eq_ok (parse_object_header buf) _ e2 in
    elim (Bool-cases (leb (length buf) h.2)) [
      | inl t ↦ (let e5 = rw t at e4 in cc)
      | inr f ↦
          (let o : PackObject = record {
            offset = offset;
            body_offset = (offset + h.2) % 2 ^ 64;
            size = h.1;
          } in
            let e5 : ◌≡◌ {A = ObjectResult (PackObjectType × PackObject)} (ok (h.0, o))
                (ok (kind, object)) =
              rw f at e4 in
            let q : o ≡ object = cc in ap (λ (x : PackObject). x.offset) (sym q))
    ]
