-- ===== src/Odb/Resolve.antt =====
-- Expanding an abbreviated name over all packs.
use webgit.Base.{
  ℕ, ◌<◌, ◌≤◌, arith, ◌≡◌, ◌≢◌, ◌⊎◌, inl, inr, sym, ap, ◌∙◌, refl, true, false, List, [], ◌∷◌, All,
}
use webgit.Base.{ok, Bool-cases, if◌then◌else◌, if_true, if_false}
use webgit.Fs.{File, Directory}
use webgit.Hash.{
  ObjectId, ObjectIdPrefix, cmp_bytes, eq_id, matches, merge, PrefixResolution, not_found, found,
  ambiguous,
}
use webgit.Hash.Order.{cmp_bytes_refl}
use webgit.Hash.Prefix.{IsPrefix}
use webgit.Hash.Resolution.{eq_id→eq, eq_id_refl}
use webgit.Pack.Index.{find_prefix_in_pack_index, total_objects, read_object_id}
use webgit.Pack.Index.Find.{IsIndex}
use webgit.Pack.Index.Expand.{Expands, find_prefix_in_pack_index-Expands}
use webgit.Odb.{PackIndex, is_ambiguous, resolve_loop, resolve_prefix, from_pack, from_file_system}
use mathlib.Core.Path.{subst}

-- What an abbreviation stands for among the names that a predicate gives.
abbrev pub Stands : (ObjectId → Type 0) → ObjectIdPrefix → PrefixResolution → Type 0
Stands In p not_found = (id : ObjectId) → In id → matches p id ≡ false
Stands In p (found a) =
    In a × (matches p a ≡ true) × ((b : ObjectId) → In b → matches p b ≡ true → b ≡ a)
Stands In p ambiguous =
    (a : ObjectId) × (b : ObjectId) × In a
    × In b
    × (a ≢ b)
    × (matches p a ≡ true)
    × (matches p b ≡ true)

abbrev Either : (ObjectId → Type 0) → (ObjectId → Type 0) → ObjectId → Type 0
Either P Q id = P id ⊎ Q id

module _ (P Q : ObjectId → Type 0) (p : ObjectIdPrefix) where
  found-not_found :
      (a : ObjectId) → Stands P p (found a) → Stands Q p not_found → Stands (Either P Q) p (found a)
  found-not_found a (ina, m, only) none = (
    inl ina,
    m,
    λ b in_b mb. elim in_b [ inl l ↦ only b l mb | inr r ↦ (let q = none b r in absurd cc) ],
  )

  not_found-found :
      (a : ObjectId) → Stands P p not_found → Stands Q p (found a) → Stands (Either P Q) p (found a)
  not_found-found a none (ina, m, only) = (
    inr ina,
    m,
    λ b in_b mb. elim in_b [ inr r ↦ only b r mb | inl l ↦ (let q = none b l in absurd cc) ],
  )

  found-found :
      (a b : ObjectId)
      → Stands P p (found a)
      → Stands Q p (found b)
      → a ≡ b
      → Stands (Either P Q) p (found a)
  found-found a b (ina, m, only) (inb, mb, only_b) e =
      (inl ina, m, λ c in_c mc. elim in_c [ inl l ↦ only c l mc | inr r ↦ only_b c r mc ∙ sym e ])

  -- Merging what two sets of names stand for is what they stand for together.
  Stands-merge :
      (r s : PrefixResolution) → Stands P p r → Stands Q p s → Stands (Either P Q) p (merge r s)
  unfolding merge
  Stands-merge ambiguous s (a, b, ina, inb, ne, ma, mb) h = (a, b, inl ina, inl inb, ne, ma, mb)
  Stands-merge not_found ambiguous h (a, b, ina, inb, ne, ma, mb) =
      (a, b, inr ina, inr inb, ne, ma, mb)
  Stands-merge (found c) ambiguous h (a, b, ina, inb, ne, ma, mb) =
      (a, b, inr ina, inr inb, ne, ma, mb)
  Stands-merge not_found not_found h k = λ id in_id. elim in_id [ inl l ↦ h id l | inr r ↦ k id r ]
  Stands-merge not_found (found b) h k = not_found-found b h k
  Stands-merge (found a) not_found h k = found-not_found a h k
  Stands-merge (found a) (found b) h k = elim (Bool-cases (eq_id a b)) [
    | inl e ↦ rw e (found-found a b h k (eq_id→eq a b e))
    | inr n ↦ rw n (
      a,
      b,
      inl h.0,
      inr k.0,
      (λ e. (let t : eq_id a b ≡ true = rw e (eq_id_refl b) in cc)),
      h.1,
      k.1,
    )
  ]

Stands-iff :
    (P Q : ObjectId → Type 0) (p : ObjectIdPrefix) (r : PrefixResolution)
    → ((id : ObjectId) → P id → Q id)
    → ((id : ObjectId) → Q id → P id)
    → Stands P p r
    → Stands Q p r
Stands-iff P Q p not_found to from h = λ id q. h id (from id q)
Stands-iff P Q p (found a) to from (ina, m, only) = (to a ina, m, λ b q mb. only b (from b q) mb)
Stands-iff P Q p ambiguous to from (a, b, ina, inb, ne, ma, mb) =
    (a, b, to a ina, to b inb, ne, ma, mb)

-- More names leave an ambiguous abbreviation ambiguous.
Stands-more :
    (P Q : ObjectId → Type 0) (p : ObjectIdPrefix) (r : PrefixResolution)
    → is_ambiguous r ≡ true
    → ((id : ObjectId) → P id → Q id)
    → Stands P p r
    → Stands Q p r
unfolding is_ambiguous
Stands-more P Q p not_found e to h = cc
Stands-more P Q p (found a) e to h = cc
Stands-more P Q p ambiguous e to (a, b, ina, inb, ne, ma, mb) =
    (a, b, to a ina, to b inb, ne, ma, mb)

-- A name that stands in the index of a pack, as it is read from the pack's index file.
abbrev pub InPack : Directory → PackIndex → ObjectId → Type 0
InPack pack_dir index id =
    (file : File) × (i : ℕ) × (pack_dir.open_file index.name.index_filename ≡ ok file)
    × (i < total_objects index.fanout)
    × (read_object_id file i ≡ ok id)

-- A pack with a well-formed index.
abbrev pub IsPack : Directory → PackIndex → Type 0
IsPack pack_dir index =
    (file : File) × (entries : ℕ → ObjectId) × (pack_dir.open_file index.name.index_filename
      ≡ ok file)
    × IsIndex index.fanout file entries (total_objects index.fanout)

abbrev pub InPacks : Directory → List PackIndex → ObjectId → Type 0
InPacks pack_dir [] id = ⊥
InPacks pack_dir (index ∷ indexes) id = InPack pack_dir index id ⊎ InPacks pack_dir indexes id

module _ (pack_dir : Directory) (index : PackIndex) (file : File) (entries : ℕ → ObjectId)
    (opens : pack_dir.open_file index.name.index_filename ≡ ok file)
    (x : IsIndex index.fanout file entries (total_objects index.fanout)) where
  pub InPack-entry :
      (id : ObjectId)
      → InPack pack_dir index id
      → (i : ℕ) × (i < total_objects index.fanout) × (entries i ≡ id)
  InPack-entry id (file', i, opens', h, read) =
      let same : file' ≡ file = cc in
      let read' : read_object_id file i ≡ ok id = rw (sym same) read in
      let mine = x.reads i (omega arith) h in (i, h, cc)

  pub entry-InPack : (i : ℕ) → i < total_objects index.fanout → InPack pack_dir index (entries i)
  entry-InPack i h = (file, i, opens, h, x.reads i (omega arith) h)

  Stands-Expands :
      (p : ObjectIdPrefix) (r : PrefixResolution)
      → Expands index.fanout file entries (total_objects index.fanout) p r
      → Stands (InPack pack_dir index) p r
  Stands-Expands p not_found h = λ id in_id.
      let (i, hi, e) = InPack-entry id in_id in (let m = h i hi in ap (matches p) (sym e) ∙ m)
  Stands-Expands p (found a) (i, hi, e, m, only) = (
    subst (InPack pack_dir index) e (entry-InPack i hi),
    m,
    λ b in_b mb.
        let (j, hj, e') = InPack-entry b in_b in
        let same : j ≡ i = only j hj (ap (matches p) e' ∙ mb) in sym e' ∙ ap entries same ∙ e,
  )
  Stands-Expands p ambiguous (i, j, hij, hj, mi, mj) = (
    entries i,
    entries j,
    entry-InPack i (omega arith),
    entry-InPack j hj,
    (λ e.
        let less = x.sorted i j hij hj in
        let same = cmp_bytes_refl (entries j).bytes in
        let e' = ap (λ (y : ObjectId). cmp_bytes y.bytes (entries j).bytes) e in cc),
    mi,
    mj,
  )

-- The loop from a pack on, when `seen` are the names of the packs before.
abbrev LoopStands :
    Directory → ObjectIdPrefix → (ObjectId → Type 0) → PrefixResolution → List PackIndex → Type 0
LoopStands pack_dir p seen resolution indexes =
    (r : PrefixResolution) × (resolve_loop pack_dir p resolution indexes ≡ ok r)
    × Stands (Either seen (InPacks pack_dir indexes)) p r

resolve_loop-step :
    (pack_dir : Directory) (p : ObjectIdPrefix) (resolution other : PrefixResolution)
    (index : PackIndex) (indexes : List PackIndex) (file : File)
    → pack_dir.open_file index.name.index_filename ≡ ok file
    → find_prefix_in_pack_index index.fanout file p ≡ ok other
    → resolve_loop pack_dir p resolution (index ∷ indexes) ≡ (
        if is_ambiguous (merge resolution other)
        then ok (merge resolution other)
        else resolve_loop pack_dir p (merge resolution other) indexes)
unfolding resolve_loop from_pack from_file_system
resolve_loop-step pack_dir p resolution other index indexes file opens finds =
    rw (opens, finds) refl

resolve_loop-Stands :
    (pack_dir : Directory) (p : ObjectIdPrefix) (seen : ObjectId → Type 0)
    (resolution : PrefixResolution) (indexes : List PackIndex)
    → IsPrefix p
    → 4 ≤ p.nibbles
    → All (IsPack pack_dir) indexes
    → Stands seen p resolution
    → LoopStands pack_dir p seen resolution indexes
unfolding resolve_loop
resolve_loop-Stands pack_dir p seen resolution [] hp h all s = (
  resolution,
  refl,
  Stands-iff seen _ p resolution (λ id q. inl q) (λ id q. elim q [ inl l ↦ l | inr r ↦ absurd r ])
      s,
)
resolve_loop-Stands pack_dir p seen resolution (index ∷ indexes) hp h
      ((file, entries, opens, x), all) s =
    let (other, finds, expands) =
      find_prefix_in_pack_index-Expands index.fanout file entries (total_objects index.fanout) p hp
        h x in
    let here = Stands-Expands pack_dir index file entries opens x p other expands in
    let both = Stands-merge seen (InPack pack_dir index) p resolution other s here in
    elim (Bool-cases (is_ambiguous (merge resolution other))) [
      | inl e ↦ (
        merge resolution other,
        resolve_loop-step pack_dir p resolution other index indexes file opens finds
            ∙ if_true _ _ _ e,
        Stands-more _ _ p (merge resolution other) e
            (λ id q. elim q [ inl l ↦ inl l | inr r ↦ inr (inl r) ]) both,
      )
      | inr e ↦
          (let (r, run, rest) =
              resolve_loop-Stands pack_dir p (Either seen (InPack pack_dir index))
                (merge resolution other) indexes hp h all both in
            (
              r,
              resolve_loop-step pack_dir p resolution other index indexes file opens finds
                  ∙ (if_false _ _ _ e ∙ run),
              Stands-iff _ _ p r
                  (λ id q. elim q [
                    | inl l ↦ elim l [ inl a ↦ inl a | inr b ↦ inr (inl b) ]
                    | inr r' ↦ inr (inr r')
                  ])
                  (λ id q. elim q [
                    | inl l ↦ inl (inl l)
                    | inr r' ↦ elim r' [ inl a ↦ inl (inr a) | inr b ↦ inr b ]
                  ])
                  rest,
            ))
    ]

-- Over packs with well-formed indexes, an abbreviation of at least four digits expands: to nothing
-- if no name in any pack matches, to the name if exactly one matches, however many packs hold it,
-- and to ambiguous if two names do. That the loop stops at the first ambiguity changes nothing.
pub resolve_prefix-Stands :
    (pack_dir : Directory) (indexes : List PackIndex) (p : ObjectIdPrefix)
    → IsPrefix p
    → 4 ≤ p.nibbles
    → All (IsPack pack_dir) indexes
    → (r : PrefixResolution) × (resolve_prefix pack_dir indexes p ≡ ok r)
      × Stands (InPacks pack_dir indexes) p r
unfolding resolve_prefix
resolve_prefix-Stands pack_dir indexes p hp h all =
    let (r, run, s) =
      resolve_loop-Stands pack_dir p (λ id. ⊥) not_found indexes hp h all (λ id q. absurd q) in
    (
      r,
      run,
      Stands-iff _ _ p r (λ id q. elim q [ inl l ↦ absurd l | inr r' ↦ r' ]) (λ id q. inr q) s,
    )
