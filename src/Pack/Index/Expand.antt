-- ===== src/Pack/Index/Expand.antt =====
-- Expanding an abbreviated name in a pack's index.
use webgit.Base.{
  ℕ, zero, suc, ◌+◌, ◌≤◌, ◌<◌, ◌/◌, arith, ◌≡◌, ◌≢◌, ap, refl, Bool, true, false, Bytes, [], ◌∷◌,
  length, take,
}
use webgit.Base.{Bool-cases, inl, inr, ltb, ltb→lt, not_ltb→le, if◌then◌else◌, ok, ◌>>=◌, get_or}
use webgit.Fs.{File}
use webgit.Hash.{
  ObjectId, ObjectIdPrefix, IsId, cmp_bytes, compare, matches, first, last, first_byte,
  PrefixResolution, not_found, found, ambiguous,
}
use webgit.Hash.Order.{cmp_bytes_trans, cmp_bytes-eq}
use webgit.Hash.Prefix.{IsPrefix, compare-place}
use webgit.Pack.{PackResult}
use webgit.Pack.Index.{
  FanoutTable, fanout_bucket, find_prefix_in_pack_index, settle, is_lt, read_object_id,
}
use webgit.Pack.Index.Probe.{IsMonotone, Partition, partition_bucket-Partition}
use webgit.Pack.Index.Find.{IsIndex, fanout_bucket-IsBucket, get_or-IsByte}
use native.Mathlib.Decide.{dec_lt}
use Prim.Native.Nat.{Ordering}

take-first_byte :
    (k : ℕ) (is ps : Bytes)
    → 0 < k
    → length is ≡ length ps
    → take k is ≡ take k ps
    → get_or is 0 0 ≡ get_or ps 0 0
take-first_byte zero is ps hk h e = absurd (omega arith)
take-first_byte (suc k) [] [] hk h e = refl
take-first_byte (suc k) [] (p ∷ ps) hk h e = absurd (omega arith)
take-first_byte (suc k) (i ∷ is) [] hk h e = absurd (omega arith)
take-first_byte (suc k) (i ∷ is) (p ∷ ps) hk h e = ap (λ (y : Bytes). get_or y 0 0) e

-- A name that matches starts with the abbreviation's first byte.
matches-first_byte :
    (p : ObjectIdPrefix) (id : ObjectId)
    → IsPrefix p
    → IsId id
    → 4 ≤ p.nibbles
    → matches p id ≡ true
    → get_or id.bytes 0 0 ≡ first_byte p
unfolding matches compare first_byte
matches-first_byte p id hp hid h m =
    take-first_byte (p.nibbles / 2) id.bytes p.bytes (omega arith) (omega (arith, hp.size, hid.0))
      (cmp_bytes-eq _ _ (ground arith))

-- Names below one that sorts before the abbreviation do too.
compare-less :
    (p : ObjectIdPrefix) (a b : ObjectId)
    → IsPrefix p
    → IsId a
    → IsId b
    → cmp_bytes a.bytes b.bytes ≡ Ordering.lt
    → compare p b ≡ Ordering.lt
    → compare p a ≡ Ordering.lt
compare-less p a b hp ha hb less e = ground (
  arith,
  compare-place p a hp ha,
  compare-place p b hp hb,
  cmp_bytes_trans a.bytes b.bytes (first p).bytes,
)

-- Names between two that do not sort before the abbreviation, the upper of which matches, match.
matches_between :
    (p : ObjectIdPrefix) (a b : ObjectId)
    → IsPrefix p
    → IsId a
    → IsId b
    → cmp_bytes a.bytes b.bytes ≡ Ordering.lt
    → compare p a ≢ Ordering.lt
    → matches p b ≡ true
    → matches p a ≡ true
unfolding matches
matches_between p a b hp ha hb less not_less m = ground (
  arith,
  compare-place p a hp ha,
  compare-place p b hp hb,
  cmp_bytes_trans (last p).bytes a.bytes b.bytes,
)

module _ (f : FanoutTable) (file : File) (entries : ℕ → ObjectId) (total : ℕ) where
  -- What an abbreviation stands for in the index: no entry, the one entry that matches, or more
  -- than one.
  abbrev pub Expands : ObjectIdPrefix → PrefixResolution → Type 0
  Expands p not_found = (i : ℕ) → i < total → matches p (entries i) ≡ false
  Expands p (found id) =
      (i : ℕ) × (i < total)
      × (entries i ≡ id)
      × (matches p id ≡ true)
      × ((j : ℕ) → j < total → matches p (entries j) ≡ true → j ≡ i)
  Expands p ambiguous =
      (i : ℕ) × (j : ℕ) × (i < j)
      × (j < total)
      × (matches p (entries i) ≡ true)
      × (matches p (entries j) ≡ true)

  abbrev before : ObjectIdPrefix → ObjectId → Bool
  before p entry = is_lt (compare p entry)

  before-IsMonotone :
      (p : ObjectIdPrefix) (lower upper : ℕ)
      → IsPrefix p
      → upper ≤ total
      → IsIndex f file entries total
      → IsMonotone (before p) entries lower upper
  unfolding is_lt
  before-IsMonotone p lower upper hp h x i j hi hij hj t =
      let e = x.sorted i j hij (omega arith) in
      ground (
        arith,
        compare-less p (entries i) (entries j) hp (x.ids i (omega arith)) (x.ids j (omega arith)),
      )

  -- The first of an ascending pair matches if it is not below the abbreviation and the second
  -- matches.
  match_down :
      (p : ObjectIdPrefix) (i j : ℕ)
      → IsPrefix p
      → IsIndex f file entries total
      → i ≤ j
      → j < total
      → before p (entries i) ≡ false
      → matches p (entries j) ≡ true
      → matches p (entries i) ≡ true
  unfolding is_lt
  match_down p i j hp x hij hj n m = elim (dec_lt i j) [
    | no e ↦ (let q : i ≡ j = omega arith in rw (q, m) refl)
    | yes l ↦
        matches_between p (entries i) (entries j) hp (x.ids i (omega arith)) (x.ids j hj)
          (x.sorted i j l hj) (ground arith) m
  ]

  module _ (p : ObjectIdPrefix) (lower upper k : ℕ) (hp : IsPrefix p)
      (x : IsIndex f file entries total) (h : upper ≤ total)
      (part : Partition (before p) entries lower upper k)
      (within : (i : ℕ)
        → i < total
        → matches p (entries i) ≡ true
        → (lower ≤ i) × (i < upper)) where
    -- Every match stands at the partition point or behind it.
    not_before : (j : ℕ) → j < total → matches p (entries j) ≡ true → k ≤ j
    unfolding matches is_lt
    not_before j hj m =
        let (from, to) = within j hj m in
        elim (dec_lt j k) [
          | no n ↦ omega arith
          | yes l ↦ (let t = part.below j from l in ground arith)
        ]

    no_match : ((j : ℕ) → j < total → matches p (entries j) ≡ true → ⊥) → Expands p not_found
    no_match n i hi = elim (Bool-cases (matches p (entries i))) [
      | inl t ↦ absurd (n i hi t)
      | inr e ↦ e
    ]

    -- The entry behind a match is read, and settles whether there is another.
    settle-Expands :
        k < upper
        → matches p (entries k) ≡ true
        → (r : PrefixResolution) × (settle file p k upper (entries k) ≡ ok r) × Expands p r
    unfolding settle
    settle-Expands hk m = elim (Bool-cases (ltb (k + 1) upper)) [
      | inr e ↦ (
        found (entries k),
        rw e refl,
        (
          k,
          (omega arith),
          refl,
          m,
          λ j hj mj.
              let (from, to) = within j hj mj in
              let first = not_before j hj mj in let none_left = not_ltb→le _ _ e in omega arith,
        ),
      )
      | inl e ↦
          (let l = ltb→lt _ _ e in
            let read = x.reads (k + 1) (omega arith) (omega arith) in
            elim (Bool-cases (matches p (entries (k + 1)))) [
              | inl t ↦
                  (ambiguous, rw (e, read, t) refl, (k, k + 1, (omega arith), (omega arith), m, t))
              | inr n ↦ (
                found (entries k),
                rw (e, read, n) refl,
                (
                  k,
                  (omega arith),
                  refl,
                  m,
                  λ j hj mj. elim (dec_lt k j) [
                    | no same ↦ (let first = not_before j hj mj in omega arith)
                    | yes more ↦
                        (let above = part.above (k + 1) (omega arith) l in
                          let t = match_down p (k + 1) j hp x (omega arith) hj above mj in
                          absurd cc)
                  ],
                ),
              )
            ])
    ]

    -- The steps behind the search.
    check_candidate : PackResult PrefixResolution
    check_candidate =
        if ltb k upper
        then (read_object_id file k >>= λ candidate.
            if matches p candidate then settle file p k upper candidate else ok not_found)
        else ok not_found

    check_candidate-Expands : (r : PrefixResolution) × (check_candidate ≡ ok r) × Expands p r
    unfolding check_candidate
    check_candidate-Expands = elim (Bool-cases (ltb k upper)) [
      | inr e ↦ (
        not_found,
        rw e refl,
        no_match λ j hj mj.
            let (from, to) = within j hj mj in
            let first = not_before j hj mj in
            let none_left = not_ltb→le _ _ e in absurd (omega arith),
      )
      | inl e ↦
          (let l = ltb→lt _ _ e in
            let read = x.reads k (omega arith) (omega arith) in
            elim (Bool-cases (matches p (entries k))) [
              | inl t ↦ (let (r, run, s) = settle-Expands l t in (r, rw (e, read, t) run, s))
              | inr n ↦ (
                not_found,
                rw (e, read, n) refl,
                no_match λ j hj mj.
                    let first = not_before j hj mj in
                    let above = part.above k (omega arith) l in
                    let t = match_down p k j hp x first hj above mj in absurd cc,
              )
            ])
    ]

  -- Expanding an abbreviation of at least four digits in a well-formed index comes back: with
  -- nothing if no entry matches, with the entry if exactly one does, and as ambiguous if two do.
  pub find_prefix_in_pack_index-Expands :
      (p : ObjectIdPrefix)
      → IsPrefix p
      → 4 ≤ p.nibbles
      → IsIndex f file entries total
      → (r : PrefixResolution) × (find_prefix_in_pack_index f file p ≡ ok r) × Expands p r
  unfolding find_prefix_in_pack_index check_candidate first_byte
  find_prefix_in_pack_index-Expands p hp h x =
      let b = first_byte p in
      let (h1, h2, h3) =
        fanout_bucket-IsBucket f file entries total b (get_or-IsByte p.bytes 0 hp.bytes) x in
      let (k, run, part) =
        partition_bucket-Partition file entries (before p) (fanout_bucket f b).0
          (fanout_bucket f b).1 (first p) h1 (λ i hi hu. x.reads i (omega arith) (omega arith))
          (before-IsMonotone p _ _ hp h2 x) in
      rw run (
        check_candidate-Expands p _ _ k hp x h2 part λ i hi m.
          let (_, back) = h3 i hi in back (matches-first_byte p (entries i) hp (x.ids i hi) h m))
