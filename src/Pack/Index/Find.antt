-- ===== src/Pack/Index/Find.antt =====
-- Looking a name up in a pack's index.
use webgit.Base.{
  ℕ, zero, suc, ◌-◌, ◌≤◌, ◌<◌, arith, ◌≡◌, ◌≢◌, sym, refl, ap, Bool, true, false, ◌↔◌,
}
use webgit.Base.{
  Bool-cases, inl, inr, ltb, ltb→lt, not_ltb→le, ◌==◌, if◌then◌else◌, ok, ◌>>=◌, get_or, IsByte,
  All,
}
use mathlib.Core.Path.{subst}
use webgit.Base.{Bytes, [], ◌∷◌}
use webgit.Base.{Option, none, some}
use webgit.Fs.{File}
use webgit.Hash.{ObjectId, IsId, cmp_bytes, eq_id}
use webgit.Hash.Order.{cmp_bytes_trans, cmp_bytes_refl}
use webgit.Hash.Resolution.{eq_id→eq, eq_id_refl}
use webgit.Pack.{PackResult}
use webgit.Pack.Index.{FanoutTable, entry, fanout_bucket, find_object_idx, is_lt, read_object_id}
use webgit.Pack.Index.Probe.{Reads, IsMonotone, Partition, partition_bucket-Partition}
use native.Mathlib.Decide.{dec_lt}
use Prim.Native.Nat.{Ordering}

-- An index as git writes it: sorted names, and for each byte how many of them start with at most
-- that byte.
pub record IsIndex (f : FanoutTable) (file : File) (entries : ℕ → ObjectId) (total : ℕ)
    : Type 0 where
  pub reads : Reads file entries 0 total
  pub ids : (i : ℕ) → i < total → IsId (entries i)
  pub sorted :
      (i j : ℕ) → i < j → j < total → cmp_bytes (entries i).bytes (entries j).bytes ≡ Ordering.lt
  pub counts : (b : ℕ) → IsByte b → entry f b ≤ total
  pub below :
      (b i : ℕ) → IsByte b → i < total → (i < entry f b) ↔ (get_or (entries i).bytes 0 0 ≤ b)

pub get_or-IsByte : (bs : Bytes) (i : ℕ) → All IsByte bs → IsByte (get_or bs i 0)
get_or-IsByte [] i h = omega arith
get_or-IsByte (b ∷ bs) zero h = h.0
get_or-IsByte (b ∷ bs) (suc i) h = get_or-IsByte bs i h.1

module _ (f : FanoutTable) (file : File) (entries : ℕ → ObjectId) (total : ℕ) where
  entry_mono : (b : ℕ) → IsByte (suc b) → IsIndex f file entries total → entry f b ≤ entry f (suc b)
  entry_mono b h x = elim (dec_lt (entry f (suc b)) (entry f b)) [
    | no n ↦ omega arith
    | yes l ↦
        (let i = entry f (suc b) in
          let bound : i < total = omega (arith, x.counts b (omega arith)) in
          let (low, _) = x.below b i (omega arith) bound in
          let (_, back) = x.below (suc b) i h bound in
          let at_most = low l in let less = back (omega arith) in absurd (omega arith))
  ]

  fanout_bucket-suc : (b : ℕ) → fanout_bucket f (suc b) ≡ (entry f b, entry f (suc b))
  unfolding fanout_bucket
  fanout_bucket-suc b =
      let e : (suc b == 0) ≡ false = ground arith in
      let m : suc b - 1 ≡ b = omega arith in rw (e, m) refl

  -- A bucket holds exactly the names that start with its byte.
  abbrev IsBucket : ℕ → ℕ × ℕ → Type 0
  IsBucket b r =
      (r.0 ≤ r.1)
      × (r.1 ≤ total)
      × ((i : ℕ) → i < total → ((r.0 ≤ i) × (i < r.1)) ↔ (get_or (entries i).bytes 0 0 ≡ b))

  pub fanout_bucket-IsBucket :
      (b : ℕ) → IsByte b → IsIndex f file entries total → IsBucket b (fanout_bucket f b)
  unfolding fanout_bucket
  fanout_bucket-IsBucket zero h x =
      (omega arith, x.counts zero h, λ i hi. ground (arith, x.below zero i h hi))
  fanout_bucket-IsBucket (suc b) h x = subst (IsBucket (suc b)) (sym (fanout_bucket-suc b)) (
    entry_mono b h x,
    x.counts (suc b) h,
    λ i hi. ground (arith, x.below (suc b) i h hi, x.below b i (omega arith) hi),
  )

  abbrev pub before : ObjectId → ObjectId → Bool
  before id entry = is_lt (cmp_bytes entry.bytes id.bytes)

  pub before-IsMonotone :
      (id : ObjectId) (lower upper : ℕ)
      → upper ≤ total
      → IsIndex f file entries total
      → IsMonotone (before id) entries lower upper
  unfolding is_lt
  before-IsMonotone id lower upper h x i j hi hij hj t =
      let e = x.sorted i j hij (omega arith) in
      ground (arith, cmp_bytes_trans (entries i).bytes (entries j).bytes id.bytes)

  -- Only the partition point can hold the name.
  at_point :
      (id : ObjectId) (lower upper k i : ℕ)
      → upper ≤ total
      → IsIndex f file entries total
      → Partition (before id) entries lower upper k
      → lower ≤ i
      → i < upper
      → entries i ≡ id
      → i ≡ k
  unfolding is_lt
  at_point id lower upper k i h x p hi hu e = elim (dec_lt i k) [
    | yes l ↦
        (let t = p.below i hi l in
          let s = cmp_bytes_refl id.bytes in
          let e' = ap (λ (y : ObjectId). cmp_bytes y.bytes id.bytes) e in ground arith)
    | no n ↦ elim (dec_lt k i) [
      | no m ↦ omega arith
      | yes g ↦
          (let t = p.above k (omega arith) (omega arith) in
            let s = x.sorted k i g (omega arith) in
            let e' = ap (λ (y : ObjectId). cmp_bytes (entries k).bytes y.bytes) e in ground arith)
    ]
  ]

  -- Where a name stands in the index, or that it stands nowhere.
  abbrev pub Locates : ObjectId → Option ℕ → Type 0
  Locates id none = (i : ℕ) → i < total → entries i ≢ id
  Locates id (some i) = (i < total) × (entries i ≡ id)

  -- The step behind the search: one entry is read, and is the name or is not.
  check_entry : ℕ → ℕ → ObjectId → PackResult (Option ℕ)
  check_entry i upper id =
      if ltb i upper
      then (read_object_id file i >>= λ e. ok (if eq_id e id then some i else none))
      else ok none

  check_entry-Locates :
      (id : ObjectId) (lower upper k : ℕ)
      → upper ≤ total
      → IsIndex f file entries total
      → Partition (before id) entries lower upper k
      → ((i : ℕ) → i < total → entries i ≡ id → (lower ≤ i) × (i < upper))
      → (r : Option ℕ) × (check_entry k upper id ≡ ok r) × Locates id r
  unfolding check_entry
  check_entry-Locates id lower upper k h x p within =
      let only : (i : ℕ) → i < total → entries i ≡ id → i ≡ k =
        λ i hi e. let (w, w') = within i hi e in at_point id lower upper k i h x p w w' e in
      elim (Bool-cases (ltb k upper)) [
        | inr e ↦ (
          none,
          rw e refl,
          λ i hi q.
              let (w, w') = within i hi q in
              let o = only i hi q in let n = not_ltb→le _ _ e in absurd (omega arith),
        )
        | inl e ↦
            (let l = ltb→lt _ _ e in
              let read = x.reads k (omega arith) (omega arith) in
              elim (Bool-cases (eq_id (entries k) id)) [
                | inl t ↦ (some k, rw (e, read, t) refl, (omega arith, eq_id→eq _ _ t))
                | inr n ↦ (
                  none,
                  rw (e, read, n) refl,
                  λ i hi q.
                      let o = only i hi q in
                      let s : eq_id (entries k) id ≡ true = rw (sym o, q) (eq_id_refl id) in cc,
                )
              ])
      ]

  -- A lookup in a well-formed index comes back, with the place of the name if the index has it and
  -- with nothing if it does not.
  pub find_object_idx-Locates :
      (id : ObjectId)
      → IsId id
      → IsIndex f file entries total
      → (r : Option ℕ) × (find_object_idx f file id ≡ ok r) × Locates id r
  unfolding find_object_idx check_entry
  find_object_idx-Locates id hid x =
      let b = get_or id.bytes 0 0 in
      let (h1, h2, h3) = fanout_bucket-IsBucket b (get_or-IsByte id.bytes 0 hid.1) x in
      let (k, run, p) =
        partition_bucket-Partition file entries (before id) (fanout_bucket f b).0
          (fanout_bucket f b).1 id h1 (λ i hi hu. x.reads i (omega arith) (omega arith))
          (before-IsMonotone id _ _ h2 x) in
      rw run (
        check_entry-Locates id _ _ k h2 x p
          λ i hi e. let (_, back) = h3 i hi in back (ap (λ (y : ObjectId). get_or y.bytes 0 0) e))
