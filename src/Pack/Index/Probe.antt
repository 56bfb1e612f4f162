-- ===== src/Pack/Index/Probe.antt =====
-- The interpolation search of `partition_bucket`: it ends, and finds the partition point.
use webgit.Base.{ℕ, zero, suc, ◌+◌, ◌-◌, ◌*◌, ◌≤◌, ◌<◌, arith, ◌≡◌, ◌∙◌, refl, Bool, true, false}
use webgit.Base.{Bool-cases, inl, inr, ltb, ltb→lt, not_ltb→le, ◌&&◌, ok, Returns}
use webgit.Base.{Returns-bind}
use webgit.Fs.{or_err, Returns-or_err, File}
use webgit.Hash.{ObjectId}
use webgit.Pack.{PackError}
use webgit.Pack.Index.{
  Search, mid_idx, narrow, probe_loop, partition_bucket, read_object_id, position_key,
}
use native.Mathlib.Decide.{dec_lt}

-- A probe is inside the range, wherever the keys put the target.
mid_idx_within :
    (target_key : ℕ) (s : Search)
    → s.lower_idx < s.upper_idx
    → (s.lower_idx ≤ mid_idx target_key s) × (mid_idx target_key s < s.upper_idx)
unfolding mid_idx
mid_idx_within target_key s h = elim (Bool-cases (ltb s.probes 4 && ltb s.lower_key s.upper_key)) [
  | inl e ↦ rw e (omega arith, omega arith)
  | inr e ↦ rw e (omega arith, omega arith)
]

-- The entries of the index that a search may read.
abbrev pub Reads : File → (ℕ → ObjectId) → ℕ → ℕ → Type 0
Reads file entries lower upper =
    (i : ℕ) → lower ≤ i → i < upper → read_object_id file i ≡ ok (entries i)

-- True for a run of entries and then false for the rest.
abbrev pub IsMonotone : (ObjectId → Bool) → (ℕ → ObjectId) → ℕ → ℕ → Type 0
IsMonotone before entries lower upper =
    (i j : ℕ)
    → lower ≤ i
    → i < j
    → j < upper
    → before (entries j) ≡ true
    → before (entries i) ≡ true

-- The first entry of the range that `before` is false for.
pub record Partition (before : ObjectId → Bool) (entries : ℕ → ObjectId) (lower upper k : ℕ)
    : Type 0 where
  pub from : lower ≤ k
  pub to : k ≤ upper
  pub below : (i : ℕ) → lower ≤ i → i < k → before (entries i) ≡ true
  pub above : (i : ℕ) → k ≤ i → i < upper → before (entries i) ≡ false

read_object_id-Returns : (file : File) (i : ℕ) → Returns (read_object_id file i)
unfolding read_object_id
read_object_id-Returns file i =
    Returns-bind (or_err (file.read_segment (1032 + i * 20) 20) PackError.file_system) _
      (Returns-or_err _ _) λ read e. tt

-- A probe inside the range leaves less of it.
narrow_range :
    (s : Search) (mid : ℕ) (id : ObjectId) (b : Bool)
    → s.lower_idx ≤ mid
    → mid < s.upper_idx
    → (s.lower_idx ≤ (narrow s mid id b).lower_idx)
      × ((narrow s mid id b).upper_idx ≤ s.upper_idx)
      × ((narrow s mid id b).lower_idx ≤ (narrow s mid id b).upper_idx)
      × ((narrow s mid id b).upper_idx - (narrow s mid id b).lower_idx < s.upper_idx - s.lower_idx)
unfolding narrow
narrow_range s mid id true hl hu = (omega arith, omega arith, omega arith, omega arith)
narrow_range s mid id false hl hu = (omega arith, omega arith, omega arith, omega arith)

module _ (file : File) (entries : ℕ → ObjectId) (before : ObjectId → Bool) where
  -- A round that read `mid` leaves a range that has the same partition point.
  Partition-lower :
      (lower mid upper k : ℕ)
      → lower ≤ mid
      → mid < upper
      → IsMonotone before entries lower upper
      → before (entries mid) ≡ true
      → Partition before entries (mid + 1) upper k
      → Partition before entries lower upper k
  Partition-lower lower mid upper k hl hu mono e p = record {
    from = omega (arith, p.from);
    to = p.to;
    below = λ i hi hk. elim (dec_lt i mid) [
      | yes l ↦ mono i mid hi l hu e
      | no n ↦ elim (dec_lt mid i) [
        | yes g ↦ p.below i (omega arith) hk
        | no m ↦ (let q : i ≡ mid = omega arith in rw q e)
      ]
    ];
    above = p.above;
  }

  false_above :
      (lower mid upper i : ℕ)
      → lower ≤ mid
      → mid < i
      → i < upper
      → IsMonotone before entries lower upper
      → before (entries mid) ≡ false
      → before (entries i) ≡ false
  false_above lower mid upper i hl hm hu mono e = elim (Bool-cases (before (entries i))) [
    | inl t ↦ (let q = mono mid i hl hm hu t in cc)
    | inr f ↦ f
  ]

  Partition-upper :
      (lower mid upper k : ℕ)
      → lower ≤ mid
      → mid < upper
      → IsMonotone before entries lower upper
      → before (entries mid) ≡ false
      → Partition before entries lower mid k
      → Partition before entries lower upper k
  Partition-upper lower mid upper k hl hu mono e p = record {
    from = p.from;
    to = omega (arith, p.to);
    below = p.below;
    above = λ i hi hk. elim (dec_lt i mid) [
      | yes l ↦ p.above i hi l
      | no n ↦ elim (dec_lt mid i) [
        | yes g ↦ false_above lower mid upper i hl g hk mono e
        | no m ↦ (let q : i ≡ mid = omega arith in rw q e)
      ]
    ];
  }

  -- What the loop gives from a range of at most `fuel` entries.
  abbrev Finds : ℕ → ℕ → Search → Type 0
  Finds fuel target_key s =
      (k : ℕ) × (probe_loop fuel file target_key before s ≡ ok k)
      × Partition before entries s.lower_idx s.upper_idx k

  nothing_left :
      (fuel target_key : ℕ) (s : Search)
      → ltb s.lower_idx s.upper_idx ≡ false
      → s.lower_idx ≡ s.upper_idx
      → Finds fuel target_key s
  unfolding probe_loop
  nothing_left zero target_key s e h = (
    s.lower_idx,
    rw (e, probe_loop) refl,
    record {
      from = omega arith;
      to = omega arith;
      below = λ i hi hk. absurd (omega arith);
      above = λ i hi hk. absurd (omega arith);
    },
  )
  nothing_left (suc fuel) target_key s e h = (
    s.lower_idx,
    rw (e, probe_loop) refl,
    record {
      from = omega arith;
      to = omega arith;
      below = λ i hi hk. absurd (omega arith);
      above = λ i hi hk. absurd (omega arith);
    },
  )

  round :
      (fuel target_key mid : ℕ) (s : Search) (b : Bool)
      → s.lower_idx ≤ mid
      → mid < s.upper_idx
      → IsMonotone before entries s.lower_idx s.upper_idx
      → before (entries mid) ≡ b
      → Finds fuel target_key (narrow s mid (entries mid) b)
      → (k : ℕ) × (probe_loop fuel file target_key before (narrow s mid (entries mid) b) ≡ ok k)
        × Partition before entries s.lower_idx s.upper_idx k
  unfolding narrow
  round fuel target_key mid s true hl hu mono e (k, run, p) =
      (k, run, Partition-lower s.lower_idx mid s.upper_idx k hl hu mono e p)
  round fuel target_key mid s false hl hu mono e (k, run, p) =
      (k, run, Partition-upper s.lower_idx mid s.upper_idx k hl hu mono e p)

  probe_loop-round :
      (fuel target_key : ℕ) (s : Search) (id : ObjectId)
      → ltb s.lower_idx s.upper_idx ≡ true
      → read_object_id file (mid_idx target_key s) ≡ ok id
      → probe_loop (suc fuel) file target_key before s
        ≡ probe_loop fuel file target_key before (narrow s (mid_idx target_key s) id (before id))
  unfolding probe_loop
  probe_loop-round fuel target_key s id e read = rw (e, read, probe_loop) refl

  probe_loop-Finds :
      (fuel target_key : ℕ) (s : Search)
      → s.lower_idx ≤ s.upper_idx
      → s.upper_idx - s.lower_idx ≤ fuel
      → Reads file entries s.lower_idx s.upper_idx
      → IsMonotone before entries s.lower_idx s.upper_idx
      → Finds fuel target_key s
  unfolding probe_loop
  probe_loop-Finds zero target_key s h size reads mono =
      nothing_left zero target_key s (ground arith) (omega arith)
  probe_loop-Finds (suc fuel) target_key s h size reads mono =
      elim (Bool-cases (ltb s.lower_idx s.upper_idx)) [
        | inr e ↦ (let q = not_ltb→le _ _ e in nothing_left (suc fuel) target_key s e (omega arith))
        | inl e ↦
            (let mid = mid_idx target_key s in
              let (hl, hu) = mid_idx_within target_key s (ltb→lt _ _ e) in
              let b = before (entries mid) in
              let (n1, n2, n3, n4) = narrow_range s mid (entries mid) b hl hu in
              let r =
                probe_loop-Finds fuel target_key (narrow s mid (entries mid) b) n3 (omega arith)
                  (λ i hi hk. reads i (omega arith) (omega arith))
                  (λ i j hi hj hk t. mono i j (omega arith) hj (omega arith) t) in
              let (k, run, p) = round fuel target_key mid s b hl hu mono refl r in
              (k, probe_loop-round fuel target_key s (entries mid) e (reads mid hl hu) ∙ run, p))
      ]

probe_loop-Returns :
    (fuel : ℕ) (file : File) (before : ObjectId → Bool) (target_key : ℕ) (s : Search)
    → s.upper_idx - s.lower_idx ≤ fuel
    → Returns (probe_loop fuel file target_key before s)
unfolding probe_loop
probe_loop-Returns zero file before target_key s size =
    (let e : ltb s.lower_idx s.upper_idx ≡ false = ground arith in rw (e, probe_loop) tt)
probe_loop-Returns (suc fuel) file before target_key s size =
    elim (Bool-cases (ltb s.lower_idx s.upper_idx)) [
      | inr e ↦ rw (e, probe_loop) tt
      | inl e ↦
          rw (e, probe_loop)
            (Returns-bind (read_object_id file (mid_idx target_key s)) _
              (read_object_id-Returns file _)
              λ id r.
                let (hl, hu) = mid_idx_within target_key s (ltb→lt _ _ e) in
                let (n1, n2, n3, n4) = narrow_range s _ id (before id) hl hu in
                probe_loop-Returns fuel file before target_key _ (omega arith))
    ]

-- In a range whose entries can be read, and where `before` holds for a run of entries and for none
-- behind it, the search comes back with the first entry that it does not hold for, whatever the
-- target and the keys of the entries.
pub partition_bucket-Partition :
    (file : File) (entries : ℕ → ObjectId) (before : ObjectId → Bool) (lower upper : ℕ)
    (target : ObjectId)
    → lower ≤ upper
    → Reads file entries lower upper
    → IsMonotone before entries lower upper
    → (k : ℕ) × (partition_bucket file lower upper target before ≡ ok k)
      × Partition before entries lower upper k
unfolding partition_bucket
partition_bucket-Partition file entries before lower upper target h reads mono =
    probe_loop-Finds file entries before (upper - lower) (position_key target) _ h (omega arith)
      reads mono

-- The search comes back with a position or an error on any file, sorted or not.
pub partition_bucket-Returns :
    (file : File) (before : ObjectId → Bool) (lower upper : ℕ) (target : ObjectId)
    → Returns (partition_bucket file lower upper target before)
unfolding partition_bucket
partition_bucket-Returns file before lower upper target =
    probe_loop-Returns (upper - lower) file before (position_key target) _ (omega arith)
