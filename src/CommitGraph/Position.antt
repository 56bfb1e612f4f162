-- ===== src/CommitGraph/Position.antt =====
-- The binary search of the commit-graph.
use webgit.Base.{
  ℕ, zero, suc, ◌+◌, ◌-◌, ◌/◌, ◌≤◌, ◌<◌, arith, ◌≡◌, ◌≢◌, ◌∙◌, ◌↔◌, sym, ap, refl, true, false,
  Option, none, some,
}
use webgit.Base.{Bool-cases, inl, inr, ltb, ltb→lt, not_ltb→le, ok, get_or, ◌==◌, IsByte, Bytes}
use webgit.Fs.{File}
use webgit.Hash.{ObjectId, IsId, cmp_bytes}
use webgit.Hash.Order.{cmp_bytes_refl, cmp_bytes-eq, cmp_bytes_trans}
use webgit.Pack.Index.Find.{get_or-IsByte}
use webgit.CommitGraph.{CommitGraph, GResult}
use webgit.CommitGraph.Lookup.{oid_at, position_loop, position_of}
use native.Mathlib.Decide.{dec_lt}
use Prim.Native.Nat.{Ordering}

same_id : (a b : ObjectId) → a.bytes ≡ b.bytes → a ≡ b
same_id a b e = ap (λ (bs : Bytes). record { bytes = bs }) e

module _ (g : CommitGraph) (file : File) (oids : ℕ → ObjectId) where
  -- The names of a range are read, and ascend.
  pub record IsRange (lower upper : ℕ) : Type 0 where
    pub reads : (i : ℕ) → lower ≤ i → i < upper → oid_at g file i ≡ ok (oids i)
    pub sorted :
        (i j : ℕ)
        → lower ≤ i
        → i < j
        → j < upper
        → cmp_bytes (oids i).bytes (oids j).bytes ≡ Ordering.lt

  abbrev pub LocatesIn : ℕ → ℕ → ObjectId → Option ℕ → Type 0
  LocatesIn lower upper id none = (i : ℕ) → lower ≤ i → i < upper → oids i ≢ id
  LocatesIn lower upper id (some i) = (lower ≤ i) × (i < upper) × (oids i ≡ id)

  not_same :
      (id : ObjectId) (i : ℕ) (o : Ordering)
      → cmp_bytes (oids i).bytes id.bytes ≡ o
      → o ≢ Ordering.eq
      → oids i ≢ id
  not_same id i o e ne q =
      let s = cmp_bytes_refl id.bytes in
      let e' = ap (λ (y : ObjectId). cmp_bytes y.bytes id.bytes) q in ne (sym e ∙ (e' ∙ s))

  -- Behind a name that sorts before the one looked for, and in front of one that sorts after it,
  -- the range keeps what it can hold.
  upper_half :
      (id : ObjectId) (lower mid upper : ℕ) (r : Option ℕ)
      → lower ≤ mid
      → mid < upper
      → IsRange lower upper
      → cmp_bytes (oids mid).bytes id.bytes ≡ Ordering.lt
      → LocatesIn (mid + 1) upper id r
      → LocatesIn lower upper id r
  upper_half id lower mid upper (some i) hl hu x e (a, b, c) = (omega arith, b, c)
  upper_half id lower mid upper none hl hu x e h = λ i hi hk. elim (dec_lt mid i) [
    | yes more ↦ h i (omega arith) hk
    | no n ↦ elim (dec_lt i mid) [
      | yes less ↦
          not_same id i Ordering.lt
            (cmp_bytes_trans (oids i).bytes (oids mid).bytes id.bytes (x.sorted i mid hi less hu) e)
            (λ q. cc)
      | no m ↦ (let q : i ≡ mid = omega arith in not_same id i Ordering.lt (rw q e) (λ q'. cc))
    ]
  ]

  lower_half :
      (id : ObjectId) (lower mid upper : ℕ) (r : Option ℕ)
      → lower ≤ mid
      → mid < upper
      → IsRange lower upper
      → cmp_bytes (oids mid).bytes id.bytes ≡ Ordering.gt
      → LocatesIn lower mid id r
      → LocatesIn lower upper id r
  lower_half id lower mid upper (some i) hl hu x e (a, b, c) = (a, omega arith, c)
  lower_half id lower mid upper none hl hu x e h = λ i hi hk. elim (dec_lt i mid) [
    | yes less ↦ h i hi less
    | no n ↦ elim (dec_lt mid i) [
      | yes more ↦ λ q.
          let s = x.sorted mid i hl more hk in
          let e' = ap (λ (y : ObjectId). cmp_bytes (oids mid).bytes y.bytes) q in cc
      | no m ↦ (let q : i ≡ mid = omega arith in not_same id i Ordering.gt (rw q e) (λ q'. cc))
    ]
  ]

  abbrev turn : ℕ → ObjectId → ℕ → ℕ → ℕ → Ordering → GResult (Option ℕ)
  turn fuel id lower mid upper o = elim o [
    | Ordering.eq ↦ ok (some mid)
    | Ordering.lt ↦ position_loop fuel g file id (mid + 1) upper
    | Ordering.gt ↦ position_loop fuel g file id lower mid
  ]

  position_loop-turn :
      (fuel : ℕ) (id : ObjectId) (lower upper : ℕ)
      → ltb lower upper ≡ true
      → oid_at g file ((lower + upper) / 2) ≡ ok (oids ((lower + upper) / 2))
      → position_loop (suc fuel) g file id lower upper
        ≡ turn fuel id lower
            ((lower + upper) / 2)
            upper
            (cmp_bytes (oids ((lower + upper) / 2)).bytes id.bytes)
  unfolding position_loop
  position_loop-turn fuel id lower upper h read = rw (h, position_loop, read) refl

  abbrev Finds : ℕ → ObjectId → ℕ → ℕ → Type 0
  Finds fuel id lower upper =
      (r : Option ℕ) × (position_loop fuel g file id lower upper ≡ ok r)
      × LocatesIn lower upper id r

  empty :
      (fuel : ℕ) (id : ObjectId) (lower upper : ℕ)
      → ltb lower upper ≡ false
      → position_loop fuel g file id lower upper ≡ ok none
  unfolding position_loop
  empty zero id lower upper e = rw (e, position_loop) refl
  empty (suc fuel) id lower upper e = rw (e, position_loop) refl

  IsRange-within :
      (lower upper lower' upper' : ℕ)
      → IsRange lower upper
      → lower ≤ lower'
      → upper' ≤ upper
      → IsRange lower' upper'
  IsRange-within lower upper lower' upper' x h k = record {
    reads = λ i hi hu. x.reads i (omega arith) (omega arith);
    sorted = λ i j hi hij hj. x.sorted i j (omega arith) hij (omega arith);
  }

  turn-Finds :
      (fuel : ℕ) (id : ObjectId) (lower mid upper : ℕ) (o : Ordering)
      → lower ≤ mid
      → mid < upper
      → IsRange lower upper
      → cmp_bytes (oids mid).bytes id.bytes ≡ o
      → Finds fuel id (mid + 1) upper
      → Finds fuel id lower mid
      → (r : Option ℕ) × (turn fuel id lower mid upper o ≡ ok r) × LocatesIn lower upper id r
  turn-Finds fuel id lower mid upper Ordering.eq hl hu x e up down =
      (some mid, refl, (hl, hu, same_id (oids mid) id (cmp_bytes-eq _ _ e)))
  turn-Finds fuel id lower mid upper Ordering.lt hl hu x e (r, run, l) down =
      (r, run, upper_half id lower mid upper r hl hu x e l)
  turn-Finds fuel id lower mid upper Ordering.gt hl hu x e up (r, run, l) =
      (r, run, lower_half id lower mid upper r hl hu x e l)

  position_loop-Finds :
      (fuel : ℕ) (id : ObjectId) (lower upper : ℕ)
      → upper - lower ≤ fuel
      → IsRange lower upper
      → Finds fuel id lower upper
  position_loop-Finds zero id lower upper size x =
      (none, empty zero id lower upper (ground arith), λ i hi hk. absurd (omega arith))
  position_loop-Finds (suc fuel) id lower upper size x = elim (Bool-cases (ltb lower upper)) [
    | inr e ↦
        (let n = not_ltb→le _ _ e in
          (none, empty (suc fuel) id lower upper e, λ i hi hk. absurd (omega arith)))
    | inl e ↦
        (let l = ltb→lt _ _ e in
          let mid = (lower + upper) / 2 in
          let hl : lower ≤ mid = omega arith in
          let hu : mid < upper = omega arith in
          let up =
            position_loop-Finds fuel id (mid + 1) upper (omega arith)
              (IsRange-within lower upper (mid + 1) upper x (omega arith) (omega arith)) in
          let down =
            position_loop-Finds fuel id lower mid (omega arith)
              (IsRange-within lower upper lower mid x (omega arith) (omega arith)) in
          let (r, run, found) = turn-Finds fuel id lower mid upper _ hl hu x refl up down in
          (r, position_loop-turn fuel id lower upper e (x.reads mid hl hu) ∙ run, found))
  ]

-- A graph whose fanout delimits, for each byte, the ascending names that start with it.
pub record IsGraph (g : CommitGraph) (file : File) (oids : ℕ → ObjectId) : Type 0 where
  pub range : IsRange g file oids 0 g.num_commits
  pub starts : get_or g.fanout 255 0 ≤ g.num_commits
  pub ascends : (b c : ℕ) → b ≤ c → IsByte c → get_or g.fanout b 0 ≤ get_or g.fanout c 0
  pub below :
      (b i : ℕ)
      → IsByte b
      → i < g.num_commits
      → (i < get_or g.fanout b 0) ↔ (get_or (oids i).bytes 0 0 ≤ b)

module _ (g : CommitGraph) (file : File) (oids : ℕ → ObjectId) (x : IsGraph g file oids) where
  -- A position in a range that has every place of the name is a position in the graph.
  in_graph :
      (lower upper : ℕ) (id : ObjectId) (r : Option ℕ)
      → upper ≤ g.num_commits
      → ((i : ℕ) → i < g.num_commits → oids i ≡ id → (lower ≤ i) × (i < upper))
      → LocatesIn g file oids lower upper id r
      → LocatesIn g file oids 0 g.num_commits id r
  in_graph lower upper id none h within l =
      λ i hi hk q. (let (from, to) = within i hk q in l i from to q)
  in_graph lower upper id (some i) h within (a, b, c) = (omega arith, omega arith, c)

  in_range :
      (lower upper : ℕ) (id : ObjectId)
      → upper ≤ g.num_commits
      → ((i : ℕ) → i < g.num_commits → oids i ≡ id → (lower ≤ i) × (i < upper))
      → (r : Option ℕ) × (position_loop (upper - lower) g file id lower upper ≡ ok r)
        × LocatesIn g file oids 0 g.num_commits id r
  in_range lower upper id h within =
      let (r, run, l) =
        position_loop-Finds g file oids (upper - lower) id lower upper (omega arith)
          (IsRange-within g file oids 0 g.num_commits lower upper x.range (omega arith) h) in
      (r, run, in_graph lower upper id r h within l)

  -- Every place of a name is in the bucket of its first byte.
  in_bucket :
      (id : ObjectId) (i : ℕ)
      → IsByte (get_or id.bytes 0 0)
      → i < g.num_commits
      → oids i ≡ id
      → i < get_or g.fanout (get_or id.bytes 0 0) 0
  in_bucket id i b hi q =
      let same = ap (λ (y : ObjectId). get_or y.bytes 0 0) q in
      let (to, back) = x.below (get_or id.bytes 0 0) i b hi in back (omega arith)

  not_below :
      (id : ObjectId) (i : ℕ)
      → IsByte (get_or id.bytes 0 0)
      → 0 < get_or id.bytes 0 0
      → i < g.num_commits
      → oids i ≡ id
      → get_or g.fanout (get_or id.bytes 0 0 - 1) 0 ≤ i
  not_below id i b pos hi q =
      let same = ap (λ (y : ObjectId). get_or y.bytes 0 0) q in
      let (to, back) = x.below (get_or id.bytes 0 0 - 1) i (omega arith) hi in
      elim (dec_lt i (get_or g.fanout (get_or id.bytes 0 0 - 1) 0)) [
        | yes l ↦ (let t = to l in absurd (omega arith))
        | no n ↦ omega arith
      ]

-- A lookup in a well-formed graph comes back, with a position that holds the name if there is one
-- and with nothing if there is none.
pub position_of-LocatesIn :
    (g : CommitGraph) (file : File) (oids : ℕ → ObjectId) (id : ObjectId)
    → IsId id
    → IsGraph g file oids
    → (r : Option ℕ) × (position_of g file id ≡ ok r) × LocatesIn g file oids 0 g.num_commits id r
unfolding position_of
position_of-LocatesIn g file oids id hid x =
    let b : IsByte (get_or id.bytes 0 0) = get_or-IsByte id.bytes 0 hid.1 in
    let upper = get_or g.fanout (get_or id.bytes 0 0) 0 in
    let h : upper ≤ g.num_commits =
      omega (arith, x.ascends (get_or id.bytes 0 0) 255 (omega arith) (omega arith), x.starts) in
    elim (Bool-cases (get_or id.bytes 0 0 == 0)) [
      | inl e ↦ rw e (
          in_range g file oids x 0 upper id h
            λ i hi q. (omega arith, in_bucket g file oids x id i b hi q))
      | inr e ↦
          (let pos : 0 < get_or id.bytes 0 0 = ground arith in
            rw e (
              in_range g file oids x (get_or g.fanout (get_or id.bytes 0 0 - 1) 0) upper id h
                λ i hi q.
                  (not_below g file oids x id i b pos hi q, in_bucket g file oids x id i b hi q)))
    ]
