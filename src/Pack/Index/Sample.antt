-- ===== src/Pack/Index/Sample.antt =====
-- A small well-formed index, for the runs.
use webgit.Base.{inr}
use webgit.Base.{
  ℕ, zero, suc, ◌<◌, ◌≤◌, arith, ◌≡◌, ◌↔◌, refl, ok, Bytes, [], ◌∷◌, ◌++◌, take, drop, replicate,
  get_or, IsByte,
}
use webgit.Fs.{File, filled}
use webgit.Hash.{ObjectId, IsId, cmp_bytes}
use webgit.Pack.Index.{FanoutTable, entry, read_object_id}
use webgit.Pack.Index.Find.{IsIndex}
use Prim.Native.Nat.{Ordering}

-- Three names that start with the byte 1.
abbrev pub named : ℕ → ObjectId
named second = record { bytes = 1 ∷ second ∷ replicate 18 0 }

abbrev pub entries : ℕ → ObjectId
entries zero = named 2
entries (suc zero) = named 5
entries (suc (suc i)) = named 7

abbrev pub fanout : FanoutTable
fanout = record { fanout = 0 ∷ replicate 255 3 }

-- The names, their checksums, and their offsets 12, 34 and 2^31: the last is the first of the
-- table of long offsets, which has 56.
abbrev pub contents : Bytes
contents =
    replicate 1032 0
    ++ (named 2).bytes
    ++ (named 5).bytes
    ++ (named 7).bytes
    ++ replicate 12 0
    ++ (0 ∷ 0 ∷ 0 ∷ 12 ∷ 0 ∷ 0 ∷ 0 ∷ 34 ∷ 128 ∷ 0 ∷ 0 ∷ 0 ∷ [])
    ++ (0 ∷ 0 ∷ 0 ∷ 0 ∷ 0 ∷ 0 ∷ 0 ∷ 56 ∷ [])

abbrev pub file : File
file = record { read_segment = λ o n. inr (take n (drop o contents)) }

pub entry_replicate : (n b : ℕ) → b < n → get_or {A = ℕ} (replicate n 3) b 0 ≡ 3
entry_replicate zero b h = absurd (omega arith)
entry_replicate (suc n) zero h = refl
entry_replicate (suc n) (suc b) h = entry_replicate n b (omega arith)

pub below_three : (P : ℕ → Type 0) → P 0 → P 1 → P 2 → (i : ℕ) → i < 3 → P i
below_three P a b c zero h = a
below_three P a b c (suc zero) h = b
below_three P a b c (suc (suc zero)) h = c
below_three P a b c (suc (suc (suc i))) h = absurd (omega arith)

first_entry : (i : ℕ) → get_or (entries i).bytes 0 0 ≡ 1
first_entry zero = refl
first_entry (suc zero) = refl
first_entry (suc (suc i)) = refl

pub ascending :
    (i j : ℕ) → i < j → j < 3 → cmp_bytes (entries i).bytes (entries j).bytes ≡ Ordering.lt
unfolding cmp_bytes
ascending i zero h k = absurd (omega arith)
ascending zero (suc zero) h k = refl
ascending zero (suc (suc j)) h k = refl
ascending (suc zero) (suc (suc j)) h k = refl
ascending (suc i) (suc zero) h k = absurd (omega arith)
ascending (suc (suc i)) (suc (suc j)) h k = absurd (omega arith)

pub bucket :
    (b i : ℕ) → IsByte b → i < 3 → (i < entry fanout b) ↔ (get_or (entries i).bytes 0 0 ≤ b)
unfolding entry
bucket zero i h k = ((λ l. absurd (omega arith)), λ l. absurd (omega (arith, first_entry i)))
bucket (suc b) i h k =
    ((λ l. omega (arith, first_entry i)), λ l. omega (arith, entry_replicate 255 b (omega arith)))

counted : (b : ℕ) → IsByte b → entry fanout b ≤ 3
unfolding entry
counted zero h = omega arith
counted (suc b) h = omega (arith, entry_replicate 255 b (omega arith))

pub sample-IsIndex : IsIndex fanout file entries 3
unfolding read_object_id filled
sample-IsIndex = record {
  reads = λ i l. below_three (λ i. read_object_id file i ≡ ok (entries i)) refl refl refl i;
  ids = below_three (λ i. IsId (entries i)) (omega arith) (omega arith) (omega arith);
  sorted = ascending;
  counts = counted;
  below = bucket;
}
