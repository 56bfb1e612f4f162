-- ===== src/CommitGraph/Changed.antt =====
-- The filters never miss a path that git put into them: `murmur3` and the bits that a query asks for
-- are those of git.
use webgit.Base.{
  ℕ, zero, suc, ◌+◌, ◌*◌, ◌/◌, ◌%◌, ◌^◌, arith, ◌≡◌, refl, sym, ap, ◌∙◌, Bytes, IsByte, All, length,
}
use webgit.Base.{List, [], ◌∷◌, ◌++◌, true, false, Bool}
use webgit.CommitGraph.Bloom.{
  BloomSettings, widen, mix_key, mix_blocks, mix_tail, finish, murmur3, bit_of, path_maybe_changed,
}
use webgit.CommitGraph.Filters.{
  char_of, left, rotated, scrambled, mixed, text_hash, avalanche, murmur_hash, nth_hash, switch_on,
  add_key, add_path, add_paths,
}
use webgit.CommitGraph.Fills.{set_bit, set_bits, fill_path, fill_paths, maybe-fill_paths_each}

widen-char_of : (signed : Bool) (b : ℕ) → widen signed b ≡ char_of signed b
unfolding widen char_of
widen-char_of true b = ground arith
widen-char_of false b = refl

mix_key-scrambled : (k : ℕ) → mix_key k ≡ scrambled k
unfolding mix_key scrambled rotated left
mix_key-scrambled k = refl

finish-avalanche : (h : ℕ) → finish h ≡ avalanche h
unfolding finish avalanche
finish-avalanche h = refl

mix_tail-text_hash :
    (signed : Bool) (n : ℕ) (text : Bytes) (h : ℕ)
    → n ≡ length text / 4
    → mix_tail signed (mix_blocks n signed h text).0 (mix_blocks n signed h text).1
      ≡ text_hash signed h text
unfolding mix_tail mix_blocks text_hash mixed left rotated
mix_tail-text_hash signed zero [] h e = refl
mix_tail-text_hash signed zero (a ∷ []) h e = rw (mix_key-scrambled, widen-char_of signed a) refl
mix_tail-text_hash signed zero (a ∷ b ∷ []) h e =
    rw (mix_key-scrambled, widen-char_of signed a, widen-char_of signed b) refl
mix_tail-text_hash signed zero (a ∷ b ∷ c ∷ []) h e =
    rw (mix_key-scrambled, widen-char_of signed a, widen-char_of signed b, widen-char_of signed c)
      refl
mix_tail-text_hash signed zero (a ∷ b ∷ c ∷ d ∷ text) h e = absurd (omega arith)
mix_tail-text_hash signed (suc n) [] h e = absurd (omega arith)
mix_tail-text_hash signed (suc n) (a ∷ []) h e = absurd (omega arith)
mix_tail-text_hash signed (suc n) (a ∷ b ∷ []) h e = absurd (omega arith)
mix_tail-text_hash signed (suc n) (a ∷ b ∷ c ∷ []) h e = absurd (omega arith)
mix_tail-text_hash signed (suc n) (a ∷ b ∷ c ∷ d ∷ text) h e =
    rw
      (
        ← mix_key-scrambled,
        ← widen-char_of signed a,
        ← widen-char_of signed b,
        ← widen-char_of signed c,
        ← widen-char_of signed d,
      )
      (mix_tail-text_hash signed n text _ (omega arith))

-- The program's hash is git's.
murmur3-murmur_hash :
    (seed : ℕ) (text : Bytes) (signed : Bool)
    → murmur3 seed text signed ≡ murmur_hash signed seed text
unfolding murmur3 murmur_hash
murmur3-murmur_hash seed text signed =
    rw (finish-avalanche, mix_tail-text_hash signed (length text / 4) text seed refl) refl

nth_hash-closed : (first step i : ℕ) → nth_hash first step i ≡ (first + i * step) % 2 ^ 32
unfolding nth_hash
nth_hash-closed first step zero = omega arith
nth_hash-closed first step (suc i) =
    let h = nth_hash-closed first step i in
    let more : suc i * step ≡ i * step + step = omega arith in rw (h, more) (omega arith)

bit_of-nth_hash :
    (modulus first step i : ℕ) → bit_of modulus first step i ≡ nth_hash first step i % modulus
unfolding bit_of
bit_of-nth_hash modulus first step i =
    let e : (first + i * step % 2 ^ 32) % 2 ^ 32 ≡ (first + i * step) % 2 ^ 32 = omega arith in
    ap (λ (h : ℕ). h % modulus) (e ∙ sym (nth_hash-closed first step i))

set_bits-add_key :
    (n i : ℕ) (filter : Bytes) (first step : ℕ)
    → set_bits n i filter first step ≡ add_key n i first step filter
unfolding set_bits add_key set_bit switch_on
set_bits-add_key zero i filter first step = refl
set_bits-add_key (suc n) i filter first step =
    let next : i + 1 ≡ suc i = omega arith in
    rw (bit_of-nth_hash, next) (set_bits-add_key n (suc i) _ first step)

fill_path-add_path :
    (filter : Bytes) (settings : BloomSettings) (path : Bytes)
    → fill_path filter settings path
      ≡ add_path filter settings.hash_version settings.num_hashes path
unfolding fill_path add_path
fill_path-add_path filter settings path =
    rw (murmur3-murmur_hash, murmur3-murmur_hash)
      (set_bits-add_key settings.num_hashes 0 filter _ _)

fill_paths-add_paths :
    (filter : Bytes) (settings : BloomSettings) (paths : List Bytes)
    → fill_paths filter settings paths
      ≡ add_paths filter settings.hash_version settings.num_hashes paths
unfolding fill_paths add_paths
fill_paths-add_paths filter settings [] = refl
fill_paths-add_paths filter settings (path ∷ paths) =
    rw (← fill_path-add_path filter settings path)
      (fill_paths-add_paths (fill_path filter settings path) settings paths)

-- A filter that git filled with the paths of a commit, by its own hash and at the bits that its format
-- names, answers that each of them may have changed.
pub path_maybe_changed-add_paths :
    (before after : List Bytes) (filter : Bytes) (settings : BloomSettings) (path : Bytes)
    → All IsByte filter
    → path_maybe_changed
        (add_paths filter settings.hash_version settings.num_hashes (before ++ (path ∷ after)))
        settings
        path
      ≡ true
path_maybe_changed-add_paths before after filter settings path h =
    rw (← fill_paths-add_paths filter settings (before ++ (path ∷ after)))
      (maybe-fill_paths_each before after filter settings path h)
