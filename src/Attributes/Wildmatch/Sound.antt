-- ===== src/Attributes/Wildmatch/Sound.antt =====
-- What the answers of the loop mean where `/` is a byte like any other: the two shortcuts, giving up
-- on the whole text and skipping ahead to a literal, lose no match.
use webgit.Base.{ℕ, zero, suc, ◌+◌, arith, ◌≡◌, ◌≢◌, refl, sym, ap, ◌∙◌, Bytes, [], ◌∷◌, drop, All}
use webgit.Base.{Bool, true, false, ◌==◌, if◌then◌else◌, Bool-cases, inl, inr, ◌⊎◌}
use webgit.Base.{ok, err, panic, stuck, drop_nil, drop-drop}
use webgit.Attributes.Bracket.{at}
use webgit.Attributes.Wildmatch.{
  MatchOutcome, match, no_match, abort_all, abort_to_star_star, Matching, is_glob_special,
  skip_ahead,
}
use webgit.Attributes.Wildmatch.Glob.{
  Matches, take, takes_byte, literal_inv, star_inv, star_drop, special_of,
}

abbrev pub Nonzero : Bytes → Type 0
Nonzero text = All (λ (c : ℕ). c ≢ 0) text

pub Nonzero-drop : (n : ℕ) (text : Bytes) → Nonzero text → Nonzero (drop n text)
Nonzero-drop zero text h = h
Nonzero-drop (suc n) [] h = tt
Nonzero-drop (suc n) (c ∷ text) (_, h) = Nonzero-drop n text h

-- The answer is right about the text, and giving up is right about every end of it.
abbrev pub Sound : MatchOutcome → Bytes → Bytes → Type 0
Sound match p t = Matches p t
Sound no_match p t = ¬ Matches p t
Sound abort_all p t = (n : ℕ) → ¬ Matches p (drop n t)
Sound abort_to_star_star p t = ⊥

abbrev pub Decides : Bytes → Bytes → Matching → Type 0
Decides p t (ok o) = Sound o p t
Decides p t (err e) = ⊥
Decides p t panic = ⊥
Decides p t stuck = ⊥

pub Decides-if :
    (p t : Bytes) (b : Bool) (x y : Matching)
    → (b ≡ true → Decides p t x)
    → (b ≡ false → Decides p t y)
    → Decides p t (if b then x else y)
Decides-if p t true x y h k = h refl
Decides-if p t false x y h k = k refl

-- From a pattern and a text to others, if every answer stays right.
pub Decides-map :
    (p t q s : Bytes) (m : Matching)
    → ((o : MatchOutcome) → Sound o p t → Sound o q s)
    → Decides p t m
    → Decides q s m
Decides-map p t q s (ok o) f h = f o h
Decides-map p t q s (err e) f h = h
Decides-map p t q s panic f h = h
Decides-map p t q s stuck f h = h

drop_step : (n x : ℕ) (t s : Bytes) → drop n t ≡ x ∷ s → drop (suc n) t ≡ s
drop_step n x t s e =
    let one : suc n ≡ n + 1 = omega arith in
    ap (λ (k : ℕ). drop k t) one ∙ sym (drop-drop 1 n t) ∙ ap (drop 1) e

end_cases : (t : Bytes) → (t ≡ []) ⊎ ((x : ℕ) × (s : Bytes) × (t ≡ x ∷ s))
end_cases [] = inl refl
end_cases (x ∷ s) = inr (x, s, refl)

-- A head that takes one byte.
pub consume-Sound :
    (o : MatchOutcome) (p q : Bytes) (c : ℕ) (t : Bytes)
    → ((s : Bytes) → Matches p s → s ≢ [])
    → ((x : ℕ) (s : Bytes) → Matches p (x ∷ s) → Matches q s)
    → (Matches q t → Matches p (c ∷ t))
    → Sound o q t
    → Sound o p (c ∷ t)
consume-Sound match p q c t nil down up h = up h
consume-Sound no_match p q c t nil down up h = λ m. h (down c t m)
consume-Sound abort_all p q c t nil down up h = go
  where
    go : (n : ℕ) → ¬ Matches p (drop n (c ∷ t))
    go zero m = h 0 (down c t m)
    go (suc n) m = elim (end_cases (drop n t)) [
      | inl e ↦ nil _ m e
      | inr (x, s, e) ↦ h (suc n) (rw (drop_step n x t s e) (down x s (rw e at m)))
    ]
consume-Sound abort_to_star_star p q c t nil down up h = h

-- A head that takes a byte has no match in the empty text, nor in any end of it.
pub abort-Sound : (p : Bytes) (b : ℕ) → b ≢ b'*' → Sound abort_all (b ∷ p) []
abort-Sound p b ne n m = takes_byte b p _ ne m (drop_nil n)

-- The bytes in front that the pattern behind a star does not start with.
pub star_step :
    (o : MatchOutcome) (p : Bytes) (x : ℕ) (s : Bytes)
    → ¬ Matches p (x ∷ s)
    → Sound o (b'*' ∷ p) s
    → Sound o (b'*' ∷ p) (x ∷ s)
star_step match p x s none_here h = take refl h
star_step no_match p x s none_here h = λ m. go (star_inv p (x ∷ s) m)
  where
    go : ¬ ((n : ℕ) × Matches p (drop n (x ∷ s)))
    go (zero, m) = none_here m
    go (suc n, m) = h (star_drop n p s m)
star_step abort_all p x s none_here h = go
  where
    go : (n : ℕ) → ¬ Matches (b'*' ∷ p) (drop n (x ∷ s))
    go zero m = at_start (star_inv p (x ∷ s) m)
      where
        at_start : ¬ ((n : ℕ) × Matches p (drop n (x ∷ s)))
        at_start (zero, m) = none_here m
        at_start (suc n, m) = h 0 (star_drop n p s m)
    go (suc n) m = h n m
star_step abort_to_star_star p x s none_here h = h

pub abort-star : (p t : Bytes) → Sound abort_all p t → Sound abort_all (b'*' ∷ p) t
abort-star p t h n m =
    let (k, d) = star_inv p (drop n t) m in h (n + k) (rw (sym (drop-drop k n t)) d)

pub abort-star_nil : (b : ℕ) (p : Bytes) → b ≢ b'*' → Sound abort_all (b'*' ∷ b ∷ p) []
abort-star_nil b p ne = abort-star (b ∷ p) [] (abort-Sound p b ne)

skip_ahead_past :
    (c x : ℕ) (t : Bytes)
    → x ≢ 0
    → (x == c) ≡ false
    → skip_ahead c true (x ∷ t) ≡ skip_ahead c true t
unfolding skip_ahead
skip_ahead_past c x t n e = let z : (x == 0) ≡ false = ground arith in rw (skip_ahead, z, e) refl

skip_ahead_found : (c x : ℕ) (t : Bytes) → (x == c) ≡ true → skip_ahead c true (x ∷ t) ≡ x ∷ t
unfolding skip_ahead
skip_ahead_found c x t e = ground arith

pub skip_ahead-Sound :
    (o : MatchOutcome) (c : ℕ) (p t : Bytes)
    → is_glob_special c ≡ false
    → Nonzero t
    → Sound o (b'*' ∷ c ∷ p) (skip_ahead c true t)
    → Sound o (b'*' ∷ c ∷ p) t
unfolding skip_ahead
skip_ahead-Sound o c p [] plain n h = h
skip_ahead-Sound o c p (x ∷ t) plain (n, ns) h = elim (Bool-cases (x == c)) [
  | inl e ↦ (rw (skip_ahead_found c x t e) at h)
  | inr e ↦
      (let (l1, l2, l3, l4) = special_of c plain in
        star_step o (c ∷ p) x t
          (λ m. (let q : x ≡ c = (literal_inv c x p t l1 l2 l3 l4 m).0 in absurd (ground arith)))
          (skip_ahead-Sound o c p t plain ns (rw (skip_ahead_past c x t n e) at h)))
]

pub Nonzero-skip_ahead : (c : ℕ) (t : Bytes) → Nonzero t → Nonzero (skip_ahead c true t)
unfolding skip_ahead
Nonzero-skip_ahead c [] h = tt
Nonzero-skip_ahead c (x ∷ t) (n, h) = elim (Bool-cases (x == c)) [
  | inl e ↦ rw (skip_ahead_found c x t e) (n, h)
  | inr e ↦ rw (skip_ahead_past c x t n e) (Nonzero-skip_ahead c t h)
]

-- Where it stops is the end of the text, or the literal.
pub skip_ahead_stops :
    (c : ℕ) (t : Bytes)
    → Nonzero t
    → (at (skip_ahead c true t) 0 == c) ≡ false
    → skip_ahead c true t ≡ []
unfolding skip_ahead
skip_ahead_stops c [] h e = refl
skip_ahead_stops c (x ∷ t) (n, h) e = elim (Bool-cases (x == c)) [
  | inl q ↦
      (let e' : (x == c) ≡ false = rw (skip_ahead_found c x t q) at e in absurd (ground arith))
  | inr q ↦
      rw (skip_ahead_past c x t n q) (skip_ahead_stops c t h (rw (skip_ahead_past c x t n q) at e))
]
