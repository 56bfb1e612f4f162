-- ===== src/Attributes/Wildmatch/Star.antt =====
-- Where `/` is a byte like any other: the stars of a pattern.
use webgit.Base.{ℕ, zero, suc, ◌≤◌, ◌<◌, arith, ◌≢◌, refl, Bytes, [], ◌∷◌, length, drop}
use webgit.Base.{true, false, ◌==◌, Bool-cases, inl, inr}
use webgit.Base.{Option, none, ok, err, panic, stuck, ◌>>=◌, length-drop}
use webgit.Attributes.Bracket.{at}
use webgit.Attributes.Wildmatch.{
  MatchOutcome, match, no_match, abort_all, abort_to_star_star, Matching, Next, is_glob_special,
  skip_ahead, after_star, attempt_at, star_loop, skip_stars, star_rest, double_star, star, dowild,
}
use webgit.Attributes.Wildmatch.Runs.{skip_stars_shorter, skip_ahead_shorter}
use webgit.Attributes.Wildmatch.Glob.{
  Matches, empty, leave, take, skip_stars-Matches, Matches-skip_stars,
}
use webgit.Attributes.Wildmatch.Sound.{
  Nonzero, Nonzero-drop, Sound, Decides, Decides-if, Decides-map, star_step, abort-star,
  abort-star_nil, skip_ahead-Sound, Nonzero-skip_ahead, skip_ahead_stops,
}

after_attempt-Decides :
    (o : MatchOutcome) (retry : Matching) (p t : Bytes) (t_ch : ℕ)
    → Sound o p t
    → Decides (b'*' ∷ p) (drop 1 t) retry
    → Decides (b'*' ∷ p) t (after_star true t_ch o retry)
unfolding after_star
after_attempt-Decides match retry p t t_ch h k = leave refl h
after_attempt-Decides abort_all retry p t t_ch h k = abort-star p t h
after_attempt-Decides abort_to_star_star retry p t t_ch h k = absurd h
after_attempt-Decides no_match retry p [] t_ch h k = k
after_attempt-Decides no_match retry p (x ∷ t) t_ch h k =
    Decides-map (b'*' ∷ p) t (b'*' ∷ p) (x ∷ t) retry (λ o. star_step o p x t h) k

attempt_at-Decides :
    (dowild retry : Bytes → Matching) (p t : Bytes)
    → Decides p t (dowild t)
    → Decides (b'*' ∷ p) (drop 1 t) (retry (drop 1 t))
    → Decides (b'*' ∷ p) t (attempt_at dowild retry true t)
unfolding attempt_at
attempt_at-Decides dowild retry p t h k = go (dowild t) h
  where
    go :
        (m : Matching)
        → Decides p t m
        → Decides
            (b'*' ∷ p)
            t
            (m >>= λ matched. after_star true (at t 0) matched (retry (drop 1 t)))
    go (ok o) h = after_attempt-Decides o (retry (drop 1 t)) p t (at t 0) h k
    go (err e) h = h
    go panic h = h
    go stuck h = h

star_loop-Decides :
    (fuel : ℕ) (dowild : Bytes → Matching) (p_ch : ℕ) (rest text : Bytes)
    → ((t : Bytes) → Nonzero t → Decides (p_ch ∷ rest) t (dowild t))
    → p_ch ≢ b'*'
    → Nonzero text
    → length text < fuel
    → Decides (b'*' ∷ p_ch ∷ rest) text (star_loop fuel dowild p_ch true text)
unfolding star_loop
star_loop-Decides zero dowild p_ch rest text ih ne n h = absurd (omega arith)
star_loop-Decides (suc fuel) dowild p_ch rest [] ih ne n h = abort-star_nil p_ch rest ne
star_loop-Decides (suc fuel) dowild p_ch rest (c ∷ text) ih ne n h =
    let p : Bytes = p_ch ∷ rest in
    let attempt : (t : Bytes)
        → Nonzero t
        → length t ≤ suc (length text)
        → Decides (b'*' ∷ p) t (attempt_at dowild (star_loop fuel dowild p_ch true) true t) =
      (λ t nt s. attempt_at-Decides dowild (star_loop fuel dowild p_ch true) p t (ih t nt) (
        star_loop-Decides fuel dowild p_ch rest (drop 1 t) ih ne (Nonzero-drop 1 t nt)
          (omega (arith, length-drop 1 t)))) in
    Decides-if (b'*' ∷ p) (c ∷ text) (c == 0) _ _ (λ e. absurd (n.0 (ground arith)))
      (λ e.
        Decides-if (b'*' ∷ p) (c ∷ text) (is_glob_special p_ch) _ _
          (λ e'. attempt (c ∷ text) n (omega arith))
          (λ e'.
            Decides-map (b'*' ∷ p) (skip_ahead p_ch true (c ∷ text)) (b'*' ∷ p) (c ∷ text) _
              (λ o. skip_ahead-Sound o p_ch rest (c ∷ text) e' n)
              (Decides-if (b'*' ∷ p) (skip_ahead p_ch true (c ∷ text))
                (at (skip_ahead p_ch true (c ∷ text)) 0 == p_ch) _ _
                (λ f.
                  attempt _ (Nonzero-skip_ahead p_ch (c ∷ text) n)
                    (skip_ahead_shorter p_ch true (c ∷ text)))
                (λ f. rw (skip_ahead_stops p_ch (c ∷ text) n f) (abort-star_nil p_ch rest ne)))))

-- What the steps may rely on: the loop decides every shorter pattern.
abbrev pub NextDecides : Next → ℕ → Type 0
NextDecides next n =
    (previous : Option ℕ) (p t : Bytes) → length p ≤ n → Nonzero t → Decides p t (next previous p t)

trailing-Matches : (t : Bytes) → Matches (b'*' ∷ []) t
trailing-Matches [] = leave refl empty
trailing-Matches (c ∷ t) = take refl (trailing-Matches t)

-- A pattern that starts with no star.
abbrev Starless : Bytes → Type 0
Starless [] = Unit
Starless (c ∷ p) = c ≢ b'*'

skip_stars-Starless : (p : Bytes) → Starless (skip_stars p)
unfolding skip_stars
skip_stars-Starless [] = tt
skip_stars-Starless (c ∷ p) = elim (Bool-cases (c == b'*')) [
  | inl e ↦ rw e (skip_stars-Starless p)
  | inr e ↦ rw e (λ q. ground arith)
]

star_rest-Decides :
    (next : Next) (rest text : Bytes)
    → NextDecides next (length rest)
    → Starless rest
    → Nonzero text
    → Decides (b'*' ∷ rest) text (star_rest next true rest text)
unfolding star_rest
star_rest-Decides next [] text h s n = trailing-Matches text
star_rest-Decides next (c ∷ rest) text h s n =
    star_loop-Decides (suc (length text)) (next none (c ∷ rest)) c rest text
      (λ t nt. h none (c ∷ rest) t (omega arith) nt) s n (omega arith)

unskip-Sound :
    (o : MatchOutcome) (p t : Bytes) → Sound o (b'*' ∷ skip_stars p) t → Sound o (b'*' ∷ p) t
unskip-Sound match p t h = skip_stars-Matches p t h
unskip-Sound no_match p t h = λ m. h (Matches-skip_stars p t m)
unskip-Sound abort_all p t h = λ n m. h n (Matches-skip_stars p (drop n t) m)
unskip-Sound abort_to_star_star p t h = h

pub star-Decides :
    (next : Next) (previous : Option ℕ) (rest text : Bytes)
    → NextDecides next (length rest)
    → Nonzero text
    → Decides (b'*' ∷ rest) text (star next false previous rest text)
unfolding star double_star
star-Decides next previous [] text h n = star_rest-Decides next [] text h tt n
star-Decides next previous (c ∷ rest) text h n =
    Decides-if (b'*' ∷ c ∷ rest) text (c == b'*') _ _
      (λ e.
        Decides-map (b'*' ∷ skip_stars (c ∷ rest)) text (b'*' ∷ c ∷ rest) text _
          (λ o. unskip-Sound o (c ∷ rest) text)
          (star_rest-Decides next (skip_stars (c ∷ rest)) text
            (λ previous p t s nt. h previous p t (omega (arith, skip_stars_shorter (c ∷ rest))) nt)
            (skip_stars-Starless (c ∷ rest)) n))
      (λ e. star_rest-Decides next (c ∷ rest) text h (λ q. ground arith) n)
