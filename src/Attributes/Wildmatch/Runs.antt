-- ===== src/Attributes/Wildmatch/Runs.antt =====
-- The matcher ends, on every pattern and every text.
use webgit.Base.{ℕ, zero, suc, ◌≤◌, ◌<◌, arith, Bytes, [], ◌∷◌, length, drop, length-drop}
use webgit.Base.{
  Bool-cases, Option-cases, inl, inr, ◌==◌, none, some, ok, ◌>>=◌, Returns, Returns-bind,
  Returns-if,
}
use webgit.Base.{
  if◌then◌else◌, Bool, true, false, Option, Outcome, err, panic, stuck, not, ◌&&◌, ◌||◌,
}
use webgit.Attributes.Bracket.{at, BytesSet, bracket}
use webgit.Attributes.Bracket.Runs.{Reads, bracket-Reads}
use webgit.Attributes.Wildmatch.{
  MatchOutcome, match, no_match, abort_all, abort_to_star_star, Matching, Next, skip_stars,
  skip_ahead, after_star, star_loop, star_rest, double_star, star, in_bracket, step, wild_loop,
  attempt_at, match_or, behind_bracket, dowild, wildmatch, is_glob_special, is_component,
  behind_slash,
}

after_star-Returns :
    (match_slash : Bool) (t_ch : ℕ) (matched : MatchOutcome) (retry : Matching)
    → Returns retry
    → Returns (after_star match_slash t_ch matched retry)
unfolding after_star
after_star-Returns match_slash t_ch match retry h = tt
after_star-Returns match_slash t_ch abort_all retry h = tt
after_star-Returns true t_ch abort_to_star_star retry h = h
after_star-Returns false t_ch abort_to_star_star retry h = tt
after_star-Returns match_slash t_ch no_match retry h =
    elim (Bool-cases (not match_slash && t_ch == b'/')) [ inl t ↦ rw t tt | inr f ↦ rw f h ]

pub skip_ahead_shorter :
    (p_ch : ℕ) (match_slash : Bool) (text : Bytes)
    → length (skip_ahead p_ch match_slash text) ≤ length text
unfolding skip_ahead
skip_ahead_shorter p_ch match_slash [] = omega arith
skip_ahead_shorter p_ch match_slash (t_ch ∷ text) =
    ground (arith, skip_ahead_shorter p_ch match_slash text)

pub skip_stars_shorter : (rest : Bytes) → length (skip_stars rest) ≤ length rest
unfolding skip_stars
skip_stars_shorter [] = omega arith
skip_stars_shorter (c ∷ rest) = ground (arith, skip_stars_shorter rest)

star_loop-Returns :
    (fuel : ℕ) (dowild : Bytes → Matching) (p_ch : ℕ) (match_slash : Bool) (text : Bytes)
    → ((text' : Bytes) → Returns (dowild text'))
    → length text < fuel
    → Returns (star_loop fuel dowild p_ch match_slash text)
unfolding star_loop attempt_at
star_loop-Returns zero dowild p_ch match_slash text ih h = absurd (omega arith)
star_loop-Returns (suc fuel) dowild p_ch match_slash [] ih h = tt
star_loop-Returns (suc fuel) dowild p_ch match_slash (c ∷ text) ih h =
    let next : (t : Bytes)
        → length t ≤ suc (length text)
        → Returns (star_loop fuel dowild p_ch match_slash (drop 1 t)) =
      (λ t s.
        star_loop-Returns fuel dowild p_ch match_slash (drop 1 t) ih
          (omega (arith, length-drop 1 t))) in
    let attempt : (t : Bytes)
        → length t ≤ suc (length text)
        → Returns (attempt_at dowild (star_loop fuel dowild p_ch match_slash) match_slash t) =
      (λ t s.
        Returns-bind (dowild t) _ (ih t)
          (λ matched e. after_star-Returns match_slash _ matched _ (next t s))) in
    Returns-if (c == 0) _ _ tt (
      Returns-if (is_glob_special p_ch) _ _ (attempt (c ∷ text) (omega arith)) (
        Returns-if (at (skip_ahead p_ch match_slash (c ∷ text)) 0 == p_ch) _ _
          (attempt _ (skip_ahead_shorter p_ch match_slash (c ∷ text))) tt))

-- What the steps may rely on: the loop ends on every shorter pattern.
abbrev NextReturns : Next → ℕ → Type 0
NextReturns next n =
    (previous : Option ℕ) (p text : Bytes) → length p ≤ n → Returns (next previous p text)

star_rest-Returns :
    (next : Next) (match_slash : Bool) (rest text : Bytes)
    → NextReturns next (length rest)
    → Returns (star_rest next match_slash rest text)
unfolding star_rest
star_rest-Returns next match_slash [] text h = tt
star_rest-Returns next match_slash (p_ch ∷ rest) text h =
    Returns-if (not match_slash && p_ch == b'/') _ _
      (elim (Option-cases (behind_slash text)) [
        | inl e ↦ rw e tt
        | inr (text', e) ↦ rw e (h _ rest text' (omega arith))
      ])
      (star_loop-Returns (suc (length text)) _ p_ch match_slash text
        (λ text'. h none (p_ch ∷ rest) text' (omega arith)) (omega arith))

match_or-Returns :
    (matched : MatchOutcome) (retry : Matching) → Returns retry → Returns (match_or matched retry)
unfolding match_or
match_or-Returns match retry h = tt
match_or-Returns no_match retry h = h
match_or-Returns abort_all retry h = h
match_or-Returns abort_to_star_star retry h = h

double_star-Returns :
    (next : Next) (pathname : Bool) (previous : Option ℕ) (rest text : Bytes)
    → NextReturns next (length rest)
    → Returns (double_star next pathname previous rest text)
unfolding double_star
double_star-Returns next pathname previous rest text h =
    let tail : (match_slash : Bool) → Returns (star_rest next match_slash rest text) =
      (λ match_slash. star_rest-Returns next match_slash rest text h) in
    Returns-if (not pathname) _ _ (tail true) (
      Returns-if (is_component previous rest) _ _
        (Returns-if (at rest 0 == b'/') _ _
          (Returns-bind (next none (drop 1 rest) text) _
            (h none (drop 1 rest) text (omega (arith, length-drop 1 rest)))
            (λ matched e. match_or-Returns matched _ (tail true)))
          (tail true))
        (tail false))

behind_bracket-Returns :
    (next : Next) (pathname : Bool) (t_ch : ℕ) (text : Bytes) (n : ℕ)
    (m : Outcome ⊥ (Option (Bool × BytesSet × Bytes)))
    → Reads (λ found. found.2) m n
    → NextReturns next n
    → Returns (m >>= behind_bracket next pathname t_ch text)
unfolding behind_bracket
behind_bracket-Returns next pathname t_ch text n (ok none) r h = tt
behind_bracket-Returns next pathname t_ch text n (ok (some (negated, set, behind))) r h =
    Returns-if ((if negated then set t_ch else not (set t_ch)) || (pathname && t_ch == b'/')) _ _ tt
      (h _ behind text r)
behind_bracket-Returns next pathname t_ch text n (err e) r h = tt
behind_bracket-Returns next pathname t_ch text n panic r h = r
behind_bracket-Returns next pathname t_ch text n stuck r h = r

in_bracket-Returns :
    (next : Next) (pathname : Bool) (rest : Bytes) (t_ch : ℕ) (text : Bytes)
    → NextReturns next (length rest)
    → Returns (in_bracket next pathname rest t_ch text)
unfolding in_bracket
in_bracket-Returns next pathname rest t_ch text h =
    behind_bracket-Returns next pathname t_ch text (length rest) (bracket rest) (bracket-Reads rest)
      h

step-Returns :
    (next : Next) (pathname : Bool) (previous : Option ℕ) (p_ch : ℕ) (rest text : Bytes)
    → NextReturns next (length rest)
    → Returns (step next pathname previous p_ch rest text)
unfolding step star
step-Returns next pathname previous p_ch rest text h =
    let stars : NextReturns next (length (skip_stars rest)) =
      (λ previous p text s. h previous p text (omega (arith, skip_stars_shorter rest))) in
    Returns-if (at text 0 == 0 && not (p_ch == b'*')) _ _ tt (
      Returns-if (p_ch == b'\\') _ _
        (Returns-if (at text 0 == at rest 0) _ _ (h _ _ _ (omega (arith, length-drop 1 rest))) tt)
        (Returns-if (p_ch == b'?') _ _
          (Returns-if (pathname && at text 0 == b'/') _ _ tt (h _ _ _ (omega arith)))
          (Returns-if (p_ch == b'*') _ _
            (Returns-if (at rest 0 == b'*') _ _
              (double_star-Returns next pathname previous _ text stars)
              (star_rest-Returns next _ rest text h))
            (Returns-if (p_ch == b'[') _ _ (in_bracket-Returns next pathname rest _ _ h)
              (Returns-if (at text 0 == p_ch) _ _ (h _ _ _ (omega arith)) tt)))))

wild_loop-Returns :
    (fuel : ℕ) (pathname : Bool) → (n : ℕ) → n < fuel → NextReturns (wild_loop fuel pathname) n
unfolding wild_loop
wild_loop-Returns zero pathname n h previous p text k = absurd (omega arith)
wild_loop-Returns (suc fuel) pathname n h previous [] text k = tt
wild_loop-Returns (suc fuel) pathname n h previous (p_ch ∷ p) text k =
    step-Returns _ pathname previous p_ch p text (λ previous q text s.
      wild_loop-Returns fuel pathname (length p) (omega arith) previous q text s)

-- The matcher gives an answer for every pattern and every text: it never runs without end.
pub wildmatch-Returns :
    (pattern text : Bytes) (pathname : Bool) → Returns (wildmatch pattern text pathname)
unfolding wildmatch dowild
wildmatch-Returns pattern text pathname =
    Returns-bind (dowild pattern text pathname) _
      (wild_loop-Returns (suc (length pattern)) pathname (length pattern) (omega arith) none pattern
        text (omega arith))
      (λ matched e. tt)
