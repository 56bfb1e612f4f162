-- ===== src/Attributes/Wildmatch.antt =====
-- crates/gib-attributes/src/wildmatch.rs: the matcher of patterns.
-- The cursors `pi` and `ti` are the lists of bytes from there on; of the pattern before `pi`, only
-- the last byte is looked at, and kept. The loop is given a bound on its turns.
pub mod Runs
pub mod Glob
pub mod Sound
pub mod Star
pub mod Heads
pub mod Decide
use webgit.Base.{ℕ, zero, suc, Bytes, [], ◌∷◌, length, drop}
use webgit.Base.{Bool, true, false, not, ◌&&◌, ◌||◌, ◌==◌, if◌then◌else◌}
use webgit.Base.{Option, none, some, Outcome, ok, ◌>>=◌, stuck}
use webgit.Attributes.Bracket.{at, BytesSet, bracket}

-- The enum `Outcome` of the code.
pub data MatchOutcome : Type 0 where
  match : MatchOutcome
  no_match : MatchOutcome
  abort_all : MatchOutcome
  abort_to_star_star : MatchOutcome

abbrev pub Matching : Type 0
Matching = Outcome ⊥ MatchOutcome

-- The rest of the loop from a cursor, as its steps go on with it. From no byte before, it is the
-- call `dowild(&p[pi..], &text[ti..], pathname)`.
abbrev pub Next : Type 0
Next = Option ℕ → Bytes → Bytes → Matching

unfoldable pub is_glob_special : ℕ → Bool
is_glob_special c = c == b'*' || c == b'?' || c == b'[' || c == b'\\'

unfoldable pub skip_stars : Bytes → Bytes
skip_stars [] = []
skip_stars (c ∷ rest) = if c == b'*' then skip_stars rest else c ∷ rest

unfoldable pub contains_slash : Bytes → Bool
contains_slash [] = false
contains_slash (c ∷ text) = c == b'/' || contains_slash text

-- `position(|&c| c == b'/')`, and the text behind that slash.
unfoldable pub behind_slash : Bytes → Option Bytes
behind_slash [] = none
behind_slash (c ∷ text) = if c == b'/' then some text else behind_slash text

-- The text from where the literal `p_ch` could start.
unfoldable pub skip_ahead : ℕ → Bool → Bytes → Bytes
skip_ahead p_ch match_slash [] = []
skip_ahead p_ch match_slash (t_ch ∷ text) =
    if not (t_ch == 0) && (match_slash || not (t_ch == b'/')) && not (t_ch == p_ch)
    then skip_ahead p_ch match_slash text
    else t_ch ∷ text

-- What follows from the match behind a star: a return, or a longer star.
unfoldable pub after_star : Bool → ℕ → MatchOutcome → Matching → Matching
after_star match_slash t_ch match retry = ok match
after_star match_slash t_ch abort_all retry = ok abort_all
after_star match_slash t_ch abort_to_star_star retry =
    if not match_slash then ok abort_to_star_star else retry
after_star match_slash t_ch no_match retry =
    if not match_slash && t_ch == b'/' then ok abort_to_star_star else retry

-- What an attempt at `text` leads to, where `retry` goes on from the text behind its first byte.
unfoldable pub attempt_at : (Bytes → Matching) → (Bytes → Matching) → Bool → Bytes → Matching
attempt_at dowild retry match_slash text = do
  matched ← dowild text
  after_star match_slash (at text 0) matched (retry (drop 1 text))

-- The inner loop, with `dowild(&p[pi..], ..)` and `at(p, pi)`.
unfoldable pub star_loop : ℕ → (Bytes → Matching) → ℕ → Bool → Bytes → Matching
star_loop zero dowild p_ch match_slash text = stuck
star_loop (suc fuel) dowild p_ch match_slash text =
    let attempt = attempt_at dowild (star_loop fuel dowild p_ch match_slash) match_slash in
    if at text 0 == 0
    then ok abort_all
    else if is_glob_special p_ch
    then attempt text
    else let text = skip_ahead p_ch match_slash text in
      if at text 0 == p_ch
      then attempt text
      else ok (if match_slash then abort_all else abort_to_star_star)

-- Behind the stars.
unfoldable pub star_rest : Next → Bool → Bytes → Bytes → Matching
star_rest next match_slash [] text =
    ok (if not match_slash && contains_slash text then abort_to_star_star else match)
star_rest next match_slash (p_ch ∷ rest) text =
    if not match_slash && p_ch == b'/'
    then (elim (behind_slash text) [
      | none ↦ ok abort_all
      | some text' ↦ next (some b'/') rest text'
    ])
    else star_loop (suc (length text)) (next none (p_ch ∷ rest)) p_ch match_slash text

-- `starts_component`, from the byte before the first star, and `ends_component`.
unfoldable pub is_component : Option ℕ → Bytes → Bool
is_component previous rest =
    (elim previous [ none ↦ true | some c ↦ c == b'/' ])
    && (length rest == 0 || at rest 0 == b'/' || (at rest 0 == b'\\' && at rest 1 == b'/'))

-- `== Match` returns, and anything else goes on.
unfoldable pub match_or : MatchOutcome → Matching → Matching
match_or match retry = ok match
match_or _ retry = retry

unfoldable pub double_star : Next → Bool → Option ℕ → Bytes → Bytes → Matching
double_star next pathname previous rest text =
    if not pathname
    then star_rest next true rest text
    else if is_component previous rest
    then (if at rest 0 == b'/'
        then (do
          matched ← next none (drop 1 rest) text
          match_or matched (star_rest next true rest text))
        else star_rest next true rest text)
    else star_rest next false rest text

unfoldable pub star : Next → Bool → Option ℕ → Bytes → Bytes → Matching
star next pathname previous rest text =
    if at rest 0 == b'*'
    then double_star next pathname previous (skip_stars rest) text
    else star_rest next (not pathname) rest text

-- `matched == negated`.
abbrev pub is_excluded : Bool → BytesSet → ℕ → Bool
is_excluded negated set t_ch = if negated then set t_ch else not (set t_ch)

unfoldable pub behind_bracket :
    Next → Bool → ℕ → Bytes → Option (Bool × BytesSet × Bytes) → Matching
behind_bracket next pathname t_ch text none = ok abort_all
behind_bracket next pathname t_ch text (some (negated, set, behind)) =
    if is_excluded negated set t_ch || (pathname && t_ch == b'/')
    then ok no_match
    else next (some b']') behind text

unfoldable pub in_bracket : Next → Bool → Bytes → ℕ → Bytes → Matching
in_bracket next pathname rest t_ch text = do
  found ← bracket rest
  behind_bracket next pathname t_ch text found

-- One turn of the loop, at the byte `p_ch` of the pattern.
unfoldable pub step : Next → Bool → Option ℕ → ℕ → Bytes → Bytes → Matching
step next pathname previous p_ch rest text =
    let t_ch = at text 0 in
    if t_ch == 0 && not (p_ch == b'*')
    then ok abort_all
    else if p_ch == b'\\'
    then (if t_ch == at rest 0 then next (some t_ch) (drop 1 rest) (drop 1 text) else ok no_match)
    else if p_ch == b'?'
    then (if pathname && t_ch == b'/' then ok no_match else next (some p_ch) rest (drop 1 text))
    else if p_ch == b'*'
    then star next pathname previous rest text
    else if p_ch == b'['
    then in_bracket next pathname rest t_ch (drop 1 text)
    else if t_ch == p_ch
    then next (some p_ch) rest (drop 1 text)
    else ok no_match

unfoldable pub wild_loop : ℕ → Bool → Next
wild_loop zero pathname previous rest text = stuck
wild_loop (suc fuel) pathname previous [] text = ok (elim text [ [] ↦ match | _ ∷ _ ↦ no_match ])
wild_loop (suc fuel) pathname previous (p_ch ∷ rest) text =
    step (wild_loop fuel pathname) pathname previous p_ch rest text

unfoldable pub dowild : Bytes → Bytes → Bool → Matching
dowild p text pathname = wild_loop (suc (length p)) pathname none p text

unfoldable pub wildmatch : Bytes → Bytes → Bool → Outcome ⊥ Bool
wildmatch pattern text pathname = do
  matched ← dowild pattern text pathname
  ok (elim matched [ match ↦ true | _ ↦ false ])
