-- ===== src/Attributes/Wildmatch/Decide.antt =====
-- Where `/` is a byte like any other, the matcher decides whether the text matches the pattern.
use webgit.Base.{ℕ, zero, suc, ◌<◌, arith, ◌≡◌, refl, Bytes, [], ◌∷◌, length}
use webgit.Base.{Bool, true, false, not, ◌&&◌, ◌==◌, ◌↔◌}
use mathlib.Core.Bool.{false≢true}
use webgit.Base.{Option, none, ok, err, panic, stuck, ◌>>=◌}
use webgit.Attributes.Bracket.{bracket}
use webgit.Attributes.Bracket.Runs.{bracket-Reads}
use webgit.Attributes.Wildmatch.{
  match, no_match, abort_all, abort_to_star_star, Matching, Next, in_bracket, step, wild_loop,
  dowild, wildmatch,
}
use webgit.Attributes.Wildmatch.Glob.{Matches, empty, takes_nothing}
use webgit.Attributes.Wildmatch.Sound.{Nonzero, Decides, Decides-if, abort-Sound}
use webgit.Attributes.Wildmatch.Star.{NextDecides, star-Decides}
use webgit.Attributes.Wildmatch.Heads.{
  behind_bracket-Decides, escaped-Decides, any-Decides, literal-Decides,
}

step-Decides :
    (next : Next) (previous : Option ℕ) (p_ch : ℕ) (rest text : Bytes)
    → NextDecides next (length rest)
    → Nonzero text
    → Decides (p_ch ∷ rest) text (step next false previous p_ch rest text)
unfolding step in_bracket
step-Decides next previous p_ch rest [] h n =
    Decides-if (p_ch ∷ rest) [] (not (p_ch == b'*')) _ _
      (λ e. abort-Sound rest p_ch (λ q. ground arith))
      (λ e. (let q : p_ch ≡ b'*' = ground arith in rw q (star-Decides next previous rest [] h n)))
step-Decides next previous p_ch rest (c ∷ text) h n =
    let p : Bytes = p_ch ∷ rest in
    let t : Bytes = c ∷ text in
    Decides-if p t (c == 0 && not (p_ch == b'*')) _ _ (λ e. absurd (n.0 (ground arith)))
      λ e0.
        Decides-if p t (p_ch == b'\\') _ _
          (λ e.
            (let q : p_ch ≡ b'\\' = ground arith in rw q (escaped-Decides next rest c text h n)))
          λ e1.
            Decides-if p t (p_ch == b'?') _ _
              (λ e. (let q : p_ch ≡ b'?' = ground arith in rw q (any-Decides next rest c text h n)))
              λ e2.
                Decides-if p t (p_ch == b'*') _ _
                  (λ e.
                    (let q : p_ch ≡ b'*' = ground arith in
                      rw q (star-Decides next previous rest t h n)))
                  λ e3.
                    Decides-if p t (p_ch == b'[') _ _
                      (λ e.
                        (let q : p_ch ≡ b'[' = ground arith in
                          rw q (
                            behind_bracket-Decides next rest c text (bracket rest) refl
                              (bracket-Reads rest) h n.1)))
                      (λ e4.
                        literal-Decides next p_ch rest c text (λ q. ground arith)
                          (λ q. ground arith) (λ q. ground arith) (λ q. ground arith) h n)

wild_loop-Decides : (fuel n : ℕ) → n < fuel → NextDecides (wild_loop fuel false) n
unfolding wild_loop
wild_loop-Decides zero n k previous p t h nt = absurd (omega arith)
wild_loop-Decides (suc fuel) n k previous [] [] h nt = empty
wild_loop-Decides (suc fuel) n k previous [] (c ∷ t) h nt = λ m. takes_nothing c t m
wild_loop-Decides (suc fuel) n k previous (c ∷ p) t h nt =
    step-Decides (wild_loop fuel false) previous c p t
      (λ previous q s l ns. wild_loop-Decides fuel (length p) (omega arith) previous q s l ns) nt

dowild-Decides :
    (pattern text : Bytes) → Nonzero text → Decides pattern text (dowild pattern text false)
unfolding dowild
dowild-Decides pattern text n =
    wild_loop-Decides (suc (length pattern)) (length pattern) (omega arith) none pattern text
      (omega arith) n

-- Without the boundary at `/`, the matcher comes to an answer on every pattern and every text that
-- holds no zero byte, and the answer is yes exactly if the text matches the pattern.
pub wildmatch-Matches :
    (pattern text : Bytes)
    → Nonzero text
    → (b : Bool) × (wildmatch pattern text false ≡ ok b) × ((b ≡ true) ↔ Matches pattern text)
unfolding wildmatch
wildmatch-Matches pattern text n = go (dowild pattern text false) (dowild-Decides pattern text n)
  where
    go :
        (m : Matching)
        → Decides pattern text m
        → (b : Bool) × ((m >>= λ matched. ok (elim matched [ match ↦ true | _ ↦ false ])) ≡ ok b)
          × ((b ≡ true) ↔ Matches pattern text)
    go (ok match) h = (true, refl, (λ e. h, λ m. refl))
    go (ok no_match) h = (false, refl, (λ e. absurd (false≢true e), λ m. absurd (h m)))
    go (ok abort_all) h = (false, refl, (λ e. absurd (false≢true e), λ m. absurd (h 0 m)))
    go (ok abort_to_star_star) h = absurd h
    go (err e) h = absurd h
    go panic h = absurd h
    go stuck h = absurd h
