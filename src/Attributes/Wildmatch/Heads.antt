-- ===== src/Attributes/Wildmatch/Heads.antt =====
-- Where `/` is a byte like any other: the heads of a pattern that take one byte.
use webgit.Base.{ℕ, arith, ◌≡◌, ◌≢◌, refl, sym, ap, ◌∙◌, Bytes, [], ◌∷◌, length, drop, subst}
use webgit.Base.{Bool, true, false, ◌||◌, ◌==◌, if◌then◌else◌}
use mathlib.Core.Bool.{false≢true}
use webgit.Base.{Option, none, some, Outcome, ok, err, panic, stuck, ◌>>=◌}
use webgit.Attributes.Bracket.{at, BytesSet, bracket}
use webgit.Attributes.Bracket.Runs.{Reads}
use webgit.Attributes.Wildmatch.{no_match, Next, is_excluded, behind_bracket}
use webgit.Attributes.Wildmatch.Glob.{
  Matches, literal, escaped, any, member, takes_byte, literal_inv, escaped_inv, any_inv, member_inv,
  plain,
}
use webgit.Attributes.Wildmatch.Sound.{Nonzero, Decides, Decides-if, Decides-map, consume-Sound}
use webgit.Attributes.Wildmatch.Star.{NextDecides}

or_false : (b : Bool) → (b || false) ≡ b
or_false true = refl
or_false false = refl

abbrev Found : Type 0
Found = Outcome ⊥ (Option (Bool × BytesSet × Bytes))

abbrev triple : Found → Bool × BytesSet × Bytes
triple (ok (some found)) = found
triple _ = (false, λ c. false, [])

-- The one way in which a bracket takes a byte.
member_only :
    (rest q t : Bytes) (x : ℕ) (negated : Bool) (set : BytesSet)
    → bracket rest ≡ ok (some (negated, set, q))
    → Matches (b'[' ∷ rest) (x ∷ t)
    → (is_excluded negated set x ≡ false) × Matches q t
member_only rest q t x negated set e m =
    let (negated', set', q', e', n, d) = member_inv x rest t m in
    let same : ◌≡◌ {A = Bool × BytesSet × Bytes} (negated', set', q') (negated, set, q) =
      ap triple (sym e' ∙ e) in
    (
      sym (ap (λ (f : Bool × BytesSet × Bytes). is_excluded f.0 f.1 x) same) ∙ n,
      subst (λ q. Matches q t) (ap (λ (f : Bool × BytesSet × Bytes). f.2) same) d,
    )

member_none : (rest t : Bytes) → bracket rest ≡ ok none → ¬ Matches (b'[' ∷ rest) t
member_none rest [] e m = takes_byte b'[' rest [] (omega arith) m refl
member_none rest (x ∷ t) e m = (let (negated, set, q, e', n, d) = member_inv x rest t m in cc)

pub behind_bracket-Decides :
    (next : Next) (rest : Bytes) (c : ℕ) (text : Bytes) (m : Found)
    → bracket rest ≡ m
    → Reads (λ found. found.2) m (length rest)
    → NextDecides next (length rest)
    → Nonzero text
    → Decides (b'[' ∷ rest) (c ∷ text) (m >>= behind_bracket next false c text)
unfolding behind_bracket
behind_bracket-Decides next rest c text (ok none) e r h n = λ k m. member_none rest _ e m
behind_bracket-Decides next rest c text (ok (some (negated, set, q))) e r h n =
    Decides-if (b'[' ∷ rest) (c ∷ text) (is_excluded negated set c || false) _ _
      (λ x m.
        (let (l, d) = member_only rest q text c negated set e m in
          false≢true (sym l ∙ sym (or_false _) ∙ x)))
      (λ x.
        Decides-map q text (b'[' ∷ rest) (c ∷ text) _
          (λ o.
            consume-Sound o (b'[' ∷ rest) q c text (λ s. takes_byte b'[' rest s (omega arith))
              (λ x s m. (member_only rest q s x negated set e m).1)
              (λ m. member refl e (sym (or_false _) ∙ x) m))
          (h (some b']') q text r n))
behind_bracket-Decides next rest c text (err f) e r h n = absurd f
behind_bracket-Decides next rest c text panic e r h n = absurd r
behind_bracket-Decides next rest c text stuck e r h n = absurd r

pub escaped-Decides :
    (next : Next) (rest : Bytes) (c : ℕ) (text : Bytes)
    → NextDecides next (length rest)
    → Nonzero (c ∷ text)
    → Decides
        (b'\\' ∷ rest)
        (c ∷ text)
        (if c == at rest 0 then next (some c) (drop 1 rest) text else ok no_match)
escaped-Decides next [] c text h (n, ns) =
    Decides-if (b'\\' ∷ []) (c ∷ text) (c == 0) _ _ (λ e. absurd (n (ground arith)))
      (λ e m. (let (q, f, d) = escaped_inv c [] text m in cc))
escaped-Decides next (x ∷ rest) c text h (n, ns) =
    Decides-if (b'\\' ∷ x ∷ rest) (c ∷ text) (c == x) _ _
      (λ e.
        (let q : x ≡ c = ground arith in
          Decides-map rest text (b'\\' ∷ x ∷ rest) (c ∷ text) _
            (λ o.
              consume-Sound o (b'\\' ∷ x ∷ rest) rest c text
                (λ s. takes_byte b'\\' (x ∷ rest) s (omega arith))
                (λ y s m. (let (r, f, d) = escaped_inv y (x ∷ rest) s m in rw (ap (drop 1) f) d))
                (λ m. rw q (escaped refl m)))
            (h (some c) rest text (omega arith) ns)))
      (λ e m.
        (let (r, f, d) = escaped_inv c (x ∷ rest) text m in
          let f' : x ≡ c = ap (λ (s : Bytes). at s 0) f in absurd (ground arith)))

pub any-Decides :
    (next : Next) (rest : Bytes) (c : ℕ) (text : Bytes)
    → NextDecides next (length rest)
    → Nonzero (c ∷ text)
    → Decides (b'?' ∷ rest) (c ∷ text) (next (some b'?') rest text)
any-Decides next rest c text h (n, ns) =
    Decides-map rest text (b'?' ∷ rest) (c ∷ text) _
      (λ o.
        consume-Sound o (b'?' ∷ rest) rest c text (λ s. takes_byte b'?' rest s (omega arith))
          (λ x s m. any_inv x rest s m) (λ m. any refl m))
      (h (some b'?') rest text (omega arith) ns)

pub literal-Decides :
    (next : Next) (p_ch : ℕ) (rest : Bytes) (c : ℕ) (text : Bytes)
    → p_ch ≢ b'*'
    → p_ch ≢ b'?'
    → p_ch ≢ b'['
    → p_ch ≢ b'\\'
    → NextDecides next (length rest)
    → Nonzero (c ∷ text)
    → Decides
        (p_ch ∷ rest)
        (c ∷ text)
        (if c == p_ch then next (some p_ch) rest text else ok no_match)
literal-Decides next p_ch rest c text l1 l2 l3 l4 h (n, ns) =
    Decides-if (p_ch ∷ rest) (c ∷ text) (c == p_ch) _ _
      (λ e.
        (let q : c ≡ p_ch = ground arith in
          Decides-map rest text (p_ch ∷ rest) (c ∷ text) _
            (λ o.
              consume-Sound o (p_ch ∷ rest) rest c text (λ s. takes_byte p_ch rest s l1)
                (λ x s m. (literal_inv p_ch x rest s l1 l2 l3 l4 m).1)
                (λ m. rw q (literal (plain p_ch l1 l2 l3 l4) m)))
            (h (some p_ch) rest text (omega arith) ns)))
      (λ e m.
        (let q : c ≡ p_ch = (literal_inv p_ch c rest text l1 l2 l3 l4 m).0 in
          absurd (ground arith)))
