-- ===== src/Attributes/Bracket.antt =====
-- crates/gib-attributes/src/wildmatch.rs: the bracket expressions of a pattern.
-- A cursor into the pattern is the list of bytes from there on. What the code adds to `matched` for
-- the byte `t_ch` is a set of bytes here, since a bracket is read the same way whatever `t_ch` is.
pub mod Runs
use Prim.Native.Char.{code}
use Prim.Native.String.{String}
use webgit.Base.{ℕ, zero, suc, ◌+◌, Bytes, List, [], ◌∷◌, length, drop, get_or, if◌then◌else◌}
use webgit.Base.{Bool, true, false, not, ◌&&◌, ◌||◌, ltb, leb, ◌==◌, eq_bytes}
use webgit.Base.{Option, none, some, Outcome, ok, ◌>>=◌, stuck}

-- A set of bytes, by its test.
abbrev pub BytesSet : Type 0
BytesSet = ℕ → Bool

-- The closure `at`: past the end it is zero.
abbrev pub at : Bytes → ℕ → ℕ
at s i = get_or s i 0

-- A byte string literal.
abbrev pub codes : String → Bytes
codes String.[] = []
codes (String.◌∷◌ c s) = code c ∷ codes s

-- The tests of a byte that Rust's `u8` has.
abbrev within : ℕ → ℕ → BytesSet
within lo hi c = leb lo c && leb c hi

abbrev is_upper : BytesSet
is_upper = within b'A' b'Z'

abbrev is_lower : BytesSet
is_lower = within b'a' b'z'

abbrev is_digit : BytesSet
is_digit = within b'0' b'9'

abbrev is_control : BytesSet
is_control c = ltb c 32 || c == 127

abbrev is_punctuation : BytesSet
is_punctuation c = within 33 47 c || within 58 64 c || within 91 96 c || within 123 126 c

abbrev is_whitespace : BytesSet
is_whitespace c = c == b' ' || c == b'\t' || c == b'\n' || c == 12 || c == b'\r'

-- The classes, in the order of the code.
abbrev classes : List (Bytes × BytesSet)
classes =
    (codes "alnum", λ c. is_upper c || is_lower c || is_digit c)
    ∷ (codes "alpha", λ c. is_upper c || is_lower c)
    ∷ (codes "blank", λ c. c == b' ' || c == b'\t')
    ∷ (codes "cntrl", is_control)
    ∷ (codes "digit", is_digit)
    ∷ (codes "graph", within 33 126)
    ∷ (codes "lower", is_lower)
    ∷ (codes "print", λ c. ltb c 128 && not (is_control c))
    ∷ (codes "punct", is_punctuation)
    ∷ (codes "space", λ c. is_whitespace c || c == 11)
    ∷ (codes "upper", is_upper)
    ∷ (codes "xdigit", λ c. is_digit c || within b'a' b'f' c || within b'A' b'F' c)
    ∷ []

find_class : Bytes → List (Bytes × BytesSet) → Option BytesSet
find_class name [] = none
find_class name ((known, set) ∷ rest) =
    if eq_bytes name known then some set else find_class name rest

-- `p[start..end]`, up to a zero byte or a `]`.
class_body : Bytes → Bytes
class_body [] = []
class_body (c ∷ rest) = if c == 0 || c == b']' then [] else c ∷ class_body rest

-- `&p[start..end - 1]` where `end > start && p[end - 1] == b':'`.
class_name : Bytes → Option Bytes
class_name [] = none
class_name (c ∷ []) = if c == b':' then some [] else none
class_name (c ∷ d ∷ rest) = elim (class_name (d ∷ rest)) [
  | none ↦ none
  | some name ↦ some (c ∷ name)
]

-- What one turn of the loop does: `p_ch` after it, the bytes it sets `matched` for, and the pattern
-- behind it. `none` is `AbortAll`.
abbrev pub Member : Type 0
Member = Option (ℕ × BytesSet × Bytes)

member_escaped : Bytes → Member
member_escaped rest =
    let p_ch = at rest 0 in if p_ch == 0 then none else some (p_ch, ◌==◌ p_ch, drop 1 rest)

-- The end of a range, the byte after the `-`.
member_range : ℕ → Bytes → Member
member_range prev_ch rest =
    if at rest 0 == b'\\'
    then (if at rest 1 == 0 then none else some (0, within prev_ch (at rest 1), drop 2 rest))
    else some (0, within prev_ch (at rest 0), drop 1 rest)

-- Behind the `[` of `[:`.
member_class : Bytes → Member
member_class rest =
    let body = class_body (drop 1 rest) in
    if at rest (length body + 1) == 0 then none else elim (class_name body) [
      | some name ↦ elim (find_class name classes) [
        | some set ↦ some (0, set, drop (length body + 2) rest)
        | none ↦ none
      ]
      | none ↦ some (b'[', ◌==◌ b'[', rest)
    ]

member : ℕ → Bytes → Member
member prev_ch rest =
    let p_ch = at rest 0 in
    if p_ch == 0
    then none
    else if p_ch == b'\\'
    then member_escaped (drop 1 rest)
    else if p_ch == b'-' && not (prev_ch == 0) && not (at rest 1 == 0) && not (at rest 1 == b']')
    then member_range prev_ch (drop 1 rest)
    else if p_ch == b'[' && at rest 1 == b':'
    then member_class (drop 1 rest)
    else some (p_ch, ◌==◌ p_ch, drop 1 rest)

-- The do-while loop: the terminator is only recognised from the second character.
members : ℕ → ℕ → BytesSet → Bytes → Outcome ⊥ (Option (BytesSet × Bytes))
members zero prev_ch set rest = stuck
members (suc fuel) prev_ch set rest = elim (member prev_ch rest) [
  | none ↦ ok none
  | some (p_ch, more, rest') ↦
      let set' : BytesSet = λ c. set c || more c in
      elim (at rest' 0 == b']') [
        | true ↦ ok (some (set', drop 1 rest'))
        | false ↦ members fuel p_ch set' rest'
      ]
]

-- A bracket behind its `[`: whether it is negated, its members, and the pattern behind its `]`.
unfoldable pub bracket : Bytes → Outcome ⊥ (Option (Bool × BytesSet × Bytes))
unfolding members member member_class member_range member_escaped class_name class_body find_class
bracket rest = do
  let negated = at rest 0 == b'!' || at rest 0 == b'^'
  let rest' = if negated then drop 1 rest else rest
  found ← members (suc (length rest')) 0 (λ c. false) rest'
  ok (elim found [ none ↦ none | some (set, behind) ↦ some (negated, set, behind) ])
