-- ===== src/Attributes/Bracket/Runs.antt =====
-- A bracket is read in a bounded number of turns, and leaves a shorter pattern.
use webgit.Base.{ℕ, zero, suc, ◌+◌, ◌≤◌, ◌<◌, arith, ◌≡◌, Bytes, [], ◌∷◌, length, drop, length-drop}
use webgit.Base.{
  Bool-cases, Option-cases, inl, inr, ◌==◌, none, some, ok, ◌>>=◌, ◌||◌, err, panic, stuck, refl,
}
use webgit.Base.{if◌then◌else◌, Bool, false, Option, Outcome}
use webgit.Attributes.Bracket.{
  BytesSet, at, class_body, Member, member_escaped, member_range, member_class, member, members,
  bracket,
}

-- A turn that goes on leaves a part of what it was given.
abbrev Leaves : Member → ℕ → Type 0
Leaves none n = Unit
Leaves (some (p_ch, more, rest)) n = length rest ≤ n

member_escaped-Leaves : (rest : Bytes) → Leaves (member_escaped rest) (length rest)
unfolding member_escaped
member_escaped-Leaves rest = ground (arith, length-drop 1 rest)

member_range-Leaves :
    (prev_ch : ℕ) (rest : Bytes) → Leaves (member_range prev_ch rest) (length rest)
unfolding member_range
member_range-Leaves prev_ch rest = ground (arith, length-drop 1 rest, length-drop 2 rest)

member_class-Leaves : (rest : Bytes) → Leaves (member_class rest) (length rest)
unfolding member_class
member_class-Leaves rest = ground (arith, length-drop (length (class_body (drop 1 rest)) + 2) rest)

-- It does not go on past the end.
member-Leaves : (prev_ch c : ℕ) (rest : Bytes) → Leaves (member prev_ch (c ∷ rest)) (length rest)
unfolding member
member-Leaves prev_ch c rest =
    ground (
      arith,
      member_escaped-Leaves rest,
      member_range-Leaves prev_ch rest,
      member_class-Leaves rest,
    )

member_nil : (prev_ch : ℕ) → member prev_ch [] ≡ none
unfolding member
member_nil prev_ch = refl

-- The reading ends, with at most `n` bytes of the pattern left.
abbrev pub Reads {ℓ} : {A : Type ℓ} → (A → Bytes) → Outcome ⊥ (Option A) → ℕ → Type 0
Reads behind (ok none) n = Unit
Reads behind (ok (some found)) n = length (behind found) ≤ n
Reads behind (err e) n = ⊥
Reads behind panic n = ⊥
Reads behind stuck n = ⊥

members-Reads :
    (fuel prev_ch : ℕ) (set : BytesSet) (rest : Bytes) (n : ℕ)
    → length rest < fuel
    → length rest ≤ n
    → Reads (λ found. found.1) (members fuel prev_ch set rest) n
unfolding members
members-Reads zero prev_ch set rest n h k = absurd (omega arith)
members-Reads (suc fuel) prev_ch set [] n h k = rw (members, member_nil prev_ch) tt
members-Reads (suc fuel) prev_ch set (c ∷ rest) n h k =
    elim (Option-cases (member prev_ch (c ∷ rest))) [
      | inl e ↦ rw (members, e) tt
      | inr ((p_ch, more, rest'), e) ↦
          (let l : length rest' ≤ length rest = rw e at (member-Leaves prev_ch c rest) in
            elim (Bool-cases (at rest' 0 == b']')) [
              | inl t ↦ rw (members, e, t) (omega (arith, length-drop 1 rest'))
              | inr f ↦
                  rw (members, e, f) (members-Reads fuel p_ch _ rest' n (omega arith) (omega arith))
            ])
    ]

named : Bool → Outcome ⊥ (Option (BytesSet × Bytes)) → Outcome ⊥ (Option (Bool × BytesSet × Bytes))
named negated m = m >>= λ found.
    ok (elim found [ none ↦ none | some (set, behind) ↦ some (negated, set, behind) ])

named-Reads :
    (negated : Bool) (m : Outcome ⊥ (Option (BytesSet × Bytes))) (n : ℕ)
    → Reads (λ found. found.1) m n
    → Reads (λ found. found.2) (named negated m) n
unfolding named
named-Reads negated (ok none) n h = h
named-Reads negated (ok (some found)) n h = h
named-Reads negated (err e) n h = h
named-Reads negated panic n h = h
named-Reads negated stuck n h = h

pub bracket-Reads : (rest : Bytes) → Reads (λ found. found.2) (bracket rest) (length rest)
unfolding bracket named
bracket-Reads rest =
    let negated : Bool = at rest 0 == b'!' || at rest 0 == b'^' in
    let rest' : Bytes = if negated then drop 1 rest else rest in
    let shorter : length rest' ≤ length rest = ground (arith, length-drop 1 rest) in
    named-Reads negated _ _
      (members-Reads (suc (length rest')) 0 (λ c. false) rest' (length rest) (omega arith) shorter)
