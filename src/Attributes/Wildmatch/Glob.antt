-- ===== src/Attributes/Wildmatch/Glob.antt =====
-- What it means for a text to match a pattern where `/` is a byte like any other, with no order of
-- search in it.
use webgit.Base.{ℕ, zero, suc, ◌+◌, arith, ◌≡◌, ◌≢◌, refl, Bytes, [], ◌∷◌, drop}
use webgit.Base.{Bool, false, ◌==◌, some, ok, sym, Bool-cases, inl, inr, drop-drop}
use webgit.Attributes.Bracket.{BytesSet, bracket}
use webgit.Attributes.Wildmatch.{is_glob_special, is_excluded, skip_stars}

pub data Matches : Bytes → Bytes → Type 0 where
  empty : Matches [] []
  literal :
      {c : ℕ} {p t : Bytes} → is_glob_special c ≡ false → Matches p t → Matches (c ∷ p) (c ∷ t)
  escaped : {b c : ℕ} {p t : Bytes} → b ≡ b'\\' → Matches p t → Matches (b ∷ c ∷ p) (c ∷ t)
  any : {b c : ℕ} {p t : Bytes} → b ≡ b'?' → Matches p t → Matches (b ∷ p) (c ∷ t)
  member :
      {b c : ℕ} {p q t : Bytes} {negated : Bool} {set : BytesSet}
      → b ≡ b'['
      → bracket p ≡ ok (some (negated, set, q))
      → is_excluded negated set c ≡ false
      → Matches q t
      → Matches (b ∷ p) (c ∷ t)
  leave : {b : ℕ} {p t : Bytes} → b ≡ b'*' → Matches p t → Matches (b ∷ p) t
  take : {b c : ℕ} {p t : Bytes} → b ≡ b'*' → Matches (b ∷ p) t → Matches (b ∷ p) (c ∷ t)

-- A pattern that starts with anything but a star takes a byte.
pub takes_byte : (b : ℕ) (p t : Bytes) → b ≢ b'*' → Matches (b ∷ p) t → t ≢ []
takes_byte b p _ ne (literal h m) = λ e. cc
takes_byte b p _ ne (escaped h m) = λ e. cc
takes_byte b p _ ne (any h m) = λ e. cc
takes_byte b p _ ne (member h e n m) = λ e. cc
takes_byte b p _ ne (leave h m) = absurd (ne h)
takes_byte b p _ ne (take h m) = λ e. cc

pub special_of :
    (c : ℕ) → is_glob_special c ≡ false → (c ≢ b'*') × (c ≢ b'?') × (c ≢ b'[') × (c ≢ b'\\')
unfolding is_glob_special
special_of c h = (λ e. ground arith, λ e. ground arith, λ e. ground arith, λ e. ground arith)

-- What each kind of head says of the byte it takes, and of the rest.
pub literal_inv :
    (c x : ℕ) (p t : Bytes)
    → c ≢ b'*'
    → c ≢ b'?'
    → c ≢ b'['
    → c ≢ b'\\'
    → Matches (c ∷ p) (x ∷ t)
    → (x ≡ c) × Matches p t
literal_inv c x p t l1 l2 l3 l4 (literal h m) = (refl, m)
literal_inv c x p t l1 l2 l3 l4 (escaped h m) = absurd (l4 h)
literal_inv c x p t l1 l2 l3 l4 (any h m) = absurd (l2 h)
literal_inv c x p t l1 l2 l3 l4 (member h e n m) = absurd (l3 h)
literal_inv c x p t l1 l2 l3 l4 (leave h m) = absurd (l1 h)
literal_inv c x p t l1 l2 l3 l4 (take h m) = absurd (l1 h)

pub escaped_inv :
    (x : ℕ) (p t : Bytes) → Matches (b'\\' ∷ p) (x ∷ t) → (q : Bytes) × (p ≡ x ∷ q) × Matches q t
escaped_inv x p t (literal h m) = absurd ((special_of _ h).3 refl)
escaped_inv x p t (escaped h m) = (_, refl, m)
escaped_inv x p t (any h m) = absurd (omega arith)
escaped_inv x p t (member h e n m) = absurd (omega arith)
escaped_inv x p t (leave h m) = absurd (omega arith)
escaped_inv x p t (take h m) = absurd (omega arith)

pub any_inv : (x : ℕ) (p t : Bytes) → Matches (b'?' ∷ p) (x ∷ t) → Matches p t
any_inv x p t (literal h m) = absurd ((special_of _ h).1 refl)
any_inv x p t (escaped h m) = absurd (omega arith)
any_inv x p t (any h m) = m
any_inv x p t (member h e n m) = absurd (omega arith)
any_inv x p t (leave h m) = absurd (omega arith)
any_inv x p t (take h m) = absurd (omega arith)

pub member_inv :
    (x : ℕ) (p t : Bytes)
    → Matches (b'[' ∷ p) (x ∷ t)
    → (negated : Bool) × (set : BytesSet) × (q : Bytes) × (bracket p ≡ ok (some (negated, set, q)))
      × (is_excluded negated set x ≡ false)
      × Matches q t
member_inv x p t (literal h m) = absurd ((special_of _ h).2 refl)
member_inv x p t (escaped h m) = absurd (omega arith)
member_inv x p t (any h m) = absurd (omega arith)
member_inv x p t (member h e n m) = (_, _, _, e, n, m)
member_inv x p t (leave h m) = absurd (omega arith)
member_inv x p t (take h m) = absurd (omega arith)

-- A star takes any number of bytes.
pub star_inv : (p t : Bytes) → Matches (b'*' ∷ p) t → (n : ℕ) × Matches p (drop n t)
star_inv p t (literal h m) = absurd ((special_of _ h).0 refl)
star_inv p t (escaped h m) = absurd (omega arith)
star_inv p t (any h m) = absurd (omega arith)
star_inv p t (member h e n m) = absurd (omega arith)
star_inv p t (leave h m) = (0, m)
star_inv p (c ∷ t) (take h m) = (let (n, d) = star_inv p t m in (suc n, d))

pub star_drop : (n : ℕ) (p t : Bytes) → Matches p (drop n t) → Matches (b'*' ∷ p) t
star_drop zero p t m = leave refl m
star_drop (suc n) p [] m = leave refl m
star_drop (suc n) p (c ∷ t) m = take refl (star_drop n p t m)

-- A run of stars is one star.
pub skip_stars-Matches : (p t : Bytes) → Matches (b'*' ∷ skip_stars p) t → Matches (b'*' ∷ p) t
unfolding skip_stars
skip_stars-Matches [] t m = m
skip_stars-Matches (c ∷ p) t m = elim (Bool-cases (c == b'*')) [
  | inl e ↦
      (let m' : Matches (b'*' ∷ skip_stars p) t = rw e at m in
        leave refl (let q : c ≡ b'*' = ground arith in rw q (skip_stars-Matches p t m')))
  | inr e ↦ (rw e at m)
]

star_star-Matches : (p t : Bytes) → Matches (b'*' ∷ b'*' ∷ p) t → Matches (b'*' ∷ p) t
star_star-Matches p t m =
    let (n, d) = star_inv (b'*' ∷ p) t m in
    let (k, d') = star_inv p (drop n t) d in star_drop (n + k) p t (rw (sym (drop-drop k n t)) d')

pub Matches-skip_stars : (p t : Bytes) → Matches (b'*' ∷ p) t → Matches (b'*' ∷ skip_stars p) t
unfolding skip_stars
Matches-skip_stars [] t m = m
Matches-skip_stars (c ∷ p) t m = elim (Bool-cases (c == b'*')) [
  | inl e ↦
      (let q : c ≡ b'*' = ground arith in
        rw e (Matches-skip_stars p t (star_star-Matches p t (rw q at m))))
  | inr e ↦ rw e m
]

pub plain : (c : ℕ) → c ≢ b'*' → c ≢ b'?' → c ≢ b'[' → c ≢ b'\\' → is_glob_special c ≡ false
unfolding is_glob_special
plain c l1 l2 l3 l4 = ground arith

pub takes_nothing : (c : ℕ) (t : Bytes) → ¬ Matches [] (c ∷ t)
takes_nothing c t m = elim m [ ]
