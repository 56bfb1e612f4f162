-- ===== src/Bundle/Window/Budget.antt =====
-- How small the deltas are that are kept, and how deep.
use webgit.Base.{
  ℕ, ◌+◌, ◌-◌, ◌*◌, ◌/◌, ◌%◌, ◌^◌, ◌≤◌, ◌<◌, arith, ◌≡◌, refl, Bytes, List, [], ◌∷◌, length,
}
use webgit.Base.{Bool, true, false, not, ◌||◌, leb, ltb, ◌==◌, Bool-cases, inl, inr}
use webgit.Base.{Option, none, some}
use native.Mathlib.Nat.{div-mul-le_self, mul-le-mul_right, le_of_mul-le-mul_right}
use webgit.Object.{ObjectType}
use webgit.Bundle.Window.{
  Engine, max_depth, Candidate, Delta, BaseIndex, build_index, first_budget, budget, is_worse,
  offer, offer_built, try_candidate, best_delta, same_type, unbuilt, unindexable, built,
}

-- Whatever the size limit, the engine keeps to it.
abbrev pub KeepsLimit : Engine → Type 0
KeepsLimit engine =
    (base target : Bytes) (limit : ℕ) (d : Bytes)
    → engine.delta base target limit ≡ some d
    → length d ≤ limit

-- A delta of at most half the object, less for each step of the chain below it.
abbrev pub IsSmall : ℕ → Option Delta → Type 0
IsSmall target_size none = Unit
IsSmall target_size (some best) =
    (1 ≤ best.depth)
    × (best.depth ≤ max_depth)
    × (length best.delta_data * max_depth ≤ (target_size - 40) / 2 * (max_depth + 1 - best.depth))

wrapped_quotient : (x y : ℕ) → x % 2 ^ 32 / y * y ≤ x
wrapped_quotient x y =
    let h = div-mul-le_self (x % 2 ^ 32) y in
    let k : x % 2 ^ 32 ≤ x = omega arith in omega (arith, h)

-- From a limit in parts of `y` to one in parts of 50.
rescale : (l x h y : ℕ) → 0 < y → l * max_depth ≤ h * y → l * x % 2 ^ 32 / y * max_depth ≤ h * x
rescale l x h y pos e =
    let q : ℕ = l * x % 2 ^ 32 / y in
    let a : q * y ≤ l * x = wrapped_quotient (l * x) y in
    let b : q * y * max_depth ≤ l * x * max_depth = mul-le-mul_right max_depth a in
    let c : l * max_depth * x ≤ h * y * x = mul-le-mul_right x e in
    le_of_mul-le-mul_right {k = y} (grind (arith, b, c)) pos

budget-le :
    (target_size depth : ℕ) (best : Option Delta)
    → IsSmall target_size best
    → budget target_size best depth * max_depth ≤ (target_size - 40) / 2 * (max_depth - depth)
unfolding budget first_budget
budget-le target_size depth none h =
    wrapped_quotient ((target_size - 40) / 2 * (max_depth - depth)) max_depth
budget-le target_size depth (some best) (h1, h2, h3) =
    let e : max_depth - best.depth + 1 ≡ max_depth + 1 - best.depth = omega arith in
    rw (budget, e)
      (rescale (length best.delta_data) (max_depth - depth) ((target_size - 40) / 2)
        (max_depth + 1 - best.depth) (omega arith) h3)

shallow : (b : Bool) (depth : ℕ) → (b || leb max_depth depth) ≡ false → depth < max_depth
shallow false depth e = ground arith
shallow true depth e = cc

module _ (engine : Engine) (keeps : KeepsLimit engine) where
  offer-IsSmall :
      (target_size : ℕ) (candidate : Candidate) (made : Option Bytes) (best : Option Delta)
      → candidate.depth < max_depth
      → ((d : Bytes)
          → made ≡ some d
          → length d * max_depth ≤ (target_size - 40) / 2 * (max_depth - candidate.depth))
      → IsSmall target_size best
      → IsSmall target_size (offer candidate made best)
  unfolding offer
  offer-IsSmall target_size candidate none best deep fits h = h
  offer-IsSmall target_size candidate (some d) best deep fits h =
      elim (Bool-cases (is_worse d candidate.depth best)) [
        | inl e ↦ rw e h
        | inr e ↦
            (let same : max_depth + 1 - (candidate.depth + 1) ≡ max_depth - candidate.depth =
                omega arith in
              rw (e, same) (omega arith, omega arith, fits d refl))
      ]

  offer_built-IsSmall :
      (body : Bytes) (candidate : Candidate) (best : Option Delta)
      → candidate.depth < max_depth
      → IsSmall (length body) best
      → IsSmall
          (length body)
          (offer_built engine body (budget (length body) best candidate.depth) candidate best)
  unfolding offer_built
  offer_built-IsSmall body candidate best deep h = go candidate.index
    where
      max_size : ℕ
      max_size = budget (length body) best candidate.depth

      go :
          (index : BaseIndex)
          → IsSmall (length body) (elim index [
            | built ↦ offer candidate (engine.delta candidate.body body max_size) best
            | unbuilt ↦ best
            | unindexable ↦ best
          ])
      go unbuilt = h
      go unindexable = h
      go built =
          offer-IsSmall (length body) candidate _ best deep
            (λ d e.
              let small = keeps candidate.body body max_size d e in
              let scaled : length d * max_depth ≤ max_size * max_depth =
                mul-le-mul_right max_depth small in
              let limit = budget-le (length body) candidate.depth best h in
              omega (arith, scaled, limit))
            h

  try_candidate-IsSmall :
      (object_type : ObjectType) (body : Bytes) (candidate : Candidate) (best : Option Delta)
      → IsSmall (length body) best
      → IsSmall (length body) (try_candidate engine object_type body candidate best).1
  unfolding try_candidate build_index
  try_candidate-IsSmall object_type body candidate best h =
      let max_size : ℕ = budget (length body) best candidate.depth in
      elim (Bool-cases
        (not (same_type candidate.object_type object_type) || leb max_depth candidate.depth)) [
          | inl e ↦ rw (try_candidate, e) h
          | inr e ↦
              elim (Bool-cases (
                max_size == 0
                || leb max_size (length body - length candidate.body)
                || ltb (length body) (length candidate.body / 32))) [
                  | inl f ↦ rw (try_candidate, e, f) h
                  | inr f ↦
                      rw (try_candidate, e, f)
                        (offer_built-IsSmall body (build_index engine candidate) best
                          (shallow _ candidate.depth e) h)
                ]
        ]

  -- The delta that is kept for an object is at most half as long as the object, less twenty bytes,
  -- and by a fiftieth of that less for each delta in the chain of its base; with it the chain is at
  -- most fifty deltas long.
  pub best_delta-IsSmall :
      (object_type : ObjectType) (body : Bytes) (window : List Candidate)
      → IsSmall (length body) (best_delta engine object_type body window).1
  unfolding best_delta
  best_delta-IsSmall object_type body [] = tt
  best_delta-IsSmall object_type body (candidate ∷ window) =
      try_candidate-IsSmall object_type body candidate _
        (best_delta-IsSmall object_type body window)
