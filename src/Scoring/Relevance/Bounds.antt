-- ===== src/Scoring/Relevance/Bounds.antt =====
-- The relevance of a post (internal/biz/score.go) and the cosines that it is made from.
use feedium.Prelude.{
  Bool, true, false, ◌≡◌, refl, sym, subst, ◌∙◌, ◌⊎◌, inl, inr, List, [], ◌∷◌, All, Bool-cases,
  if◌then◌else◌,
}
use feedium.Errors.{Result, ok, err}
use feedium.Scoring.Relevance.{
  Floats, Vector, cosine, best_of, best_with, clamp, clamped, relevance,
}

-- What the comparison of floating-point numbers keeps, NaN included.
pub record Ordered (floats : Floats) : Type 0 where
  pub irrefl : (a : floats.Float64) → floats.lt a a ≡ false
  pub trans :
      (a b c : floats.Float64) → floats.lt a b ≡ true → floats.lt b c ≡ true → floats.lt a c ≡ true
  pub zero_one : floats.lt floats.zero floats.one ≡ true

module _ (floats : Floats) (ordered : Ordered floats) where
  open floats use {Float64, zero, one, lt}

  asym : (a b : Float64) → lt a b ≡ true → lt b a ≡ false
  asym a b h = elim (Bool-cases (lt b a)) [
    | inl back ↦ let loop = ordered.trans a b a h back in let no = ordered.irrefl a in cc
    | inr e ↦ e
  ]

  -- No cosine is above the value.
  abbrev pub NoneAbove : Vector floats → List (Vector floats) → Float64 → Type 0
  NoneAbove post interests v =
      All (λ interest. (c : Float64) → cosine floats post interest ≡ ok c → lt v c ≡ false)
        interests

  abbrev AtLeast : Float64 → Float64 → Type 0
  AtLeast best v = (v ≡ best) ⊎ (lt best v ≡ true)

  not_above : (c v : Float64) → AtLeast c v → lt v c ≡ false
  not_above c v (inl e) = rw e (ordered.irrefl c)
  not_above c v (inr h) = asym c v h

  still_not_above : (best v c : Float64) → AtLeast best v → lt best c ≡ false → lt v c ≡ false
  still_not_above best v c (inl e) h = rw e h
  still_not_above best v c (inr up) h = elim (Bool-cases (lt v c)) [
    | inl over ↦ let through = ordered.trans best v c up over in cc
    | inr e ↦ e
  ]

  further : (best c v : Float64) → lt best c ≡ true → AtLeast c v → AtLeast best v
  further best c v h (inl e) = inr (rw e h)
  further best c v h (inr up) = inr (ordered.trans best c v h up)

  same_cosine : {r : Result Float64} {c d : Float64} → r ≡ ok c → r ≡ ok d → c ≡ d
  same_cosine e f = cc

  -- The best cosine is the start or above it, and no cosine is above it.
  abbrev Optimal : Vector floats → List (Vector floats) → Type 0
  Optimal post interests =
      (best v : Float64)
      → best_of floats post interests best ≡ ok v
      → AtLeast best v × NoneAbove post interests v

  module _ (post interest : Vector floats) (interests : List (Vector floats))
      (later : Optimal post interests) (best v : Float64) where
    chosen :
        (c : Float64) (b : Bool)
        → lt best c ≡ b
        → cosine floats post interest ≡ ok c
        → best_of floats post interests (if b then c else best) ≡ ok v
        → AtLeast best v × NoneAbove post (interest ∷ interests) v
    chosen c true up e h =
        let (least, none) = later c v h in
        (
          further best c v up least,
          (λ d f. subst (λ x. lt v x ≡ false) (same_cosine e f) (not_above c v least), none),
        )
    chosen c false down e h =
        let (least, none) = later best v h in
        (
          least,
          (
            λ d f.
                subst (λ x. lt v x ≡ false) (same_cosine e f) (still_not_above best v c least down),
            none,
          ),
        )

    step :
        (r : Result Float64)
        → cosine floats post interest ≡ r
        → best_with floats (best_of floats post interests) best r ≡ ok v
        → AtLeast best v × NoneAbove post (interest ∷ interests) v
    step (err e) q h = cc
    step (ok c) q h = chosen c (lt best c) refl q h

  best_of-Optimal :
      (post : Vector floats) (interests : List (Vector floats)) → Optimal post interests
  unfolding best_of
  best_of-Optimal post [] best v h = (inl (same_cosine refl (sym h)), tt)
  best_of-Optimal post (interest ∷ interests) best v h =
      step post interest interests (best_of-Optimal post interests) best v
        (cosine floats post interest) refl h

  abbrev pub InRange : Float64 → Type 0
  InRange v = (lt v zero ≡ false) × (lt one v ≡ false)

  pub zero-InRange : InRange zero
  zero-InRange = (ordered.irrefl zero, asym zero one ordered.zero_one)

  clamp-InRange : (b : Float64) → InRange (clamp floats b)
  clamp-InRange b = elim (Bool-cases (lt b zero)) [
    | inl low ↦
        rw (low, asym zero one ordered.zero_one)
          (ordered.irrefl zero, asym zero one ordered.zero_one)
    | inr pos ↦ elim (Bool-cases (lt one b)) [
      | inl high ↦ rw (pos, high) (asym zero one ordered.zero_one, ordered.irrefl one)
      | inr fits ↦ rw (pos, fits) (pos, fits)
    ]
  ]

  not_low : (b : Float64) → AtLeast zero b → lt b zero ≡ false
  not_low b least = not_above zero b least

  clamp_cases : (b : Float64) → AtLeast zero b → (clamp floats b ≡ one) ⊎ (clamp floats b ≡ b)
  clamp_cases b least = elim (Bool-cases (lt one b)) [
    | inl high ↦ inl (rw (not_low b least, high) refl)
    | inr fits ↦ inr (rw (not_low b least, fits) refl)
  ]

  clamped_bounds :
      (post : Vector floats) (interests : List (Vector floats)) (v : Float64) (r : Result Float64)
      → best_of floats post interests zero ≡ r
      → clamped floats r ≡ ok v
      → InRange v × ((v ≡ one) ⊎ NoneAbove post interests v)
  clamped_bounds post interests v (err e) q h = cc
  clamped_bounds post interests v (ok b) q h =
      let (least, none) = best_of-Optimal post interests zero b q in
      let same : clamp floats b ≡ v = same_cosine (sym h) refl in
      (
        subst InRange same (clamp-InRange b),
        elim (clamp_cases b least) [
          | inl top ↦ inl (sym same ∙ top)
          | inr kept ↦ inr (subst (NoneAbove post interests) (sym kept ∙ same) none)
        ],
      )

  -- Whatever the vectors, a relevance lies in [0, 1], and no cosine is above it unless it is 1.
  pub relevance_bounds :
      (post : Vector floats) (interests : List (Vector floats)) (v : Float64)
      → relevance floats post interests ≡ ok v
      → InRange v × ((v ≡ one) ⊎ NoneAbove post interests v)
  unfolding relevance
  relevance_bounds post [] v h = (subst InRange (same_cosine (sym h) refl) zero-InRange, inr tt)
  relevance_bounds post (interest ∷ interests) v h =
      clamped_bounds post (interest ∷ interests) v (best_of floats post (interest ∷ interests) zero)
        refl h
