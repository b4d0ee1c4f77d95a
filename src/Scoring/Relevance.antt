-- ===== src/Scoring/Relevance.antt =====
-- Cosine and Relevance (internal/biz/score.go). The floating-point numbers are an interface: their
-- arithmetic is the machine's.
pub mod Bounds
use feedium.Prelude.{ℕ, Bool, ◌||◌, List, [], ◌∷◌, ◌==◌, length, if◌then◌else◌}
use feedium.Errors.{Err, sentinel, detail, score_validation, Result, ok, err}

-- float64, and the float32 components of a vector. `lt` is the comparison of the language, in which
-- a NaN is not less than anything and nothing is less than a NaN.
pub record Floats : Type 1 where
  pub Float64 : Type 0
  pub Float32 : Type 0
  pub widen : Float32 → Float64
  pub zero : Float64
  pub one : Float64
  pub add : Float64 → Float64 → Float64
  pub mul : Float64 → Float64 → Float64
  pub div : Float64 → Float64 → Float64
  pub sqrt : Float64 → Float64
  pub eq : Float64 → Float64 → Bool
  pub lt : Float64 → Float64 → Bool

module _ (floats : Floats) where
  open floats use {Float64, Float32, widen, zero, one, add, mul, div, sqrt, eq, lt}

  abbrev pub Vector : Type 0
  Vector = List Float32

  -- The sums of the products and of the squares, over the components of `a`; Cosine has compared
  -- the lengths before.
  unfoldable pub sums : Float64 → Float64 → Float64 → Vector → Vector → Float64 × Float64 × Float64
  sums dot na nb (x ∷ xs) (y ∷ ys) =
      sums (add dot (mul (widen x) (widen y))) (add na (mul (widen x) (widen x)))
        (add nb (mul (widen y) (widen y))) xs ys
  sums dot na nb _ _ = (dot, na, nb)

  abbrev quotient : Float64 × Float64 × Float64 → Float64
  quotient (dot, na, nb) =
      if eq na zero || eq nb zero then zero else div dot (mul (sqrt na) (sqrt nb))

  abbrev is_empty : Vector → Bool
  is_empty a = length a == 0

  unfoldable pub cosine : Vector → Vector → Result Float64
  unfolding sums
  cosine a b =
      if is_empty a || is_empty b
      then err (detail (sentinel score_validation) "empty embedding vector")
      else if length a == length b
      then ok (quotient (sums zero zero zero a b))
      else err (detail (sentinel score_validation) "embedding dimension mismatch")

  abbrev pub best_with : (Float64 → Result Float64) → Float64 → Result Float64 → Result Float64
  best_with next best (err e) = err e
  best_with next best (ok c) = next (if lt best c then c else best)

  -- The loop over the interests, with the best cosine so far.
  unfoldable pub best_of : Vector → List Vector → Float64 → Result Float64
  unfolding cosine
  best_of post [] best = ok best
  best_of post (interest ∷ interests) best =
      best_with (best_of post interests) best (cosine post interest)

  abbrev pub clamp : Float64 → Float64
  clamp best = let low = if lt best zero then zero else best in if lt one low then one else low

  abbrev pub clamped : Result Float64 → Result Float64
  clamped (err e) = err e
  clamped (ok best) = ok (clamp best)

  unfoldable pub relevance : Vector → List Vector → Result Float64
  unfolding best_of
  relevance post [] = ok zero
  relevance post (interest ∷ interests) = clamped (best_of post (interest ∷ interests) zero)
