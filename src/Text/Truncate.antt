-- ===== src/Text/Truncate.antt =====
-- truncateUTF8 (internal/biz/summary_usecase.go): where it cuts.
use feedium.Prelude.{
  ℕ, zero, suc, [], ◌∷◌, ◌≤◌, ◌≡◌, refl, sym, ◌⊎◌, inl, inr, true, false, arith, leb, length, take,
  length-take, take_all, Bool-cases, ◌==◌, ==_iff,
}
use feedium.Text.{Text, starts_at, boundary, truncate_utf8}

boundary-le : (s : Text) (n : ℕ) → boundary s n ≤ n
unfolding boundary
boundary-le s zero = omega arith
boundary-le s (suc n) = ground (arith, boundary-le s n)

boundary-starts : (s : Text) (n : ℕ) → (boundary s n ≡ 0) ⊎ (starts_at s (boundary s n) ≡ true)
unfolding boundary
boundary-starts s zero = inl refl
boundary-starts s (suc n) = elim (Bool-cases (starts_at s (suc n))) [
  | inl e ↦ rw e (inr e)
  | inr e ↦ rw e (boundary-starts s n)
]

not_last :
    (s : Text) (n k : ℕ) → k ≤ suc n → starts_at s k ≡ true → starts_at s (suc n) ≡ false → k ≤ n
not_last s n k h e later = elim (Bool-cases (k == suc n)) [
  | inl same ↦ let last : starts_at s (suc n) ≡ true = rw (← (==_iff k (suc n)).0 same) e in cc
  | inr differs ↦ ground arith
]

boundary-most : (s : Text) (n k : ℕ) → k ≤ n → starts_at s k ≡ true → k ≤ boundary s n
unfolding boundary
boundary-most s zero k h e = h
boundary-most s (suc n) k h e = elim (Bool-cases (starts_at s (suc n))) [
  | inl here ↦ rw here h
  | inr later ↦ rw later (boundary-most s n k (not_last s n k h e later) e)
]

starts_at-length : (s : Text) → starts_at s (length s) ≡ true
starts_at-length [] = refl
starts_at-length (b ∷ bs) = starts_at-length bs

-- A cut of `s` at `k`: within the limit, before the start of a rune, and no later such cut is within
-- the limit.
pub record Cut (s : Text) (n k : ℕ) (t : Text) : Type 0 where
  pub prefix : t ≡ take k s
  pub inside : k ≤ length s
  pub within : k ≤ n
  pub starts : (k ≡ 0) ⊎ (starts_at s k ≡ true)
  pub most : (m : ℕ) → m ≤ n → m ≤ length s → starts_at s m ≡ true → m ≤ k

-- For any text and limit, the result is a prefix of the text of at most `n` bytes that ends at the
-- start of a rune or at the end of the text (or is empty), and no longer such prefix has at most
-- `n` bytes.
pub truncate_utf8-Cut : (s : Text) (n : ℕ) → (k : ℕ) × Cut s n k (truncate_utf8 s n)
unfolding truncate_utf8
truncate_utf8-Cut s n = elim (Bool-cases (leb (length s) n)) [
  | inl short ↦ rw short (
    length s,
    record {
      prefix = sym (take_all (length s) s (omega arith));
      inside = omega arith;
      within = ground arith;
      starts = inr (starts_at-length s);
      most = λ m _ h _. h;
    },
  )
  | inr long ↦ rw long (
    boundary s n,
    record {
      prefix = refl;
      inside = ground (arith, boundary-le s n);
      within = boundary-le s n;
      starts = boundary-starts s n;
      most = λ m h _ e. boundary-most s n m h e;
    },
  )
]

pub length-truncate_utf8 : (s : Text) (n : ℕ) → length (truncate_utf8 s n) ≤ n
length-truncate_utf8 s n =
    let (k, c) = truncate_utf8-Cut s n in
    let w = c.within in rw (c.prefix, length-take k s) (omega (arith, w))
