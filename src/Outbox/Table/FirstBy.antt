-- ===== src/Outbox/Table/FirstBy.antt =====
-- The row that WHERE, ORDER BY and LIMIT 1 pick.
use feedium.Prelude.{
  ℕ, ◌≤◌, Bool, true, false, ◌≡◌, refl, Option, none, some, List, [], ◌∷◌, arith, any, Bool-cases,
  Option-cases, ◌⊎◌, inl, inr, sym, All,
}
use mathlib.Core.List.{Memᴰ}
use feedium.Outbox.Table.{first_by, better}

module _ {ℓ} {R : Type ℓ} where
  better_cases :
      (key : R → ℕ) (x : R) (o : Option R) {r : R}
      → better key x o ≡ some r
      → (x ≡ r) ⊎ (o ≡ some r)
  better_cases key x none h = ground arith
  better_cases key x (some q) h = ground arith

  -- The row that `first_by` returns passes the test and is in the table.
  pub first_by-Memᴰ :
      (key : R → ℕ) (p : R → Bool) (t : List R) (r : R)
      → first_by key p t ≡ some r
      → (p r ≡ true) × Memᴰ r t
  unfolding first_by
  first_by-Memᴰ key p [] r h = cc
  first_by-Memᴰ key p (x ∷ xs) r h = elim (Bool-cases (p x)) [
    | inr skip ↦ let (passes, m) = first_by-Memᴰ key p xs r (rw skip at h) in (passes, Memᴰ.tail m)
    | inl take ↦ elim (better_cases key x (first_by key p xs) (rw take at h)) [
      | inl e ↦ (rw (← e) take, Memᴰ.head (sym e))
      | inr later ↦ let (passes, m) = first_by-Memᴰ key p xs r later in (passes, Memᴰ.tail m)
    ]
  ]

  better-le :
      (key : R → ℕ) (x : R) (o : Option R) (r : R)
      → better key x o ≡ some r
      → (key r ≤ key x) × ((q : R) → o ≡ some q → key r ≤ key q)
  better-le key x none r h = (ground arith, λ q e. cc)
  better-le key x (some q) r h = (ground arith, λ y e. ground arith)

  pub first_by-none :
      (key : R → ℕ) (p : R → Bool) (t : List R) → first_by key p t ≡ none → any p t ≡ false
  unfolding first_by
  first_by-none key p [] h = refl
  first_by-none key p (x ∷ xs) h = ground (arith, first_by-none key p xs)

  All-lower :
      (key : R → ℕ) (p : R → Bool) (b c : ℕ) (t : List R)
      → c ≤ b
      → All (λ q. p q ≡ true → b ≤ key q) t
      → All (λ q. p q ≡ true → c ≤ key q) t
  All-lower key p b c [] h a = tt
  All-lower key p b c (x ∷ xs) h a = (λ e. omega (arith, a.0 e), All-lower key p b c xs h a.1)

  All-none :
      (key : R → ℕ) (p : R → Bool) (b : ℕ) (t : List R)
      → any p t ≡ false
      → All (λ q. p q ≡ true → b ≤ key q) t
  All-none key p b [] h = tt
  All-none key p b (x ∷ xs) h = (λ e. ground arith, All-none key p b xs (ground arith))

  -- No row that passes has a smaller key.
  pub first_by-le :
      (key : R → ℕ) (p : R → Bool) (t : List R) (r : R)
      → first_by key p t ≡ some r
      → All (λ q. p q ≡ true → key r ≤ key q) t
  unfolding first_by
  first_by-le key p [] r h = tt
  first_by-le key p (x ∷ xs) r h = elim (Bool-cases (p x)) [
    | inr skip ↦ (λ e. cc, first_by-le key p xs r (rw skip at h))
    | inl take ↦
        let chosen : better key x (first_by key p xs) ≡ some r = rw take at h in
        let least = better-le key x (first_by key p xs) r chosen in
        (
          λ e. least.0,
          elim (Option-cases (first_by key p xs)) [
            | inl empty ↦ All-none key p (key r) xs (first_by-none key p xs empty)
            | inr (q, e) ↦
                All-lower key p (key q) (key r) xs (least.1 q e) (first_by-le key p xs q e)
          ],
        )
  ]
