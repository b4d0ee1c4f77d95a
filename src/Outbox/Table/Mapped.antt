-- ===== src/Outbox/Table/Mapped.antt =====
-- Tables seen through a function of their rows.
use mathlib.Core.Option
use feedium.Prelude.{
  ℕ, ◌≡◌, refl, Bool, true, false, Option, none, some, List, [], ◌∷◌, map, any, if◌then◌else◌,
  Bool-cases, inl, inr, leb, ◌++◌, All, ◌≤◌, arith,
}
use feedium.Outbox.Table.{update_where, count, first_by, better}

module _ {Q R : Type 0} (h : Q → R) where
  pub map-update_where :
      (p : Q → Bool) (f : Q → Q) (p' : R → Bool) (f' : R → R) (t : List Q)
      → ((r : Q) → p' (h r) ≡ p r)
      → ((r : Q) → f' (h r) ≡ h (f r))
      → map h (update_where p f t) ≡ update_where p' f' (map h t)
  map-update_where p f p' f' [] ep ef = refl
  map-update_where p f p' f' (r ∷ rs) ep ef = elim (Bool-cases (p r)) [
    | inl e ↦ rw (ep r, e, ef r, map-update_where p f p' f' rs ep ef) refl
    | inr e ↦ rw (ep r, e, map-update_where p f p' f' rs ep ef) refl
  ]

  pub any-map :
      (p : Q → Bool) (p' : R → Bool) (t : List Q)
      → ((r : Q) → p' (h r) ≡ p r)
      → any p' (map h t) ≡ any p t
  any-map p p' [] ep = refl
  any-map p p' (r ∷ rs) ep = rw (ep r, any-map p p' rs ep) refl

  pub count-map :
      (p : Q → Bool) (p' : R → Bool) (t : List Q)
      → ((r : Q) → p' (h r) ≡ p r)
      → count p' (map h t) ≡ count p t
  count-map p p' [] ep = refl
  count-map p p' (r ∷ rs) ep = rw (ep r, count-map p p' rs ep) refl

  better-map :
      (key : Q → ℕ) (key' : R → ℕ) (x : Q) (o : Option Q)
      → ((r : Q) → key' (h r) ≡ key r)
      → Option.map h (better key x o) ≡ better key' (h x) (Option.map h o)
  better-map key key' x none ek = refl
  better-map key key' x (some q) ek = rw (ek x, ek q) (choice (leb (key x) (key q)))
    where
      choice :
          (b : Bool)
          → Option.map h (if b then some x else some q) ≡ (if b then some (h x) else some (h q))
      choice true = refl
      choice false = refl

  pub first_by-map :
      (key : Q → ℕ) (key' : R → ℕ) (p : Q → Bool) (p' : R → Bool) (t : List Q)
      → ((r : Q) → key' (h r) ≡ key r)
      → ((r : Q) → p' (h r) ≡ p r)
      → Option.map h (first_by key p t) ≡ first_by key' p' (map h t)
  unfolding first_by
  first_by-map key key' p p' [] ek ep = refl
  first_by-map key key' p p' (r ∷ rs) ek ep = elim (Bool-cases (p r)) [
    | inl e ↦
        rw (ep r, e, ← first_by-map key key' p p' rs ek ep)
          (better-map key key' r (first_by key p rs) ek)
    | inr e ↦ rw (ep r, e) (first_by-map key key' p p' rs ek ep)
  ]

  -- The same, where the tests agree on the rows of the table only.
  pub any-map-All :
      (p : Q → Bool) (p' : R → Bool) (t : List Q)
      → All (λ r. p' (h r) ≡ p r) t
      → any p' (map h t) ≡ any p t
  any-map-All p p' [] ep = refl
  any-map-All p p' (r ∷ rs) ep = rw (ep.0, any-map-All p p' rs ep.1) refl

  pub map-append : (t u : List Q) → map h (t ++ u) ≡ map h t ++ map h u
  map-append [] u = refl
  map-append (r ∷ rs) u = rw (map-append rs u) refl

  pub count-map-le :
      (p : Q → Bool) (p' : R → Bool) (t : List Q)
      → All (λ r. p' (h r) ≡ true → p r ≡ true) t
      → count p' (map h t) ≤ count p t
  count-map-le p p' [] a = omega arith
  count-map-le p p' (r ∷ rs) a = ground (arith, a.0, count-map-le p p' rs a.1)

  pub count-le-map :
      (p : Q → Bool) (p' : R → Bool) (t : List Q)
      → All (λ r. p r ≡ true → p' (h r) ≡ true) t
      → count p t ≤ count p' (map h t)
  count-le-map p p' [] a = omega arith
  count-le-map p p' (r ∷ rs) a = ground (arith, a.0, count-le-map p p' rs a.1)

  pub All-mapped {κ μ} :
      (P : R → Type κ) (S : Q → Type μ) (t : List Q)
      → ((r : Q) → S r → P (h r))
      → All S t
      → All P (map h t)
  All-mapped P S [] f a = tt
  All-mapped P S (r ∷ rs) f a = (f r a.0, All-mapped P S rs f a.1)

  pub All-unmapped {κ μ} :
      (P : R → Type κ) (S : Q → Type μ) (t : List Q)
      → ((r : Q) → P (h r) → S r)
      → All P (map h t)
      → All S t
  All-unmapped P S [] f a = tt
  All-unmapped P S (r ∷ rs) f a = (f r a.0, All-unmapped P S rs f a.1)
