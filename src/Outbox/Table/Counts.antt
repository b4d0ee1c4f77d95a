-- ===== src/Outbox/Table/Counts.antt =====
-- Predicates on all rows, and how many rows pass a test, before and after an update.
use feedium.Prelude.{
  ◌+◌, ◌≤◌, ◌<◌, Bool, true, false, ◌≡◌, refl, List, [], ◌∷◌, ◌++◌, arith, any, Bool-cases, inl,
  inr, sym, All,
}
use mathlib.Core.List.{Memᴰ}
use feedium.Outbox.Table.{update_where, count}

module _ {ℓ} {R : Type ℓ} where
  -- An update cannot raise the number of rows that pass `q` if it makes no row pass `q`.
  pub count-update_where :
      (q p : R → Bool) (f : R → R) (t : List R)
      → All (λ r. p r ≡ true → q (f r) ≡ true → q r ≡ true) t
      → count q (update_where p f t) ≤ count q t
  count-update_where q p f [] keeps = omega arith
  count-update_where q p f (r ∷ rs) keeps =
      ground (arith, keeps.0, count-update_where q p f rs keeps.1)

  pub All-update_where {κ} :
      (P : R → Type κ) (p : R → Bool) (f : R → R) (t : List R)
      → All P t
      → All (λ r. p r ≡ true → P (f r)) t
      → All P (update_where p f t)
  All-update_where P p f [] a b = tt
  All-update_where P p f (r ∷ rs) a b = elim (Bool-cases (p r)) [
    | inl e ↦ rw e (b.0 e, All-update_where P p f rs a.1 b.1)
    | inr e ↦ rw e (a.0, All-update_where P p f rs a.1 b.1)
  ]

  pub All-updated {κ} :
      (P : R → Type κ) (p : R → Bool) (f : R → R) (t : List R)
      → All (λ r. (p r ≡ true → P (f r)) × (p r ≡ false → P r)) t
      → All P (update_where p f t)
  All-updated P p f [] a = tt
  All-updated P p f (r ∷ rs) a = elim (Bool-cases (p r)) [
    | inl e ↦ rw e (a.0.0 e, All-updated P p f rs a.1)
    | inr e ↦ rw e (a.0.1 e, All-updated P p f rs a.1)
  ]

  pub All-map {κ μ} :
      (P : R → Type κ) (Q : R → Type μ) (t : List R) → All P t → ((r : R) → P r → Q r) → All Q t
  All-map P Q [] a h = tt
  All-map P Q (r ∷ rs) a h = (h r a.0, All-map P Q rs a.1 h)

  pub All-zip {κ μ} :
      (P : R → Type κ) (Q : R → Type μ) (t : List R) → All P t → All Q t → All (λ r. P r × Q r) t
  All-zip P Q [] a b = tt
  All-zip P Q (r ∷ rs) a b = ((a.0, b.0), All-zip P Q rs a.1 b.1)

  pub All-intro {κ} : (P : R → Type κ) (t : List R) → ((r : R) → P r) → All P t
  All-intro P [] h = tt
  All-intro P (r ∷ rs) h = (h r, All-intro P rs h)

  All-absent :
      (q : R → Bool) (P : R → Type ℓ) (t : List R) → count q t ≡ 0 → All (λ r. q r ≡ true → P r) t
  All-absent q P [] h = tt
  All-absent q P (r ∷ rs) h = (λ e. absurd (ground arith), All-absent q P rs (ground arith))

  pub count-mem : (q : R → Bool) (t : List R) (c : R) → Memᴰ c t → q c ≡ true → 0 < count q t
  count-mem q [] c m qc = elim m [ ]
  count-mem q (r ∷ rs) c (Memᴰ.head e) qc = let qr : q r ≡ true = rw (← e) qc in ground arith
  count-mem q (r ∷ rs) c (Memᴰ.tail m) qc = ground (arith, count-mem q rs c m qc)

  -- Where at most one row passes, each row that passes is the one in hand.
  pub All-unique :
      (q : R → Bool) (t : List R) (c : R)
      → count q t ≤ 1
      → Memᴰ c t
      → q c ≡ true
      → All (λ r. q r ≡ true → r ≡ c) t
  All-unique q [] c h m qc = elim m [ ]
  All-unique q (r ∷ rs) c h (Memᴰ.head e) qc =
      let qr : q r ≡ true = rw (← e) qc in (λ _. sym e, All-absent q (λ x. x ≡ c) rs (ground arith))
  All-unique q (r ∷ rs) c h (Memᴰ.tail m) qc =
      (λ qr. absurd (ground (arith, count-mem q rs c m qc)), All-unique q rs c (ground arith) m qc)

  pub count-append : (q : R → Bool) (t u : List R) → count q (t ++ u) ≡ count q t + count q u
  count-append q [] u = omega arith
  count-append q (r ∷ rs) u = omega (arith, count-append q rs u)

  pub count_zero : (q : R → Bool) (t : List R) → any q t ≡ false → count q t ≡ 0
  count_zero q [] h = refl
  count_zero q (r ∷ rs) h = ground (arith, count_zero q rs)

  pub count-ne_zero : (q : R → Bool) (t : List R) → 0 < count q t → any q t ≡ true
  count-ne_zero q [] h = absurd (omega arith)
  count-ne_zero q (r ∷ rs) h = ground (arith, count-ne_zero q rs)
