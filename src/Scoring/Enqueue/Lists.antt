-- ===== src/Scoring/Enqueue/Lists.antt =====
-- Lists of identifiers as the candidate queries of internal/data/score_outbox_repo.go make them:
-- selected, distinct, cut by a limit.
use feedium.Prelude.{
  ℕ, zero, suc, ◌<◌, ◌≡◌, refl, Bool, true, false, not, Option, List, [], ◌∷◌, arith, any, length,
  take, select, ◌==◌, All, All-select, All-take, Bool-cases, inl, inr, Option-cases, ◌||◌,
}
use feedium.Outbox.Event.{is_some_eq}
use feedium.Scoring.Enqueue.{present, distinct}

abbrev pub IsDistinct : List ℕ → Type 0
IsDistinct [] = Unit
IsDistinct (x ∷ xs) = All (λ y. (y == x) ≡ false) xs × IsDistinct xs

-- The list holds the identifier.
abbrev pub has : ℕ → List ℕ → Bool
has p xs = any (λ q. q == p) xs

pub All-distinct {ℓ} : (P : ℕ → Type ℓ) (xs : List ℕ) → All P xs → All P (distinct xs)
All-distinct P [] a = tt
All-distinct P (x ∷ xs) a =
    (a.0, All-select P (λ y. not (y == x)) (distinct xs) (All-distinct P xs a.1))

-- What is selected passes the test.
pub selected : (p : ℕ → Bool) (xs : List ℕ) → All (λ x. p x ≡ true) (select p xs)
selected p [] = tt
selected p (x ∷ xs) = elim (Bool-cases (p x)) [
  | inl e ↦ rw e (e, selected p xs)
  | inr e ↦ rw e (selected p xs)
]

pub weaken {ℓ κ} :
    {P : ℕ → Type ℓ} {Q : ℕ → Type κ} (xs : List ℕ) → ((x : ℕ) → P x → Q x) → All P xs → All Q xs
weaken [] f a = tt
weaken (x ∷ xs) f a = (f x a.0, weaken xs f a.1)

IsDistinct-select : (p : ℕ → Bool) (xs : List ℕ) → IsDistinct xs → IsDistinct (select p xs)
IsDistinct-select p [] d = tt
IsDistinct-select p (x ∷ xs) d = elim (Bool-cases (p x)) [
  | inl e ↦ rw e (All-select (λ y. (y == x) ≡ false) p xs d.0, IsDistinct-select p xs d.1)
  | inr e ↦ rw e (IsDistinct-select p xs d.1)
]

pub distinct-IsDistinct : (xs : List ℕ) → IsDistinct (distinct xs)
distinct-IsDistinct [] = tt
distinct-IsDistinct (x ∷ xs) = (
  weaken (select (λ y. not (y == x)) (distinct xs)) (λ y h. ground arith)
      (selected (λ y. not (y == x)) (distinct xs)),
  IsDistinct-select (λ y. not (y == x)) (distinct xs) (distinct-IsDistinct xs),
)

pub take-IsDistinct : (n : ℕ) (xs : List ℕ) → IsDistinct xs → IsDistinct (take n xs)
take-IsDistinct zero xs d = tt
take-IsDistinct (suc n) [] d = tt
take-IsDistinct (suc n) (x ∷ xs) d =
    (All-take (λ y. (y == x) ≡ false) n xs d.0, take-IsDistinct n xs d.1)

pub has-select :
    (p : ℕ → Bool) (x : ℕ) (xs : List ℕ) → p x ≡ true → has x xs ≡ true → has x (select p xs) ≡ true
has-select p x [] px h = cc
has-select p x (y ∷ ys) px h = elim (Bool-cases (y == x)) [
  | inl e ↦ let same : y ≡ x = ground arith in let py : p y ≡ true = rw same px in rw (py, e) refl
  | inr e ↦ elim (Bool-cases (p y)) [
    | inl keep ↦ rw (keep, e) (has-select p x ys px (rw e at h))
    | inr drop ↦ rw drop (has-select p x ys px (rw e at h))
  ]
]

pub has-distinct : (x : ℕ) (xs : List ℕ) → has x xs ≡ true → has x (distinct xs) ≡ true
has-distinct x [] h = cc
has-distinct x (y ∷ ys) h = elim (Bool-cases (y == x)) [
  | inl e ↦ rw e refl
  | inr e ↦
      let other : not (x == y) ≡ true = ground arith in
      rw e (has-select (λ z. not (z == y)) x (distinct ys) other (has-distinct x ys (rw e at h)))
]

pub has-present :
    {R : Type 0} (column : R → Option ℕ) (x : ℕ) (rs : List R)
    → any (λ r. is_some_eq (column r) x) rs ≡ true
    → has x (present column rs) ≡ true
has-present column x [] h = cc
has-present column x (r ∷ rs) h = elim (Option-cases (column r)) [
  | inl e ↦ rw e (has-present column x rs (rw e at h))
  | inr (p, e) ↦
      let held : (p == x || any (λ q. is_some_eq (column q) x) rs) ≡ true = rw e at h in
      rw e (elim (Bool-cases (p == x)) [
        | inl same ↦ rw same refl
        | inr ne ↦ rw ne (has-present column x rs (rw ne at held))
      ])
]

-- A limit that is not reached leaves nothing out.
pub take_under : (n : ℕ) (xs : List ℕ) → length (take n xs) < n → take n xs ≡ xs
take_under zero xs h = absurd (omega arith)
take_under (suc n) [] h = refl
take_under (suc n) (x ∷ xs) h = rw (take_under n xs (omega arith)) refl
