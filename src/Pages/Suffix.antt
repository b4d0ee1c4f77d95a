-- ===== src/Pages/Suffix.antt =====
-- The rows after a cursor, in a sorted list (keyset pagination of internal/data/post_repo.go).
use feedium.Prelude.{
  Bool, true, false, ◌≡◌, refl, sym, ap, inl, inr, List, [], ◌∷◌, ◌++◌, select, All, All-select,
  Bool-cases, arith, if◌then◌else◌,
}
use feedium.Pages.{insert, sort, IsSorted, Apart, IsApart}

-- What holds of all rows holds of them in order.
module _ {R : Type 0} (lt : R → R → Bool) where
  All-insert : (P : R → Type 0) (x : R) (ys : List R) → P x → All P ys → All P (insert lt x ys)
  All-insert P x [] h a = (h, tt)
  All-insert P x (y ∷ ys) h a = elim (Bool-cases (lt x y)) [
    | inl e ↦ rw e (h, (a.0, a.1))
    | inr e ↦ rw e (a.0, All-insert P x ys h a.1)
  ]

  pub All-sort : (P : R → Type 0) (t : List R) → All P t → All P (sort lt t)
  unfolding sort
  All-sort P [] a = tt
  All-sort P (x ∷ xs) a = All-insert P x (sort lt xs) a.0 (All-sort P xs a.1)

module _ {R : Type 0} (lt : R → R → Bool) (irrefl : (a : R) → lt a a ≡ false)
    (trans : (a b c : R) → lt a b ≡ true → lt b c ≡ true → lt a c ≡ true) where
  asym : (a b : R) → lt a b ≡ true → lt b a ≡ false
  asym a b h = elim (Bool-cases (lt b a)) [
    | inl back ↦ let loop = trans a b a h back in let no = irrefl a in cc
    | inr e ↦ e
  ]

  All-trans :
      (x y : R) (ys : List R)
      → lt x y ≡ true
      → All (λ z. lt y z ≡ true) ys
      → All (λ z. lt x z ≡ true) ys
  All-trans x y [] h a = tt
  All-trans x y (z ∷ zs) h a = (trans x y z h a.0, All-trans x y zs h a.1)

  select-none :
      (c : R) (xs : List R)
      → All (λ x. lt c x ≡ false) xs
      → (ys : List R) → select (lt c) (xs ++ ys) ≡ select (lt c) ys
  select-none c [] a ys = refl
  select-none c (x ∷ xs) a ys = rw a.0 (select-none c xs a.1 ys)

  select-All : (p : R → Bool) (ys : List R) → All (λ y. p y ≡ true) ys → select p ys ≡ ys
  select-All p [] a = refl
  select-All p (y ∷ ys) a = rw (a.0, select-All p ys a.1)

  -- In a sorted list, the rows after a cursor are those that follow its row.
  pub select-after :
      (xs : List R) (c : R) (ys : List R)
      → IsSorted lt (xs ++ c ∷ ys)
      → select (lt c) (xs ++ c ∷ ys) ≡ ys
  select-after [] c ys s = rw (irrefl c, select-All (lt c) ys s.0)
  select-after (x ∷ xs) c ys s = rw (asym x c (middle x xs c ys s.0)) (select-after xs c ys s.1)
    where
      middle :
          (x : R) (xs : List R) (c : R) (ys : List R)
          → All (λ y. lt x y ≡ true) (xs ++ c ∷ ys)
          → lt x c ≡ true
      middle x [] c ys a = a.0
      middle x (z ∷ zs) c ys a = middle x zs c ys a.1

  -- Sorting commutes with selecting.
  insert-head : (x : R) (ys : List R) → All (λ y. lt x y ≡ true) ys → insert lt x ys ≡ x ∷ ys
  insert-head x [] a = refl
  insert-head x (y ∷ ys) a = rw a.0

  push :
      (p : R → Bool) (x y : R) (l : List R)
      → lt x y ≡ false
      → y ∷ (if p x then insert lt x l else l) ≡ (if p x then insert lt x (y ∷ l) else y ∷ l)
  push p x y l after = elim (Bool-cases (p x)) [ inl e ↦ rw (e, after) refl | inr e ↦ rw e refl ]

  select-insert :
      (p : R → Bool) (x : R) (ys : List R)
      → IsSorted lt ys
      → select p (insert lt x ys) ≡ (if p x then insert lt x (select p ys) else select p ys)
  select-insert p x [] s = ground arith
  select-insert p x (y ∷ ys) s = elim (Bool-cases (lt x y)) [
    | inl before ↦
        let head =
          insert-head x (select p (y ∷ ys))
            (All-select (λ z. lt x z ≡ true) p (y ∷ ys) (before, All-trans x y ys before s.0)) in
        rw before (ap (λ l. if p x then l else select p (y ∷ ys)) (sym head))
    | inr after ↦ elim (Bool-cases (p y)) [
      | inl keep ↦ rw (after, keep, select-insert p x ys s.1) (push p x y (select p ys) after)
      | inr drop ↦ rw (after, drop, select-insert p x ys s.1) refl
    ]
  ]

  insert-IsSorted :
      (x : R) (ys : List R) → All (Apart lt x) ys → IsSorted lt ys → IsSorted lt (insert lt x ys)
  insert-IsSorted x [] a s = (tt, tt)
  insert-IsSorted x (y ∷ ys) a s = elim (Bool-cases (lt x y)) [
    | inl before ↦ rw before ((before, All-trans x y ys before s.0), s)
    | inr after ↦ rw after (
      All-insert lt (λ z. lt y z ≡ true) x ys (elim a.0 [ inl e ↦ cc | inr e ↦ e ]) s.0,
      insert-IsSorted x ys a.1 s.1,
    )
  ]

  -- Rows of which each two are ordered are sorted by `sort`.
  pub sort-IsSorted : (t : List R) → IsApart lt t → IsSorted lt (sort lt t)
  unfolding sort
  sort-IsSorted [] a = tt
  sort-IsSorted (x ∷ xs) a =
      insert-IsSorted x (sort lt xs) (All-sort lt (Apart lt x) xs a.0) (sort-IsSorted xs a.1)

  pub select-sort :
      (p : R → Bool) (t : List R) → IsApart lt t → sort lt (select p t) ≡ select p (sort lt t)
  unfolding sort
  select-sort p [] a = refl
  select-sort p (x ∷ xs) a = elim (Bool-cases (p x)) [
    | inl e ↦
        rw (select-insert p x (sort lt xs) (sort-IsSorted xs a.1), e, select-sort p xs a.1) refl
    | inr e ↦
        rw (select-insert p x (sort lt xs) (sort-IsSorted xs a.1), e, select-sort p xs a.1) refl
  ]

  pub IsApart-select : (p : R → Bool) (t : List R) → IsApart lt t → IsApart lt (select p t)
  IsApart-select p [] a = tt
  IsApart-select p (x ∷ xs) a = elim (Bool-cases (p x)) [
    | inl e ↦ rw e (All-select (Apart lt x) p xs a.0, IsApart-select p xs a.1)
    | inr e ↦ rw e (IsApart-select p xs a.1)
  ]
