-- ===== src/Pages/Order.antt =====
-- The keys of a listing: the cursor's order, and lists cut into pages.
use feedium.Prelude.{
  ℕ, zero, suc, ◌≤◌, ◌<◌, ◌≡◌, refl, ap, subst, ◌∙◌, ◌⊎◌, Bool, true, false, ◌==◌, Option, none,
  some, List, [], ◌∷◌, ◌++◌, map, arith, length, take, select, All, All-select, All-take,
  Bool-cases, inl, inr,
}
use feedium.Pages.{
  sort, last_of, IsSorted, Apart, IsApart, key_before, after_key, listed_before, fetch,
}
use feedium.Pages.Suffix.{All-sort, select-after, sort-IsSorted, select-sort}

key_before_irrefl : (desc : Bool) (v i : ℕ) → key_before desc v i v i ≡ false
key_before_irrefl true v i = ground arith
key_before_irrefl false v i = ground arith

key_before_trans :
    (desc : Bool) (u i v j w k : ℕ)
    → key_before desc u i v j ≡ true
    → key_before desc v j w k ≡ true
    → key_before desc u i w k ≡ true
key_before_trans true u i v j w k h1 h2 = ground arith
key_before_trans false u i v j w k h1 h2 = ground arith

-- Two keys with different ids are ordered.
key_before_total :
    (desc : Bool) (u i v j : ℕ)
    → (i == j) ≡ false
    → (key_before desc u i v j ≡ true) ⊎ (key_before desc v j u i ≡ true)
key_before_total true u i v j h = ground arith
key_before_total false u i v j h = ground arith

module _ {R : Type 0} (id : R → ℕ) where
  -- No two rows have the same id.
  abbrev pub HasIds : List R → Type 0
  HasIds [] = Unit
  HasIds (r ∷ rs) = All (λ q. (id r == id q) ≡ false) rs × HasIds rs

  pub HasIds-select : (p : R → Bool) (t : List R) → HasIds t → HasIds (select p t)
  HasIds-select p [] h = tt
  HasIds-select p (r ∷ t) h = elim (Bool-cases (p r)) [
    | inl e ↦ rw e (All-select (λ q. (id r == id q) ≡ false) p t h.0, HasIds-select p t h.1)
    | inr e ↦ rw e (HasIds-select p t h.1)
  ]

module _ {R : Type 0} (value id : R → ℕ) (desc : Bool) where
  abbrev before : R → R → Bool
  before = listed_before value id desc

  irrefl : (a : R) → before a a ≡ false
  irrefl a = key_before_irrefl desc (value a) (id a)

  trans : (a b c : R) → before a b ≡ true → before b c ≡ true → before a c ≡ true
  trans a b c = key_before_trans desc (value a) (id a) (value b) (id b) (value c) (id c)

  All-Apart : (r : R) (t : List R) → All (λ q. (id r == id q) ≡ false) t → All (Apart before r) t
  All-Apart r [] a = tt
  All-Apart r (q ∷ t) a =
      (key_before_total desc (value r) (id r) (value q) (id q) a.0, All-Apart r t a.1)

  pub IsApart-ids : (t : List R) → HasIds id t → IsApart before t
  IsApart-ids [] h = tt
  IsApart-ids (r ∷ t) h = (All-Apart r t h.0, IsApart-ids t h.1)

  -- The rows after the cursor of a row, sorted, are those that follow it.
  pub sort-after :
      (xs : List R) (c : R) (ys t : List R)
      → HasIds id t
      → sort before t ≡ xs ++ c ∷ ys
      → sort before (select (before c) t) ≡ ys
  sort-after xs c ys t ids e =
      let apart = IsApart-ids t ids in
      rw (select-sort before irrefl trans (before c) t apart, e)
        (select-after before irrefl trans xs c ys
          (subst (IsSorted before) e (sort-IsSorted before irrefl trans t apart)))

-- What holds of all rows holds of the fetched ones.
pub All-fetch :
    {R : Type 0} (value id : R → ℕ) (desc : Bool) (P : R → Type 0) (cursor : Option (ℕ × ℕ))
    (limit : ℕ) (t : List R)
    → All P t
    → All P (fetch value id desc cursor limit t)
All-fetch value id desc P none limit t a =
    All-take P limit _ (All-sort (listed_before value id desc) P t a)
All-fetch value id desc P (some (v, i)) limit t a =
    All-take P limit _
      (All-sort (listed_before value id desc) P _ (All-select P (after_key value id desc v i) t a))

pub take-split :
    {R : Type 0} (j : ℕ) (m : List R)
    → suc j < length m
    → (init : List R) × (c : R) × (rest : List R) × (m ≡ init ++ c ∷ rest)
      × (take (suc j) m ≡ init ++ c ∷ [])
      × (suc (length rest) ≤ length m)
take-split j [] h = absurd (omega arith)
take-split zero (c ∷ rest) h = ([], c, rest, refl, refl, omega arith)
take-split (suc j) (x ∷ m) h =
    let (init, c, rest, e, t, b) = take-split j m (omega arith) in
    (x ∷ init, c, rest, ap (λ l. x ∷ l) e, ap (λ l. x ∷ l) t, omega arith)

pub last_of-append : {R : Type 0} (init : List R) (c : R) → last_of (init ++ c ∷ []) ≡ some c
last_of-append [] c = refl
last_of-append (x ∷ []) c = refl
last_of-append (x ∷ y ∷ init) c = last_of-append (y ∷ init) c

pub take-take : {R : Type 0} (k : ℕ) (m : List R) → take k (take (suc k) m) ≡ take k m
take-take zero m = refl
take-take (suc k) [] = refl
take-take (suc k) (x ∷ m) = rw (take-take k m)

pub map-append :
    {A B : Type 0} (f : A → B) (xs ys : List A) → map f xs ++ map f ys ≡ map f (xs ++ ys)
map-append f [] ys = refl
map-append f (x ∷ xs) ys = rw (map-append f xs ys)

pub append_assoc : {R : Type 0} (xs ys zs : List R) → (xs ++ ys) ++ zs ≡ xs ++ (ys ++ zs)
append_assoc [] ys zs = refl
append_assoc (x ∷ xs) ys zs = rw (append_assoc xs ys zs)

pub through :
    {R : Type 0} (xs init : List R) (c : R) (rest : List R)
    → (xs ++ (init ++ c ∷ [])) ++ rest ≡ xs ++ (init ++ c ∷ rest)
through xs init c rest =
    append_assoc xs (init ++ c ∷ []) rest ∙ ap (λ l. xs ++ l) (append_assoc init (c ∷ []) rest)
