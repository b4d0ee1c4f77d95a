-- ===== src/Outbox/Table.antt =====
-- Tables as lists of rows, and SQL's UPDATE ... WHERE, row counts, and LIMIT 1 and ORDER BY.
pub mod Counts
pub mod FirstBy
pub mod Tests
pub mod Members
pub mod Mapped
pub mod Upsert
use feedium.Prelude.{
  ℕ, ◌+◌, ◌≤◌, ◌<◌, Bool, true, false, ◌≡◌, refl, Option, none, some, List, [], ◌∷◌, ◌++◌, arith,
  leb, any, if◌then◌else◌, Bool-cases, Option-cases, ◌⊎◌, inl, inr, sym, subst, All,
}
use mathlib.Core.List.{Memᴰ}

module _ {ℓ} {R : Type ℓ} where
  -- UPDATE ... SET f WHERE p
  abbrev pub update_where : (R → Bool) → (R → R) → List R → List R
  update_where p f [] = []
  update_where p f (r ∷ rs) = (if p r then f r else r) ∷ update_where p f rs

  abbrev pub count : (R → Bool) → List R → ℕ
  count p [] = 0
  count p (r ∷ rs) = (if p r then 1 else 0) + count p rs

  abbrev pub find : (R → Bool) → List R → Option R
  find p [] = none
  find p (r ∷ rs) = if p r then some r else find p rs

  abbrev pub better : (R → ℕ) → R → Option R → Option R
  better key r none = some r
  better key r (some q) = if leb (key r) (key q) then some r else some q

  -- WHERE p ORDER BY key ASC LIMIT 1; of rows with equal keys the earlier one.
  unfoldable pub first_by : (R → ℕ) → (R → Bool) → List R → Option R
  first_by key p [] = none
  first_by key p (r ∷ rs) = let rest = first_by key p rs in if p r then better key r rest else rest

  insert_by : (R → ℕ) → R → List R → List R
  insert_by key x [] = x ∷ []
  insert_by key x (y ∷ ys) =
      let rest = insert_by key x ys in if leb (key x) (key y) then x ∷ y ∷ ys else y ∷ rest

  -- ORDER BY key ASC, rows with equal keys in the order of the table.
  unfoldable pub order_by : (R → ℕ) → List R → List R
  unfolding insert_by
  order_by key [] = []
  order_by key (x ∷ xs) = insert_by key x (order_by key xs)
