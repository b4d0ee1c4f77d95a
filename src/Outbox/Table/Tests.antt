-- ===== src/Outbox/Table/Tests.antt =====
-- Whether some row passes a test, before and after an update.
use feedium.Prelude.{◌≤◌, ◌<◌, Bool, true, false, ◌≡◌, List, [], ◌∷◌, ◌++◌, arith, any, All}
use feedium.Outbox.Table.{update_where, count}

module _ {ℓ} {R : Type ℓ} where
  -- A row that passes `q` still does if the update does not touch such rows.
  pub any-update_where :
      (q p : R → Bool) (f : R → R) (t : List R)
      → All (λ r. q r ≡ true → p r ≡ false) t
      → any q t ≡ true
      → any q (update_where p f t) ≡ true
  any-update_where q p f [] apart h = h
  any-update_where q p f (r ∷ rs) apart h =
      ground (arith, apart.0, any-update_where q p f rs apart.1)

  -- An update that changed a row made a row that passes `q`.
  pub any-updated :
      (q p : R → Bool) (f : R → R) (t : List R)
      → ((r : R) → p r ≡ true → q (f r) ≡ true)
      → any p t ≡ true
      → any q (update_where p f t) ≡ true
  any-updated q p f [] makes h = h
  any-updated q p f (r ∷ rs) makes h = ground (arith, makes r, any-updated q p f rs makes)

  pub any-append : (q : R → Bool) (t u : List R) → any q t ≡ true → any q (t ++ u) ≡ true
  any-append q [] u h = cc
  any-append q (r ∷ rs) u h = ground (arith, any-append q rs u)

  pub count_pos :
      (q a : R → Bool) (t : List R)
      → ((r : R) → a r ≡ true → q r ≡ true)
      → any a t ≡ true
      → 0 < count q t
  count_pos q a [] sub h = cc
  count_pos q a (r ∷ rs) sub h = ground (arith, sub r, count_pos q a rs sub)

  -- Two tests that exclude one another cannot both find the only row.
  pub any-exclusive :
      (q a b : R → Bool) (t : List R)
      → ((r : R) → a r ≡ true → q r ≡ true)
      → ((r : R) → b r ≡ true → q r ≡ true)
      → ((r : R) → a r ≡ true → b r ≡ true → ⊥)
      → count q t ≤ 1
      → any a t ≡ true
      → any b t ≡ true
      → ⊥
  any-exclusive q a b [] qa qb apart c ha hb = cc
  any-exclusive q a b (r ∷ rs) qa qb apart c ha hb = ground (
    arith,
    qa r,
    qb r,
    apart r,
    count_pos q a rs qa,
    count_pos q b rs qb,
    any-exclusive q a b rs qa qb apart,
  )
