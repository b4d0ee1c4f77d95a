-- ===== src/Outbox/Table/Upsert.antt =====
-- INSERT ... ON CONFLICT DO UPDATE on a table.
use feedium.Prelude.{
  ◌≤◌, ◌≡◌, refl, Bool, true, false, Option, none, some, List, [], ◌∷◌, ◌++◌, arith, any,
  Bool-cases, inl, inr, if◌then◌else◌, All,
}
use feedium.Outbox.Table.{update_where, count, find}
use feedium.Outbox.Table.Counts.{count-update_where, count-append, count_zero, All-intro}

module _ {R : Type 0} where
  -- The row `n` is inserted unless a row has its key, which `p` tests; such a row is changed by `f`.
  abbrev pub upsert : (R → Bool) → (R → R) → R → List R → List R
  upsert p f n t = if any p t then update_where p f t else t ++ n ∷ []

  abbrev pub changed_or : (R → R) → R → Option R → R
  changed_or f n none = n
  changed_or f n (some r) = f r

  find-update_where :
      (p : R → Bool) (f : R → R) (t : List R)
      → ((r : R) → p r ≡ true → p (f r) ≡ true)
      → any p t ≡ true
      → (n : R) → find p (update_where p f t) ≡ some (changed_or f n (find p t))
  find-update_where p f [] keeps h n = cc
  find-update_where p f (r ∷ rs) keeps h n = elim (Bool-cases (p r)) [
    | inl e ↦ rw (e, keeps r e) refl
    | inr e ↦ rw (e, e) (find-update_where p f rs keeps (rw e at h) n)
  ]

  find-append :
      (p : R → Bool) (t : List R) (n : R)
      → any p t ≡ false
      → p n ≡ true
      → (find p t ≡ none) × (find p (t ++ n ∷ []) ≡ some n)
  find-append p [] n h e = (refl, rw e refl)
  find-append p (r ∷ rs) n h e = ground (arith, find-append p rs n)

  -- The row with the key, after the upsert: the new row, or the old one, changed.
  pub find-upsert :
      (p : R → Bool) (f : R → R) (n : R) (t : List R)
      → ((r : R) → p r ≡ true → p (f r) ≡ true)
      → p n ≡ true
      → find p (upsert p f n t) ≡ some (changed_or f n (find p t))
  find-upsert p f n t keeps e = elim (Bool-cases (any p t)) [
    | inl there ↦ rw there (find-update_where p f t keeps there n)
    | inr absent ↦ let (before, after) = find-append p t n absent e in rw (absent, before) after
  ]

  find-update_other :
      (q p : R → Bool) (f : R → R) (t : List R)
      → All (λ r. p r ≡ true → (q r ≡ false) × (q (f r) ≡ false)) t
      → find q (update_where p f t) ≡ find q t
  find-update_other q p f [] apart = refl
  find-update_other q p f (r ∷ rs) apart = elim (Bool-cases (p r)) [
    | inl e ↦ rw (e, (apart.0 e).0, (apart.0 e).1) (find-update_other q p f rs apart.1)
    | inr e ↦ elim (Bool-cases (q r)) [
      | inl k ↦ rw (e, k) refl
      | inr k ↦ rw (e, k) (find-update_other q p f rs apart.1)
    ]
  ]

  find-append_other :
      (q : R → Bool) (t : List R) (n : R) → q n ≡ false → find q (t ++ n ∷ []) ≡ find q t
  find-append_other q [] n e = rw e refl
  find-append_other q (r ∷ rs) n e = elim (Bool-cases (q r)) [
    | inl k ↦ rw k refl
    | inr k ↦ rw k (find-append_other q rs n e)
  ]

  -- A row with another key is what it was.
  pub find-upsert_other :
      (q p : R → Bool) (f : R → R) (n : R) (t : List R)
      → All (λ r. p r ≡ true → (q r ≡ false) × (q (f r) ≡ false)) t
      → q n ≡ false
      → find q (upsert p f n t) ≡ find q t
  find-upsert_other q p f n t apart e = elim (Bool-cases (any p t)) [
    | inl there ↦ rw there (find-update_other q p f t apart)
    | inr absent ↦ rw absent (find-append_other q t n e)
  ]

  -- No key comes to be there twice.
  pub count-upsert :
      (q p : R → Bool) (f : R → R) (n : R) (t : List R)
      → ((r : R) → p r ≡ true → q (f r) ≡ true → q r ≡ true)
      → (any p t ≡ false → q n ≡ true → any q t ≡ false)
      → count q t ≤ 1
      → count q (upsert p f n t) ≤ 1
  count-upsert q p f n t keeps fresh h = elim (Bool-cases (any p t)) [
    | inl there ↦ rw there (ground (arith, count-update_where q p f t (All-intro _ t keeps)))
    | inr absent ↦ rw absent (elim (Bool-cases (q n)) [
      | inl e ↦ rw (count-append q t (n ∷ []), e, count_zero q t (fresh absent e)) (omega arith)
      | inr e ↦ rw (count-append q t (n ∷ []), e) (omega arith)
    ])
  ]
