-- ===== src/Outbox/Table/Members.antt =====
-- Rows that an update or an insert leaves in the table.
use feedium.Prelude.{Bool, true, false, ◌≡◌, List, [], ◌∷◌, ◌++◌, arith, any, sym, subst, All}
use mathlib.Core.List.{Memᴰ}
use feedium.Outbox.Table.{update_where}

module _ {ℓ} {R : Type ℓ} where
  pub mem-update_where :
      (p : R → Bool) (f : R → R) (t : List R) (r : R)
      → p r ≡ false
      → Memᴰ r t
      → Memᴰ r (update_where p f t)
  mem-update_where p f [] r h m = elim m [ ]
  mem-update_where p f (x ∷ xs) r h (Memᴰ.head e) =
      let skip : p x ≡ false = rw (← e) h in rw skip (Memᴰ.head e)
  mem-update_where p f (x ∷ xs) r h (Memᴰ.tail m) = Memᴰ.tail (mem-update_where p f xs r h m)

  pub mem-append : (t u : List R) (r : R) → Memᴰ r t → Memᴰ r (t ++ u)
  mem-append [] u r m = elim m [ ]
  mem-append (x ∷ xs) u r (Memᴰ.head e) = Memᴰ.head e
  mem-append (x ∷ xs) u r (Memᴰ.tail m) = Memᴰ.tail (mem-append xs u r m)

  pub any-mem : (p : R → Bool) (t : List R) (r : R) → Memᴰ r t → p r ≡ true → any p t ≡ true
  any-mem p [] r m h = elim m [ ]
  any-mem p (x ∷ xs) r (Memᴰ.head e) h = let px : p x ≡ true = rw (← e) h in rw px
  any-mem p (x ∷ xs) r (Memᴰ.tail m) h = ground (arith, any-mem p xs r m h)

  pub All-mem {κ} : (P : R → Type κ) (t : List R) (r : R) → All P t → Memᴰ r t → P r
  All-mem P [] r a m = elim m [ ]
  All-mem P (x ∷ xs) r a (Memᴰ.head e) = subst P (sym e) a.0
  All-mem P (x ∷ xs) r a (Memᴰ.tail m) = All-mem P xs r a.1 m
