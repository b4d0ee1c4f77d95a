-- ===== src/Summary/Repo/Newest.antt =====
-- Which summary GetLastBySource answers (internal/data/summary_repo.go).
use mathlib.Core.List.{Memᴰ}
use feedium.Prelude.{
  ℕ, ◌≤◌, ◌≡◌, refl, ap, subst, ◌∙◌, String, false, Option, none, some, List, [], ◌∷◌, arith,
  select, any, All, Bool-cases, inl, inr, leb, ==_iff, ◌==◌,
}
use feedium.Errors.{Err, ok}
use feedium.Exec.Ok.{ok_inj}
use feedium.Uuid.{UuidCodec}
use feedium.Outbox.Repo.{parse_id}
use feedium.Summary.Ports.{Summary}
use feedium.Summary.Repo.{
  SummaryRow, insert_newest, newest_first, first_of, of_source, summary_of, last_of,
  get_last_by_source,
}

-- The first row of a list, if there is one, is a newest of the table.
abbrev Tops : List SummaryRow → List SummaryRow → Type 0
Tops t [] = t ≡ []
Tops t (r ∷ rs) = Memᴰ r t × All (λ q. q.created_at ≤ r.created_at) t

older :
    (b c : ℕ) (t : List SummaryRow)
    → b ≤ c
    → All (λ q. q.created_at ≤ b) t
    → All (λ q. q.created_at ≤ c) t
older b c [] h a = tt
older b c (q ∷ qs) h a = (omega (arith, a.0), older b c qs h a.1)

insert-Tops : (x : SummaryRow) (t l : List SummaryRow) → Tops t l → Tops (x ∷ t) (insert_newest x l)
insert-Tops x t [] e = (Memᴰ.head refl, rw e (omega arith, tt))
insert-Tops x t (y ∷ ys) (m, a) = elim (Bool-cases (leb y.created_at x.created_at)) [
  | inl newer ↦
      rw newer (Memᴰ.head refl, (omega arith, older y.created_at x.created_at t (ground arith) a))
  | inr not_newer ↦ rw not_newer (Memᴰ.tail m, (ground arith, a))
]

newest_first-Tops : (t : List SummaryRow) → Tops t (newest_first t)
unfolding newest_first
newest_first-Tops [] = refl
newest_first-Tops (x ∷ xs) = insert-Tops x xs (newest_first xs) (newest_first-Tops xs)

-- A row of the source that no row of the source is newer than.
pub record Newest (source : ℕ) (t : List SummaryRow) (r : SummaryRow) : Type 0 where
  pub member : Memᴰ r t
  pub source_id : r.source_id ≡ source
  pub newest : All (λ q. q.source_id ≡ source → q.created_at ≤ r.created_at) t

kept :
    (source : ℕ) (r q : SummaryRow) (rest t : List SummaryRow)
    → q.source_id ≡ source
    → (Memᴰ r rest → Memᴰ r t × (r.source_id ≡ source))
    → Memᴰ r (q ∷ rest)
    → Memᴰ r (q ∷ t) × (r.source_id ≡ source)
kept source r q rest t e later (Memᴰ.head same) = (Memᴰ.head same, ap (λ x. x.source_id) same ∙ e)
kept source r q rest t e later (Memᴰ.tail m) = let (m', h) = later m in (Memᴰ.tail m', h)

selected-Memᴰ :
    (source : ℕ) (r : SummaryRow) (t : List SummaryRow)
    → Memᴰ r (select (of_source source) t)
    → Memᴰ r t × (r.source_id ≡ source)
selected-Memᴰ source r [] m = elim m [ ]
selected-Memᴰ source r (q ∷ qs) m = elim (Bool-cases (q.source_id == source)) [
  | inl e ↦
      kept source r q (select (of_source source) qs) qs ((==_iff q.source_id source).0 e)
        (selected-Memᴰ source r qs) (rw e at m)
  | inr e ↦ let (later, h) = selected-Memᴰ source r qs (rw e at m) in (Memᴰ.tail later, h)
]

in_table :
    (source b : ℕ) (t : List SummaryRow)
    → All (λ q. q.created_at ≤ b) (select (of_source source) t)
    → All (λ q. q.source_id ≡ source → q.created_at ≤ b) t
in_table source b [] a = tt
in_table source b (q ∷ qs) a = elim (Bool-cases (q.source_id == source)) [
  | inl e ↦ let both = rw e at a in (λ h. both.0, in_table source b qs both.1)
  | inr e ↦ (λ h. let no = (==_iff q.source_id source).1 h in cc, in_table source b qs (rw e at a))
]

module _ (codec : UuidCodec) (source : ℕ) (t : List SummaryRow) where
  -- No summary of the source, or a newest one.
  pub data Last : Option Summary → Type 0 where
    without : any (of_source source) t ≡ false → Last none
    with : (r : SummaryRow) → Newest source t r → Last (some (summary_of codec r))

  none_selected :
      (u : List SummaryRow) → select (of_source source) u ≡ [] → any (of_source source) u ≡ false
  none_selected [] e = refl
  none_selected (q ∷ qs) e = elim (Bool-cases (q.source_id == source)) [
    | inl h ↦ let no = rw h at e in cc
    | inr h ↦ rw h (none_selected qs (rw h at e))
  ]

  top-Last :
      (l : List SummaryRow) (o : Option Summary)
      → Tops (select (of_source source) t) l
      → last_of codec none (first_of l) ≡ ok o
      → Last o
  top-Last [] o e h = subst Last (ok_inj h) (Last.without (none_selected t e))
  top-Last (r ∷ rs) o (m, a) h =
      let (there, of_it) = selected-Memᴰ source r t m in
      subst Last (ok_inj h) (
        Last.with r
          (record { member = there; source_id = of_it; newest = in_table source r.created_at t a }))

  -- What GetLastBySource answers for the identifier of a source, where it answers no error: nothing
  -- where the table has no summary of the source, and else a summary of the source that no summary
  -- of the source is newer than.
  pub get_last_by_source-Last :
      (fault : Option Err) (source_id : String) (o : Option Summary)
      → parse_id codec "invalid source id" source_id ≡ ok source
      → get_last_by_source codec fault source_id t ≡ ok o
      → Last o
  unfolding get_last_by_source
  get_last_by_source-Last (some e) source_id o named h = let no = rw named at h in cc
  get_last_by_source-Last none source_id o named h =
      top-Last (newest_first (select (of_source source) t)) o
        (newest_first-Tops (select (of_source source) t)) (rw named at h)
