-- ===== src/Post/Repo/Writes/Again.antt =====
-- Saving a post again (internal/data/post_repo.go): collecting the same item twice.
use feedium.Prelude.{
  ℕ, ◌≡◌, refl, sym, ap, subst, ◌∙◌, String, Bool, true, false, Option, none, some, List, [], ◌∷◌,
  any, Bool-cases, inl, inr,
}
use feedium.Errors.{Err, Result, ok, err}
use feedium.Exec.Ok.{ok_inj}
use feedium.Uuid.{UuidCodec}
use feedium.Outbox.Table.{find}
use feedium.Outbox.Repo.{parse_id, with_parsed}
use feedium.Source.{SourceType}
use feedium.Post.{Post}
use feedium.Post.Repo.{PostRow, post_of}
use feedium.Post.Repo.Writes.{
  has_key, insert, new_row, fetched, with_created, read_back, save_row, save,
}

-- A row with the key is found in the table, and is the one that the answer shows.
abbrev Holds : UuidCodec → ℕ → String → Result (Post × Bool) × List PostRow → Type 0
Holds codec source external out =
    (p : Post) (created : Bool)
    → out.0 ≡ ok (p, created)
    → (r : PostRow) × (find (has_key source external) out.1 ≡ some r) × (post_of codec r ≡ p)

module _ (codec : UuidCodec) (source : ℕ) (external : String) where
  fetched-ok :
      (fault : Option Err) (created c : Bool) (o : Option PostRow) (p : Post)
      → with_created codec created (fetched codec fault o) ≡ ok (p, c)
      → (r : PostRow) × (o ≡ some r) × (post_of codec r ≡ p)
  fetched-ok (some e) created c o p h = cc
  fetched-ok none created c none p h = cc
  fetched-ok none created c (some r) p h = (r, refl, ap (λ q. q.0) (ok_inj h))

  pub read_back-Holds :
      (fault : Option Err) (u : Result Bool × List PostRow)
      → Holds codec source external (read_back codec fault source external u)
  read_back-Holds fault (err e, t) p created h = cc
  read_back-Holds fault (ok b, t) p created h =
      fetched-ok fault b created (find (has_key source external) t) p h

  found_any :
      (t : List PostRow) (r : PostRow)
      → find (has_key source external) t ≡ some r
      → any (has_key source external) t ≡ true
  found_any [] r h = cc
  found_any (q ∷ qs) r h = elim (Bool-cases (has_key source external q)) [
    | inl e ↦ rw e refl
    | inr e ↦ rw e (found_any qs r (rw e at h))
  ]

  -- A second save of the key, where no fault happens.
  pub second :
      (sources : ℕ → Option SourceType) (x : Post) (id : ℕ) (t : List PostRow) (r : PostRow)
      (p : Post)
      → x.external_id ≡ external
      → find (has_key source external) t ≡ some r
      → post_of codec r ≡ p
      → save_row codec none none sources x source id t ≡ (ok (p, false), t)
  second sources x id t r p e h q = rw (e, found_any t r h, h, q) refl

pub with_parsed_ok :
    {A B : Type 0} (r : Result A) (k : A → Result B × List PostRow) (t : List PostRow) (b : B)
    → (with_parsed r k t).0 ≡ ok b
    → (a : A) × (r ≡ ok a) × (with_parsed r k t ≡ k a)
with_parsed_ok (err e) k t b h = cc
with_parsed_ok (ok a) k t b h = (a, refl, refl)

module _ (codec : UuidCodec) (sources : ℕ → Option SourceType) (x y : Post)
    (same_source : y.source_id ≡ x.source_id) (same_external : y.external_id ≡ x.external_id)
    (id : ℕ) (named : parse_id codec "invalid post id" y.id ≡ ok id) where
  saved_row :
      (source : ℕ) (out : Result (Post × Bool) × List PostRow) (p : Post)
      → parse_id codec "invalid source id" x.source_id ≡ ok source
      → (r : PostRow) × (find (has_key source x.external_id) out.1 ≡ some r) × (post_of codec r ≡ p)
      → save codec none none sources y out.1 ≡ (ok (p, false), out.1)
  unfolding save
  saved_row source out p e (r, h, q) =
      let e' : parse_id codec "invalid source id" y.source_id ≡ ok source =
        ap (parse_id codec "invalid source id") same_source ∙ e in
      rw (e', named) (second codec source x.external_id sources y id out.1 r p same_external h q)

  -- Once a post has been saved, saving any post of the same source with the same external id,
  -- without a driver error and with an identifier that parses, creates no row, leaves the table as
  -- it is, and answers the post that the first save has answered.
  pub save_again :
      (fault read_fault : Option Err) (t : List PostRow) (p : Post) (created : Bool)
      → (save codec fault read_fault sources x t).0 ≡ ok (p, created)
      → save codec none none sources y (save codec fault read_fault sources x t).1
        ≡ (ok (p, false), (save codec fault read_fault sources x t).1)
  unfolding save
  save_again fault read_fault t p created h =
      let (source, es, e1) =
        with_parsed_ok (parse_id codec "invalid source id" x.source_id) _ t (p, created) h in
      let h1 = ap (λ u. u.0) (sym e1) ∙ h in
      let (i, ei, e2) =
        with_parsed_ok (parse_id codec "invalid post id" x.id) _ t (p, created) h1 in
      let h2 = ap (λ u. u.0) (sym e2) ∙ h1 in
      let held =
        read_back-Holds codec source x.external_id read_fault
          (insert fault sources i source x.external_id (new_row codec x i source) t) p created h2 in
      subst (λ u. save codec none none sources y u.1 ≡ (ok (p, false), u.1)) (sym (e1 ∙ e2))
        (saved_row source (save_row codec fault read_fault sources x source i t) p es held)
