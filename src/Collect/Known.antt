-- ===== src/Collect/Known.antt =====
-- The ports of PostUsecase.Create over the repositories (internal/data/post_repo.go,
-- internal/data/summary_outbox_repo.go), and the posts that the table has.
use feedium.Prelude.{
  ℕ, ◌≡◌, refl, sym, ap, ◌∙◌, String, Bool, true, false, Option, none, List, any, inl, inr, ◌⊎◌,
}
use feedium.Errors.{Result, ok, err}
use feedium.Exec.{Exec}
use feedium.Exec.Ok.{ok_inj}
use feedium.Uuid.{UuidCodec}
use feedium.Tx.{in_tx}
use feedium.Tx.Atomic.{Atomic, nothing, all, in_tx-Atomic}
use feedium.Outbox.Event.{Row}
use feedium.Outbox.Repo.{parse_id, with_parsed}
use feedium.Source.{SourceType, Source}
use feedium.Pages.{TokenCodec}
use feedium.Post.{Post}
use feedium.Post.Repo.{PostRow}
use feedium.Post.Repo.Writes.{has_key, with_created, save_row, save}
use feedium.Post.Usecase.{PostRequest}
use feedium.Post.Usecase.Events.{Contract, Known}
use feedium.Collect.Stored.{Collected, tables, held, driver, ports}

abbrev pub events : Collected → List Row
events s = s.events

abbrev pub posts : Collected → List PostRow
posts s = s.posts

with_created_flag :
    (codec : UuidCodec) (c : Bool) (r : Result Post) (q : Post) (created : Bool)
    → with_created codec c r ≡ ok (q, created)
    → created ≡ c
with_created_flag codec c (err e) q created h = cc
with_created_flag codec c (ok p) q created h = ap (λ u. u.1) (ok_inj (sym h))

module _ (codec : UuidCodec) (types : ℕ → Option SourceType) where
  row_known :
      (x q : Post) (k : ℕ) (t : List PostRow) (created : Bool) (p : Result ℕ)
      → any (has_key k x.external_id) t ≡ true
      → (with_parsed p (λ id. save_row codec none none types x k id t) t).0 ≡ ok (q, created)
      → created ≡ false
  row_known x q k t created (err e) there h = cc
  row_known x q k t created (ok id) there h =
      with_created_flag codec false _ q created (rw there at h)

  save_known :
      (x q : Post) (k : ℕ) (t : List PostRow) (created : Bool)
      → parse_id codec "invalid source id" x.source_id ≡ ok k
      → any (has_key k x.external_id) t ≡ true
      → (save codec none none types x t).0 ≡ ok (q, created)
      → created ≡ false
  unfolding save
  save_known x q k t created named there h =
      row_known x q k t created (parse_id codec "invalid post id" x.id) there (rw named at h)

  module _ (find_source : String → Result Source) (tokens : TokenCodec) where
    -- A post with the source and the external id of the request is in the table.
    pub ports-Known :
        (source : String) (r : PostRequest) (s : Collected) (k : ℕ)
        → parse_id codec "invalid source id" source ≡ ok k
        → any (has_key k r.external_id) s.posts ≡ true
        → Known (ports codec find_source types tokens) posts source r s
    ports-Known source r s k named there p q t t' created same_source same_external same h =
        save_known p q k t.posts created
          (ap (parse_id codec "invalid source id") same_source ∙ named)
          (ap (λ x. any (has_key k x) t.posts) same_external
            ∙ ap (λ u. any (has_key k r.external_id) u) same
            ∙ there)
          (ap (λ u. u.0) h)

    kept :
        {A : Type 0} (m : Exec Collected A) (s : Collected) (out : Result A × Collected)
        → Atomic tables m s out
        → (events out.1 ≡ events (m s).1) ⊎ (events out.1 ≡ events s)
    kept m s out (nothing e t same) = inr (ap (λ d. d.1) same)
    kept m s out (all b t e) = inl (ap (λ u. events u.1) (sym e))

    pub ports-Contract : Contract (ports codec find_source types tokens) events posts
    ports-Contract = record {
      get_source = λ id s. refl;
      save_post = λ p s. refl;
      now = λ s. refl;
      new_id = λ s. refl;
      get_source_posts = λ id s. refl;
      now_posts = λ s. refl;
      new_id_posts = λ s. refl;
      all_or_nothing = λ m s. kept m s (in_tx held driver m s) (in_tx-Atomic held driver m s);
    }
