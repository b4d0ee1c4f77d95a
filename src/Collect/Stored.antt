-- ===== src/Collect/Stored.antt =====
-- PostUsecase.Create (internal/biz/post.go) over the repositories of posts and of summary events
-- (internal/data/post_repo.go, internal/data/summary_outbox_repo.go), and the posts that it has made.
use feedium.Prelude.{
  ℕ, suc, ◌≡◌, refl, sym, ap, ◌∙◌, String, Bool, true, false, Option, none, some, List,
}
use feedium.Errors.{Result, ok, err}
use feedium.Exec.{Exec, pure, continue, ◌>>=◌}
use feedium.Exec.Ok.{ok_inj, bind_ok}
use feedium.Uuid.{UuidCodec}
use feedium.Tx.{Held, Driver, in_tx}
use feedium.Tx.Atomic.{Atomic, nothing, all, in_tx-Atomic}
use feedium.Outbox.Table.{find}
use feedium.Outbox.Event.{Row, SummaryEvent}
use feedium.Outbox.Repo
use feedium.Outbox.Repo.{parse_id, with_parsed}
use feedium.Source.{
  SourceType, Source, ProcessingMode, self_contained, cumulative, processing_mode_for_type,
}
use feedium.Post.{Post, validate_create_post}
use feedium.Pages.{TokenCodec}
use feedium.Post.Repo.{PostRow, get, list}
use feedium.Post.Repo.Writes
use feedium.Post.Repo.Writes.{has_key, insert, new_row, save_row}
use feedium.Post.Usecase.{
  PostPorts, PostRequest, save_with_event, create_tx, new_post, create_for, create,
}

-- The tables that the transaction holds, and the clock, which also numbers the identifiers.
pub record Collected : Type 0 where
  pub posts : List PostRow
  pub events : List Row
  pub tick : ℕ

abbrev pub tables : Collected → List PostRow × List Row
tables s = (s.posts, s.events)

abbrev pub held : Held Collected (List PostRow × List Row)
held = record {
  db = tables;
  restore = λ d s. record s { posts = d.0; events = d.1 };
  db-restore = λ d s. refl;
}

-- Nothing fails in the driver.
abbrev pub driver : Driver Collected
driver = record { begin = λ s. none; rollback = λ s. none; commit = λ s. none }

module _ (codec : UuidCodec) (find_source : String → Result Source) (types : ℕ → Option SourceType)
    (tokens : TokenCodec) where
  abbrev keep_posts : {A : Type 0} → Collected → Result A × List PostRow → Result A × Collected
  keep_posts s (r, t) = (r, record s { posts = t })

  abbrev keep_events : {A : Type 0} → Collected → Result A × List Row → Result A × Collected
  keep_events s (r, t) = (r, record s { events = t })

  abbrev pub ports : PostPorts Collected
  ports = record {
    get_source = λ id s. (find_source id, s);
    save_post = λ x s. keep_posts s (Writes.save codec none none types x s.posts);
    update_post = λ x s. keep_posts s (Writes.update codec none none x s.posts);
    get_post = λ id s. (get codec none id s.posts, s);
    list_posts = λ f s. (list codec tokens none none f s.posts, s);
    save_event = λ e s. keep_events s (Repo.save codec none e s.events);
    in_tx = λ m. in_tx held driver m;
    now = λ s. (s.tick, s);
    new_id = λ s. (codec.to_string s.tick, record s { tick = suc s.tick });
  }

  -- The request is valid, its source is there, and a post has its key.
  pub record Known (source : String) (r : PostRequest) (d : List PostRow × List Row) : Type 0 where
    pub valid : validate_create_post codec source r.external_id r.text r.published_at ≡ ok tt
    pub value : Source
    pub there : find_source source ≡ ok value
    pub id : ℕ
    pub parsed : parse_id codec "invalid source id" source ≡ ok id
    pub row : PostRow
    pub stored : find (has_key id r.external_id) d.0 ≡ some row

  abbrev pub made : String → PostRequest → Collected → Post
  made source r s = new_post codec ports source r s.tick (codec.to_string s.tick)

  abbrev numbered : Collected → Collected
  numbered s = record s { tick = suc s.tick }

  -- What a creation that answers a post has gone through.
  pub record Made (source : String) (r : PostRequest) (p : Post) (s s' : Collected) : Type 0 where
    pub valid : validate_create_post codec source r.external_id r.text r.published_at ≡ ok tt
    pub value : Source
    pub there : find_source source ≡ ok value
    pub created : Bool
    pub answer : (Writes.save codec none none types (made source r s) s.posts).0 ≡ ok (p, created)
    pub posts : s'.posts ≡ (Writes.save codec none none types (made source r s) s.posts).1

  committed :
      {A : Type 0} (m : Exec Collected A) (s s' : Collected) (a : A) (out : Result A × Collected)
      → Atomic tables m s out
      → out ≡ (ok a, s')
      → m s ≡ (ok a, s')
  committed m s s' a out (nothing e t same) h = cc
  committed m s s' a out (all b t e) h = e ∙ h

  -- The event leaves the posts as they are.
  after_event :
      (q p : Post) (s s' : Collected) (u : Result SummaryEvent × List Row)
      → continue (keep_events s u) (λ _. pure q) ≡ (ok p, s')
      → (q ≡ p) × (s'.posts ≡ s.posts)
  after_event q p s s' (err e, t) h = cc
  after_event q p s s' (ok e, t) h = (ok_inj (ap (λ x. x.0) h), ap (λ x. x.1.posts) (sym h))

  without_event :
      (q p : Post) (s s' : Collected) → pure q s ≡ (ok p, s') → (q ≡ p) × (s'.posts ≡ s.posts)
  without_event q p s s' h = (ok_inj (ap (λ x. x.0) h), ap (λ x. x.1.posts) (sym h))

  with_event_posts :
      (mode : ProcessingMode) (source : String) (q p : Post) (c : Bool) (s s' : Collected)
      → save_with_event codec ports mode source (q, c) s ≡ (ok p, s')
      → (q ≡ p) × (s'.posts ≡ s.posts)
  with_event_posts cumulative source q p c s s' h = without_event q p s s' h
  with_event_posts self_contained source q p false s s' h = without_event q p s s' h
  with_event_posts self_contained source q p true s s' h = after_event q p (numbered s) s' _ h

  module _ (source : String) (r : PostRequest) (p : Post) (s s' : Collected) where
    tx-Made :
        (x : Source)
        → validate_create_post codec source r.external_id r.text r.published_at ≡ ok tt
        → find_source source ≡ ok x
        → create_tx codec ports
            (processing_mode_for_type x.source_type)
            source
            (made source r s)
            (numbered s)
          ≡ (ok p, s')
        → Made source r p s s'
    tx-Made x valid there h =
        let mode = processing_mode_for_type x.source_type in
        let t =
          bind_ok (ports.save_post (made source r s)) (save_with_event codec ports mode source) h in
        let (same, kept) = with_event_posts mode source t.value.0 p t.value.1 t.state s' t.rest in
        record {
          valid = valid;
          value = x;
          there = there;
          created = t.value.1;
          answer = ap (λ u. u.0) t.first ∙ ap (λ q. ok (q, t.value.1)) same;
          posts = kept ∙ ap (λ u. u.1.posts) (sym t.first);
        }

    source-Made :
        (x : Result Source)
        → validate_create_post codec source r.external_id r.text r.published_at ≡ ok tt
        → find_source source ≡ x
        → continue (x, s) (create_for codec ports source r) ≡ (ok p, s')
        → Made source r p s s'
    source-Made (err e) valid there h = cc
    source-Made (ok x) valid there h =
        let m =
          create_tx codec ports (processing_mode_for_type x.source_type) source (made source r s) in
        tx-Made x valid there (
          committed m (numbered s) s' p (in_tx held driver m (numbered s))
            (in_tx-Atomic held driver m (numbered s)) h)

    valid-Made :
        (v : Result (Unit {0}))
        → validate_create_post codec source r.external_id r.text r.published_at ≡ v
        → continue (v, s) (λ _. ports.get_source source >>= create_for codec ports source r)
          ≡ (ok p, s')
        → Made source r p s s'
    valid-Made (err e) valid h = cc
    valid-Made (ok u) valid h = source-Made (find_source source) valid refl h

    pub create-Made : create codec ports source r s ≡ (ok p, s') → Made source r p s s'
    unfolding create
    create-Made h =
        valid-Made (validate_create_post codec source r.external_id r.text r.published_at) refl h
