-- ===== src/Collect/Again.antt =====
-- Collecting the items of a source again (internal/biz/collect.go) over the repositories
-- (internal/data/post_repo.go, internal/data/summary_outbox_repo.go).
use feedium.Prelude.{
  ℕ, suc, ◌≡◌, refl, sym, ap, ◌∙◌, String, Bool, false, ◌==◌, Option, none, some, List, [], ◌∷◌,
  ◌++◌, any, arith, Bool-cases, inl, inr,
}
use feedium.Errors.{Err, Result, ok, err}
use feedium.Uuid.{UuidCodec}
use feedium.Tx.{in_tx}
use feedium.Outbox.Table.{find}
use feedium.Outbox.Repo.{parse_id, with_parsed}
use feedium.Outbox.Once.{parse_id-ok}
use feedium.Source.{
  SourceType, Source, ProcessingMode, self_contained, cumulative, processing_mode_for_type,
}
use feedium.Post.{Post}
use feedium.Pages.{TokenCodec}
use feedium.Post.Repo.{PostRow, post_of}
use feedium.Post.Repo.Writes
use feedium.Post.Repo.Writes.{has_key, insert, new_row, save_row}
use feedium.Post.Repo.Writes.Again.{read_back-Holds, second, with_parsed_ok}
use feedium.Collect.Twice.{Remembers}
use feedium.Post.Usecase.{PostRequest, save_with_event, create}
use feedium.Collect.{CollectedItem, filter_text_items, collect_items}
use feedium.Collect.Twice.{Created, collect_again}
use feedium.Collect.Stored.{Collected, tables, ports, Known, made, Made, create-Made}

find-append_found :
    (q : PostRow → Bool) (t u : List PostRow) (r : PostRow)
    → find q t ≡ some r
    → find q (t ++ u) ≡ some r
find-append_found q [] u r h = cc
find-append_found q (x ∷ xs) u r h = ground (arith, find-append_found q xs u r)

module _ (codec : UuidCodec) (types : ℕ → Option SourceType) (q : PostRow → Bool)
    (row : PostRow) where
  -- A row that is found is found after a save.
  insert-found :
      (fault : Option Err) (i source : ℕ) (external : String) (n : SourceType → PostRow)
      (t : List PostRow)
      → find q t ≡ some row
      → find q (insert fault types i source external n t).1 ≡ some row
  insert-found (some e) i source external n t h = h
  insert-found none i source external n t h = elim (Bool-cases (any (has_key source external) t)) [
    | inl conflict ↦ rw conflict h
    | inr new ↦ elim (Bool-cases (any (λ r. r.id == i) t)) [
      | inl clash ↦ rw (new, clash) h
      | inr free ↦ rw (new, free) (referenced (types source) n t h)
    ]
  ]
    where
      referenced :
          (o : Option SourceType) (n : SourceType → PostRow) (t : List PostRow)
          → find q t ≡ some row
          → find q (Writes.referencing o n t).1 ≡ some row
      referenced none n t h = h
      referenced (some ty) n t h = find-append_found q t (n ty ∷ []) row h

  read-found :
      (source : ℕ) (external : String) (u : Result Bool × List PostRow)
      → find q u.1 ≡ some row
      → find q (Writes.read_back codec none source external u).1 ≡ some row
  read-found source external (err e, t) h = h
  read-found source external (ok b, t) h = h

  parsed-found :
      (r : Result ℕ) (k : ℕ → Result (Post × Bool) × List PostRow) (t : List PostRow)
      → find q t ≡ some row
      → ((i : ℕ) → find q (k i).1 ≡ some row)
      → find q (with_parsed r k t).1 ≡ some row
  parsed-found (err e) k t h f = h
  parsed-found (ok i) k t h f = f i

  save-found :
      (x : Post) (t : List PostRow)
      → find q t ≡ some row
      → find q (Writes.save codec none none types x t).1 ≡ some row
  unfolding Writes.save
  save-found x t h = parsed-found (parse_id codec "invalid source id" x.source_id) _ t h (λ source.
      parsed-found (parse_id codec "invalid post id" x.id) _ t h (λ i.
        read-found source x.external_id _
          (insert-found none i source x.external_id (new_row codec x i source) t h)))

module _ (codec : UuidCodec) (find_source : String → Result Source) (types : ℕ → Option SourceType)
    (tokens : TokenCodec) where
  Made-Known :
      (source : String) (r : PostRequest) (p : Post) (s s' : Collected)
      → Made codec find_source types tokens source r p s s'
      → Known codec find_source types tokens source r (tables s')
  unfolding Writes.save
  Made-Known source r p s s' m =
      let x = made codec find_source types tokens source r s in
      let (id, parsed, e1) =
        with_parsed_ok (parse_id codec "invalid source id" source) _ s.posts (p, m.created)
          m.answer in
      let h1 = ap (λ u. u.0) (sym e1) ∙ m.answer in
      let (i, named, e2) =
        with_parsed_ok (parse_id codec "invalid post id" x.id) _ s.posts (p, m.created) h1 in
      let (row, stored, shown) =
        read_back-Holds codec id r.external_id none
          (insert none types i id r.external_id (new_row codec x i id) s.posts) p m.created
          (ap (λ u. u.0) (sym e2) ∙ h1) in
      record {
        valid = m.valid;
        value = m.value;
        there = m.there;
        id = id;
        parsed = parsed;
        row = row;
        stored = ap (find (has_key id r.external_id)) (m.posts ∙ ap (λ u. u.1) (e1 ∙ e2)) ∙ stored;
      }

  Known-Made :
      (source other : String) (r q : PostRequest) (p : Post) (s s' : Collected)
      → Made codec find_source types tokens other q p s s'
      → Known codec find_source types tokens source r (tables s)
      → Known codec find_source types tokens source r (tables s')
  Known-Made source other r q p s s' m k = record {
    valid = k.valid;
    value = k.value;
    there = k.there;
    id = k.id;
    parsed = k.parsed;
    row = k.row;
    stored =
        ap (find (has_key k.id r.external_id)) m.posts
        ∙ save-found codec types (has_key k.id r.external_id) k.row
            (made codec find_source types tokens other q s) s.posts k.stored;
  }

  saved-Known :
      (source : String) (r : PostRequest) (s : Collected)
      (k : Known codec find_source types tokens source r (tables s))
      → Writes.save codec none none types (made codec find_source types tokens source r s) s.posts
        ≡ (ok (post_of codec k.row, false), s.posts)
  unfolding Writes.save
  saved-Known source r s k =
      rw
        (
          k.parsed,
          parse_id-ok codec "invalid post id" (codec.to_string s.tick) s.tick
              (codec.parse-to_string s.tick),
        )
        (second codec k.id r.external_id types (made codec find_source types tokens source r s)
          s.tick s.posts k.row (post_of codec k.row) refl k.stored refl)

  quiet :
      (mode : ProcessingMode) (source : String) (p : Post) (s : Collected)
      → save_with_event codec (ports codec find_source types tokens) mode source (p, false) s
        ≡ (ok p, s)
  quiet cumulative source p s = refl
  quiet self_contained source p s = refl

  answers-Known :
      (source : String) (r : PostRequest) (s : Collected)
      → Known codec find_source types tokens source r (tables s)
      → (p : Post) × (s' : Collected) × (create codec
            (ports codec find_source types tokens)
            source
            r
            s
          ≡ (ok p, s'))
        × (tables s' ≡ tables s)
  unfolding create in_tx
  answers-Known source r s k = (
    post_of codec k.row,
    record s { tick = suc s.tick },
    rw
        (
          k.valid,
          k.there,
          saved-Known source r s k,
          quiet (processing_mode_for_type k.value.source_type) source (post_of codec k.row)
              (record s { tick = suc s.tick }),
        )
        refl,
    refl,
  )

  -- Without driver errors, PostUsecase.Create over the repositories keeps the contract of a creator
  -- that collecting again relies on.
  pub create-Remembers : Remembers tables (create codec (ports codec find_source types tokens))
  create-Remembers = record {
    Known = Known codec find_source types tokens;
    learns = λ source r p s s' h.
        Made-Known source r p s s' (create-Made codec find_source types tokens source r p s s' h);
    keeps = λ source other r q p s s' h k.
        Known-Made source other r q p s s'
          (create-Made codec find_source types tokens other q p s s' h) k;
    answers = answers-Known;
  }

  -- Over the repositories, without driver errors: where each text item was created as a post, one
  -- after the other, collecting the same items of the source again, later, from the tables that this
  -- has left, answers no error and leaves the posts and the events as they are.
  pub collect_twice :
      (source : Source) (items : List CollectedItem) (s s' later : Collected)
      → Created tables
          (create codec (ports codec find_source types tokens))
          source.id
          (filter_text_items items)
          s
          s'
      → tables later ≡ tables s'
      → ((collect_items (create codec (ports codec find_source types tokens)) source items later).0
          ≡ ok tt)
        × (tables
              (collect_items
                (create codec (ports codec find_source types tokens))
                source
                items
                later).1
            ≡ tables s')
  collect_twice source items s s' later =
      collect_again tables (create codec (ports codec find_source types tokens)) create-Remembers
        source items s s' later
