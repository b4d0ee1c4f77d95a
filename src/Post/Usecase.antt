-- ===== src/Post/Usecase.antt =====
-- PostUsecase (internal/biz/post.go), over the repositories, the transaction manager, the clock and
-- the source of identifiers.
pub mod Events
use feedium.Prelude.{
  ℕ, suc, String, Bool, true, false, ◌&&◌, Option, none, some, List, [], ltb, if◌then◌else◌,
}
use feedium.Prelude.Int.{ℤ, pos, pos_part, ltb_ℤ}
use feedium.Errors.{Result, ok, err}
use feedium.Exec.{Exec, pure, lift, continue, ◌>>=◌, ◌>>◌}
use feedium.Uuid.{UuidCodec}
use feedium.Text.{Text}
use feedium.Source.{
  Source, ProcessingMode, self_contained, cumulative, processing_mode_for_type, unknown_source,
}
use feedium.Outbox.Event.{SummaryEvent, summarize_post, new_summary_event}
use feedium.Post.{
  Post, ListPostsFilter, ListPostsResult, validate_create_post, validate_update_post,
  validate_list_posts_filter,
}

pub record PostPorts (S : Type 0) : Type 1 where
  pub get_source : String → Exec S Source
  pub save_post : Post → Exec S (Post × Bool)
  pub update_post : Post → Exec S Post
  pub get_post : String → Exec S Post
  pub list_posts : ListPostsFilter → Exec S ListPostsResult
  pub save_event : SummaryEvent → Exec S SummaryEvent
  pub in_tx : {A : Type 0} → Exec S A → Exec S A
  pub now : S → ℕ × S
  pub new_id : S → String × S

-- The arguments that Create and Update share. A missing time is the zero time, a missing map is nil.
pub record PostRequest : Type 0 where
  pub external_id : String
  pub text : Text
  pub published_at : Option ℕ
  pub author : Option String
  pub metadata : Option (List (String × String))

abbrev metadata_of : Option (List (String × String)) → List (String × String)
metadata_of none = []
metadata_of (some m) = m

abbrev time_of : Option ℕ → ℕ
time_of none = 0
time_of (some t) = t

abbrev is_self_contained : ProcessingMode → Bool
is_self_contained self_contained = true
is_self_contained cumulative = false

module _ {S : Type 0} (codec : UuidCodec) (ports : PostPorts S) where
  abbrev pub reading : {A : Type 0} → (S → A × S) → Exec S A
  reading f s = let (a, s') = f s in (ok a, s')

  -- Only the first save of a post of a self-contained source makes an event.
  abbrev pub save_with_event : ProcessingMode → String → Post × Bool → Exec S Post
  save_with_event mode source_id (saved, created) =
      if is_self_contained mode && created
      then (do
        id ← reading ports.new_id
        now ← reading ports.now
        _ ← ports.save_event (new_summary_event id now summarize_post source_id (some saved.id))
        pure saved)
      else pure saved

  abbrev pub create_tx : ProcessingMode → String → Post → Exec S Post
  create_tx mode source_id post = ports.save_post post >>= save_with_event mode source_id

  -- SourceInfo is left unset: the repository ignores it.
  abbrev pub new_post : String → PostRequest → ℕ → String → Post
  new_post source_id r now id = record {
    id = id;
    source_id = source_id;
    source_type = unknown_source "";
    external_id = r.external_id;
    published_at = time_of r.published_at;
    author = r.author;
    text = r.text;
    metadata = metadata_of r.metadata;
    created_at = now;
    updated_at = now;
  }

  abbrev pub create_for : String → PostRequest → Source → Exec S Post
  create_for source_id r source = do
    now ← reading ports.now
    id ← reading ports.new_id
    ports.in_tx (
        create_tx (processing_mode_for_type source.source_type) source_id
          (new_post source_id r now id))

  unfoldable pub create : String → PostRequest → Exec S Post
  unfolding validate_create_post new_summary_event
  create source_id r = do
    _ ← lift (validate_create_post codec source_id r.external_id r.text r.published_at)
    source ← ports.get_source source_id
    create_for source_id r source

  unfoldable pub update : String → PostRequest → Exec S Post
  unfolding validate_update_post
  update id r = do
    _ ← lift (validate_update_post r.external_id r.text r.published_at)
    existing ← ports.get_post id
    now ← reading ports.now
    ports.update_post (record existing {
      external_id = r.external_id;
      published_at = time_of r.published_at;
      author = r.author;
      text = r.text;
      metadata = metadata_of r.metadata;
      updated_at = now;
    })

  -- The page size is an int, clamped to 1..500.
  abbrev pub clamped : ℤ → ℕ
  clamped n = if ltb_ℤ n (pos 1) then 1 else if ltb_ℤ (pos 500) n then 500 else pos_part n

  unfoldable pub list : ℤ → ListPostsFilter → Exec S ListPostsResult
  unfolding validate_list_posts_filter
  list page_size filter = do
    _ ← lift (validate_list_posts_filter codec (record filter { page_size = clamped page_size }))
    ports.list_posts (record filter { page_size = clamped page_size })
