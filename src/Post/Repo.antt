-- ===== src/Post/Repo.antt =====
-- The reading side of internal/data/post_repo.go on the table posts: List and Get. A uuid is its
-- value, times are in microseconds, and the bounds of a filter in nanoseconds.
pub mod Writes
use feedium.Prelude.{
  ℕ, suc, ◌*◌, ◌≡◌, String, Bool, true, false, ◌||◌, ◌&&◌, Option, none, some, List, [], ◌∷◌, map,
  ltb, leb, ◌==◌, length, take, select, str_eq, if◌then◌else◌,
}
use feedium.Errors.{
  Err, sentinel, wrap, detail, post_invalid_argument, post_not_found, Result, ok, err, ◌>>=◌,
}
use feedium.Uuid.{UuidCodec}
use feedium.Text.{Text}
use feedium.Source.{SourceType}
use feedium.Outbox.Table.{find}
use feedium.Outbox.Repo.{parse_id}
use feedium.Post.{
  Post, SortField, by_published_at, by_created_at, unknown_field, SortDirection, descending,
  ListPostsFilter, ListPostsResult,
}
use feedium.Pages.{sort, TokenCodec, parse_page_token, fetch, next_token}

-- A row, with the type of its source, which the foreign key provides.
pub record PostRow : Type 0 where
  pub id : ℕ
  pub source_id : ℕ
  pub source_type : SourceType
  pub external_id : String
  pub published_at : ℕ
  pub author : Option String
  pub text : Text
  pub metadata : List (String × String)
  pub created_at : ℕ
  pub updated_at : ℕ

abbrev pub sort_value : SortField → PostRow → ℕ
sort_value by_created_at r = r.created_at
sort_value by_published_at r = r.published_at
sort_value unknown_field r = r.published_at

abbrev pub is_descending : SortDirection → Bool
is_descending descending = true
is_descending _ = false

abbrev pub row_id : PostRow → ℕ
row_id r = r.id

abbrev from_bound : Option ℕ → PostRow → Bool
from_bound none r = true
from_bound (some t) r = leb t (r.created_at * 1000)

abbrev to_bound : Option ℕ → PostRow → Bool
to_bound none r = true
to_bound (some t) r = ltb (r.created_at * 1000) t

abbrev of_source : Option ℕ → PostRow → Bool
of_source none r = true
of_source (some s) r = r.source_id == s

abbrev pub matches : Option ℕ → ListPostsFilter → PostRow → Bool
matches source f r =
    of_source source r && from_bound f.created_after r && to_bound f.created_before r

abbrev pub invalid_token : Err
invalid_token = detail (sentinel post_invalid_argument) "invalid page token"

module _ (uuids : UuidCodec) where
  unfoldable pub post_of : PostRow → Post
  post_of r = record {
    id = uuids.to_string r.id;
    source_id = uuids.to_string r.source_id;
    source_type = r.source_type;
    external_id = r.external_id;
    published_at = r.published_at;
    author = r.author;
    text = r.text;
    metadata = r.metadata;
    created_at = r.created_at;
    updated_at = r.updated_at;
  }

  abbrev pub parse_source : String → Result (Option ℕ)
  parse_source s =
      if str_eq s "" then ok none else parse_id uuids "invalid source id" s >>= λ u. ok (some u)

  abbrev found : Option Err → Option PostRow → Result Post
  found (some e) r = err (wrap "get post" e)
  found none none = err (sentinel post_not_found)
  found none (some r) = ok (post_of r)

  unfoldable pub get : Option Err → String → List PostRow → Result Post
  unfolding post_of
  get fault id t =
      parse_id uuids "invalid post id" id >>= λ u. found fault (find (λ r. r.id == u) t)

module _ (uuids : UuidCodec) (tokens : TokenCodec) where
  -- buildResult
  unfoldable pub build_result : SortField → ℕ → List PostRow → ListPostsResult
  unfolding post_of
  build_result field page_size rows = record {
    items = map (post_of uuids) (take page_size rows);
    next_page_token = next_token (sort_value field) row_id tokens page_size rows;
  }

  -- batchLoadSources queries the sources of the rows, where there are any.
  abbrev loaded : Option Err → List PostRow → ListPostsResult → Result ListPostsResult
  loaded none rows result = ok result
  loaded (some e) [] result = ok result
  loaded (some e) (r ∷ rs) result = err (wrap "batch load sources" e)

  abbrev pub query :
      ListPostsFilter
      → Option Err
      → Option Err
      → Option ℕ
      → Option (ℕ × ℕ)
      → List PostRow
      → Result ListPostsResult
  query f (some e) load_fault source cursor t = err (wrap "list posts" e)
  query f none load_fault source cursor t =
      let rows =
        fetch (sort_value f.order_by) row_id (is_descending f.order_dir) cursor (suc f.page_size)
          (select (matches source f) t) in
      loaded load_fault rows (build_result f.order_by f.page_size rows)

  unfoldable pub list :
      Option Err → Option Err → ListPostsFilter → List PostRow → Result ListPostsResult
  unfolding build_result sort
  list fault load_fault f t = do
    source ← parse_source uuids f.source_id
    cursor ← parse_page_token tokens invalid_token f.page_token
    query f fault load_fault source cursor t
