-- ===== src/Post/Listing.antt =====
-- The pages of PostRepo.List (internal/data/post_repo.go), from the first token to the last.
use feedium.Prelude.{ℕ, suc, ◌≤◌, ◌≡◌, refl, String, Option, none, List, map, length, select}
use feedium.Errors.{Result, ok}
use feedium.Uuid.{UuidCodec}
use feedium.Post.{Post, ListPostsFilter, ListPostsResult}
use feedium.Pages.{sort, TokenCodec, parse_page_token, listed_before}
use feedium.Pages.Order
use feedium.Pages.Order.{HasIds-select}
use feedium.Pages.Follow
use feedium.Pages.Follow.{Results, follow_all}
use feedium.Post.Repo.{
  PostRow, sort_value, row_id, is_descending, matches, post_of, parse_source, invalid_token,
  build_result, query, list,
}

abbrev pub HasIds : List PostRow → Type 0
HasIds = Order.HasIds row_id

abbrev results : Results ListPostsResult Post
results = record {
  items = λ p. p.items;
  next = λ p. p.next_page_token;
  make = λ xs token. record { items = xs; next_page_token = token };
  items-make = λ xs token. refl;
  next-make = λ xs token. refl;
}

-- Pages of posts: each answer's token asks for the next one, and the last token is empty.
abbrev pub Listed : (String → Result ListPostsResult) → ℕ → String → List Post → Type 0
Listed = Follow.Listed (λ p. p.items) (λ p. p.next_page_token)

module _ (uuids : UuidCodec) (tokens : TokenCodec) (f : ListPostsFilter) (j : ℕ) where
  -- The rows that the filter admits, in the order that it asks for.
  abbrev pub admitted : Option ℕ → List PostRow → List PostRow
  admitted source t =
      sort (listed_before (sort_value f.order_by) row_id (is_descending f.order_dir))
        (select (matches source f) t)

  -- The filter with a page token and the page size.
  abbrev pub at : String → ListPostsFilter
  at token = record f { page_size = suc j; page_token = token }

  abbrev pub answer : List PostRow → String → Result ListPostsResult
  answer t token = list uuids tokens none none (at token) t

  answer-ok :
      (t : List PostRow) (token : String) (source : Option ℕ) (cursor : Option (ℕ × ℕ))
      → parse_source uuids f.source_id ≡ ok source
      → parse_page_token tokens invalid_token token ≡ ok cursor
      → answer t token ≡ query uuids tokens (at token) none none source cursor t
  unfolding list
  answer-ok t token source cursor e1 e2 = rw (e1, e2) refl

  module _ (t : List PostRow) (ids : HasIds t) (source : Option ℕ)
      (good : parse_source uuids f.source_id ≡ ok source) where
    -- Where the table's ids are unique and the filter's source identifier is empty or parses,
    -- following the page tokens from the first page, with any page size of at least 1, ends, after
    -- at most one page more than there are rows that the filter admits, and the pages hold exactly
    -- these rows, each once, in the order of the filter's sort field and direction, with ties by id.
    pub list-Listed :
        (n : ℕ) × Listed (answer t) n "" (map (post_of uuids) (admitted source t))
        × (n ≤ suc (length (admitted source t)))
    unfolding build_result
    list-Listed =
        follow_all results tokens invalid_token (sort_value f.order_by) row_id
          (is_descending f.order_dir) (post_of uuids) j (answer t) (select (matches source f) t)
          (HasIds-select row_id (matches source f) t ids)
          (λ token cursor e. answer-ok t token source cursor good e)
