-- ===== src/Summary/Window/Rows.antt =====
-- The window of a source over the table of posts: collectWindowPosts on the pages of PostRepo.List.
use feedium.Prelude.{
  ℕ, suc, ◌≤◌, ◌≡◌, ap, ◌∙◌, String, Option, none, some, List, map, length, arith,
}
use feedium.Errors.{Result, ok}
use feedium.Exec.{Exec}
use feedium.Uuid.{UuidCodec}
use feedium.Text.{Text}
use feedium.Post.{Post, ListPostsFilter, ListPostsResult}
use feedium.Post.Repo.{PostRow, post_of, parse_source, list}
use feedium.Pages.{TokenCodec}
use feedium.Pages.Follow.{last, more}
use feedium.Post.Listing.{HasIds, Listed, answer, admitted, list-Listed}
use feedium.Summary.Ports.{Ports}
use feedium.Summary.Window.{window_filter, collect_window_posts}
use feedium.Summary.Window.Fit.{Digest}
use feedium.Summary.Window.Pages.{Pages, collect_window_posts-Digest}

module _ {S : Type 0} (listing : String → Exec S ListPostsResult)
    (read : String → Result ListPostsResult) (s : S)
    (same : (token : String) → listing token s ≡ (read token, s)) where
  Listed-Pages :
      (n : ℕ) (token : String) (posts : List Post)
      → Listed read n token posts
      → Pages listing n token s posts
  Listed-Pages _ _ _ (last token page e tk) =
      Pages.last token page s s (same token ∙ ap (λ r. (r, s)) e) tk
  Listed-Pages _ _ _ (more n token page posts e tk p) =
      Pages.more n token page posts s s (same token ∙ ap (λ r. (r, s)) e) tk
        (Listed-Pages n page.next_page_token posts p)

-- Over a repository that reads the table of posts as PostRepo.List does, without errors: in a table
-- with unique ids, the window of a source, read with fuel for one page more than it has rows,
-- yields the digest of the rows of the source that were created in it, from the newest.
pub collect_window_posts-rows :
    {S : Type 0} (ports : Ports S) (uuids : UuidCodec) (tokens : TokenCodec) (t : List PostRow)
    (s : S) (source_id : String) (source : Option ℕ) (start end m fuel : ℕ)
    → ((f : ListPostsFilter) → ports.list_posts f s ≡ (list uuids tokens none none f t, s))
    → HasIds t
    → parse_source uuids source_id ≡ ok source
    → suc (length (admitted uuids tokens (window_filter source_id start end "") 499 source t))
      ≤ fuel
    → (text : Text) × (s' : S) × (collect_window_posts ports fuel source_id start end m s
        ≡ some (ok text, s'))
      × Digest m
          (map
            (post_of uuids)
            (admitted uuids tokens (window_filter source_id start end "") 499 source t))
          text
      × (length text ≤ m)
collect_window_posts-rows ports uuids tokens t s source_id source start end m fuel reads ids good
      h =
    let f = window_filter source_id start end "" in
    let (n, p, b) = list-Listed uuids tokens f 499 t ids source good in
    collect_window_posts-Digest ports source_id start end m n fuel s _
      (Listed-Pages (λ token. ports.list_posts (window_filter source_id start end token))
        (answer uuids tokens f 499 t) s (λ token. reads (window_filter source_id start end token)) n
        "" _ p)
      (omega (arith, b, h))
