-- ===== src/Summary/Window.antt =====
-- collectWindowPosts (internal/biz/summary_usecase.go): the text of a window, page by page.
pub mod Fit
pub mod Pages
pub mod Rows
use feedium.Prelude.{
  ℕ, zero, suc, ◌+◌, String, Bool, true, false, ◌||◌, Option, none, some, List, [], ◌∷◌, ◌++◌, ltb,
  length, str_eq, if◌then◌else◌,
}
use feedium.Errors.{Result, ok, err, wrap}
use feedium.Exec.{Exec}
use feedium.Config.{default_list_page_size}
use feedium.Text.{Text, truncate_utf8}
use feedium.Summary.Ports.{Ports}
use feedium.Post.{Post, ListPostsFilter, ListPostsResult, by_created_at, descending}

-- "\n\n"
abbrev pub separator : Text
separator = 10 ∷ 10 ∷ []

abbrev pub piece : Post → Text
piece p = p.text ++ separator

-- The variables newestFirst and total; `stop` is set by `break collect`.
pub record Collected : Type 0 where
  pub newest_first : List Text
  pub total : ℕ
  pub stop : Bool

abbrev pub started : Collected
started = record { newest_first = []; total = 0; stop = false }

-- Even the newest post does not fit: it is cut.
abbrev pub or_cut : ℕ → Post → List Text → List Text
or_cut max_chars p [] = truncate_utf8 p.text max_chars ∷ []
or_cut max_chars p (t ∷ ts) = t ∷ ts

-- The inner loop, over the posts of one page.
unfoldable pub add_page : ℕ → List Post → Collected → Collected
add_page max_chars [] c = c
add_page max_chars (p ∷ ps) c =
    let total = c.total + length (piece p) in
    let rest =
      add_page max_chars ps
        (record { newest_first = c.newest_first ++ piece p ∷ []; total = total; stop = false }) in
    if ltb max_chars total
    then record { newest_first = or_cut max_chars p c.newest_first; total = c.total; stop = true }
    else rest

-- The builder's loop, from the last piece to the first.
abbrev pub oldest_first : List Text → Text
oldest_first [] = []
oldest_first (t ∷ ts) = oldest_first ts ++ t

abbrev pub window_filter : String → ℕ → ℕ → String → ListPostsFilter
window_filter source_id start end token = record {
  source_id = source_id;
  page_size = default_list_page_size;
  page_token = token;
  order_by = by_created_at;
  order_dir = descending;
  created_after = some start;
  created_before = some end;
}

-- The outer loop, on fuel: `none` where the fuel runs out before the pages do.
module _ {S : Type 0} (list : String → Exec S ListPostsResult) (max_chars : ℕ) where
  abbrev pub turn :
      (String → Collected → S → Option (Result Collected × S))
      → Collected
      → Result ListPostsResult × S
      → Option (Result Collected × S)
  turn next c (err e, s) = some (err (wrap "list posts" e), s)
  turn next c (ok page, s) =
      let c' = add_page max_chars page.items c in
      let rest = next page.next_page_token c' s in
      if c'.stop || str_eq page.next_page_token "" then some (ok c', s) else rest

  unfoldable pub collect : ℕ → String → Collected → S → Option (Result Collected × S)
  unfolding add_page
  collect zero token c s = none
  collect (suc fuel) token c s = turn (collect fuel) c (list token s)

abbrev pub built : {S : Type 0} → Option (Result Collected × S) → Option (Result Text × S)
built none = none
built (some (err e, s)) = some (err e, s)
built (some (ok c, s)) = some (ok (oldest_first c.newest_first), s)

unfoldable pub collect_window_posts :
    {S : Type 0} → Ports S → ℕ → String → ℕ → ℕ → ℕ → S → Option (Result Text × S)
unfolding collect
collect_window_posts ports fuel source_id start end max_chars s = built (
    collect (λ token. ports.list_posts (window_filter source_id start end token)) max_chars fuel ""
      started s)
