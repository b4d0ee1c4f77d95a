-- ===== src/Summary/Repo.antt =====
-- summaryRepo (internal/data/summary_repo.go) on the table summaries.
pub mod Listing
pub mod Newest
use mathlib.Core.Option
use feedium.Prelude.{
  ℕ, suc, String, Bool, true, ◌==◌, Option, none, some, List, [], ◌∷◌, ◌++◌, map, any, take, select,
  leb, if◌then◌else◌,
}
use feedium.Errors.{Err, sentinel, opaque, wrap, summary_not_found, Result, ok, err, ◌>>=◌}
use feedium.Uuid.{UuidCodec}
use feedium.Text.{Text}
use feedium.Outbox.Table.{find}
use feedium.Outbox.Event.{is_some_eq}
use feedium.Outbox.Repo.{parse_id, parse_optional, with_parsed}
use feedium.Pages.{sort, TokenCodec, parse_page_token, fetch, next_token}
use feedium.Summary.Ports.{Summary}

pub record SummaryRow : Type 0 where
  pub id : ℕ
  pub post_id : Option ℕ
  pub source_id : ℕ
  pub text : Text
  pub word_count : ℕ
  pub created_at : ℕ

pub record ListSummariesResult : Type 0 where
  pub items : List Summary
  pub next_page_token : String

abbrev pub created_at : SummaryRow → ℕ
created_at r = r.created_at

abbrev pub row_id : SummaryRow → ℕ
row_id r = r.id

abbrev pub invalid_token : Err
invalid_token = wrap "invalid page token" (opaque "invalid token format")

-- ORDER BY created_at DESC, rows of the same time in the order of the table.
abbrev insert_newest : SummaryRow → List SummaryRow → List SummaryRow
insert_newest x [] = x ∷ []
insert_newest x (y ∷ ys) =
    let rest = insert_newest x ys in if leb y.created_at x.created_at then x ∷ y ∷ ys else y ∷ rest

unfoldable pub newest_first : List SummaryRow → List SummaryRow
newest_first [] = []
newest_first (x ∷ xs) = insert_newest x (newest_first xs)

abbrev pub first_of : List SummaryRow → Option SummaryRow
first_of [] = none
first_of (x ∷ xs) = some x

abbrev pub of_source : ℕ → SummaryRow → Bool
of_source source r = r.source_id == source

module _ (codec : UuidCodec) where
  -- mapEntToDomain
  unfoldable pub summary_of : SummaryRow → Summary
  summary_of r = record {
    id = codec.to_string r.id;
    post_id = Option.map codec.to_string r.post_id;
    source_id = codec.to_string r.source_id;
    text = r.text;
    word_count = r.word_count;
    created_at = r.created_at;
  }

  abbrev pub new_row : Summary → ℕ → ℕ → Option ℕ → SummaryRow
  new_row s id source_id post_id = record {
    id = id;
    post_id = post_id;
    source_id = source_id;
    text = s.text;
    word_count = s.word_count;
    created_at = s.created_at;
  }

  abbrev pub parse_summary : Summary → Result SummaryRow
  parse_summary s = do
    id ← parse_id codec "invalid summary id" s.id
    source_id ← parse_id codec "invalid source id" s.source_id
    post_id ← parse_optional codec "invalid post id" s.post_id
    ok (new_row s id source_id post_id)

  -- INSERT, with the primary key; `there` tells whether the rows that it refers to exist.
  abbrev pub insert :
      Option Err
      → (SummaryRow → Bool)
      → List SummaryRow
      → SummaryRow
      → Result Summary × List SummaryRow
  insert (some e) there t n = (err (wrap "save summary" e), t)
  insert none there t n =
      if any (λ r. r.id == n.id) t
      then (err (wrap "save summary" (opaque "duplicate key value violates unique constraint")), t)
      else if there n
      then (ok (summary_of n), t ++ n ∷ [])
      else (err (wrap "save summary" (opaque "violates foreign key constraint")), t)

  unfoldable pub save :
      Option Err
      → (SummaryRow → Bool)
      → Summary
      → List SummaryRow
      → Result Summary × List SummaryRow
  unfolding summary_of
  save fault there s t = with_parsed (parse_summary s) (insert fault there t) t

  abbrev pub found : Option Err → Option SummaryRow → Result Summary
  found (some e) o = err (wrap "get summary" e)
  found none none = err (sentinel summary_not_found)
  found none (some r) = ok (summary_of r)

  unfoldable pub get : Option Err → String → List SummaryRow → Result Summary
  unfolding summary_of
  get fault id t =
      parse_id codec "invalid summary id" id >>= λ i. found fault (find (λ r. r.id == i) t)

  abbrev pub all_of : String → Option Err → List SummaryRow → Result (List Summary)
  all_of what (some e) rows = err (wrap what e)
  all_of what none rows = ok (map summary_of rows)

  unfoldable pub list_by_post : Option Err → String → List SummaryRow → Result (List Summary)
  unfolding summary_of newest_first
  list_by_post fault post_id t = parse_id codec "invalid post id" post_id >>= λ p.
      all_of "list summaries by post" fault (newest_first (select (λ r. is_some_eq r.post_id p) t))

  abbrev pub last_of : Option Err → Option SummaryRow → Result (Option Summary)
  last_of (some e) o = err (wrap "get last summary by source" e)
  last_of none none = ok none
  last_of none (some r) = ok (some (summary_of r))

  unfoldable pub get_last_by_source :
      Option Err → String → List SummaryRow → Result (Option Summary)
  unfolding summary_of newest_first
  get_last_by_source fault source_id t = parse_id codec "invalid source id" source_id >>= λ s.
      last_of fault (first_of (newest_first (select (of_source s) t)))

  module _ (tokens : TokenCodec) where
    abbrev pub page_of : ℕ → List SummaryRow → ListSummariesResult
    page_of page_size rows = record {
      items = map summary_of (take page_size rows);
      next_page_token = next_token created_at row_id tokens page_size rows;
    }

    abbrev pub listed :
        Option Err → ℕ → Option (ℕ × ℕ) → List SummaryRow → Result ListSummariesResult
    listed (some e) page_size cursor rows = err (wrap "list summaries by source" e)
    listed none page_size cursor rows =
        ok (page_of page_size (fetch created_at row_id true cursor (suc page_size) rows))

    unfoldable pub list_by_source :
        Option Err → String → ℕ → String → List SummaryRow → Result ListSummariesResult
    unfolding summary_of sort
    list_by_source fault source_id page_size token t =
        parse_id codec "invalid source id" source_id >>= λ s.
        parse_page_token tokens invalid_token token >>= λ cursor.
        listed fault page_size cursor (select (of_source s) t)
