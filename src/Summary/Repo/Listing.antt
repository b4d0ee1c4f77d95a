-- ===== src/Summary/Repo/Listing.antt =====
-- The pages of SummaryRepo.ListBySource (internal/data/summary_repo.go), from the first token to the last.
use feedium.Prelude.{ℕ, suc, ◌≤◌, ◌≡◌, refl, String, true, Option, none, List, map, length, select}
use feedium.Errors.{Result, ok}
use feedium.Uuid.{UuidCodec}
use feedium.Outbox.Repo.{parse_id}
use feedium.Summary.Ports.{Summary}
use feedium.Summary.Repo.{
  SummaryRow, ListSummariesResult, created_at, row_id, invalid_token, of_source, summary_of,
  page_of, list_by_source,
}
use feedium.Pages.{sort, TokenCodec, parse_page_token, listed_before, fetch}
use feedium.Pages.Order.{HasIds, HasIds-select}
use feedium.Pages.Follow.{Results, Listed, follow_all}

abbrev results : Results ListSummariesResult Summary
results = record {
  items = λ p. p.items;
  next = λ p. p.next_page_token;
  make = λ xs token. record { items = xs; next_page_token = token };
  items-make = λ xs token. refl;
  next-make = λ xs token. refl;
}

module _ (codec : UuidCodec) (tokens : TokenCodec) (source_id : String) (source j : ℕ)
    (named : parse_id codec "invalid source id" source_id ≡ ok source) where
  -- The summaries of the source, from the newest.
  abbrev pub of_the_source : List SummaryRow → List SummaryRow
  of_the_source t = sort (listed_before created_at row_id true) (select (of_source source) t)

  abbrev pub answer : List SummaryRow → String → Result ListSummariesResult
  answer t token = list_by_source codec tokens none source_id (suc j) token t

  answer-ok :
      (t : List SummaryRow) (token : String) (cursor : Option (ℕ × ℕ))
      → parse_page_token tokens invalid_token token ≡ ok cursor
      → answer t token
        ≡ ok (
            page_of codec tokens
              (suc j)
              (fetch created_at row_id true cursor (suc (suc j)) (select (of_source source) t)))
  unfolding list_by_source
  answer-ok t token cursor e = rw (named, e) refl

  -- Where the ids of the table are unique, following the page tokens of a source from the first page,
  -- with any page size of at least 1, ends, after at most one page more than the source has
  -- summaries, and the pages hold exactly these summaries, each once, from the newest.
  pub summaries-Listed :
      (t : List SummaryRow)
      → HasIds row_id t
      → (n : ℕ) × Listed
          (λ p. p.items)
          (λ p. p.next_page_token)
          (answer t)
          n
          ""
          (map (summary_of codec) (of_the_source t))
        × (n ≤ suc (length (of_the_source t)))
  summaries-Listed t ids =
      follow_all results tokens invalid_token created_at row_id true (summary_of codec) j (answer t)
        (select (of_source source) t) (HasIds-select row_id (of_source source) t ids)
        (λ token cursor e. answer-ok t token cursor e)
