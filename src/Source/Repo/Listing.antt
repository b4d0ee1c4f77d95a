-- ===== src/Source/Repo/Listing.antt =====
-- The pages of SourceRepo.List (internal/data/source_repo.go), from the first token to the last.
use feedium.Prelude.{
  ℕ, zero, suc, ◌≤◌, ◌≡◌, refl, String, false, Option, none, List, [], ◌∷◌, map, length, take,
  select, All,
}
use feedium.Errors.{Result, ok}
use feedium.Uuid.{UuidCodec}
use feedium.Source.{SourceType, ProcessingMode, Source}
use feedium.Source.Usecase.{ListSourcesResult}
use feedium.Source.Repo.{
  SourceRow, created_at, row_id, invalid_token, matches, source_of, read_rows, page_of, list,
}
use feedium.Pages.{sort, TokenCodec, parse_page_token, listed_before, fetch, next_token}
use feedium.Pages.Order.{HasIds, HasIds-select, All-fetch}
use feedium.Pages.Follow.{Results, Listed, follow_all}

abbrev results : Results ListSourcesResult Source
results = record {
  items = λ p. p.items;
  next = λ p. p.next_page_token;
  make = λ xs token. record { items = xs; next_page_token = token };
  items-make = λ xs token. refl;
  next-make = λ xs token. refl;
}

module _ (codec : UuidCodec) (tokens : TokenCodec) (source_type : Option SourceType)
    (mode : Option ProcessingMode) (j : ℕ) (item : SourceRow → Source) where
  -- The row is read as this source.
  abbrev pub IsRead : SourceRow → Type 0
  IsRead r = source_of codec r ≡ ok (item r)

  -- The rows that the filter admits, by the time of their creation and their id.
  abbrev pub admitted : List SourceRow → List SourceRow
  admitted t = sort (listed_before created_at row_id false) (select (matches source_type mode) t)

  abbrev pub answer : List SourceRow → String → Result ListSourcesResult
  answer t token = list codec tokens none source_type mode (suc j) token t

  read_all :
      (k : ℕ) (rs : List SourceRow)
      → All IsRead rs
      → read_rows codec (take k rs) ≡ ok (map item (take k rs))
  read_all zero rs a = refl
  read_all (suc k) [] a = refl
  read_all (suc k) (r ∷ rs) a = rw (a.0, read_all k rs a.1) refl

  page_read :
      (rows : List SourceRow)
      → All IsRead rows
      → page_of codec tokens (suc j) rows
        ≡ ok (record {
          items = map item (take (suc j) rows);
          next_page_token = next_token created_at row_id tokens (suc j) rows;
        })
  page_read rows a = rw (read_all (suc j) rows a) refl

  answer-ok :
      (t : List SourceRow) (token : String) (cursor : Option (ℕ × ℕ))
      → All IsRead (select (matches source_type mode) t)
      → parse_page_token tokens invalid_token token ≡ ok cursor
      → answer t token
        ≡ ok (record {
          items = map item (
              take (suc j) (
                fetch created_at row_id false cursor
                  (suc (suc j))
                  (select (matches source_type mode) t)));
          next_page_token = next_token created_at row_id tokens (suc j) (
              fetch created_at row_id false cursor
                (suc (suc j))
                (select (matches source_type mode) t));
        })
  unfolding list
  answer-ok t token cursor a e =
      rw e (page_read _ (All-fetch created_at row_id false IsRead cursor (suc (suc j)) _ a))

  -- Where the ids of the table are unique and each row that the filter admits reads as a source,
  -- following the page tokens from the first page, with any page size of at least 1, ends, after at
  -- most one page more than there are such rows, and the pages hold exactly their sources, each
  -- once, from the oldest.
  pub sources-Listed :
      (t : List SourceRow)
      → HasIds row_id t
      → All IsRead (select (matches source_type mode) t)
      → (n : ℕ) × Listed
          (λ p. p.items)
          (λ p. p.next_page_token)
          (answer t)
          n
          ""
          (map item (admitted t))
        × (n ≤ suc (length (admitted t)))
  sources-Listed t ids reads =
      follow_all results tokens invalid_token created_at row_id false item j (answer t)
        (select (matches source_type mode) t)
        (HasIds-select row_id (matches source_type mode) t ids)
        (λ token cursor e. answer-ok t token cursor reads e)
