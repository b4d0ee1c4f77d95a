-- ===== src/Interest/Repo/Listing.antt =====
-- The pages of InterestRepo.List (internal/data/interest_repo.go), from the first token to the last.
use feedium.Prelude.{ℕ, suc, ◌≤◌, ◌≡◌, refl, String, false, Option, none, List, map, length}
use feedium.Errors.{Result, ok}
use feedium.Uuid.{UuidCodec}
use feedium.Scoring.Relevance.{Floats}
use feedium.Interest.{Interest, ListInterestsResult}
use feedium.Interest.Repo.{
  InterestRow, created_at, row_id, invalid_token, interest_of, page_of, list,
}
use feedium.Pages.{sort, TokenCodec, parse_page_token, listed_before, fetch}
use feedium.Pages.Order.{HasIds}
use feedium.Pages.Follow.{Results, Listed, follow_all}

module _ {floats : Floats} (codec : UuidCodec) (tokens : TokenCodec) (j : ℕ) where
  abbrev results : Results (ListInterestsResult floats) (Interest floats)
  results = record {
    items = λ p. p.items;
    next = λ p. p.next_page_token;
    make = λ xs token. record { items = xs; next_page_token = token };
    items-make = λ xs token. refl;
    next-make = λ xs token. refl;
  }

  -- The interests, from the oldest.
  abbrev pub oldest_first : List (InterestRow floats) → List (InterestRow floats)
  oldest_first t = sort (listed_before created_at row_id false) t

  abbrev pub answer : List (InterestRow floats) → String → Result (ListInterestsResult floats)
  answer t token = list codec tokens none (suc j) token t

  answer-ok :
      (t : List (InterestRow floats)) (token : String) (cursor : Option (ℕ × ℕ))
      → parse_page_token tokens invalid_token token ≡ ok cursor
      → answer t token
        ≡ ok (page_of codec tokens (suc j) (fetch created_at row_id false cursor (suc (suc j)) t))
  unfolding list
  answer-ok t token cursor e = rw e refl

  -- Where the ids of the table are unique, following the page tokens from the first page, with any
  -- page size of at least 1, ends, after at most one page more than there are interests, and the
  -- pages hold exactly the interests, each once, from the oldest.
  pub interests-Listed :
      (t : List (InterestRow floats))
      → HasIds row_id t
      → (n : ℕ) × Listed
          (λ p. p.items)
          (λ p. p.next_page_token)
          (answer t)
          n
          ""
          (map (interest_of codec) (oldest_first t))
        × (n ≤ suc (length (oldest_first t)))
  interests-Listed t ids =
      follow_all results tokens invalid_token created_at row_id false (interest_of codec) j
        (answer t) t ids (λ token cursor e. answer-ok t token cursor e)
