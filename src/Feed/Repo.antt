-- ===== src/Feed/Repo.antt =====
-- scoreRepo.ListRanked (internal/data/score_repo.go): the cursor, the reading of the rows and the page.
use Prim.Native.String.{◌++◌ as str_append}
use feedium.Prelude.{
  ℕ, String, not, ◌&&◌, Option, none, some, List, [], ◌∷◌, map, take, length, ltb, str_eq,
  if◌then◌else◌,
}
use feedium.Errors.{Err, sentinel, detail, wrap, invalid_threshold, Result, ok, err, ◌>>=◌}
use feedium.Uuid.{UuidCodec}
use feedium.Pages.{last_of}
use feedium.Scoring.Relevance.{Floats}
use feedium.Feed.{FeedItem, FeedQuery, FeedResult}
use feedium.Feed.Rows.{SqlFloats, FeedDb, RankedRow, ranked_rows}

-- What may fail: the query, the reading of a row, and what follows the rows.
pub record FeedFaults : Type 0 where
  pub query_fault : Option Err
  pub scan_fault : Option Err
  pub rows_fault : Option Err

-- encodeScoreToken and decodeScoreToken.
module _ (floats : Floats) where
  pub record ScoreTokens : Type 0 where
    pub encode_score_token : floats.Float64 → String → String
    pub decode_score_token : String → Option (floats.Float64 × ℕ)

module _ {floats : Floats} (sql : SqlFloats floats) where
  open floats use {Float64}

  abbrev decoded : Option (Float64 × ℕ) → Result (Option (Float64 × ℕ))
  decoded none = err (detail (sentinel invalid_threshold) "invalid page token")
  decoded (some k) = ok (some k)

  abbrev cursor_of : ScoreTokens floats → String → Result (Option (Float64 × ℕ))
  cursor_of tokens token =
      if str_eq token "" then ok none else decoded (tokens.decode_score_token token)

  abbrev url_of : RankedRow floats → String
  url_of r =
      if str_eq r.meta_link "" && not (str_eq r.tg_username "") && not (str_eq r.external_id "")
      then str_append "https://t.me/" (str_append r.tg_username (str_append "/" r.external_id))
      else r.meta_link

  module _ (codec : UuidCodec) (tokens : ScoreTokens floats) where
    abbrev pub item_of : RankedRow floats → FeedItem floats
    item_of r = record {
      post = record {
        id = codec.to_string r.id;
        source_id = codec.to_string r.source_id;
        author = r.author;
        text = r.text;
        published_at = r.published_at;
      };
      score = r.value;
      url = url_of r;
      reaction = r.reaction;
      kind = r.kind;
    }

    abbrev token_after : Option (FeedItem floats) → String
    token_after none = ""
    token_after (some i) = tokens.encode_score_token i.score i.post.id

    abbrev pub page_of : ℕ → List (FeedItem floats) → FeedResult floats
    page_of page_size items = record {
      items = take page_size items;
      next_page_token =
          if ltb page_size (length items) then token_after (last_of (take page_size items)) else "";
    }

    -- The first row that is read may fail, or the end of the rows.
    abbrev pub scanned :
        Option Err → Option Err → ℕ → List (RankedRow floats) → Result (FeedResult floats)
    scanned (some e) ended page_size (r ∷ rs) = err (wrap "scan feed row" e)
    scanned (some e) (some e') page_size [] = err (wrap "rows feed" e')
    scanned (some e) none page_size [] = ok (page_of page_size [])
    scanned none (some e) page_size rows = err (wrap "rows feed" e)
    scanned none none page_size rows = ok (page_of page_size (map item_of rows))

    abbrev pub answered :
        FeedFaults
        → FeedDb floats
        → FeedQuery floats
        → Option (Float64 × ℕ)
        → Result (FeedResult floats)
    answered faults db q cursor = elim faults.query_fault [
      | none ↦ scanned faults.scan_fault faults.rows_fault q.page_size (ranked_rows sql db q cursor)
      | some e ↦ err (wrap "list ranked feed" e)
    ]

    unfoldable pub list_ranked :
        FeedFaults → FeedDb floats → FeedQuery floats → Result (FeedResult floats)
    list_ranked faults db q = cursor_of tokens q.page_token >>= answered faults db q
