-- ===== src/Feed.antt =====
-- The ranked feed (internal/biz/feed.go): its types and FeedUsecase.RankedFeed.
pub mod Rows
pub mod Repo
pub mod Hidden
use feedium.Prelude.{ℕ, String, Bool, false, ◌||◌, Option, none, some, List, ltb, if◌then◌else◌}
use feedium.Prelude.Int.{ℤ, pos_part}
use feedium.Errors.{sentinel, detail, invalid_threshold, Result, err}
use feedium.Text.{Text}
use feedium.Source.Usecase.{clamp_page_size}
use feedium.Scoring.Relevance.{Floats}

pub data FeedItemKind : Type 0 where
  post digest : FeedItemKind

-- The fields of the Post of an item that the feed sets.
pub record FeedPost : Type 0 where
  pub id : String
  pub source_id : String
  pub author : Option String
  pub text : Text
  pub published_at : ℕ

module _ (floats : Floats) where
  open floats use {Float64, zero, one, lt}

  pub record FeedItem : Type 0 where
    pub post : FeedPost
    pub score : Float64
    pub url : String
    pub reaction : String
    pub kind : FeedItemKind

  pub record FeedQuery : Type 0 where
    pub from : Option ℕ
    pub to : Option ℕ
    pub min_score : Float64
    pub page_size : ℕ
    pub page_token : String

  pub record FeedResult : Type 0 where
    pub items : List FeedItem
    pub next_page_token : String

  -- From.After(To), where both are given.
  abbrev pub is_after : Option ℕ → Option ℕ → Bool
  is_after (some from) (some to) = ltb to from
  is_after _ _ = false

  -- The request's page size is an int, clamped to 1..500 before the repository lists.
  unfoldable pub ranked_feed : (FeedQuery → Result FeedResult) → ℤ → FeedQuery → Result FeedResult
  ranked_feed list_ranked page_size query =
      if lt query.min_score zero || lt one query.min_score
      then err (detail (sentinel invalid_threshold) "min_score must be in [0,1]")
      else if is_after query.from query.to
      then err (detail (sentinel invalid_threshold) "from must be before to")
      else list_ranked (record query { page_size = pos_part (clamp_page_size page_size) })
