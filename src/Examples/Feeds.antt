-- ===== src/Examples/Feeds.antt =====
-- Reactions before a page of the ranked feed.
use feedium.Prelude.{ℕ, ◌≡◌, refl, none, some, List, [], ◌∷◌, ltb, All}
use feedium.Prelude.Int.{pos}
use feedium.Errors.{opaque, ok}
use feedium.Examples.Codecs.{codec, vs}
use feedium.Examples.Scores.{counting}
use feedium.Source.{rss}
use feedium.Post.Repo.{PostRow}
use feedium.Summary.Repo.{newest_first}
use feedium.Scoring.Scores.{StoredScore}
use feedium.Reaction.{react, upsert_reaction}
use feedium.Reaction.Last.{ReactCall, run_reactions, last_signal}
use feedium.Feed.{FeedQuery, FeedResult, ranked_feed, post}
use feedium.Feed.Rows.{SqlFloats, FeedDb}
use feedium.Feed.Repo.{ScoreTokens, FeedFaults, list_ranked}
use feedium.Feed.Hidden.{IsHidden, feed-run_reactions}
use feedium.Pages.{sort}

abbrev sql : SqlFloats counting
sql = record { less = ltb; tenth = 1 }

abbrev tokens : ScoreTokens counting
tokens = record { encode_score_token = λ v i. vs v i; decode_score_token = λ s. none }

abbrev stored_post : ℕ → PostRow
stored_post i = record {
  id = i;
  source_id = 0;
  source_type = rss;
  external_id = "x";
  published_at = 5;
  author = none;
  text = [];
  metadata = ("link", "https://example.org") ∷ [];
  created_at = 5;
  updated_at = 5;
}

abbrev score_of_post : ℕ → ℕ → StoredScore counting
score_of_post i v = record {
  id = i;
  post_id = some i;
  summary_id = none;
  value = v;
  model = "m";
  created_at = 6;
  updated_at = 6;
}

abbrev db : FeedDb counting
db = record {
  scores = score_of_post 1 1 ∷ score_of_post 2 1 ∷ [];
  posts = stored_post 1 ∷ stored_post 2 ∷ [];
  sources = [];
  summaries = [];
  reactions = [];
}

-- Post 1 is liked, then disliked; a later call is not a signal, and another one fails.
abbrev reactions : List ReactCall
reactions =
    record { fault = none; now = 7; id = 10; posts = 1 ∷ 2 ∷ []; post_id = "#i"; signal = "like" }
    ∷ record {
      fault = none;
      now = 8;
      id = 11;
      posts = 1 ∷ 2 ∷ [];
      post_id = "#i";
      signal = "dislike";
    }
    ∷ record {
      fault = none;
      now = 9;
      id = 12;
      posts = 1 ∷ 2 ∷ [];
      post_id = "#ii";
      signal = "like";
    }
    ∷ record { fault = none; now = 9; id = 13; posts = 1 ∷ 2 ∷ []; post_id = "#i"; signal = "love" }
    ∷ record {
      fault = some (opaque "down");
      now = 9;
      id = 14;
      posts = 1 ∷ 2 ∷ [];
      post_id = "#i";
      signal = "like";
    }
    ∷ []

abbrev quiet : FeedFaults
quiet = record { query_fault = none; scan_fault = none; rows_fault = none }

abbrev query : FeedQuery counting
query = record { from = none; to = none; min_score = 0; page_size = 0; page_token = "" }

abbrev page : FeedResult counting
page = record {
  items =
      record {
        post = record { id = "#ii"; source_id = "#"; author = none; text = []; published_at = 5 };
        score = 1;
        url = "https://example.org";
        reaction = "like";
        kind = post;
      }
      ∷ [];
  next_page_token = "";
}

page_of_feed :
    ranked_feed counting
      (list_ranked sql codec tokens quiet
        (record db { reactions = run_reactions codec reactions db.reactions }))
      (pos 1)
      query
    ≡ ok page
unfolding ranked_feed list_ranked run_reactions react upsert_reaction sort newest_first
page_of_feed = refl

disliked : last_signal codec 1 reactions none ≡ some "dislike"
unfolding last_signal
disliked = refl

feed-run_reactions_example : All (IsHidden codec 1) page.items
feed-run_reactions_example =
    feed-run_reactions codec 1 sql tokens reactions db quiet (pos 1) query page disliked
      page_of_feed
