-- ===== src/Feed/Rows.antt =====
-- The rows of the ranked feed: the query of scoreRepo.ListRanked (internal/data/score_repo.go) over the
-- tables that it joins. PostgreSQL orders all numbers of type double precision, NaN last.
use feedium.Prelude.{
  ℕ, suc, String, Bool, true, not, ◌&&◌, ◌||◌, ◌==◌, Option, none, some, List, [], ◌∷◌, ◌++◌, take,
  select, ltb, leb, str_eq, if◌then◌else◌,
}
use feedium.Text.{Text}
use feedium.Outbox.Table.{find}
use feedium.Outbox.Event.{is_some_eq}
use feedium.Pages.{sort}
use feedium.Source.Config.{Json, lookup}
use feedium.Source.Repo.{SourceRow}
use feedium.Post.Repo.{PostRow}
use feedium.Summary.Repo.{SummaryRow, newest_first, first_of}
use feedium.Reaction.{ReactionRow, for_post}
use feedium.Scoring.Relevance.{Floats}
use feedium.Scoring.Scores.{StoredScore}
use feedium.Feed.{FeedItemKind, post, digest, FeedQuery}

module _ (floats : Floats) where
  -- The comparison `<` of double precision, and 0.1.
  pub record SqlFloats : Type 0 where
    pub less : floats.Float64 → floats.Float64 → Bool
    pub tenth : floats.Float64

  pub record FeedDb : Type 0 where
    pub scores : List (StoredScore floats)
    pub posts : List PostRow
    pub sources : List SourceRow
    pub summaries : List SummaryRow
    pub reactions : List ReactionRow

  -- The columns of q.
  pub record RankedRow : Type 0 where
    pub id : ℕ
    pub source_id : ℕ
    pub author : Option String
    pub text : Text
    pub published_at : ℕ
    pub value : floats.Float64
    pub meta_link : String
    pub tg_username : String
    pub external_id : String
    pub reaction : String
    pub effective_value : floats.Float64
    pub kind : FeedItemKind

-- COALESCE(o, a), of a column of a row that a LEFT JOIN may lack.
abbrev or_else {ℓ} : {A : Type ℓ} → A → Option A → A
or_else a none = a
or_else a (some b) = b

abbrev entry : String → List (String × String) → Option String
entry key [] = none
entry key ((k, v) ∷ kvs) = if str_eq k key then some v else entry key kvs

abbrev meta_link : List (String × String) → String
meta_link metadata = or_else "" (entry "link" metadata)

-- config->channel->>'username': the values of a configuration are numbers and texts, and `->>` of
-- these is NULL.
abbrev field_of : Option Json → Option String
field_of none = none
field_of (some j) = none

abbrev tg_username : Option SourceRow → String
tg_username none = ""
tg_username (some r) =
    or_else (or_else "" (field_of (lookup "telegramGroup" r.config)))
      (field_of (lookup "telegramChannel" r.config))

abbrev pub signal_of : Option ReactionRow → String
signal_of none = ""
signal_of (some r) = r.signal

-- The text of the newest summary of the post, or that of the post.
abbrev shown_text : PostRow → Option SummaryRow → Text
shown_text p none = p.text
shown_text p (some s) = s.text

module _ {floats : Floats} (sql : SqlFloats floats) where
  open floats use {Float64, add}

  abbrev boosted : String → Float64 → Float64
  boosted signal value = if str_eq signal "like" then add value sql.tenth else value

  abbrev pub post_row : FeedDb floats → Float64 → PostRow → String → RankedRow floats
  post_row db value p signal = record {
    id = p.id;
    source_id = p.source_id;
    author = p.author;
    text =
        shown_text p
          (first_of (newest_first (select (λ s. is_some_eq s.post_id p.id) db.summaries)));
    published_at = p.published_at;
    value = value;
    meta_link = meta_link p.metadata;
    tg_username = tg_username (find (λ r. r.id == p.source_id) db.sources);
    external_id = p.external_id;
    reaction = signal;
    effective_value = boosted signal value;
    kind = post;
  }

  abbrev pub digest_row : Float64 → SummaryRow → RankedRow floats
  digest_row value s = record {
    id = s.id;
    source_id = s.source_id;
    author = none;
    text = s.text;
    published_at = s.created_at;
    value = value;
    meta_link = "";
    tg_username = "";
    external_id = "";
    reaction = "";
    effective_value = value;
    kind = digest;
  }

  -- The rows of a score in the two branches: the joins are on primary keys and on the unique
  -- post_id of a reaction, so each finds a row at most.
  abbrev pub shown : FeedDb floats → Float64 → PostRow → String → List (RankedRow floats)
  shown db value p signal = if str_eq signal "dislike" then [] else post_row db value p signal ∷ []

  abbrev pub joined_post : FeedDb floats → Float64 → Option PostRow → List (RankedRow floats)
  joined_post db value none = []
  joined_post db value (some p) = shown db value p (signal_of (find (for_post p.id) db.reactions))

  abbrev pub post_branch : FeedDb floats → List (StoredScore floats) → List (RankedRow floats)
  post_branch db [] = []
  post_branch db (s ∷ ss) =
      joined_post db s.value
        (elim s.post_id [ none ↦ none | some p ↦ find (λ r. r.id == p) db.posts ])
      ++ post_branch db ss

  abbrev pub joined_digest : Float64 → Option SummaryRow → List (RankedRow floats)
  joined_digest value none = []
  joined_digest value (some s) = elim s.post_id [ none ↦ digest_row value s ∷ [] | some p ↦ [] ]

  abbrev pub digest_branch : FeedDb floats → List (StoredScore floats) → List (RankedRow floats)
  digest_branch db [] = []
  digest_branch db (s ∷ ss) =
      joined_digest s.value
        (elim s.summary_id [ none ↦ none | some k ↦ find (λ r. r.id == k) db.summaries ])
      ++ digest_branch db ss

  -- The conditions, the cursor (on the value without the boost) and the order (with it).
  abbrev not_before : Option ℕ → RankedRow floats → Bool
  not_before none r = true
  not_before (some t) r = leb t r.published_at

  abbrev not_after : Option ℕ → RankedRow floats → Bool
  not_after none r = true
  not_after (some t) r = leb r.published_at t

  abbrev same_value : Float64 → Float64 → Bool
  same_value a b = not (sql.less a b) && not (sql.less b a)

  abbrev after_cursor : Option (Float64 × ℕ) → RankedRow floats → Bool
  after_cursor none r = true
  after_cursor (some (v, i)) r = sql.less r.value v || (same_value r.value v && ltb i r.id)

  abbrev pub admitted : FeedQuery floats → Option (Float64 × ℕ) → RankedRow floats → Bool
  admitted q cursor r =
      not (sql.less r.value q.min_score)
      && not_before q.from r
      && not_after q.to r
      && after_cursor cursor r

  abbrev pub ranked_before : RankedRow floats → RankedRow floats → Bool
  ranked_before a b =
      sql.less b.effective_value a.effective_value
      || (same_value a.effective_value b.effective_value && ltb a.id b.id)

  abbrev pub ranked_rows :
      FeedDb floats → FeedQuery floats → Option (Float64 × ℕ) → List (RankedRow floats)
  ranked_rows db q cursor = take (suc q.page_size) (
      sort ranked_before
        (select (admitted q cursor) (post_branch db db.scores ++ digest_branch db db.scores)))
