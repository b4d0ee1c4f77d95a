-- ===== src/Scoring/Scores.antt =====
-- scoreRepo.Upsert (internal/data/score_repo.go) on the table scores.
use mathlib.Core.Option
use feedium.Prelude.{ℕ, String, Bool, ◌&&◌, not, ◌==◌, Option, none, some, List, any, if◌then◌else◌}
use feedium.Errors.{Err, opaque, wrap, Result, ok, err, ◌>>=◌}
use feedium.Uuid.{UuidCodec}
use feedium.Outbox.Table.{find}
use feedium.Outbox.Table.Upsert.{upsert}
use feedium.Outbox.Event.{is_some_eq}
use feedium.Outbox.Repo.{parse_id, with_parsed}
use feedium.Scoring.Relevance.{Floats}
use feedium.Scoring.Ports.{Score}
use feedium.Scoring.Embeddings.{Column, by_post, by_summary}

module _ (floats : Floats) where
  pub record StoredScore : Type 0 where
    pub id : ℕ
    pub post_id : Option ℕ
    pub summary_id : Option ℕ
    pub value : floats.Float64
    pub model : String
    pub created_at : ℕ
    pub updated_at : ℕ

-- The ids of the posts and of the summaries, to which the rows refer.
pub record Referenced : Type 0 where
  pub posts : List ℕ
  pub summaries : List ℕ

abbrev pub refers : Referenced → Column → ℕ → Bool
refers there by_post k = any (λ p. p == k) there.posts
refers there by_summary k = any (λ s. s == k) there.summaries

-- The columns of a new row.
abbrev new_post_id : Column → ℕ → Option ℕ
new_post_id by_post k = some k
new_post_id by_summary k = none

abbrev new_summary_id : Column → ℕ → Option ℕ
new_summary_id by_post k = none
new_summary_id by_summary k = some k

abbrev pub entity_of : UuidCodec → Option String → Option String → Result (Column × ℕ)
entity_of codec (some p) s = parse_id codec "invalid post id" p >>= λ k. ok (by_post, k)
entity_of codec none (some s) = parse_id codec "invalid summary id" s >>= λ k. ok (by_summary, k)
entity_of codec none none = err (opaque "score has neither post_id nor summary_id")

module _ {floats : Floats} where
  abbrev pub score_has_key : Column → ℕ → StoredScore floats → Bool
  score_has_key by_post k r = is_some_eq r.post_id k
  score_has_key by_summary k r = is_some_eq r.summary_id k

  abbrev pub new_stored : ℕ → ℕ → Column → ℕ → Score floats → StoredScore floats
  new_stored now id column k x = record {
    id = id;
    post_id = new_post_id column k;
    summary_id = new_summary_id column k;
    value = x.value;
    model = x.model;
    created_at = now;
    updated_at = now;
  }

  abbrev pub set_score : ℕ → Score floats → StoredScore floats → StoredScore floats
  set_score now x r = record r { value = x.value; model = x.model; updated_at = now }

  module _ (codec : UuidCodec) where
    abbrev pub score_of : StoredScore floats → Score floats
    score_of r = record {
      id = codec.to_string r.id;
      post_id = Option.map codec.to_string r.post_id;
      summary_id = Option.map codec.to_string r.summary_id;
      value = r.value;
      model = r.model;
      created_at = r.created_at;
      updated_at = r.updated_at;
    }

    abbrev returned : Option (StoredScore floats) → Result (Score floats)
    returned none = err (wrap "upsert score" (opaque "sql: no rows in result set"))
    returned (some r) = ok (score_of r)

    -- The statement for the column, with the row that it returns. The foreign key is tested, and the
    -- primary key where no row has the key of the column, so that a row is inserted.
    abbrev pub upsert_stored :
        Option Err
        → ℕ
        → Referenced
        → Score floats
        → ℕ
        → Column × ℕ
        → List (StoredScore floats)
        → Result (Score floats) × List (StoredScore floats)
    upsert_stored (some e) now there x id (column, k) t = (err (wrap "upsert score" e), t)
    upsert_stored none now there x id (column, k) t =
        if refers there column k
        then if any (λ r. r.id == id) t && not (any (score_has_key column k) t)
          then (err (wrap "upsert score" (opaque "duplicate key value")), t)
          else (let t' =
                upsert (score_has_key column k) (set_score now x) (new_stored now id column k x)
                  t in
              (returned (find (score_has_key column k) t'), t'))
        else (err (wrap "upsert score" (opaque "violates foreign key constraint")), t)

    unfoldable pub upsert_score :
        Option Err
        → ℕ
        → Referenced
        → Score floats
        → List (StoredScore floats)
        → Result (Score floats) × List (StoredScore floats)
    upsert_score fault now there x t =
        with_parsed (parse_id codec "invalid score id" x.id)
          (λ id.
            with_parsed (entity_of codec x.post_id x.summary_id)
              (λ key. upsert_stored fault now there x id key t) t)
          t
