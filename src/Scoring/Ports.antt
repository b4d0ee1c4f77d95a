-- ===== src/Scoring/Ports.antt =====
-- What ScoreUsecase is given (internal/biz/score.go, internal/biz/score_outbox.go): the repositories, the
-- provider of embeddings, the hash of a text, the clock and the source of identifiers, over the
-- state `S` of everything that they read and change. The clock is read in microseconds.
use feedium.Prelude.{ℕ, String, Bool, Option, List}
use feedium.Prelude.Int.{ℤ}
use feedium.Errors.{Err}
use feedium.Exec.{Exec}
use feedium.Text.{Text}
use feedium.Summary.Ports.{Summary}
use feedium.Scoring.Relevance.{Floats, Vector}
use feedium.Scoring.Outbox.Event.{ScoreEvent}

pub record ScoreKey : Type 0 where
  pub post_id : Option String
  pub summary_id : Option String

-- What the getters of conf.Scoring answer: 0 where the message or the field is absent.
pub record ScoringConfig : Type 0 where
  pub max_attempts : ℤ
  pub backoff_base : ℤ
  pub backoff_max : ℤ
  pub lease_ttl : ℤ
  pub reaper_grace : ℤ

module _ (floats : Floats) where
  pub record Score : Type 0 where
    pub id : String
    pub post_id : Option String
    pub summary_id : Option String
    pub value : floats.Float64
    pub model : String
    pub created_at : ℕ
    pub updated_at : ℕ

  pub record PostEmbedding : Type 0 where
    pub post_id : Option String
    pub summary_id : Option String
    pub vector : Vector floats
    pub model : String
    pub input_hash : String
    pub created_at : ℕ
    pub updated_at : ℕ

  pub record InterestVector : Type 0 where
    pub embedding : Vector floats
    pub model : String

  pub record ScorePorts (S : Type 0) : Type 1 where
    pub get_summary : String → Exec S Summary
    pub summaries_by_post : String → Exec S (List Summary)
    pub interest_vectors : Exec S (List InterestVector)
    pub get_embedding : ScoreKey → Exec S PostEmbedding
    pub upsert_embedding : PostEmbedding → Exec S PostEmbedding
    pub upsert_score : Score → Exec S Score
    pub embed : Text → Exec S (Vector floats)
    pub model : String
    pub hash_input : Text → String
    -- The number of enqueued events is returned beside the error.
    pub enqueue_due_posts : S → (ℕ × Option Err) × S
    pub enqueue_due_digests : S → (ℕ × Option Err) × S
    pub list_lease_expired : ℕ → ℕ → Exec S (List ScoreEvent)
    pub fail_expired : String → ℕ → ℕ → String → Exec S Bool
    pub now : S → ℕ × S
    pub new_id : S → String × S
