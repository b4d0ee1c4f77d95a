-- ===== src/Scoring/Outbox/Event.antt =====
-- Score events (internal/biz/score_outbox.go) and the rows that hold them (table score_events,
-- migrations/20260602100200 and 20260701120100). Times are in microseconds, the table's resolution.
use feedium.Prelude.{ℕ, String, Bool, true, false, ◌||◌, Option, none, some}

pub data ScoreEventStatus : Type 0 where
  pending processing completed failed expired : ScoreEventStatus

pub record ScoreEvent : Type 0 where
  pub id : String
  pub post_id : Option String
  pub summary_id : Option String
  pub status : ScoreEventStatus
  pub error : Option String
  pub attempt_count : ℕ
  pub created_at : ℕ
  pub processed_at : Option ℕ

abbrev first_id : Option String → Option String → String
first_id (some post) summary = post
first_id none (some summary) = summary
first_id none none = ""

unfoldable pub entity_id : ScoreEvent → String
entity_id e = first_id e.post_id e.summary_id

pub record ScoreRow : Type 0 where
  pub id : ℕ
  pub post_id : Option ℕ
  pub summary_id : Option ℕ
  pub status : ScoreEventStatus
  pub error : Option String
  pub attempt_count : ℕ
  pub locked_by : Option String
  pub locked_until : Option ℕ
  pub next_attempt_at : Option ℕ
  pub created_at : ℕ
  pub processed_at : Option ℕ

abbrev pub is_pending : ScoreEventStatus → Bool
is_pending pending = true
is_pending _ = false

abbrev pub is_processing : ScoreEventStatus → Bool
is_processing processing = true
is_processing _ = false

-- status IN ('pending', 'processing')
abbrev pub is_active : ScoreEventStatus → Bool
is_active s = is_pending s || is_processing s

abbrev pub is_terminal : ScoreEventStatus → Bool
is_terminal completed = true
is_terminal failed = true
is_terminal expired = true
is_terminal _ = false

-- The constraint score_events_post_or_summary: num_nonnulls(post_id, summary_id) = 1.
abbrev pub is_keyed : Option ℕ → Option ℕ → Bool
is_keyed (some post) none = true
is_keyed none (some summary) = true
is_keyed _ _ = false
