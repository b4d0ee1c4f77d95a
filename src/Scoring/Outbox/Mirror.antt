-- ===== src/Scoring/Outbox/Mirror.antt =====
-- A row of score_events seen as a row of summary_events: what the two outboxes
-- (internal/data/score_outbox_repo.go and internal/data/summary_outbox_repo.go) have in common. The
-- event of a post is an event of type summarize_post, that of a digest one of type
-- summarize_source, with the digest in the place of the source.
pub mod Updates
use feedium.Prelude.{
  ℕ, String, ◌≡◌, refl, ap, ◌∙◌, Bool, true, false, ◌||◌, Option, none, some, List, [], ◌∷◌, ◌++◌,
  map, arith, any, ◌==◌, if◌then◌else◌, Bool-cases, inl, inr, leb,
}
use mathlib.Core.Option
use feedium.Errors.{Err, Result, ok, err}
use feedium.Outbox.Table.{update_where, first_by}
use feedium.Outbox.Table.Mapped.{map-update_where, any-map, first_by-map}
use feedium.Outbox.Event
use feedium.Outbox.Event.{Row, SummaryEventType, SummaryEventStatus}
use feedium.Outbox.Statements
use feedium.Outbox.Repo
use feedium.Outbox.Repo.{microseconds, guarded, terminated, with_parsed}
use feedium.Scoring.Outbox.Event.{
  ScoreEventStatus, ScoreRow, pending, processing, completed, failed, expired,
}
use feedium.Scoring.Outbox.Statements.{
  claim_key, claimable, claimed_by, claim_row, claim_statement, holds_lease, extend_set,
  finalize_set, retry_set, is_stuck, fail_set,
}
use feedium.Scoring.Outbox.Repo.{extend_id, finalize_id, retry_id, fail_id}

abbrev pub status_as : ScoreEventStatus → SummaryEventStatus
status_as pending = Event.SummaryEventStatus.pending
status_as processing = Event.SummaryEventStatus.processing
status_as completed = Event.SummaryEventStatus.completed
status_as failed = Event.SummaryEventStatus.failed
status_as expired = Event.SummaryEventStatus.expired

abbrev pub type_as : Option ℕ → SummaryEventType
type_as none = Event.SummaryEventType.summarize_post
type_as (some summary) = Event.SummaryEventType.summarize_source

abbrev pub source_as : Option ℕ → ℕ
source_as none = 0
source_as (some summary) = summary

unfoldable pub row_as : ScoreRow → Row
row_as r = record {
  id = r.id;
  post_id = r.post_id;
  source_id = source_as r.summary_id;
  event_type = type_as r.summary_id;
  status = status_as r.status;
  summary_id = none;
  error = r.error;
  created_at = r.created_at;
  processed_at = r.processed_at;
  locked_until = r.locked_until;
  locked_by = r.locked_by;
  attempt_count = r.attempt_count;
  next_attempt_at = r.next_attempt_at;
}

module _ (r : ScoreRow) where
  pub claimable-row_as :
      (skip : ℕ → Bool) (now : ℕ) → Statements.claimable skip now (row_as r) ≡ claimable skip now r
  unfolding row_as claimable Statements.claimable
  claimable-row_as skip now = ground arith

  pub claim_key-row_as : Statements.claim_key (row_as r) ≡ claim_key r
  unfolding row_as
  claim_key-row_as = refl

  pub claimed_by-row_as :
      (worker : String) (ttl now : ℕ)
      → Statements.claimed_by worker ttl now (row_as r) ≡ row_as (claimed_by worker ttl now r)
  unfolding row_as claimed_by Statements.claimed_by
  claimed_by-row_as worker ttl now = refl

  pub holds_lease-row_as :
      (id : ℕ) (worker : String) (now : ℕ)
      → Statements.holds_lease id worker now (row_as r) ≡ holds_lease id worker now r
  unfolding row_as holds_lease Statements.holds_lease
  holds_lease-row_as id worker now = ground arith

  pub extend_set-row_as :
      (ttl now : ℕ) → Statements.extend_set ttl now (row_as r) ≡ row_as (extend_set ttl now r)
  unfolding row_as extend_set Statements.extend_set
  extend_set-row_as ttl now = refl

  pub finalize_set-row_as :
      (status : ScoreEventStatus) (error : Option String) (now : ℕ)
      → Statements.finalize_set (status_as status) none error now (row_as r)
        ≡ row_as (finalize_set status error now r)
  unfolding row_as finalize_set Statements.finalize_set
  finalize_set-row_as status error now = refl

  pub retry_set-row_as :
      (at : ℕ) (error : String)
      → Statements.retry_set at error (row_as r) ≡ row_as (retry_set at error r)
  unfolding row_as retry_set Statements.retry_set
  retry_set-row_as at error = refl

  pub is_stuck-row_as :
      (id most grace now : ℕ)
      → Statements.is_stuck id most grace now (row_as r) ≡ is_stuck id most grace now r
  unfolding row_as is_stuck Statements.is_stuck
  is_stuck-row_as id most grace now = ground arith

  pub fail_set-row_as :
      (error : String) (now : ℕ)
      → Statements.fail_set error now (row_as r) ≡ row_as (fail_set error now r)
  unfolding row_as fail_set Statements.fail_set
  fail_set-row_as error now = refl
