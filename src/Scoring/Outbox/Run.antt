-- ===== src/Scoring/Outbox/Run.antt =====
-- Sequences of statements of scoreOutboxRepo (internal/data/score_outbox_repo.go), from any number of
-- processes: an interleaving is a list of calls, each with the database's clock and the driver's
-- error, if any. An enqueue pass makes one call for each event that it inserts.
pub mod Keyed
pub mod Refines
pub mod Invariant
pub mod Once
use feedium.Outbox.Repo.{Fault}
use feedium.Prelude.{
  arith, ℕ, String, ◌≡◌, refl, ap, ◌∙◌, Bool, true, false, ◌||◌, Option, none, some, List, [], ◌∷◌,
  map, any, All, Bool-cases, inl, inr, ◌==◌,
}
use feedium.Errors.{Err, Result, ok, err}
use feedium.Uuid.{UuidCodec}
use feedium.Outbox.Event
use feedium.Outbox.Event.{new_summary_event}
use feedium.Outbox.Run
use feedium.Scoring.Outbox.Event.{ScoreEventStatus, completed, failed, ScoreRow, is_keyed}
use feedium.Scoring.Outbox.Repo.{
  insert_post, insert_digest, claim_one, extend_lease, finalize_with_lease, mark_for_retry,
  fail_expired,
}
use feedium.Scoring.Outbox.Mirror.{row_as}

-- The statuses that a worker writes when it is done with an event.
pub data Outcome : Type 0 where
  complete fail : Outcome

abbrev pub status_of : Outcome → ScoreEventStatus
status_of complete = completed
status_of fail = failed

pub data Call : Type 0 where
  enqueue_post enqueue_digest : Option Err → ℕ → ℕ → ℕ → Call
  claim : Option Err → (ℕ → Bool) → ℕ → String → ℕ → Call
  extend : Option Fault → ℕ → String → String → ℕ → Call
  finalize : Option Fault → ℕ → String → String → Outcome → Option String → Call
  retry : Option Fault → ℕ → String → String → ℕ → String → Call
  reap : Option Fault → ℕ → String → ℕ → ℕ → String → Call

abbrev pub outcome_as : Outcome → Run.Outcome
outcome_as complete = Run.Outcome.complete
outcome_as fail = Run.Outcome.fail

module _ (codec : UuidCodec) where
  -- The table after a call.
  unfoldable pub after : Call → List ScoreRow → List ScoreRow
  after (enqueue_post fault id now post) t = (insert_post fault id now post t).1
  after (enqueue_digest fault id now summary) t = (insert_digest fault id now summary t).1
  after (claim fault skip now worker ttl) t = (claim_one codec fault skip now worker ttl t).1
  after (extend fault now event worker ttl) t = (extend_lease codec fault now event worker ttl t).1
  after (finalize fault now event worker outcome error) t =
      (finalize_with_lease codec fault now event worker (status_of outcome) error t).1
  after (retry fault now event worker at error) t =
      (mark_for_retry codec fault now event worker at error t).1
  after (reap fault now event most grace error) t =
      (fail_expired codec fault now event most grace error t).1

  unfoldable pub run : List Call → List ScoreRow → List ScoreRow
  unfolding after
  run [] t = t
  run (call ∷ calls) t = run calls (after call t)

  -- The call of the summary outbox that does the same to its rows.
  abbrev pub call_as : Call → Run.Call
  call_as (enqueue_post fault id now post) =
      Run.Call.enqueue fault (codec.to_string id) now Event.SummaryEventType.summarize_post
        (codec.to_string 0) (some (codec.to_string post))
  call_as (enqueue_digest fault id now summary) =
      Run.Call.enqueue fault (codec.to_string id) now Event.SummaryEventType.summarize_source
        (codec.to_string summary) none
  call_as (claim fault skip now worker ttl) = Run.Call.claim fault skip now worker ttl
  call_as (extend fault now event worker ttl) = Run.Call.extend fault now event worker ttl
  call_as (finalize fault now event worker outcome error) =
      Run.Call.finalize fault now event worker (outcome_as outcome) none error
  call_as (retry fault now event worker at error) = Run.Call.retry fault now event worker at error
  call_as (reap fault now event most grace error) = Run.Call.reap fault now event most grace error
