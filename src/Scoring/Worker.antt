-- ===== src/Scoring/Worker.antt =====
-- The worker pool of score events (internal/task/score_event_worker_pool.go): what a worker does with a
-- claimed event once ScorePost has returned. The process's clock is in nanoseconds.
pub mod Settled
use feedium.Prelude.{ℕ, String, Bool, ◌&&◌, ◌||◌, List, [], ◌∷◌, Option, none, some, if◌then◌else◌}
use feedium.Prelude.Int.{ℤ, pos, ltb_ℤ}
use feedium.Errors.{
  Err, is, error_text, context_canceled, deadline_exceeded, lease_lost, Result, ok, err,
}
use feedium.Retry.{RetryPolicy, calculate_backoff}
use feedium.Uuid.{UuidCodec}
use feedium.Config.{positive_or, default_lease_ttl}
use feedium.Outbox.Repo.{Fault, microseconds}
use feedium.Worker.{Site, add_duration}
use feedium.Scoring.Outbox.Event.{ScoreEvent, ScoreRow}
use feedium.Scoring.Outbox.Repo.{claim_one}
use feedium.Scoring.Outbox.Run.{Outcome, complete, fail, Call, finalize, retry, after}
use feedium.Scoring.Ports.{ScoringConfig}
use feedium.Scoring.Usecase.{is_transient_score_error}

abbrev pub write_terminal : Site → String → Outcome → Option String → Call
write_terminal s event_id outcome error = finalize s.fault s.db_now event_id s.worker outcome error

-- A transient error with attempts left, and the time of the next attempt.
abbrev pub retries : RetryPolicy → ScoreEvent → Err → Bool
retries policy event e =
    is_transient_score_error (some e) && ltb_ℤ (pos event.attempt_count) policy.max_attempts

abbrev pub retry_at : RetryPolicy → ℕ → ScoreEvent → ℕ
retry_at policy now event =
    microseconds (add_duration now (calculate_backoff policy (pos event.attempt_count)))

-- The repository call that `finalize` makes, if it makes one. Its result is only logged.
unfoldable pub finalize_failed : Site → RetryPolicy → ℕ → ScoreEvent → Err → Option Call
finalize_failed s policy now event e =
    if is e lease_lost
    then none
    else if is e context_canceled || is e deadline_exceeded
    then none
    else if retries policy event e
    then some (retry s.fault s.db_now event.id s.worker (retry_at policy now event) (error_text e))
    else some (write_terminal s event.id fail (some (error_text e)))

unfoldable pub finalize_scored : Site → RetryPolicy → ℕ → ScoreEvent → Result String → Option Call
unfolding finalize_failed
finalize_scored s policy now event (ok score_id) = some (write_terminal s event.id complete none)
finalize_scored s policy now event (err e) = finalize_failed s policy now event e

-- The lease that runWorker and startHeartbeat ask for.
abbrev pub lease_ttl_of : ScoringConfig → ℕ
lease_ttl_of cfg = positive_or cfg.lease_ttl default_lease_ttl

-- One round of runWorker, with what its environment answers.
pub record Turn : Type 0 where
  pub claim_fault : Option Err
  pub skip : ℕ → Bool
  pub claim_now : ℕ
  pub handler : ScoreEvent → Result String
  pub fault : Option Fault
  pub db_now : ℕ
  pub now : ℕ

module _ (codec : UuidCodec) where
  abbrev pub perform : Option Call → List ScoreRow → List ScoreRow
  perform none t = t
  perform (some call) t = after codec call t

  module _ (worker : String) (ttl : ℕ) (policy : RetryPolicy) where
    abbrev pub site : Turn → Site
    site turn = record { worker = worker; fault = turn.fault; db_now = turn.db_now }

    -- No event, or an error: the worker sleeps. Else ScorePost runs and the outcome is written.
    abbrev pub process : Turn → Result ScoreEvent × List ScoreRow → List ScoreRow
    process turn (err e, t) = t
    process turn (ok event, t) =
        perform (finalize_scored (site turn) policy turn.now event (turn.handler event)) t

    unfoldable pub round : Turn → List ScoreRow → List ScoreRow
    unfolding finalize_scored
    round turn t =
        process turn (claim_one codec turn.claim_fault turn.skip turn.claim_now worker ttl t)

    -- The loop of runWorker, until the pool is stopped.
    unfoldable pub run_worker : List Turn → List ScoreRow → List ScoreRow
    unfolding round
    run_worker [] t = t
    run_worker (turn ∷ turns) t = run_worker turns (round turn t)
