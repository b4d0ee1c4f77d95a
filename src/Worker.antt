-- ===== src/Worker.antt =====
-- The worker pool of summary events (internal/task/event_worker_pool.go): what a worker does with a
-- claimed event once its handler has returned. The process's clock is in nanoseconds.
pub mod Attempts
pub mod Budget
pub mod Schedule
use feedium.Prelude.{
  ℕ, suc, ◌+◌, ◌-◌, String, Bool, ◌||◌, List, [], ◌∷◌, Option, none, some, if◌then◌else◌, str_eq,
}
use feedium.Prelude.Int.{ℤ, pos, negsuc}
use feedium.Errors.{
  Err, opaque, is, error_text, context_canceled, deadline_exceeded, lease_lost,
  summary_event_expired, summary_source_no_posts, Result, ok, err,
}
use feedium.Exec.{Exec, raise}
use feedium.Config.{SummaryConfig, positive_or, default_lease_ttl}
use feedium.Retry.{RetryPolicy, should_retry, calculate_backoff}
use feedium.Uuid.{UuidCodec}
use feedium.Outbox.Event.{
  Row, SummaryEvent, SummaryEventType, summarize_post, summarize_source, unknown_type,
}
use feedium.Outbox.Repo.{Fault, microseconds, claim_one}
use feedium.Outbox.Run.{Outcome, complete, fail, expire, Call, retry, after}

-- time.Now().Add(d)
abbrev pub add_duration : ℕ → ℤ → ℕ
add_duration now (pos d) = now + d
add_duration now (negsuc d) = now - suc d

-- EventProcessor: the handlers of the two event types.
module _ {S : Type 0} (process_post process_source : SummaryEvent → Exec S String) where
  abbrev by_type : SummaryEventType → SummaryEvent → Exec S String
  by_type summarize_post event = process_post event
  by_type summarize_source event = process_source event
  by_type (unknown_type ty) event = raise (opaque "unknown event type")

  unfoldable pub dispatch : SummaryEvent → Exec S String
  dispatch event = by_type event.event_type event

-- The worker's side of a call: its name, the driver's error for the call and the database's clock.
pub record Site : Type 0 where
  pub worker : String
  pub fault : Option Fault
  pub db_now : ℕ

abbrev pub write_terminal : Site → String → Outcome → Option String → Option String → Call
write_terminal s event_id outcome summary_id error =
    Call.finalize s.fault s.db_now event_id s.worker outcome summary_id error

-- The repository call that `finalize` makes, if it makes one. Its result is only logged.
unfoldable pub finalize_failed : Site → RetryPolicy → ℕ → SummaryEvent → Err → Option Call
finalize_failed s policy now event e =
    if is e lease_lost
    then none
    else if is e context_canceled || is e deadline_exceeded
    then none
    else if is e summary_event_expired
    then some (write_terminal s event.id expire none none)
    else if is e summary_source_no_posts
    then some (write_terminal s event.id complete none none)
    else if should_retry policy (some e) (pos event.attempt_count)
    then some (
        retry s.fault s.db_now event.id s.worker
          (microseconds (add_duration now (calculate_backoff policy (pos event.attempt_count))))
          (error_text e))
    else some (write_terminal s event.id fail none (some (error_text e)))

unfoldable pub finalize : Site → RetryPolicy → ℕ → SummaryEvent → Result String → Option Call
unfolding finalize_failed
finalize s policy now event (ok summary_id) = some (
    write_terminal s event.id complete (if str_eq summary_id "" then none else some summary_id)
      none)
finalize s policy now event (err e) = finalize_failed s policy now event e

-- The lease that runWorker and startHeartbeat ask for.
abbrev pub lease_ttl_of : SummaryConfig → ℕ
lease_ttl_of cfg = positive_or cfg.lease_ttl default_lease_ttl

-- One round of runWorker, with what its environment answers: the driver's errors, the rows that
-- other transactions lock, the clocks, and the handler of the claimed event.
pub record Turn : Type 0 where
  pub claim_fault : Option Err
  pub skip : ℕ → Bool
  pub claim_now : ℕ
  pub handler : SummaryEvent → Result String
  pub fault : Option Fault
  pub db_now : ℕ
  pub now : ℕ

abbrev pub perform : UuidCodec → Option Call → List Row → List Row
perform codec none t = t
perform codec (some call) t = after codec call t

module _ (codec : UuidCodec) (worker : String) (ttl : ℕ) (policy : RetryPolicy) where
  abbrev pub site : Turn → Site
  site turn = record { worker = worker; fault = turn.fault; db_now = turn.db_now }

  -- No event, or an error: the worker sleeps. Else the handler runs and the outcome is written.
  abbrev pub process : Turn → Result SummaryEvent × List Row → List Row
  process turn (err e, t) = t
  process turn (ok event, t) =
      perform codec (finalize (site turn) policy turn.now event (turn.handler event)) t

  unfoldable pub round : Turn → List Row → List Row
  unfolding finalize
  round turn t =
      process turn (claim_one codec turn.claim_fault turn.skip turn.claim_now worker ttl t)

  -- The loop of runWorker, until the pool is stopped.
  unfoldable pub run_worker : List Turn → List Row → List Row
  unfolding round
  run_worker [] t = t
  run_worker (turn ∷ turns) t = run_worker turns (round turn t)
