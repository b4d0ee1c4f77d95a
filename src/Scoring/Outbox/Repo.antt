-- ===== src/Scoring/Outbox/Repo.antt =====
-- The methods of scoreOutboxRepo on one event (internal/data/score_outbox_repo.go). A method takes
-- the table and returns its result and the table. `fault` is the error of the driver, if the
-- database refuses the statement or cannot be reached; `now` is the database's now(). Durations are
-- in nanoseconds.
use mathlib.Core.Option
use feedium.Prelude.{
  ℕ, String, Bool, true, false, ◌&&◌, Option, none, some, List, [], ◌∷◌, ◌++◌, map, ◌==◌, any,
  select, take, if◌then◌else◌,
}
use feedium.Errors.{Err, sentinel, opaque, wrap, no_score_event_available, Result, ok, err}
use feedium.Uuid.{UuidCodec}
use feedium.Outbox.Table.{order_by}
use feedium.Outbox.Statements.{is_past, coalesce, update}
use feedium.Outbox.Repo.{Fault, microseconds, guarded, terminated, with_parsed, parse_id}
use feedium.Scoring.Outbox.Event.{ScoreEvent, ScoreEventStatus, pending, ScoreRow, is_processing}
use feedium.Scoring.Outbox.Statements.{
  claim_statement, holds_lease, extend_set, finalize_set, retry_set, is_stuck, fail_set,
  has_active_post, has_active_summary,
}

-- The statements of the guarded methods, after the identifier is parsed.
abbrev pub extend_id :
    Option Fault → ℕ → String → ℕ → List ScoreRow → ℕ → Result (Unit {0}) × List ScoreRow
extend_id fault now worker lease_ttl t id =
    guarded "extend lease" "extend lease rows affected" fault
      (update (holds_lease id worker now) (extend_set (microseconds lease_ttl) now) t) t

abbrev pub finalize_id :
    Option Fault
    → ℕ
    → String
    → ScoreEventStatus
    → Option String
    → List ScoreRow
    → ℕ
    → Result (Unit {0}) × List ScoreRow
finalize_id fault now worker status error t id =
    guarded "finalize with lease" "finalize rows affected" fault
      (update (holds_lease id worker now) (finalize_set status error now) t) t

abbrev pub retry_id :
    Option Fault → ℕ → String → ℕ → String → List ScoreRow → ℕ → Result (Unit {0}) × List ScoreRow
retry_id fault now worker retry_at error t id =
    guarded "mark for retry" "mark for retry rows affected" fault
      (update (holds_lease id worker now) (retry_set retry_at error) t) t

abbrev pub fail_id :
    Option Fault → ℕ → ℕ → ℕ → String → List ScoreRow → ℕ → Result Bool × List ScoreRow
fail_id fault now max_attempts grace error t id =
    terminated "fail expired" "fail expired rows affected" fault
      (update (is_stuck id max_attempts (microseconds grace) now) (fail_set error now) t) t

-- The rows that scoreEventInsertQuery and digestEventInsertQuery insert.
unfoldable pub post_row : ℕ → ℕ → ℕ → ScoreRow
post_row id now post = record {
  id = id;
  post_id = some post;
  summary_id = none;
  status = pending;
  error = none;
  attempt_count = 0;
  locked_by = none;
  locked_until = none;
  next_attempt_at = none;
  created_at = now;
  processed_at = none;
}

unfoldable pub digest_row : ℕ → ℕ → ℕ → ScoreRow
unfolding post_row
digest_row id now summary = record (post_row id now 0) { post_id = none; summary_id = some summary }

-- INSERT ... ON CONFLICT DO NOTHING: the number of rows that it inserts. A conflict on the partial
-- index of active events is tested first; the primary key has no ON CONFLICT clause.
abbrev pub insert_unless : Bool → Option Err → ScoreRow → List ScoreRow → Result ℕ × List ScoreRow
insert_unless conflict (some e) n t = (err e, t)
insert_unless true none n t = (ok 0, t)
insert_unless false none n t =
    if any (λ r. r.id == n.id) t
    then (err (opaque "duplicate key value violates unique constraint"), t)
    else (ok 1, t ++ n ∷ [])

unfoldable pub insert_post : Option Err → ℕ → ℕ → ℕ → List ScoreRow → Result ℕ × List ScoreRow
unfolding has_active_post post_row
insert_post fault id now post t =
    insert_unless (any (has_active_post post) t) fault (post_row id now post) t

unfoldable pub insert_digest : Option Err → ℕ → ℕ → ℕ → List ScoreRow → Result ℕ × List ScoreRow
unfolding has_active_summary digest_row
insert_digest fault id now summary t =
    insert_unless (any (has_active_summary summary) t) fault (digest_row id now summary) t

module _ (codec : UuidCodec) where
  open codec use {to_string}

  -- scanScoreEvent
  unfoldable pub event_of : ScoreRow → ScoreEvent
  event_of r = record {
    id = to_string r.id;
    post_id = Option.map to_string r.post_id;
    summary_id = Option.map to_string r.summary_id;
    status = r.status;
    error = r.error;
    attempt_count = r.attempt_count;
    created_at = r.created_at;
    processed_at = r.processed_at;
  }

  abbrev pub claimed : Option ScoreRow × List ScoreRow → Result ScoreEvent × List ScoreRow
  claimed (none, t') = (err (sentinel no_score_event_available), t')
  claimed (some r, t') = (ok (event_of r), t')

  unfoldable pub claim_one :
      Option Err → (ℕ → Bool) → ℕ → String → ℕ → List ScoreRow → Result ScoreEvent × List ScoreRow
  unfolding event_of claim_statement
  claim_one (some e) skip now worker lease_ttl t = (err (wrap "claim score event" e), t)
  claim_one none skip now worker lease_ttl t =
      claimed (claim_statement skip worker (microseconds lease_ttl) now t)

  unfoldable pub extend_lease :
      Option Fault → ℕ → String → String → ℕ → List ScoreRow → Result (Unit {0}) × List ScoreRow
  unfolding holds_lease extend_set
  extend_lease fault now event_id worker lease_ttl t =
      with_parsed (parse_id codec "invalid event id" event_id)
        (extend_id fault now worker lease_ttl t) t

  unfoldable pub finalize_with_lease :
      Option Fault
      → ℕ
      → String
      → String
      → ScoreEventStatus
      → Option String
      → List ScoreRow
      → Result (Unit {0}) × List ScoreRow
  unfolding holds_lease finalize_set
  finalize_with_lease fault now event_id worker status error t =
      with_parsed (parse_id codec "invalid event id" event_id)
        (finalize_id fault now worker status error t) t

  unfoldable pub mark_for_retry :
      Option Fault
      → ℕ
      → String
      → String
      → ℕ
      → String
      → List ScoreRow
      → Result (Unit {0}) × List ScoreRow
  unfolding holds_lease retry_set
  mark_for_retry fault now event_id worker retry_at error t =
      with_parsed (parse_id codec "invalid event id" event_id)
        (retry_id fault now worker retry_at error t) t

  unfoldable pub fail_expired :
      Option Fault → ℕ → String → ℕ → ℕ → String → List ScoreRow → Result Bool × List ScoreRow
  unfolding is_stuck fail_set
  fail_expired fault now event_id max_attempts grace error t =
      with_parsed (parse_id codec "invalid event id" event_id)
        (fail_id fault now max_attempts grace error t) t

  -- WHERE status = 'processing' AND locked_until < now() - grace ORDER BY locked_until ASC LIMIT n
  unfoldable pub list_lease_expired :
      Option Err → ℕ → ℕ → ℕ → List ScoreRow → Result (List ScoreEvent)
  unfolding event_of order_by
  list_lease_expired (some e) now grace limit t = err (wrap "list lease expired" e)
  list_lease_expired none now grace limit t = ok (
      map event_of (
        take limit (
          order_by (λ r. coalesce r.locked_until 0)
            (select (λ r. is_processing r.status && is_past r.locked_until (microseconds grace) now)
              t))))
