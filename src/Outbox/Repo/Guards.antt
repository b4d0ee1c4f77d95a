-- ===== src/Outbox/Repo/Guards.antt =====
-- How the methods of summaryOutboxRepo (internal/data/summary_outbox_repo.go) read the outcome of a
-- guarded UPDATE, the statements of the guarded methods, and that of UpdateStatus.
use feedium.Prelude.{
  ℕ, ◌/◌, String, Bool, true, false, not, ◌&&◌, ◌==◌, any, select, Option, none, some, List,
  if◌then◌else◌,
}
use feedium.Errors.{
  Err, sentinel, opaque, wrap, lease_lost, summary_event_not_found, Result, ok, err,
}
use feedium.Outbox.Event.{SummaryEventStatus, Row, is_terminal}
use feedium.Outbox.Statements.{
  coalesce_null, violates_unique, holds_lease, update, extend_set, finalize_set, retry_set,
  is_stuck, fail_set,
}

-- time.Duration.Microseconds
abbrev pub microseconds : ℕ → ℕ
microseconds d = d / 1000

-- What may fail in a guarded UPDATE: the statement, which then changes nothing, or RowsAffected after it.
pub data Fault : Type 0 where
  refused uncounted : Err → Fault

-- The outcome of a guarded UPDATE: no row changed means that the lease is lost.
abbrev pub guarded :
    {R : Type 0}
    → String
    → String
    → Option Fault
    → Bool × List R
    → List R
    → Result (Unit {0}) × List R
guarded what rows (some (refused e)) u t = (err (wrap what e), t)
guarded what rows (some (uncounted e)) (b, t') t = (err (wrap rows e), t')
guarded what rows none (true, t') t = (ok tt, t')
guarded what rows none (false, t') t = (err (sentinel lease_lost), t')

abbrev pub terminated :
    {R : Type 0} → String → String → Option Fault → Bool × List R → List R → Result Bool × List R
terminated what rows (some (refused e)) u t = (err (wrap what e), t)
terminated what rows (some (uncounted e)) (b, t') t = (err (wrap rows e), t')
terminated what rows none (b, t') t = (ok b, t')

-- The statements of the guarded methods, after the identifiers are parsed.
abbrev pub extend_id : Option Fault → ℕ → String → ℕ → List Row → ℕ → Result (Unit {0}) × List Row
extend_id fault now worker lease_ttl t id =
    guarded "extend lease" "extend lease rows affected" fault
      (update (holds_lease id worker now) (extend_set (microseconds lease_ttl) now) t) t

abbrev pub finalize_id :
    Option Fault
    → ℕ
    → String
    → SummaryEventStatus
    → Option String
    → List Row
    → ℕ
    → Option ℕ
    → Result (Unit {0}) × List Row
finalize_id fault now worker status error t id sid =
    guarded "finalize with lease" "finalize rows affected" fault
      (update (holds_lease id worker now) (finalize_set status sid error now) t) t

abbrev pub retry_id :
    Option Fault → ℕ → String → ℕ → String → List Row → ℕ → Result (Unit {0}) × List Row
retry_id fault now worker retry_at error t id =
    guarded "mark for retry" "mark for retry rows affected" fault
      (update (holds_lease id worker now) (retry_set retry_at error) t) t

abbrev pub fail_id : Option Fault → ℕ → ℕ → ℕ → String → List Row → ℕ → Result Bool × List Row
fail_id fault now max_attempts grace error t id =
    terminated "fail expired" "fail expired rows affected" fault
      (update (is_stuck id max_attempts (microseconds grace) now) (fail_set error now) t) t

-- A method that parses an argument first, and returns on a parse error without a statement.
abbrev pub with_parsed {ℓ} :
    {A B : Type ℓ} {R : Type 0} → Result A → (A → Result B × List R) → List R → Result B × List R
with_parsed (err x) k t = (err x, t)
with_parsed (ok a) k t = k a

-- The columns that UpdateStatus sets; `now` is the process's clock.
unfoldable pub status_set : SummaryEventStatus → Option ℕ → Option String → ℕ → Row → Row
status_set status summary_id error now r =
    let u = record r {
      status = status;
      summary_id = coalesce_null summary_id r.summary_id;
      error = coalesce_null error r.error;
    } in
    if is_terminal status
    then record u { processed_at = some now; locked_until = none; locked_by = none }
    else u

-- The row `u` with the status has the key of another row in one of the two unique indexes.
unfoldable pub clashes : ℕ → SummaryEventStatus → List Row → Bool
unfolding violates_unique
clashes u status t =
    any
      (λ r.
        r.id == u
        && violates_unique (record r { status = status }) (select (λ q. not (q.id == u)) t))
      t

abbrev pub changed : Option Err → Bool → Bool × List Row → List Row → Result (Unit {0}) × List Row
changed (some e) clash u t = (err (wrap "update summary event status" e), t)
changed none true u t = (
  err (
      wrap "update summary event status" (opaque "duplicate key value violates unique constraint")),
  t,
)
changed none false (true, t') t = (ok tt, t')
changed none false (false, t') t = (err (sentinel summary_event_not_found), t')

-- The statement of UpdateStatus, which no lease guards.
abbrev pub set_id :
    Option Err
    → ℕ
    → SummaryEventStatus
    → Option String
    → List Row
    → ℕ
    → Option ℕ
    → Result (Unit {0}) × List Row
set_id fault now status error t u sid =
    changed fault (clashes u status t) (update (λ r. r.id == u) (status_set status sid error now) t)
      t
