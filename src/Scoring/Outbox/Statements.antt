-- ===== src/Scoring/Outbox/Statements.antt =====
-- The SQL statements of internal/data/score_outbox_repo.go on the table score_events. `now` is the
-- statement's now(), which is constant within it; an interval is in microseconds. A comparison with
-- NULL is not true, and a statement that fails has no effect.
use feedium.Prelude.{ℕ, ◌+◌, String, Bool, not, ◌||◌, ◌&&◌, Option, none, some, List, leb, ◌==◌}
use feedium.Outbox.Table.{update_where, first_by}
use feedium.Outbox.Event.{is_some_eq, is_locked_by}
use feedium.Outbox.Statements.{is_past, is_ahead, is_due, coalesce, coalesce_null}
use feedium.Scoring.Outbox.Event.{
  ScoreEventStatus, pending, processing, failed, ScoreRow, is_pending, is_processing, is_active,
}

-- The WHERE clause of ClaimOne.
unfoldable pub eligible : ℕ → ScoreRow → Bool
eligible now r =
    (is_pending r.status && is_due r.next_attempt_at now)
    || (is_processing r.status && is_past r.locked_until 0 now)

-- COALESCE(next_attempt_at, created_at)
abbrev pub claim_key : ScoreRow → ℕ
claim_key r = coalesce r.next_attempt_at r.created_at

-- The SET clause of ClaimOne.
unfoldable pub claimed_by : String → ℕ → ℕ → ScoreRow → ScoreRow
claimed_by worker ttl now r = record r {
  status = processing;
  locked_until = some (now + ttl);
  locked_by = some worker;
  attempt_count = r.attempt_count + 1;
}

-- `skip` marks the rows that other transactions hold locked (FOR UPDATE SKIP LOCKED).
unfoldable pub claimable : (ℕ → Bool) → ℕ → ScoreRow → Bool
unfolding eligible
claimable skip now r = eligible now r && not (skip r.id)

abbrev pub claim_row :
    String → ℕ → ℕ → List ScoreRow → Option ScoreRow → Option ScoreRow × List ScoreRow
claim_row worker ttl now t none = (none, t)
claim_row worker ttl now t (some c) = (
  some (claimed_by worker ttl now c),
  update_where (λ r. r.id == c.id) (claimed_by worker ttl now) t,
)

unfoldable pub claim_statement :
    (ℕ → Bool) → String → ℕ → ℕ → List ScoreRow → Option ScoreRow × List ScoreRow
unfolding claimable claimed_by first_by
claim_statement skip worker ttl now t =
    claim_row worker ttl now t (first_by claim_key (claimable skip now) t)

-- WHERE id = $ AND locked_by = $ AND status = 'processing' AND locked_until > now()
unfoldable pub holds_lease : ℕ → String → ℕ → ScoreRow → Bool
holds_lease id worker now r =
    r.id == id
    && is_locked_by r.locked_by worker
    && is_processing r.status
    && is_ahead r.locked_until now

unfoldable pub extend_set : ℕ → ℕ → ScoreRow → ScoreRow
extend_set ttl now r = record r { locked_until = some (now + ttl) }

unfoldable pub finalize_set : ScoreEventStatus → Option String → ℕ → ScoreRow → ScoreRow
finalize_set status error now r = record r {
  status = status;
  error = coalesce_null error r.error;
  processed_at = some now;
  locked_until = none;
  locked_by = none;
}

unfoldable pub retry_set : ℕ → String → ScoreRow → ScoreRow
retry_set retry_at error r = record r {
  status = pending;
  next_attempt_at = some retry_at;
  error = some error;
  locked_until = none;
  locked_by = none;
}

-- The WHERE and SET clauses of FailExpired.
unfoldable pub is_stuck : ℕ → ℕ → ℕ → ℕ → ScoreRow → Bool
is_stuck id max_attempts grace now r =
    r.id == id
    && is_processing r.status
    && leb max_attempts r.attempt_count
    && is_past r.locked_until grace now

unfoldable pub fail_set : String → ℕ → ScoreRow → ScoreRow
fail_set error now r = record r {
  status = failed;
  error = some error;
  processed_at = some now;
  locked_until = none;
  locked_by = none;
}

-- The keys of the partial unique indexes idx_score_events_unique_active_post and
-- idx_score_events_unique_active_summary.
unfoldable pub has_active_post : ℕ → ScoreRow → Bool
has_active_post post r = is_active r.status && is_some_eq r.post_id post

unfoldable pub has_active_summary : ℕ → ScoreRow → Bool
has_active_summary summary r = is_active r.status && is_some_eq r.summary_id summary
