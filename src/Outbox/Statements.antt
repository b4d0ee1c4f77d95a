-- ===== src/Outbox/Statements.antt =====
-- The SQL statements of internal/data/summary_outbox_repo.go on the table summary_events. `now` is
-- the statement's now(), which is constant within it; an interval is in microseconds. A comparison
-- with NULL is not true, and a statement that fails has no effect.
use feedium.Prelude.{
  ℕ, ◌+◌, String, Bool, true, false, not, ◌||◌, ◌&&◌, Option, none, some, List, ltb, leb, ◌==◌, any,
}
use feedium.Outbox.Table.{update_where, first_by}
use feedium.Outbox.Event.{
  SummaryEventType, summarize_source, SummaryEventStatus, pending, processing, failed, Row, is_type,
  is_pending, is_processing, is_active, is_some_eq, is_locked_by,
}

-- locked_until < now() - grace, and locked_until > now()
abbrev pub is_past : Option ℕ → ℕ → ℕ → Bool
is_past none grace now = false
is_past (some u) grace now = ltb (u + grace) now

abbrev pub is_ahead : Option ℕ → ℕ → Bool
is_ahead none now = false
is_ahead (some u) now = ltb now u

-- next_attempt_at IS NULL OR next_attempt_at <= now()
abbrev pub is_due : Option ℕ → ℕ → Bool
is_due none now = true
is_due (some t) now = leb t now

abbrev pub coalesce {ℓ} : {A : Type ℓ} → Option A → A → A
coalesce none d = d
coalesce (some a) d = a

abbrev pub coalesce_null {ℓ} : {A : Type ℓ} → Option A → Option A → Option A
coalesce_null none d = d
coalesce_null (some a) d = some a

-- The WHERE clause of ClaimOne.
unfoldable pub eligible : ℕ → Row → Bool
eligible now r =
    (is_pending r.status && is_due r.next_attempt_at now)
    || (is_processing r.status && is_past r.locked_until 0 now)

-- COALESCE(next_attempt_at, created_at)
abbrev pub claim_key : Row → ℕ
claim_key r = coalesce r.next_attempt_at r.created_at

-- The SET clause of ClaimOne.
unfoldable pub claimed_by : String → ℕ → ℕ → Row → Row
claimed_by worker ttl now r = record r {
  status = processing;
  locked_until = some (now + ttl);
  locked_by = some worker;
  attempt_count = r.attempt_count + 1;
}

-- `skip` marks the rows that other transactions hold locked (FOR UPDATE SKIP LOCKED).
unfoldable pub claimable : (ℕ → Bool) → ℕ → Row → Bool
unfolding eligible
claimable skip now r = eligible now r && not (skip r.id)

abbrev pub claim_row : String → ℕ → ℕ → List Row → Option Row → Option Row × List Row
claim_row worker ttl now t none = (none, t)
claim_row worker ttl now t (some c) = (
  some (claimed_by worker ttl now c),
  update_where (λ r. r.id == c.id) (claimed_by worker ttl now) t,
)

unfoldable pub claim_statement : (ℕ → Bool) → String → ℕ → ℕ → List Row → Option Row × List Row
unfolding claimable claimed_by first_by
claim_statement skip worker ttl now t =
    claim_row worker ttl now t (first_by claim_key (claimable skip now) t)

-- WHERE id = $ AND locked_by = $ AND status = 'processing' AND locked_until > now()
unfoldable pub holds_lease : ℕ → String → ℕ → Row → Bool
holds_lease id worker now r =
    r.id == id
    && is_locked_by r.locked_by worker
    && is_processing r.status
    && is_ahead r.locked_until now

-- An UPDATE returns whether it changed a row, and the table.
abbrev pub update : {R : Type 0} → (R → Bool) → (R → R) → List R → Bool × List R
update p f t = (any p t, update_where p f t)

unfoldable pub extend_set : ℕ → ℕ → Row → Row
extend_set ttl now r = record r { locked_until = some (now + ttl) }

unfoldable pub finalize_set : SummaryEventStatus → Option ℕ → Option String → ℕ → Row → Row
finalize_set status summary_id error now r = record r {
  status = status;
  summary_id = coalesce_null summary_id r.summary_id;
  error = coalesce_null error r.error;
  processed_at = some now;
  locked_until = none;
  locked_by = none;
}

unfoldable pub retry_set : ℕ → String → Row → Row
retry_set retry_at error r = record r {
  status = pending;
  next_attempt_at = some retry_at;
  error = some error;
  locked_until = none;
  locked_by = none;
}

-- The WHERE and SET clauses of FailExpired.
unfoldable pub is_stuck : ℕ → ℕ → ℕ → ℕ → Row → Bool
is_stuck id max_attempts grace now r =
    r.id == id
    && is_processing r.status
    && leb max_attempts r.attempt_count
    && is_past r.locked_until grace now

unfoldable pub fail_set : String → ℕ → Row → Row
fail_set error now r = record r {
  status = failed;
  error = some error;
  processed_at = some now;
  locked_until = none;
  locked_by = none;
}

-- The keys of the partial unique indexes idx_summary_events_unique_active_post and
-- idx_summary_events_unique_active_source.
unfoldable pub has_active_post : ℕ → SummaryEventType → Row → Bool
has_active_post post event_type r =
    is_active r.status && is_some_eq r.post_id post && is_type r.event_type event_type

unfoldable pub has_active_source : ℕ → Row → Bool
has_active_source source r =
    is_active r.status && is_type r.event_type summarize_source && r.source_id == source

abbrev pub violates_post : Row → Option ℕ → List Row → Bool
violates_post n none t = false
violates_post n (some post) t = any (has_active_post post n.event_type) t

-- INSERT fails with 23505 where the primary key or one of the two indexes has the new row's key.
unfoldable pub violates_unique : Row → List Row → Bool
unfolding has_active_post has_active_source
violates_unique n t =
    any (λ r. r.id == n.id) t
    || (is_active n.status
        && (violates_post n n.post_id t
            || (is_type n.event_type summarize_source && any (has_active_source n.source_id) t)))
