-- ===== src/Worker/Attempts.antt =====
-- What a worker (internal/task/event_worker_pool.go) writes at the end of a round, and the budget of
-- attempts of an event.
use feedium.Prelude.{
  ℕ, ◌+◌, ◌≤◌, ◌<◌, ◌≡◌, refl, ◌⊎◌, inl, inr, String, Bool, true, false, Option, none, some, List,
  arith, Bool-cases, str_eq, str_eq_iff,
}
use feedium.Prelude.Int.{ℤ, pos, ltb_ℤ}
use feedium.Errors.{
  Err, is, context_canceled, deadline_exceeded, lease_lost, summary_event_expired,
  summary_source_no_posts, Result, ok, err, error_text,
}
use feedium.Uuid.{UuidCodec}
use feedium.Retry.{RetryPolicy, should_retry}
use feedium.Outbox.Event.{SummaryEvent, Row, is_pending, is_terminal}
use feedium.Outbox.Statements.{holds_lease, finalize_set, retry_set}
use feedium.Outbox.Repo.{
  microseconds, parse_id, parse_optional, event_of, with_parsed, guarded, finalize_id, retry_id,
  finalize_with_lease, mark_for_retry,
}
use feedium.Outbox.Run.{Outcome, complete, fail, expire, status_of, finalize, retry, after}
use feedium.Outbox.Once.{parse_id-ok}
use feedium.Outbox.Table.{update_where}
use feedium.Worker

-- A row between two rounds: pending with attempts left, or terminated within the budget.
abbrev pub InBudget : ℕ → Row → Type 0
InBudget most r =
    ((is_pending r.status ≡ true) × (r.attempt_count < most))
    ⊎ ((is_terminal r.status ≡ true) × (r.attempt_count ≤ most))

-- The handler returns, with an identifier that can be stored or with an error that is no
-- cancellation.
abbrev pub Returns : UuidCodec → Result String → Type 0
Returns codec (ok id) = (id ≡ "") ⊎ ((sid : ℕ) × (codec.parse id ≡ some sid))
Returns codec (err e) =
    (is e lease_lost ≡ false) × (is e context_canceled ≡ false) × (is e deadline_exceeded ≡ false)

-- A round whose outcome is written before the lease ends, and without a driver error.
pub record Timely (codec : UuidCodec) (ttl : ℕ) (turn : Worker.Turn) : Type 0 where
  pub written : turn.fault ≡ none
  pub in_time : turn.db_now < turn.claim_now + microseconds ttl
  pub returns : (event : SummaryEvent) → Returns codec (turn.handler event)

-- The write of a round, which the row's lease lets through: the SET clauses that it may run.
pub data Write (policy : RetryPolicy) (r : Row) : (Row → Row) → Type 0 where
  terminal :
      (o : Outcome) (sid : Option ℕ) (error : Option String) (now : ℕ)
      → Write policy r (finalize_set (status_of o) sid error now)
  again :
      (at : ℕ) (error : String)
      → ltb_ℤ (pos r.attempt_count) policy.max_attempts ≡ true
      → Write policy r (retry_set at error)

guarded-snd :
    (what rows : String) (b : Bool) (t' t : List Row) → (guarded what rows none (b, t') t).1 ≡ t'
guarded-snd what rows true t' t = refl
guarded-snd what rows false t' t = refl

module _ (codec : UuidCodec) (worker : String) (db_now id : ℕ) (t : List Row) where
  finalize_ids_write :
      (o : Outcome) (error : Option String) (sid : Option ℕ) (p : Result ℕ) (q : Result (Option ℕ))
      → p ≡ ok id
      → q ≡ ok sid
      → (with_parsed p
          (λ i. with_parsed q (finalize_id none db_now worker (status_of o) error t i) t)
          t).1
        ≡ update_where
            (holds_lease id worker db_now)
            (finalize_set (status_of o) sid error db_now)
            t
  finalize_ids_write o error sid p q ep eq =
      rw (ep, eq) (guarded-snd "finalize with lease" "finalize rows affected" _ _ t)

  retry_ids_write :
      (at : ℕ) (error : String) (p : Result ℕ)
      → p ≡ ok id
      → (with_parsed p (retry_id none db_now worker at error t) t).1
        ≡ update_where (holds_lease id worker db_now) (retry_set at error) t
  retry_ids_write at error p ep =
      rw ep (guarded-snd "mark for retry" "mark for retry rows affected" _ _ t)

  parsed : (what : String) → parse_id codec what (codec.to_string id) ≡ ok id
  parsed what = parse_id-ok codec what (codec.to_string id) id (codec.parse-to_string id)

  finalize_write :
      (o : Outcome) (summary_id error : Option String) (sid : Option ℕ)
      → parse_optional codec "invalid summary id" summary_id ≡ ok sid
      → after codec (finalize none db_now (codec.to_string id) worker o summary_id error) t
        ≡ update_where
            (holds_lease id worker db_now)
            (finalize_set (status_of o) sid error db_now)
            t
  unfolding after finalize_with_lease
  finalize_write o summary_id error sid e =
      finalize_ids_write o error sid (parse_id codec "invalid event id" (codec.to_string id))
        (parse_optional codec "invalid summary id" summary_id) (parsed "invalid event id") e

  retry_write :
      (at : ℕ) (error : String)
      → after codec (retry none db_now (codec.to_string id) worker at error) t
        ≡ update_where (holds_lease id worker db_now) (retry_set at error) t
  unfolding after mark_for_retry
  retry_write at error =
      retry_ids_write at error (parse_id codec "invalid event id" (codec.to_string id))
        (parsed "invalid event id")

parse_optional-ok :
    (codec : UuidCodec) (id : String) (u : ℕ)
    → codec.parse id ≡ some u
    → parse_optional codec "invalid summary id" (some id) ≡ ok (some u)
parse_optional-ok codec id u e = rw (parse_id-ok codec "invalid summary id" id u e)

should_retry-lt :
    (policy : RetryPolicy) (e : Err) (attempt : ℤ)
    → should_retry policy (some e) attempt ≡ true
    → ltb_ℤ attempt policy.max_attempts ≡ true
unfolding should_retry
should_retry-lt policy e attempt h = ground arith

-- What the outcome of a handler writes.
abbrev pub Writes :
    UuidCodec → String → RetryPolicy → Worker.Turn → Row → List Row → Result String → Type 0
Writes codec worker policy turn r t res =
    (f : Row → Row) × Write policy r f
    × (Worker.perform codec
          (Worker.finalize (record { worker = worker; fault = none; db_now = turn.db_now }) policy
            turn.now (event_of codec r) res)
          t
        ≡ update_where (holds_lease r.id worker turn.db_now) f t)

module _ (codec : UuidCodec) (worker : String) (policy : RetryPolicy) (turn : Worker.Turn) (r : Row)
    (t : List Row) where
  stored :
      (sid : Option String) (u : Option ℕ)
      → parse_optional codec "invalid summary id" sid ≡ ok u
      → (f : Row → Row) × Write policy r f
        × (after codec (finalize none turn.db_now (codec.to_string r.id) worker complete sid none) t
            ≡ update_where (holds_lease r.id worker turn.db_now) f t)
  stored sid u e = (
    finalize_set (status_of complete) u none turn.db_now,
    terminal complete u none turn.db_now,
    finalize_write codec worker turn.db_now r.id t complete sid none u e,
  )

  ended :
      (o : Outcome) (error : Option String)
      → (f : Row → Row) × Write policy r f
        × (after codec (finalize none turn.db_now (codec.to_string r.id) worker o none error) t
            ≡ update_where (holds_lease r.id worker turn.db_now) f t)
  ended o error = (
    finalize_set (status_of o) none error turn.db_now,
    terminal o none error turn.db_now,
    finalize_write codec worker turn.db_now r.id t o none error none refl,
  )

  again_later :
      (at : ℕ) (error : String)
      → ltb_ℤ (pos r.attempt_count) policy.max_attempts ≡ true
      → (f : Row → Row) × Write policy r f
        × (after codec (retry none turn.db_now (codec.to_string r.id) worker at error) t
            ≡ update_where (holds_lease r.id worker turn.db_now) f t)
  again_later at error h =
      (retry_set at error, again at error h, retry_write codec worker turn.db_now r.id t at error)

  ok-Writes : (id : String) → Returns codec (ok id) → Writes codec worker policy turn r t (ok id)
  unfolding Worker.finalize event_of
  ok-Writes id ret = elim (Bool-cases (str_eq id "")) [
    | inl blank ↦ rw blank (stored none none refl)
    | inr filled ↦ rw filled (elim ret [
      | inl e ↦ absurd (ground (arith, str_eq_iff id ""))
      | inr (u, e) ↦ stored (some id) (some u) (parse_optional-ok codec id u e)
    ])
  ]

  err-Writes : (e : Err) → Returns codec (err e) → Writes codec worker policy turn r t (err e)
  unfolding Worker.finalize event_of
  err-Writes e (lost, canceled, late) =
      rw (Worker.finalize_failed, lost, canceled, late)
        (elim (Bool-cases (is e summary_event_expired)) [
          | inl old ↦ rw old (ended expire none)
          | inr fresh ↦ rw fresh (elim (Bool-cases (is e summary_source_no_posts)) [
            | inl empty ↦ rw empty (ended complete none)
            | inr full ↦
                rw full (elim (Bool-cases (should_retry policy (some e) (pos r.attempt_count))) [
                  | inl more ↦
                      rw more
                        (again_later _ _ (should_retry-lt policy e (pos r.attempt_count) more))
                  | inr spent ↦ rw spent (ended fail (some (error_text e)))
                ])
          ])
        ])

  pub writes : (res : Result String) → Returns codec res → Writes codec worker policy turn r t res
  writes (ok id) ret = ok-Writes id ret
  writes (err e) ret = err-Writes e ret
