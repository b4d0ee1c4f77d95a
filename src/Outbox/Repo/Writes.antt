-- ===== src/Outbox/Repo/Writes.antt =====
-- The methods of summaryOutboxRepo (internal/data/summary_outbox_repo.go) that change the table. A
-- method returns its result and the table.
use feedium.Prelude.{ℕ, String, Bool, Option, none, some, List, [], ◌∷◌, ◌++◌, if◌then◌else◌}
use feedium.Errors.{
  Err, sentinel, wrap, summary_already_processing, no_event_available, Result, ok, err,
}
use feedium.Uuid.{UuidCodec}
use feedium.Outbox.Event.{SummaryEvent, SummaryEventStatus, Row}
use feedium.Outbox.Statements.{
  claim_statement, holds_lease, extend_set, finalize_set, retry_set, is_stuck, fail_set,
  violates_unique,
}
use feedium.Outbox.Repo.Guards.{
  Fault, microseconds, status_set, clashes, set_id, extend_id, finalize_id, retry_id, fail_id,
  with_parsed,
}
use feedium.Outbox.Repo.Mapping.{parse_id, parse_optional, event_of, parse_event}

module _ (codec : UuidCodec) where
  open codec use {parse, to_string}

  abbrev pub insert_row : Option Err → Row → List Row → Result SummaryEvent × List Row
  insert_row (some e) n t = (err (wrap "save summary event" e), t)
  insert_row none n t =
      if violates_unique n t
      then (err (sentinel summary_already_processing), t)
      else (ok (event_of codec n), t ++ n ∷ [])

  unfoldable pub save : Option Err → SummaryEvent → List Row → Result SummaryEvent × List Row
  unfolding parse_event event_of violates_unique
  save fault e t = with_parsed (parse_event codec e) (λ n. insert_row fault n t) t

  abbrev pub claimed : Option Row × List Row → Result SummaryEvent × List Row
  claimed (none, t') = (err (sentinel no_event_available), t')
  claimed (some r, t') = (ok (event_of codec r), t')

  unfoldable pub claim_one :
      Option Err → (ℕ → Bool) → ℕ → String → ℕ → List Row → Result SummaryEvent × List Row
  unfolding event_of claim_statement
  claim_one (some e) skip now worker lease_ttl t = (err (wrap "claim event" e), t)
  claim_one none skip now worker lease_ttl t =
      claimed (claim_statement skip worker (microseconds lease_ttl) now t)

  unfoldable pub extend_lease :
      Option Fault → ℕ → String → String → ℕ → List Row → Result (Unit {0}) × List Row
  unfolding holds_lease extend_set
  extend_lease fault now event_id worker lease_ttl t =
      with_parsed (parse_id codec "invalid event id" event_id)
        (extend_id fault now worker lease_ttl t) t

  unfoldable pub finalize_with_lease :
      Option Fault
      → ℕ
      → String
      → String
      → SummaryEventStatus
      → Option String
      → Option String
      → List Row
      → Result (Unit {0}) × List Row
  unfolding holds_lease finalize_set
  finalize_with_lease fault now event_id worker status summary_id error t =
      with_parsed (parse_id codec "invalid event id" event_id)
        (λ id.
          with_parsed (parse_optional codec "invalid summary id" summary_id)
            (finalize_id fault now worker status error t id) t)
        t

  unfoldable pub mark_for_retry :
      Option Fault → ℕ → String → String → ℕ → String → List Row → Result (Unit {0}) × List Row
  unfolding holds_lease retry_set
  mark_for_retry fault now event_id worker retry_at error t =
      with_parsed (parse_id codec "invalid event id" event_id)
        (retry_id fault now worker retry_at error t) t

  unfoldable pub fail_expired :
      Option Fault → ℕ → String → ℕ → ℕ → String → List Row → Result Bool × List Row
  unfolding is_stuck fail_set
  fail_expired fault now event_id max_attempts grace error t =
      with_parsed (parse_id codec "invalid event id" event_id)
        (fail_id fault now max_attempts grace error t) t

  unfoldable pub update_status :
      Option Err
      → ℕ
      → String
      → SummaryEventStatus
      → Option String
      → Option String
      → List Row
      → Result (Unit {0}) × List Row
  unfolding status_set clashes
  update_status fault now id status summary_id error t =
      with_parsed (parse_id codec "invalid event id" id)
        (λ u.
          with_parsed (parse_optional codec "invalid summary id" summary_id)
            (set_id fault now status error t u) t)
        t
