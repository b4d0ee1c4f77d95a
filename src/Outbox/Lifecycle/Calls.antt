-- ===== src/Outbox/Lifecycle/Calls.antt =====
-- The calls of summaryOutboxRepo (internal/data/summary_outbox_repo.go) and the machine of statuses.
use feedium.Prelude.{
  ℕ, String, ◌≡◌, refl, Bool, true, Option, none, some, List, arith, ◌==◌, ==_iff, Bool-cases, inl,
  inr,
}
use feedium.Errors.{Err, Result, ok, err}
use feedium.Uuid.{UuidCodec}
use feedium.Outbox.Table.{first_by}
use feedium.Outbox.Table.FirstBy.{first_by-Memᴰ}
use feedium.Outbox.Table.Counts.{All-intro, All-map, All-unique}
use feedium.Outbox.Event.{
  SummaryEventType, SummaryEventStatus, pending, Row, is_terminal, new_summary_event,
}
use feedium.Outbox.Statements.{
  claim_key, claimable, claimed_by, claim_row, claim_statement, violates_unique,
}
use feedium.Outbox.Repo.{
  Fault, microseconds, with_parsed, extend_id, finalize_id, retry_id, fail_id, parse_id,
  parse_optional, parse_event, insert_row, save, claim_one, extend_lease, finalize_with_lease,
  mark_for_retry, fail_expired,
}
use feedium.Outbox.Invariant.{IsConsistent}
use feedium.Outbox.Preserve.{guarded-keeps, terminated-keeps}
use feedium.Outbox.Run.{
  status_of, outcome_terminal, Call, enqueue, claim, extend, finalize, retry, reap, set_status,
  is_guarded, after, claimed-snd,
}
use feedium.Outbox.Lifecycle.{
  Evolves, unchanged, append-Evolves, update_where-Evolves, extend-Step, finalize-Step, retry-Step,
  fail-Step, claim-Step,
}

module _ (t : List Row) where
  extend_id-Evolves :
      (fault : Option Fault) (now : ℕ) (worker : String) (ttl : ℕ) (p : Result ℕ)
      → Evolves t (with_parsed p (extend_id fault now worker ttl t) t).1
  extend_id-Evolves fault now worker ttl (err x) = unchanged t
  extend_id-Evolves fault now worker ttl (ok id) =
      guarded-keeps (Evolves t) "extend lease" "extend lease rows affected" fault _ _ t
        (unchanged t)
        (update_where-Evolves _ _ t
          (All-intro _ t (λ r h. extend-Step id worker now r (microseconds ttl) h)))

  finalize_id-Evolves :
      (fault : Option Fault) (now : ℕ) (worker : String) (status : SummaryEventStatus)
      (error : Option String) (id : ℕ) (p : Result (Option ℕ))
      → is_terminal status ≡ true
      → Evolves t (with_parsed p (finalize_id fault now worker status error t id) t).1
  finalize_id-Evolves fault now worker status error id (err x) term = unchanged t
  finalize_id-Evolves fault now worker status error id (ok sid) term =
      guarded-keeps (Evolves t) "finalize with lease" "finalize rows affected" fault _ _ t
        (unchanged t)
        (update_where-Evolves _ _ t
          (All-intro _ t (λ r h. finalize-Step id worker now r status sid error term h)))

  finalize_ids-Evolves :
      (fault : Option Fault) (now : ℕ) (worker : String) (status : SummaryEventStatus)
      (error : Option String) (p : Result ℕ) (q : Result (Option ℕ))
      → is_terminal status ≡ true
      → Evolves t
          (with_parsed p
            (λ id. with_parsed q (finalize_id fault now worker status error t id) t)
            t).1
  finalize_ids-Evolves fault now worker status error (err x) q term = unchanged t
  finalize_ids-Evolves fault now worker status error (ok id) q term =
      finalize_id-Evolves fault now worker status error id q term

  retry_id-Evolves :
      (fault : Option Fault) (now : ℕ) (worker : String) (retry_at : ℕ) (error : String)
      (p : Result ℕ)
      → Evolves t (with_parsed p (retry_id fault now worker retry_at error t) t).1
  retry_id-Evolves fault now worker retry_at error (err x) = unchanged t
  retry_id-Evolves fault now worker retry_at error (ok id) =
      guarded-keeps (Evolves t) "mark for retry" "mark for retry rows affected" fault _ _ t
        (unchanged t)
        (update_where-Evolves _ _ t
          (All-intro _ t (λ r h. retry-Step id worker now r retry_at error h)))

  fail_id-Evolves :
      (fault : Option Fault) (now most grace : ℕ) (error : String) (p : Result ℕ)
      → Evolves t (with_parsed p (fail_id fault now most grace error t) t).1
  fail_id-Evolves fault now most grace error (err x) = unchanged t
  fail_id-Evolves fault now most grace error (ok id) =
      terminated-keeps (Evolves t) "fail expired" "fail expired rows affected" fault _ _ t
        (unchanged t)
        (update_where-Evolves _ _ t
          (All-intro _ t (λ r h. fail-Step id "" now r most (microseconds grace) error h)))

  claim_row-Evolves :
      (skip : ℕ → Bool) (worker : String) (ttl now : ℕ) (o : Option Row)
      → IsConsistent t
      → first_by claim_key (claimable skip now) t ≡ o
      → Evolves t (claim_row worker ttl now t o).1
  claim_row-Evolves skip worker ttl now none c e = unchanged t
  claim_row-Evolves skip worker ttl now (some r) c e =
      let (fits, m) = first_by-Memᴰ claim_key (claimable skip now) t r e in
      let only = All-unique (λ q. q.id == r.id) t r (c.ids r.id) m ((==_iff r.id r.id).1 refl) in
      update_where-Evolves (λ q. q.id == r.id) (claimed_by worker ttl now) t
        (All-map _ _ t only (λ q one h. claim-Step 0 worker now q skip ttl (rw (one h) fits)))

module _ (codec : UuidCodec) where
  insert_row-Evolves :
      (fault : Option Err) (n : Row) (t : List Row)
      → n.status ≡ pending
      → Evolves t (insert_row codec fault n t).1
  insert_row-Evolves (some e) n t p = unchanged t
  insert_row-Evolves none n t p = elim (Bool-cases (violates_unique n t)) [
    | inl clash ↦ rw clash (unchanged t)
    | inr free ↦ rw free (append-Evolves t n p)
  ]

  new_row_pending :
      (id : String) (now : ℕ) (ty : SummaryEventType) (source : String) (post : Option String)
      (n : Row)
      → parse_event codec (new_summary_event id now ty source post) ≡ ok n
      → n.status ≡ pending
  unfolding parse_event new_summary_event
  new_row_pending id now ty source post n h = ground arith

  save-Evolves :
      (fault : Option Err) (t : List Row) (p : Result Row)
      → ((n : Row) → p ≡ ok n → n.status ≡ pending)
      → Evolves t (with_parsed p (λ n. insert_row codec fault n t) t).1
  save-Evolves fault t (err x) new = unchanged t
  save-Evolves fault t (ok n) new = insert_row-Evolves fault n t (new n refl)

  -- In a consistent table, a call of the repository other than UpdateStatus, with any driver error, takes each row one step
  -- of the machine at most, pending to processing, and processing to pending or to a terminal
  -- status, leaves what the event is for and when it was made, never lowers its count of attempts,
  -- removes no row, and adds at most one, which is pending.
  pub after-Evolves :
      (call : Call) (t : List Row)
      → is_guarded call ≡ true
      → IsConsistent t
      → Evolves t (after codec call t)
  unfolding after save claim_one extend_lease finalize_with_lease mark_for_retry fail_expired
      claim_statement
  after-Evolves (enqueue fault id now ty source post) t g c =
      save-Evolves fault t (parse_event codec (new_summary_event id now ty source post))
        (new_row_pending id now ty source post)
  after-Evolves (claim (some e) skip now worker ttl) t g c = unchanged t
  after-Evolves (claim none skip now worker ttl) t g c = rw claimed-snd (
      claim_row-Evolves t skip worker (microseconds ttl) now
        (first_by claim_key (claimable skip now) t) c refl)
  after-Evolves (extend fault now event worker ttl) t g c =
      extend_id-Evolves t fault now worker ttl (parse_id codec "invalid event id" event)
  after-Evolves (finalize fault now event worker outcome sid error) t g c =
      finalize_ids-Evolves t fault now worker (status_of outcome) error
        (parse_id codec "invalid event id" event) (parse_optional codec "invalid summary id" sid)
        (outcome_terminal outcome)
  after-Evolves (retry fault now event worker at error) t g c =
      retry_id-Evolves t fault now worker at error (parse_id codec "invalid event id" event)
  after-Evolves (reap fault now event most grace error) t g c =
      fail_id-Evolves t fault now most grace error (parse_id codec "invalid event id" event)
  after-Evolves (set_status fault now event status sid error) t g c = cc
