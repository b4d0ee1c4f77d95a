-- ===== src/Scoring/Worker/Settled.antt =====
-- A round of a score worker (internal/task/score_event_worker_pool.go) and the event that it has claimed.
use feedium.Prelude.{
  ℕ, ◌+◌, ◌<◌, ◌≡◌, refl, sym, ap, subst, if◌then◌else◌, ◌∙◌, String, Bool, true, false, ◌&&◌,
  Option, none, some, List, [], ◌∷◌, arith, any, ◌==◌, Bool-cases, inl, inr, str_eq_iff, All,
}
use feedium.Errors.{
  Err, is, error_text, context_canceled, deadline_exceeded, lease_lost, Result, ok, err,
}
use feedium.Exec.Ok.{ok_inj}
use feedium.Retry.{RetryPolicy}
use feedium.Uuid.{UuidCodec}
use feedium.Outbox.Table.{update_where, first_by}
use feedium.Outbox.Repo.{microseconds, guarded}
use feedium.Outbox.Once.{parse_id-ok}
use feedium.Scoring.Outbox.Event.{ScoreEvent, ScoreEventStatus, ScoreRow, is_processing}
use feedium.Scoring.Outbox.Statements.{
  claim_key, claimable, claimed_by, claim_row, claim_statement, holds_lease, finalize_set,
  retry_set,
}
use feedium.Scoring.Outbox.Repo.{
  claimed, claim_one, event_of, finalize_id, retry_id, finalize_with_lease, mark_for_retry,
}
use feedium.Scoring.Outbox.Run.{Outcome, complete, fail, status_of, Call, finalize, retry, after}
use feedium.Scoring.Worker.{
  Turn, retries, retry_at, finalize_failed, finalize_scored, perform, site, round,
}

-- The event is in processing.
abbrev pub stays : ℕ → ScoreRow → Bool
stays i r = r.id == i && is_processing r.status

-- An update that settles each row of the event that it does not pass by.
settles :
    (i : ℕ) (p : ScoreRow → Bool) (f : ScoreRow → ScoreRow) (t : List ScoreRow)
    → ((r : ScoreRow) → p r ≡ true → stays i (f r) ≡ false)
    → All (λ r. p r ≡ false → stays i r ≡ false) t
    → any (stays i) (update_where p f t) ≡ false
settles i p f [] done passed = refl
settles i p f (r ∷ rs) done passed = elim (Bool-cases (p r)) [
  | inl e ↦ rw (e, done r e) (settles i p f rs done passed.1)
  | inr e ↦ rw (e, passed.0 e) (settles i p f rs done passed.1)
]

any-guarded :
    (p : ScoreRow → Bool) (what rows : String) (b : Bool) (t' t : List ScoreRow)
    → any p t' ≡ false
    → any p (guarded what rows none (b, t') t).1 ≡ false
any-guarded p what rows true t' t h = h
any-guarded p what rows false t' t h = h

outcome_done : (o : Outcome) → is_processing (status_of o) ≡ false
outcome_done complete = refl
outcome_done fail = refl

-- The table after the claim of the event.
abbrev leased : String → ℕ → ℕ → ℕ → List ScoreRow → List ScoreRow
leased worker i at ttl t = update_where (λ r. r.id == i) (claimed_by worker ttl at) t

module _ (worker : String) (i now at ttl : ℕ) (early : now < at + ttl) where
  -- Each row of the event that was just claimed is under the claim's lease.
  under_lease :
      (t : List ScoreRow)
      → All (λ r. holds_lease i worker now r ≡ false → stays i r ≡ false) (leased worker i at ttl t)
  unfolding holds_lease claimed_by
  under_lease [] = tt
  under_lease (r ∷ rs) = elim (Bool-cases (r.id == i)) [
    | inl e ↦ rw e (λ h. ground (arith, str_eq_iff worker worker), under_lease rs)
    | inr e ↦ rw e (λ h. ground arith, under_lease rs)
  ]

  finalized_row :
      (status : ScoreEventStatus) (error : Option String) (r : ScoreRow)
      → is_processing status ≡ false
      → stays i (finalize_set status error now r) ≡ false
  unfolding finalize_set
  finalized_row status error r done = ground arith

  requeued_row :
      (again : ℕ) (error : String) (r : ScoreRow) → stays i (retry_set again error r) ≡ false
  unfolding retry_set
  requeued_row again error r = ground arith

  finalized :
      (status : ScoreEventStatus) (error : Option String) (t : List ScoreRow)
      → is_processing status ≡ false
      → any (stays i) (finalize_id none now worker status error (leased worker i at ttl t) i).1
        ≡ false
  finalized status error t done =
      any-guarded (stays i) "finalize with lease" "finalize rows affected"
        (any (holds_lease i worker now) (leased worker i at ttl t))
        (update_where (holds_lease i worker now) (finalize_set status error now)
          (leased worker i at ttl t))
        (leased worker i at ttl t)
        (settles i (holds_lease i worker now) (finalize_set status error now)
          (leased worker i at ttl t) (λ r h. finalized_row status error r done) (under_lease t))

  requeued :
      (again : ℕ) (error : String) (t : List ScoreRow)
      → any (stays i) (retry_id none now worker again error (leased worker i at ttl t) i).1 ≡ false
  requeued again error t =
      any-guarded (stays i) "mark for retry" "mark for retry rows affected"
        (any (holds_lease i worker now) (leased worker i at ttl t))
        (update_where (holds_lease i worker now) (retry_set again error) (leased worker i at ttl t))
        (leased worker i at ttl t)
        (settles i (holds_lease i worker now) (retry_set again error) (leased worker i at ttl t)
          (λ r h. requeued_row again error r) (under_lease t))

-- The handler has neither lost the lease nor been cancelled.
abbrev pub Answers : Result String → Type 0
Answers (ok id) = Unit
Answers (err e) =
    (is e lease_lost ≡ false) × (is e context_canceled ≡ false) × (is e deadline_exceeded ≡ false)

module _ (codec : UuidCodec) (worker : String) (ttl : ℕ) (policy : RetryPolicy) (turn : Turn)
    (i : ℕ) (early : turn.db_now < turn.claim_now + microseconds ttl) (quiet : turn.fault ≡ none)
    (event : ScoreEvent) (named : codec.parse event.id ≡ some i) where
  abbrev Settles : Option Call → List ScoreRow → Type 0
  Settles call t =
      any (stays i) (perform codec call (leased worker i turn.claim_now (microseconds ttl) t))
      ≡ false

  terminal-Settles :
      (outcome : Outcome) (error : Option String) (t : List ScoreRow)
      → Settles (some (finalize turn.fault turn.db_now event.id worker outcome error)) t
  unfolding after finalize_with_lease
  terminal-Settles outcome error t =
      rw (quiet, after, finalize_with_lease, parse_id-ok codec "invalid event id" event.id i named)
        (finalized worker i turn.db_now turn.claim_now (microseconds ttl) early (status_of outcome)
          error t (outcome_done outcome))

  retry-Settles :
      (again : ℕ) (error : String) (t : List ScoreRow)
      → Settles (some (retry turn.fault turn.db_now event.id worker again error)) t
  unfolding after mark_for_retry
  retry-Settles again error t =
      rw (quiet, after, mark_for_retry, parse_id-ok codec "invalid event id" event.id i named)
        (requeued worker i turn.db_now turn.claim_now (microseconds ttl) early again error t)

  either-Settles :
      (b : Bool) (x y : Option Call) (t : List ScoreRow)
      → Settles x t
      → Settles y t
      → Settles (if b then x else y) t
  either-Settles true x y t h k = h
  either-Settles false x y t h k = k

  failed-Settles :
      (e : Err) (t : List ScoreRow)
      → Answers (err e)
      → Settles (finalize_failed (site codec worker ttl policy turn) policy turn.now event e) t
  unfolding finalize_failed
  failed-Settles e t a =
      rw (a.0, a.1, a.2)
        (either-Settles (retries policy event e)
          (some (
            retry turn.fault turn.db_now event.id worker (retry_at policy turn.now event)
              (error_text e)))
          (some (finalize turn.fault turn.db_now event.id worker fail (some (error_text e)))) t
          (retry-Settles (retry_at policy turn.now event) (error_text e) t)
          (terminal-Settles fail (some (error_text e)) t))

  answer-Settles :
      (r : Result String) (t : List ScoreRow)
      → Answers r
      → Settles (finalize_scored (site codec worker ttl policy turn) policy turn.now event r) t
  unfolding finalize_scored
  answer-Settles (ok id) t a = terminal-Settles complete none t
  answer-Settles (err e) t a = failed-Settles e t a

module _ (codec : UuidCodec) (worker : String) (ttl : ℕ) (policy : RetryPolicy) (turn : Turn) where
  claimed_settles :
      (t t' : List ScoreRow) (o : Option ScoreRow) (event : ScoreEvent) (i : ℕ)
      → claimed codec (claim_row worker (microseconds ttl) turn.claim_now t o) ≡ (ok event, t')
      → codec.parse event.id ≡ some i
      → t' ≡ leased worker i turn.claim_now (microseconds ttl) t
  unfolding event_of claimed_by
  claimed_settles t t' none event i h named = cc
  claimed_settles t t' (some c) event i h named =
      let same_event : event_of codec (claimed_by worker (microseconds ttl) turn.claim_now c)
          ≡ event =
        ok_inj (ap (λ p. p.0) h) in
      let same_id : some c.id ≡ some i =
        sym (codec.parse-to_string c.id) ∙ ap (λ e. codec.parse e.id) same_event ∙ named in
      let e : c.id ≡ i = cc in
      subst (λ j. t' ≡ leased worker j turn.claim_now (microseconds ttl) t) e
        (sym (ap (λ p. p.1) h))

  claimed_leased :
      (fault : Option Err) (t t' : List ScoreRow) (event : ScoreEvent) (i : ℕ)
      → claim_one codec fault turn.skip turn.claim_now worker ttl t ≡ (ok event, t')
      → codec.parse event.id ≡ some i
      → t' ≡ leased worker i turn.claim_now (microseconds ttl) t
  unfolding claim_one claim_statement
  claimed_leased (some e) t t' event i h named = cc
  claimed_leased none t t' event i h named =
      claimed_settles t t' (first_by claim_key (claimable turn.skip turn.claim_now) t) event i h
        named

  -- A round of a score worker whose claim has answered an event, whose handler has neither lost the
  -- lease nor been cancelled, and whose write meets no driver error before the end of the lease,
  -- does not leave the event in processing: it is terminated or pending again.
  pub round_settles :
      (t t' : List ScoreRow) (event : ScoreEvent) (i : ℕ)
      → claim_one codec turn.claim_fault turn.skip turn.claim_now worker ttl t ≡ (ok event, t')
      → codec.parse event.id ≡ some i
      → Answers (turn.handler event)
      → turn.fault ≡ none
      → turn.db_now < turn.claim_now + microseconds ttl
      → any (stays i) (round codec worker ttl policy turn t) ≡ false
  unfolding round
  round_settles t t' event i claim named answers quiet early = rw claim (
      subst
        (λ u.
          any (stays i) (
            perform codec
              (finalize_scored (site codec worker ttl policy turn) policy turn.now event
                (turn.handler event))
              u)
          ≡ false)
        (sym (claimed_leased turn.claim_fault t t' event i claim named))
        (answer-Settles codec worker ttl policy turn i early quiet event named (turn.handler event)
          t answers))
