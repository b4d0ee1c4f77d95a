-- ===== src/Outbox/Run.antt =====
-- Sequences of calls of summaryOutboxRepo (internal/data/summary_outbox_repo.go), from any number of
-- processes: an interleaving is a list of calls, each with the database's clock and the driver's
-- error, if any.
use feedium.Prelude.{
  arith, ℕ, String, ◌≡◌, refl, Bool, true, Option, none, some, List, [], ◌∷◌, Bool-cases, inl, inr,
  false, All,
}
use feedium.Errors.{Err, Result, ok, err}
use feedium.Uuid.{UuidCodec}
use feedium.Outbox.Event.{
  SummaryEventType, SummaryEventStatus, completed, failed, expired, Row, is_terminal,
  new_summary_event,
}
use feedium.Outbox.Statements.{violates_unique}
use feedium.Outbox.Repo.{
  Fault, microseconds, with_parsed, parse_id, parse_optional, parse_event, insert_row, save,
  claim_one, claimed, finalize_id, extend_lease, finalize_with_lease, mark_for_retry, fail_expired,
  update_status, set_id,
}
use feedium.Outbox.Invariant.{IsLeased, IsConsistent, insert-IsConsistent}
use feedium.Outbox.Preserve.{
  claim_statement-IsConsistent, extend_id-IsConsistent, finalize_id-IsConsistent,
  retry_id-IsConsistent, fail_id-IsConsistent, set_id-IsConsistent,
}

-- The statuses that a worker writes when it is done with an event.
pub data Outcome : Type 0 where
  complete fail expire : Outcome

abbrev pub status_of : Outcome → SummaryEventStatus
status_of complete = completed
status_of fail = failed
status_of expire = expired

pub outcome_terminal : (o : Outcome) → is_terminal (status_of o) ≡ true
outcome_terminal complete = refl
outcome_terminal fail = refl
outcome_terminal expire = refl

-- A call of the repository with its arguments. The event of `enqueue` is made by NewSummaryEvent.
pub data Call : Type 0 where
  enqueue : Option Err → String → ℕ → SummaryEventType → String → Option String → Call
  claim : Option Err → (ℕ → Bool) → ℕ → String → ℕ → Call
  extend : Option Fault → ℕ → String → String → ℕ → Call
  finalize : Option Fault → ℕ → String → String → Outcome → Option String → Option String → Call
  retry : Option Fault → ℕ → String → String → ℕ → String → Call
  reap : Option Fault → ℕ → String → ℕ → ℕ → String → Call
  set_status : Option Err → ℕ → String → SummaryEventStatus → Option String → Option String → Call

-- A call of UpdateStatus, if the call is one, writes a terminal status.
abbrev pub ends : Call → Bool
ends (set_status fault now event status sid error) = is_terminal status
ends _ = true

-- The call is not one of UpdateStatus, which no code outside the tests makes.
abbrev pub is_guarded : Call → Bool
is_guarded (set_status fault now event status sid error) = false
is_guarded _ = true

module _ (codec : UuidCodec) where
  -- The table after a call.
  unfoldable pub after : Call → List Row → List Row
  after (enqueue fault id now ty source post) t =
      (save codec fault (new_summary_event id now ty source post) t).1
  after (claim fault skip now worker ttl) t = (claim_one codec fault skip now worker ttl t).1
  after (extend fault now event worker ttl) t = (extend_lease codec fault now event worker ttl t).1
  after (finalize fault now event worker outcome sid error) t =
      (finalize_with_lease codec fault now event worker (status_of outcome) sid error t).1
  after (retry fault now event worker at error) t =
      (mark_for_retry codec fault now event worker at error t).1
  after (reap fault now event most grace error) t =
      (fail_expired codec fault now event most grace error t).1
  after (set_status fault now event status sid error) t =
      (update_status codec fault now event status sid error t).1

  unfoldable pub run : List Call → List Row → List Row
  unfolding after
  run [] t = t
  run (call ∷ calls) t = run calls (after call t)

  parse_event-IsLeased :
      (id : String) (now : ℕ) (ty : SummaryEventType) (source : String) (post : Option String)
      (n : Row)
      → parse_event codec (new_summary_event id now ty source post) ≡ ok n
      → IsLeased n
  unfolding parse_event new_summary_event
  parse_event-IsLeased id now ty source post n h = ground arith

  insert_row-IsConsistent :
      (fault : Option Err) (n : Row) (t : List Row)
      → IsLeased n
      → IsConsistent t
      → IsConsistent (insert_row codec fault n t).1
  insert_row-IsConsistent (some e) n t l c = c
  insert_row-IsConsistent none n t l c = elim (Bool-cases (violates_unique n t)) [
    | inl clash ↦ rw clash c
    | inr free ↦ rw free (insert-IsConsistent n t l free c)
  ]

  save-IsConsistent :
      (fault : Option Err) (t : List Row) (p : Result Row)
      → ((n : Row) → p ≡ ok n → IsLeased n)
      → IsConsistent t
      → IsConsistent (with_parsed p (λ n. insert_row codec fault n t) t).1
  save-IsConsistent fault t (err x) leased c = c
  save-IsConsistent fault t (ok n) leased c = insert_row-IsConsistent fault n t (leased n refl) c

  pub claimed-snd : (r : Option Row × List Row) → (claimed codec r).1 ≡ r.1
  claimed-snd (none, t') = refl
  claimed-snd (some r, t') = refl

  finalize_ids-IsConsistent :
      (fault : Option Fault) (now : ℕ) (worker : String) (outcome : Outcome) (error : Option String)
      (t : List Row)
      → IsConsistent t
      → (p : Result ℕ) (q : Result (Option ℕ))
      → IsConsistent
          (with_parsed p
            (λ id. with_parsed q (finalize_id fault now worker (status_of outcome) error t id) t)
            t).1
  finalize_ids-IsConsistent fault now worker outcome error t c (err x) q = c
  finalize_ids-IsConsistent fault now worker outcome error t c (ok id) q =
      finalize_id-IsConsistent t c fault now worker (status_of outcome) error id q
        (outcome_terminal outcome)

  set_ids-IsConsistent :
      (fault : Option Err) (now : ℕ) (status : SummaryEventStatus) (error : Option String)
      (t : List Row)
      → IsConsistent t
      → (p : Result ℕ) (q : Result (Option ℕ)) → is_terminal status ≡ true
      → IsConsistent (with_parsed p (λ u. with_parsed q (set_id fault now status error t u) t) t).1
  set_ids-IsConsistent fault now status error t c (err x) q term = c
  set_ids-IsConsistent fault now status error t c (ok u) q term =
      set_id-IsConsistent t c fault now status error u q term

  -- A call, where UpdateStatus writes a terminal status, keeps the table consistent.
  pub after-IsConsistent :
      (call : Call) (t : List Row) → ends call ≡ true → IsConsistent t → IsConsistent (after call t)
  unfolding after save claim_one extend_lease finalize_with_lease mark_for_retry fail_expired
      update_status
  after-IsConsistent (enqueue fault id now ty source post) t h c =
      save-IsConsistent fault t (parse_event codec (new_summary_event id now ty source post))
        (parse_event-IsLeased id now ty source post) c
  after-IsConsistent (claim (some e) skip now worker ttl) t h c = c
  after-IsConsistent (claim none skip now worker ttl) t h c =
      rw claimed-snd (claim_statement-IsConsistent t c skip worker (microseconds ttl) now)
  after-IsConsistent (extend fault now event worker ttl) t h c =
      extend_id-IsConsistent t c fault now worker ttl (parse_id codec "invalid event id" event)
  after-IsConsistent (finalize fault now event worker outcome sid error) t h c =
      finalize_ids-IsConsistent fault now worker outcome error t c
        (parse_id codec "invalid event id" event) (parse_optional codec "invalid summary id" sid)
  after-IsConsistent (retry fault now event worker at error) t h c =
      retry_id-IsConsistent t c fault now worker at error (parse_id codec "invalid event id" event)
  after-IsConsistent (reap fault now event most grace error) t h c =
      fail_id-IsConsistent t c fault now most grace error (parse_id codec "invalid event id" event)
  after-IsConsistent (set_status fault now event status sid error) t term c =
      set_ids-IsConsistent fault now status error t c (parse_id codec "invalid event id" event)
        (parse_optional codec "invalid summary id" sid) term

  -- From a consistent table, any interleaving of calls of the repository in which UpdateStatus
  -- writes terminal statuses only, with whatever driver errors, leaves the table consistent: identifiers are unique, a post has at most one active event of a type, a
  -- source has at most one active summarize_source event, exactly the rows in processing carry a
  -- lease, and exactly the terminated rows carry a processing time.
  pub run-IsConsistent :
      (calls : List Call) (t : List Row)
      → All (λ call. ends call ≡ true) calls
      → IsConsistent t
      → IsConsistent (run calls t)
  unfolding run
  run-IsConsistent [] t e c = c
  run-IsConsistent (call ∷ calls) t e c =
      run-IsConsistent calls (after call t) e.1 (after-IsConsistent call t e.0 c)
