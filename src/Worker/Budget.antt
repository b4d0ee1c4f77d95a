-- ===== src/Worker/Budget.antt =====
-- The rounds of a worker (internal/task/event_worker_pool.go) and the budget of attempts of
-- internal/biz/summary_retry.go.
use mathlib.Core.List.{Memᴰ}
use feedium.Prelude.{
  ℕ, ◌+◌, ◌<◌, ◌≡◌, refl, sym, ap, subst, ◌⊎◌, inl, inr, String, Bool, true, false, Option, none,
  some, List, [], ◌∷◌, arith, ◌==◌, ==_iff, All, str_eq_iff,
}
use feedium.Prelude.Int.{pos}
use feedium.Errors.{Err, Result, ok, err}
use feedium.Uuid.{UuidCodec}
use feedium.Retry.{RetryPolicy}
use feedium.Outbox.Table.{update_where, first_by}
use feedium.Outbox.Table.FirstBy.{first_by-Memᴰ}
use feedium.Outbox.Table.Members.{All-mem}
use feedium.Outbox.Table.Counts.{All-updated, All-map, All-zip, All-unique}
use feedium.Outbox.Event.{SummaryEvent, Row, is_pending}
use feedium.Outbox.Statements.{
  claim_key, claimable, claimed_by, claim_row, claim_statement, holds_lease, finalize_set,
  retry_set,
}
use feedium.Outbox.Repo.{microseconds, claim_one, claimed, event_of}
use feedium.Outbox.Invariant.{IsConsistent}
use feedium.Outbox.Run.{outcome_terminal, Call, ends, after, after-IsConsistent, claim}
use feedium.Worker
use feedium.Worker.Attempts.{InBudget, Timely, Write, terminal, again, writes}

module _ (most : ℕ) (policy : RetryPolicy) (same : policy.max_attempts ≡ pos most) where
  -- The write of a round leaves the claimed row within the budget.
  Write-InBudget :
      (worker : String) (ttl now : ℕ) (c : Row) (f : Row → Row)
      → (is_pending c.status ≡ true) × (c.attempt_count < most)
      → Write policy (claimed_by worker ttl now c) f
      → InBudget most (f (claimed_by worker ttl now c))
  unfolding claimed_by finalize_set retry_set
  Write-InBudget worker ttl now c f (p, few) (terminal o sid error at) =
      inr (outcome_terminal o, omega arith)
  Write-InBudget worker ttl now c f (p, few) (again at error h) = inl (refl, ground arith)

  -- The claimed row was pending: no row is in processing between two rounds.
  was_pending :
      (skip : ℕ → Bool) (now : ℕ) (c : Row)
      → claimable skip now c ≡ true
      → InBudget most c
      → (is_pending c.status ≡ true) × (c.attempt_count < most)
  unfolding claimable
  was_pending skip now c h b = ground arith

  idle-not_held :
      (id : ℕ) (worker : String) (now : ℕ) (r : Row)
      → InBudget most r
      → holds_lease id worker now r ≡ true
      → ⊥
  unfolding holds_lease
  idle-not_held id worker now r b h = ground arith

  claimed-held :
      (worker : String) (ttl now db_now : ℕ) (c : Row)
      → db_now < now + ttl
      → holds_lease c.id worker db_now (claimed_by worker ttl now c) ≡ true
  unfolding holds_lease claimed_by
  claimed-held worker ttl now db_now c h = ground (arith, str_eq_iff worker worker)

-- A row that is within the budget, or the row that the round has claimed.
abbrev Settled : ℕ → Row → Row → Type 0
Settled most c r = InBudget most r ⊎ (r ≡ c)

module _ (most : ℕ) (policy : RetryPolicy) (same : policy.max_attempts ≡ pos most)
    (codec : UuidCodec) (worker : String) (ttl : ℕ) (turn : Worker.Turn)
    (timely : Timely codec ttl turn) where
  -- The claim changes the claimed row only.
  claim-Settled :
      (c : Row) (t : List Row)
      → All (InBudget most) t
      → All (λ r. (r.id == c.id) ≡ true → r ≡ c) t
      → All
          (Settled most (claimed_by worker (microseconds ttl) turn.claim_now c))
          (update_where (λ r. r.id == c.id) (claimed_by worker (microseconds ttl) turn.claim_now) t)
  claim-Settled c t b u = All-updated _ _ _ t (
      All-map _ _ t (All-zip _ _ t b u) (λ r h. (
        λ e. inr (ap (claimed_by worker (microseconds ttl) turn.claim_now) (h.1 e)),
        λ _. inl h.0,
      )))

  -- The write changes the claimed row only, and brings it back within the budget.
  Write-All :
      (c : Row) (f : Row → Row) (t : List Row)
      → (is_pending c.status ≡ true) × (c.attempt_count < most)
      → Write policy (claimed_by worker (microseconds ttl) turn.claim_now c) f
      → All (Settled most (claimed_by worker (microseconds ttl) turn.claim_now c)) t
      → All (InBudget most) (update_where (holds_lease c.id worker turn.db_now) f t)
  Write-All c f t few w a = All-updated (InBudget most) (holds_lease c.id worker turn.db_now) f t (
      All-map (Settled most (claimed_by worker (microseconds ttl) turn.claim_now c)) _ t a (λ r h.
        elim h [
          | inl b ↦ (
            λ held. absurd (idle-not_held most policy same c.id worker turn.db_now r b held),
            λ _. b,
          )
          | inr e ↦ (
            λ _.
                subst (λ x. InBudget most (f x)) (sym e)
                  (Write-InBudget most policy same worker (microseconds ttl) turn.claim_now c f few
                    w),
            λ idle.
                let held =
                  claimed-held most policy same worker (microseconds ttl) turn.claim_now turn.db_now
                    c timely.in_time in
                let free : holds_lease c.id worker turn.db_now
                      (claimed_by worker (microseconds ttl) turn.claim_now c)
                    ≡ false =
                  rw (← e) idle in
                cc,
          )
        ]))

  unique-claimed :
      (t : List Row) (c : Row)
      → IsConsistent t
      → Memᴰ c t
      → All (λ r. (r.id == c.id) ≡ true → r ≡ c) t
  unique-claimed t c k m =
      All-unique (λ r. r.id == c.id) t c (k.ids c.id) m ((==_iff c.id c.id).1 refl)

  -- What the worker writes for the event that it has claimed.
  written-InBudget :
      (c : Row) (t : List Row)
      → (is_pending c.status ≡ true) × (c.attempt_count < most)
      → All (Settled most (claimed_by worker (microseconds ttl) turn.claim_now c)) t
      → All (InBudget most) (
          Worker.process codec worker ttl policy turn
            (ok (event_of codec (claimed_by worker (microseconds ttl) turn.claim_now c)), t))
  unfolding claimed_by
  written-InBudget c t few a =
      let r = claimed_by worker (microseconds ttl) turn.claim_now c in
      let res = turn.handler (event_of codec r) in
      let (f, w, e) = writes codec worker policy turn r t res (timely.returns (event_of codec r)) in
      rw (timely.written, e) (Write-All c f t few w a)

  process-InBudget :
      (t : List Row) (o : Option Row)
      → IsConsistent t
      → All (InBudget most) t
      → first_by claim_key (claimable turn.skip turn.claim_now) t ≡ o
      → All (InBudget most) (
          Worker.process codec worker ttl policy turn
            (claimed codec (claim_row worker (microseconds ttl) turn.claim_now t o)))
  process-InBudget t none k b e = b
  process-InBudget t (some c) k b e =
      let (fits, m) = first_by-Memᴰ claim_key (claimable turn.skip turn.claim_now) t c e in
      written-InBudget c _
        (was_pending most policy same turn.skip turn.claim_now c fits
          (All-mem (InBudget most) t c b m))
        (claim-Settled c t b (unique-claimed t c k m))

  claim-InBudget :
      (t : List Row) (fault : Option Err)
      → IsConsistent t
      → All (InBudget most) t
      → All (InBudget most) (
          Worker.process codec worker ttl policy turn
            (claim_one codec fault turn.skip turn.claim_now worker ttl t))
  unfolding claim_one claim_statement
  claim-InBudget t (some e) k b = b
  claim-InBudget t none k b =
      process-InBudget t (first_by claim_key (claimable turn.skip turn.claim_now) t) k b refl

abbrev or_ends : Option Call → Bool
or_ends none = true
or_ends (some call) = ends call

-- A worker does not call UpdateStatus.
finalize-ends :
    (s : Worker.Site) (policy : RetryPolicy) (now : ℕ) (event : SummaryEvent) (r : Result String)
    → or_ends (Worker.finalize s policy now event r) ≡ true
unfolding Worker.finalize Worker.finalize_failed
finalize-ends s policy now event (ok id) = refl
finalize-ends s policy now event (err e) = ground arith

-- A round keeps the table consistent.
perform-IsConsistent :
    (codec : UuidCodec) (o : Option Call) (t : List Row)
    → or_ends o ≡ true
    → IsConsistent t
    → IsConsistent (Worker.perform codec o t)
perform-IsConsistent codec none t e k = k
perform-IsConsistent codec (some call) t e k = after-IsConsistent codec call t e k

module _ (codec : UuidCodec) (worker : String) (ttl : ℕ) (policy : RetryPolicy) where
  process-IsConsistent :
      (turn : Worker.Turn) (p : Result SummaryEvent × List Row)
      → IsConsistent p.1
      → IsConsistent (Worker.process codec worker ttl policy turn p)
  process-IsConsistent turn (err e, t) k = k
  process-IsConsistent turn (ok event, t) k =
      perform-IsConsistent codec _ t (finalize-ends _ policy turn.now event (turn.handler event)) k

  round-IsConsistent :
      (turn : Worker.Turn) (t : List Row)
      → IsConsistent t
      → IsConsistent (Worker.round codec worker ttl policy turn t)
  unfolding Worker.round after
  round-IsConsistent turn t k =
      process-IsConsistent turn
        (claim_one codec turn.claim_fault turn.skip turn.claim_now worker ttl t)
        (after-IsConsistent codec (claim turn.claim_fault turn.skip turn.claim_now worker ttl) t
          refl k)

  -- Rounds of a worker, each of which writes its outcome before its lease ends and without a driver
  -- error, on a consistent table in which each row is pending with fewer than `max_attempts`
  -- attempts, or terminated with at most `max_attempts`: whatever the handlers return, other than
  -- a cancellation, afterwards each row is again one or the other.
  pub run_worker-InBudget :
      (most : ℕ)
      → policy.max_attempts ≡ pos most
      → (turns : List Worker.Turn) (t : List Row) → IsConsistent t
      → All (InBudget most) t
      → All (Timely codec ttl) turns
      → All (InBudget most) (Worker.run_worker codec worker ttl policy turns t)
  unfolding Worker.run_worker Worker.round
  run_worker-InBudget most same [] t k b a = b
  run_worker-InBudget most same (turn ∷ turns) t k b a =
      run_worker-InBudget most same turns (Worker.round codec worker ttl policy turn t)
        (round-IsConsistent turn t k)
        (claim-InBudget most policy same codec worker ttl turn a.0 t turn.claim_fault k b) a.1
