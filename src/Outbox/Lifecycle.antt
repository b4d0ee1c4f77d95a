-- ===== src/Outbox/Lifecycle.antt =====
-- The life of an event under the calls of summaryOutboxRepo (internal/data/summary_outbox_repo.go) other
-- than UpdateStatus: the machine of statuses, and the steps of the rows of a table.
use feedium.Prelude.{
  ℕ, String, ◌≤◌, ◌≡◌, refl, sym, ap, subst, ◌∙◌, Bool, true, false, Option, none, some, List, [],
  ◌∷◌, ◌++◌, arith, ◌==◌, ==_iff, Bool-cases, inl, inr, All, any, if◌then◌else◌,
}
use feedium.Errors.{Err, Result, ok, err}
use feedium.Uuid.{UuidCodec}
use feedium.Outbox.Table.{update_where, first_by}
use feedium.Outbox.Table.FirstBy.{first_by-Memᴰ}
use feedium.Outbox.Table.Counts.{All-intro, All-map, All-unique}
use feedium.Outbox.Event.{
  SummaryEventType, SummaryEventStatus, pending, processing, completed, failed, expired, Row,
  is_processing, is_terminal, new_summary_event,
}
use feedium.Outbox.Statements.{
  claim_key, claimable, claimed_by, claim_row, claim_statement, holds_lease, extend_set,
  finalize_set, retry_set, is_stuck, fail_set, violates_unique,
}
use feedium.Outbox.Repo.{
  microseconds, with_parsed, extend_id, finalize_id, retry_id, fail_id, parse_id, parse_optional,
  parse_event, insert_row, save, claim_one, extend_lease, finalize_with_lease, mark_for_retry,
  fail_expired,
}
use feedium.Outbox.Invariant.{IsConsistent}
use feedium.Outbox.Preserve.{guarded-keeps, terminated-keeps}
use feedium.Outbox.Run.{
  status_of, outcome_terminal, Call, enqueue, claim, extend, finalize, retry, reap, after,
  claimed-snd, run, after-IsConsistent,
}
pub mod Calls

-- The machine: pending events are claimed, and events in processing are given back or end.
pub data Moves : SummaryEventStatus → SummaryEventStatus → Type 0 where
  stays : (s : SummaryEventStatus) → Moves s s
  is_claimed : Moves pending processing
  is_given_back : Moves processing pending
  ends : (s : SummaryEventStatus) → is_terminal s ≡ true → Moves processing s

-- What a step leaves of a row: what it is for, and a count of attempts that only grows.
pub record Step (r q : Row) : Type 0 where
  pub id : q.id ≡ r.id
  pub post : q.post_id ≡ r.post_id
  pub source : q.source_id ≡ r.source_id
  pub event_type : q.event_type ≡ r.event_type
  pub created : q.created_at ≡ r.created_at
  pub attempts : r.attempt_count ≤ q.attempt_count
  pub moves : Moves r.status q.status

-- Row by row, with at most one new event at the end.
pub data Evolves : List Row → List Row → Type 0 where
  at_end : Evolves [] []
  enqueued : (n : Row) → n.status ≡ pending → Evolves [] (n ∷ [])
  row : (r q : Row) (t u : List Row) → Step r q → Evolves t u → Evolves (r ∷ t) (q ∷ u)

same : (r : Row) → Step r r
same r = record {
  id = refl;
  post = refl;
  source = refl;
  event_type = refl;
  created = refl;
  attempts = omega arith;
  moves = stays r.status;
}

pub unchanged : (t : List Row) → Evolves t t
unchanged [] = at_end
unchanged (r ∷ rs) = row r r rs rs (same r) (unchanged rs)

pub append-Evolves : (t : List Row) (n : Row) → n.status ≡ pending → Evolves t (t ++ n ∷ [])
append-Evolves [] n e = enqueued n e
append-Evolves (r ∷ rs) n e = row r r rs (rs ++ n ∷ []) (same r) (append-Evolves rs n e)

pub update_where-Evolves :
    (p : Row → Bool) (f : Row → Row) (t : List Row)
    → All (λ r. p r ≡ true → Step r (f r)) t
    → Evolves t (update_where p f t)
update_where-Evolves p f [] a = at_end
update_where-Evolves p f (r ∷ rs) a = elim (Bool-cases (p r)) [
  | inl e ↦ rw e (row r (f r) rs (update_where p f rs) (a.0 e) (update_where-Evolves p f rs a.1))
  | inr e ↦ rw e (row r r rs (update_where p f rs) (same r) (update_where-Evolves p f rs a.1))
]

claim_Moves : (s : SummaryEventStatus) → is_terminal s ≡ false → Moves s processing
claim_Moves pending h = is_claimed
claim_Moves processing h = stays processing
claim_Moves completed h = cc
claim_Moves failed h = cc
claim_Moves expired h = cc

only_processing : (s : SummaryEventStatus) → is_processing s ≡ true → s ≡ processing
only_processing pending h = cc
only_processing processing h = refl
only_processing completed h = cc
only_processing failed h = cc
only_processing expired h = cc

from_processing :
    (r q : Row) → r.status ≡ processing → Moves processing q.status → Moves r.status q.status
from_processing r q e m = subst (λ s. Moves s q.status) (sym e) m

-- The statements, by their guards.
module _ (id : ℕ) (worker : String) (now : ℕ) (r : Row) where
  leased_processing : holds_lease id worker now r ≡ true → r.status ≡ processing
  unfolding holds_lease
  leased_processing h = only_processing r.status (ground arith)

  stuck_processing : (most grace : ℕ) → is_stuck id most grace now r ≡ true → r.status ≡ processing
  unfolding is_stuck
  stuck_processing most grace h = only_processing r.status (ground arith)

  claimable_open : (skip : ℕ → Bool) → claimable skip now r ≡ true → is_terminal r.status ≡ false
  unfolding claimable
  claimable_open skip h = ground arith

  pub extend-Step : (ttl : ℕ) → holds_lease id worker now r ≡ true → Step r (extend_set ttl now r)
  unfolding extend_set
  extend-Step ttl h = record {
    id = refl;
    post = refl;
    source = refl;
    event_type = refl;
    created = refl;
    attempts = omega arith;
    moves = stays r.status;
  }

  pub finalize-Step :
      (status : SummaryEventStatus) (sid : Option ℕ) (error : Option String)
      → is_terminal status ≡ true
      → holds_lease id worker now r ≡ true
      → Step r (finalize_set status sid error now r)
  unfolding finalize_set
  finalize-Step status sid error term h = record {
    id = refl;
    post = refl;
    source = refl;
    event_type = refl;
    created = refl;
    attempts = omega arith;
    moves =
        from_processing r (finalize_set status sid error now r) (leased_processing h)
          (ends status term);
  }

  pub retry-Step :
      (retry_at : ℕ) (error : String)
      → holds_lease id worker now r ≡ true
      → Step r (retry_set retry_at error r)
  unfolding retry_set
  retry-Step retry_at error h = record {
    id = refl;
    post = refl;
    source = refl;
    event_type = refl;
    created = refl;
    attempts = omega arith;
    moves = from_processing r (retry_set retry_at error r) (leased_processing h) is_given_back;
  }

  pub fail-Step :
      (most grace : ℕ) (error : String)
      → is_stuck id most grace now r ≡ true
      → Step r (fail_set error now r)
  unfolding fail_set
  fail-Step most grace error h = record {
    id = refl;
    post = refl;
    source = refl;
    event_type = refl;
    created = refl;
    attempts = omega arith;
    moves =
        from_processing r (fail_set error now r) (stuck_processing most grace h) (ends failed refl);
  }

  pub claim-Step :
      (skip : ℕ → Bool) (ttl : ℕ)
      → claimable skip now r ≡ true
      → Step r (claimed_by worker ttl now r)
  unfolding claimed_by
  claim-Step skip ttl h = record {
    id = refl;
    post = refl;
    source = refl;
    event_type = refl;
    created = refl;
    attempts = omega arith;
    moves = claim_Moves r.status (claimable_open skip h);
  }
