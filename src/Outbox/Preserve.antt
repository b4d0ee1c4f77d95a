-- ===== src/Outbox/Preserve.antt =====
-- The invariant, and the statements of the methods of internal/data/summary_outbox_repo.go. UpdateStatus,
-- which no lease guards, is taken with a terminal status.
use feedium.Prelude.{
  ℕ, String, ◌≡◌, refl, Bool, true, false, Option, none, some, List, arith, ◌==◌, ==_iff,
}
use feedium.Errors.{Err, Result, ok, err}
use feedium.Outbox.Table.{first_by}
use feedium.Outbox.Table.FirstBy.{first_by-Memᴰ}
use feedium.Outbox.Table.Counts.{All-map, All-intro, All-zip, All-unique}
use feedium.Outbox.Event.{SummaryEventStatus, Row, is_terminal}
use feedium.Outbox.Statements.{
  claim_key, claimable, claimed_by, claim_row, claim_statement, holds_lease, extend_set,
  finalize_set, retry_set, is_stuck, fail_set,
}
use feedium.Outbox.Repo.{
  Fault, refused, uncounted, microseconds, with_parsed, guarded, terminated, changed, status_set,
  set_id, extend_id, finalize_id, retry_id, fail_id,
}
use feedium.Outbox.Invariant.{IsLeased, IsConsistent, Mild, update_where-IsConsistent}

-- A guarded UPDATE leaves the table as it was or as the statement made it.
pub guarded-keeps :
    {R : Type 0} (P : List R → Type 0) (what rows : String) (fault : Option Fault) (b : Bool)
    (t' t : List R)
    → P t
    → P t'
    → P (guarded what rows fault (b, t') t).1
guarded-keeps P what rows (some (refused e)) b t' t h h' = h
guarded-keeps P what rows (some (uncounted e)) b t' t h h' = h'
guarded-keeps P what rows none true t' t h h' = h'
guarded-keeps P what rows none false t' t h h' = h'

pub terminated-keeps :
    {R : Type 0} (P : List R → Type 0) (what rows : String) (fault : Option Fault) (b : Bool)
    (t' t : List R)
    → P t
    → P t'
    → P (terminated what rows fault (b, t') t).1
terminated-keeps P what rows (some (refused e)) b t' t h h' = h
terminated-keeps P what rows (some (uncounted e)) b t' t h h' = h'
terminated-keeps P what rows none b t' t h h' = h'

-- UpdateStatus leaves the table as it was or as the statement made it.
pub changed-keeps :
    (P : List Row → Type 0) (fault : Option Err) (clash b : Bool) (t' t : List Row)
    → P t
    → P t'
    → P (changed fault clash (b, t') t).1
changed-keeps P (some e) clash b t' t h h' = h
changed-keeps P none true b t' t h h' = h
changed-keeps P none false true t' t h h' = h'
changed-keeps P none false false t' t h h' = h'

set-Mild :
    (now : ℕ) (r : Row) (status : SummaryEventStatus) (sid : Option ℕ) (error : Option String)
    → is_terminal status ≡ true
    → Mild r (status_set status sid error now r)
unfolding status_set
set-Mild now r status sid error term = ground arith

module _ (id : ℕ) (worker : String) (now : ℕ) (r : Row) (l : IsLeased r) where
  extend-Mild : (ttl : ℕ) → holds_lease id worker now r ≡ true → Mild r (extend_set ttl now r)
  unfolding holds_lease extend_set
  extend-Mild ttl h = ground arith

  finalize-Mild :
      (status : SummaryEventStatus) (sid : Option ℕ) (error : Option String)
      → is_terminal status ≡ true
      → holds_lease id worker now r ≡ true
      → Mild r (finalize_set status sid error now r)
  unfolding holds_lease finalize_set
  finalize-Mild status sid error term h = ground arith

  retry-Mild :
      (retry_at : ℕ) (error : String)
      → holds_lease id worker now r ≡ true
      → Mild r (retry_set retry_at error r)
  unfolding holds_lease retry_set
  retry-Mild retry_at error h = ground arith

  fail-Mild :
      (max_attempts grace : ℕ) (error : String)
      → is_stuck id max_attempts grace now r ≡ true
      → Mild r (fail_set error now r)
  unfolding is_stuck fail_set
  fail-Mild max_attempts grace error h = ground arith

  claim-Mild :
      (skip : ℕ → Bool) (ttl : ℕ)
      → claimable skip now r ≡ true
      → Mild r (claimed_by worker ttl now r)
  unfolding claimable claimed_by
  claim-Mild skip ttl h = ground arith

module _ (t : List Row) (c : IsConsistent t) where
  -- Each statement, after the identifiers are parsed or refused.
  pub extend_id-IsConsistent :
      (fault : Option Fault) (now : ℕ) (worker : String) (ttl : ℕ) (p : Result ℕ)
      → IsConsistent (with_parsed p (extend_id fault now worker ttl t) t).1
  extend_id-IsConsistent fault now worker ttl (err x) = c
  extend_id-IsConsistent fault now worker ttl (ok id) =
      guarded-keeps IsConsistent "extend lease" "extend lease rows affected" fault _ _ t c (
        update_where-IsConsistent _ _ t
          (All-map _ _ t c.leases (λ r l e. extend-Mild id worker now r l (microseconds ttl) e)) c)

  pub finalize_id-IsConsistent :
      (fault : Option Fault) (now : ℕ) (worker : String) (status : SummaryEventStatus)
      (error : Option String) (id : ℕ) (p : Result (Option ℕ))
      → is_terminal status ≡ true
      → IsConsistent (with_parsed p (finalize_id fault now worker status error t id) t).1
  finalize_id-IsConsistent fault now worker status error id (err x) term = c
  finalize_id-IsConsistent fault now worker status error id (ok sid) term =
      guarded-keeps IsConsistent "finalize with lease" "finalize rows affected" fault _ _ t c (
        update_where-IsConsistent _ _ t
          (All-map _ _ t c.leases
            (λ r l e. finalize-Mild id worker now r l status sid error term e))
          c)

  pub retry_id-IsConsistent :
      (fault : Option Fault) (now : ℕ) (worker : String) (retry_at : ℕ) (error : String)
      (p : Result ℕ)
      → IsConsistent (with_parsed p (retry_id fault now worker retry_at error t) t).1
  retry_id-IsConsistent fault now worker retry_at error (err x) = c
  retry_id-IsConsistent fault now worker retry_at error (ok id) =
      guarded-keeps IsConsistent "mark for retry" "mark for retry rows affected" fault _ _ t c (
        update_where-IsConsistent _ _ t
          (All-map _ _ t c.leases (λ r l e. retry-Mild id worker now r l retry_at error e)) c)

  pub fail_id-IsConsistent :
      (fault : Option Fault) (now max_attempts grace : ℕ) (error : String) (p : Result ℕ)
      → IsConsistent (with_parsed p (fail_id fault now max_attempts grace error t) t).1
  fail_id-IsConsistent fault now max_attempts grace error (err x) = c
  fail_id-IsConsistent fault now max_attempts grace error (ok id) =
      terminated-keeps IsConsistent "fail expired" "fail expired rows affected" fault _ _ t c (
        update_where-IsConsistent _ _ t
          (All-map _ _ t c.leases
            (λ r l e. fail-Mild id "" now r l max_attempts (microseconds grace) error e))
          c)

  pub set_id-IsConsistent :
      (fault : Option Err) (now : ℕ) (status : SummaryEventStatus) (error : Option String) (u : ℕ)
      (p : Result (Option ℕ))
      → is_terminal status ≡ true
      → IsConsistent (with_parsed p (set_id fault now status error t u) t).1
  set_id-IsConsistent fault now status error u (err x) term = c
  set_id-IsConsistent fault now status error u (ok sid) term =
      changed-keeps IsConsistent fault _ _ _ t c (
        update_where-IsConsistent _ _ t
          (All-intro _ t (λ r h. set-Mild now r status sid error term)) c)

  claim_row-IsConsistent :
      (skip : ℕ → Bool) (worker : String) (ttl now : ℕ) (o : Option Row)
      → first_by claim_key (claimable skip now) t ≡ o
      → IsConsistent (claim_row worker ttl now t o).1
  claim_row-IsConsistent skip worker ttl now none e = c
  claim_row-IsConsistent skip worker ttl now (some r) e =
      let (fits, m) = first_by-Memᴰ claim_key (claimable skip now) t r e in
      let only = All-unique (λ q. q.id == r.id) t r (c.ids r.id) m ((==_iff r.id r.id).1 refl) in
      update_where-IsConsistent (λ q. q.id == r.id) (claimed_by worker ttl now) t
        (All-map _ _ t (All-zip _ _ t only c.leases)
          (λ q both h. claim-Mild 0 worker now q both.1 skip ttl (rw (both.0 h) fits)))
        c

  pub claim_statement-IsConsistent :
      (skip : ℕ → Bool) (worker : String) (ttl now : ℕ)
      → IsConsistent (claim_statement skip worker ttl now t).1
  unfolding claim_statement
  claim_statement-IsConsistent skip worker ttl now =
      claim_row-IsConsistent skip worker ttl now (first_by claim_key (claimable skip now) t) refl
