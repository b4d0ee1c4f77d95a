-- ===== src/Outbox/Absorb.antt =====
-- The calls of internal/data/summary_outbox_repo.go on a table with a terminated event.
use feedium.Prelude.{
  ℕ, String, ◌≡◌, refl, Bool, true, false, ◌&&◌, Option, none, some, List, [], ◌∷◌, arith, ◌==◌,
  ==_iff, any, Bool-cases, inl, inr,
}
use feedium.Errors.{Err, Result, ok, err}
use feedium.Uuid.{UuidCodec}
use feedium.Outbox.Table.{first_by}
use feedium.Outbox.Table.FirstBy.{first_by-Memᴰ}
use feedium.Outbox.Table.Counts.{All-map, All-intro, All-unique}
use feedium.Outbox.Table.Tests.{any-update_where, any-append}
use feedium.Outbox.Event.{SummaryEventStatus, Row, is_terminal, is_some_eq, new_summary_event}
use feedium.Outbox.Statements.{
  claim_key, claimable, claimed_by, claim_row, claim_statement, holds_lease, is_stuck,
  violates_unique,
}
use feedium.Outbox.Repo.{
  Fault, microseconds, with_parsed, extend_id, finalize_id, retry_id, fail_id, parse_id,
  parse_optional, parse_event, insert_row, save, claim_one, extend_lease, finalize_with_lease,
  mark_for_retry, fail_expired, set_id, update_status,
}
use feedium.Outbox.Invariant.{IsConsistent}
use feedium.Outbox.Preserve.{guarded-keeps, terminated-keeps, changed-keeps}
use feedium.Outbox.Run.{
  status_of, Call, enqueue, claim, extend, finalize, retry, reap, set_status, ends, after,
  claimed-snd,
}

-- The event `i` has a terminal status.
unfoldable pub is_over : ℕ → Row → Bool
is_over i r = r.id == i && is_terminal r.status

-- The guards of the statements reject a terminated row.
module _ (i : ℕ) (r : Row) where
  pub is_over-id : is_over i r ≡ true → (r.id == i) ≡ true
  unfolding is_over
  is_over-id h = ground arith

  pub lease-is_over :
      (id : ℕ) (worker : String) (now : ℕ)
      → is_over i r ≡ true
      → holds_lease id worker now r ≡ false
  unfolding is_over holds_lease
  lease-is_over id worker now h = ground arith

  pub stuck-is_over :
      (id most grace now : ℕ) → is_over i r ≡ true → is_stuck id most grace now r ≡ false
  unfolding is_over is_stuck
  stuck-is_over id most grace now h = ground arith

  named-is_over : (u : ℕ) → (u == i) ≡ false → is_over i r ≡ true → (r.id == u) ≡ false
  unfolding is_over
  named-is_over u other h = ground arith

  claimable-is_over :
      (skip : ℕ → Bool) (now : ℕ) → is_over i r ≡ true → claimable skip now r ≡ true → ⊥
  unfolding is_over claimable
  claimable-is_over skip now h c = ground arith

  -- A row with the identifier of the claimed row is the claimed row, which is not terminated.
  apart :
      (c : Row) (skip : ℕ → Bool) (now : ℕ)
      → claimable skip now c ≡ true
      → ((r.id == c.id) ≡ true → r ≡ c)
      → is_over i r ≡ true
      → (r.id == c.id) ≡ false
  apart c skip now fits same done = elim (Bool-cases (r.id == c.id)) [
    | inl e ↦ absurd (claimable-is_over skip now done (rw (same e) fits))
    | inr e ↦ e
  ]

abbrev pub Over : ℕ → List Row → Type 0
Over i t = any (is_over i) t ≡ true

module _ (i : ℕ) (t : List Row) (over : Over i t) where
  extend_id-Over :
      (fault : Option Fault) (now : ℕ) (worker : String) (ttl : ℕ) (p : Result ℕ)
      → Over i (with_parsed p (extend_id fault now worker ttl t) t).1
  extend_id-Over fault now worker ttl (err x) = over
  extend_id-Over fault now worker ttl (ok id) =
      guarded-keeps (Over i) "extend lease" "extend lease rows affected" fault _ _ t over
        (any-update_where _ _ _ t (All-intro _ t (λ r. lease-is_over i r id worker now)) over)

  finalize_id-Over :
      (fault : Option Fault) (now : ℕ) (worker : String) (status : SummaryEventStatus)
      (error : Option String) (p : Result ℕ) (q : Result (Option ℕ))
      → Over i
          (with_parsed p
            (λ id. with_parsed q (finalize_id fault now worker status error t id) t)
            t).1
  finalize_id-Over fault now worker status error (err x) q = over
  finalize_id-Over fault now worker status error (ok id) (err x) = over
  finalize_id-Over fault now worker status error (ok id) (ok sid) =
      guarded-keeps (Over i) "finalize with lease" "finalize rows affected" fault _ _ t over
        (any-update_where _ _ _ t (All-intro _ t (λ r. lease-is_over i r id worker now)) over)

  retry_id-Over :
      (fault : Option Fault) (now : ℕ) (worker : String) (retry_at : ℕ) (error : String)
      (p : Result ℕ)
      → Over i (with_parsed p (retry_id fault now worker retry_at error t) t).1
  retry_id-Over fault now worker retry_at error (err x) = over
  retry_id-Over fault now worker retry_at error (ok id) =
      guarded-keeps (Over i) "mark for retry" "mark for retry rows affected" fault _ _ t over
        (any-update_where _ _ _ t (All-intro _ t (λ r. lease-is_over i r id worker now)) over)

  fail_id-Over :
      (fault : Option Fault) (now most grace : ℕ) (error : String) (p : Result ℕ)
      → Over i (with_parsed p (fail_id fault now most grace error t) t).1
  fail_id-Over fault now most grace error (err x) = over
  fail_id-Over fault now most grace error (ok id) =
      terminated-keeps (Over i) "fail expired" "fail expired rows affected" fault _ _ t over (
        any-update_where _ _ _ t
          (All-intro _ t (λ r. stuck-is_over i r id most (microseconds grace) now)) over)

  claim_row-Over :
      IsConsistent t
      → (skip : ℕ → Bool) (worker : String) (ttl now : ℕ) (o : Option Row)
      → first_by claim_key (claimable skip now) t ≡ o
      → Over i (claim_row worker ttl now t o).1
  claim_row-Over c skip worker ttl now none e = over
  claim_row-Over c skip worker ttl now (some r) e =
      let (fits, m) = first_by-Memᴰ claim_key (claimable skip now) t r e in
      any-update_where (is_over i) (λ q. q.id == r.id) (claimed_by worker ttl now) t
        (All-map _ _ t
          (All-unique (λ q. q.id == r.id) t r (c.ids r.id) m ((==_iff r.id r.id).1 refl))
          (λ q same done. apart i q r skip now fits same done))
        over

  insert_row-Over :
      (codec : UuidCodec) (fault : Option Err) (p : Result Row)
      → Over i (with_parsed p (λ n. insert_row codec fault n t) t).1
  insert_row-Over codec fault (err x) = over
  insert_row-Over codec (some e) (ok n) = over
  insert_row-Over codec none (ok n) = elim (Bool-cases (violates_unique n t)) [
    | inl clash ↦ rw clash over
    | inr free ↦ rw free (any-append (is_over i) t (n ∷ []) over)
  ]

  set_id-Over :
      (fault : Option Err) (now : ℕ) (status : SummaryEventStatus) (error : Option String)
      (p : Result ℕ) (q : Result (Option ℕ))
      → ((u : ℕ) → p ≡ ok u → (u == i) ≡ false)
      → Over i (with_parsed p (λ u. with_parsed q (set_id fault now status error t u) t) t).1
  set_id-Over fault now status error (err x) q other = over
  set_id-Over fault now status error (ok u) (err x) other = over
  set_id-Over fault now status error (ok u) (ok sid) other =
      changed-keeps (Over i) fault _ _ _ t over
        (any-update_where _ _ _ t (All-intro _ t (λ r. named-is_over i r u (other u refl))) over)

-- UpdateStatus, if the call is one, writes a terminal status, and not to the event `i`.
abbrev pub Spares : UuidCodec → ℕ → Call → Type 0
Spares codec i (set_status fault now event status sid error) =
    (is_terminal status ≡ true) × (is_some_eq (codec.parse event) i ≡ false)
Spares codec i _ = Unit

pub Spares-ends : (codec : UuidCodec) (i : ℕ) (call : Call) → Spares codec i call → ends call ≡ true
Spares-ends codec i (set_status fault now event status sid error) h = h.0
Spares-ends codec i (enqueue fault id now ty source post) h = refl
Spares-ends codec i (claim fault skip now worker ttl) h = refl
Spares-ends codec i (extend fault now event worker ttl) h = refl
Spares-ends codec i (finalize fault now event worker outcome sid error) h = refl
Spares-ends codec i (retry fault now event worker at error) h = refl
Spares-ends codec i (reap fault now event most grace error) h = refl

pub parse_id-other :
    (codec : UuidCodec) (i : ℕ) (what event : String) (u : ℕ)
    → is_some_eq (codec.parse event) i ≡ false
    → parse_id codec what event ≡ ok u
    → (u == i) ≡ false
parse_id-other codec i what event u h e = ground arith

-- Whatever the call, but for UpdateStatus of this event, a terminated event is terminated after it.
pub after-Over :
    (codec : UuidCodec) (i : ℕ) (call : Call) (t : List Row)
    → Spares codec i call
    → IsConsistent t
    → Over i t
    → Over i (after codec call t)
unfolding after save claim_one extend_lease finalize_with_lease mark_for_retry fail_expired
    claim_statement update_status
after-Over codec i (enqueue fault id now ty source post) t away c over =
    insert_row-Over i t over codec fault
      (parse_event codec (new_summary_event id now ty source post))
after-Over codec i (claim (some e) skip now worker ttl) t away c over = over
after-Over codec i (claim none skip now worker ttl) t away c over = rw claimed-snd (
    claim_row-Over i t over c skip worker (microseconds ttl) now
      (first_by claim_key (claimable skip now) t) refl)
after-Over codec i (extend fault now event worker ttl) t away c over =
    extend_id-Over i t over fault now worker ttl (parse_id codec "invalid event id" event)
after-Over codec i (finalize fault now event worker outcome sid error) t away c over =
    finalize_id-Over i t over fault now worker (status_of outcome) error
      (parse_id codec "invalid event id" event) (parse_optional codec "invalid summary id" sid)
after-Over codec i (retry fault now event worker at error) t away c over =
    retry_id-Over i t over fault now worker at error (parse_id codec "invalid event id" event)
after-Over codec i (reap fault now event most grace error) t away c over =
    fail_id-Over i t over fault now most grace error (parse_id codec "invalid event id" event)
after-Over codec i (set_status fault now event status sid error) t away c over =
    set_id-Over i t over fault now status error (parse_id codec "invalid event id" event)
      (parse_optional codec "invalid summary id" sid)
      (λ u. parse_id-other codec i "invalid event id" event u away.1)
