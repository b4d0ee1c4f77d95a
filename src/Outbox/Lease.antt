-- ===== src/Outbox/Lease.antt =====
-- A row under a live lease (internal/data/summary_outbox_repo.go), and the calls of other processes.
use mathlib.Core.List.{Memᴰ}
use feedium.Prelude.{
  ℕ, String, ◌≡◌, refl, Bool, true, false, Option, none, some, List, [], ◌∷◌, arith, str_eq_iff,
  ◌≢◌, ◌≤◌, ◌<◌, ◌==◌, ==_iff, any, All, Bool-cases, inl, inr,
}
use feedium.Errors.{Err, Result, ok, err}
use feedium.Uuid.{UuidCodec}
use feedium.Outbox.Table.{first_by}
use feedium.Outbox.Table.FirstBy.{first_by-Memᴰ}
use feedium.Outbox.Table.Counts.{All-unique}
use feedium.Outbox.Table.Members.{mem-update_where, mem-append, any-mem, All-mem}
use feedium.Outbox.Event.{
  SummaryEventStatus, Row, is_processing, is_terminal, is_some_eq, new_summary_event,
}
use feedium.Outbox.Statements.{
  claim_key, claimable, claim_row, claim_statement, holds_lease, is_stuck, violates_unique,
}
use feedium.Outbox.Repo.{
  Fault, microseconds, with_parsed, extend_id, finalize_id, retry_id, fail_id, parse_id,
  parse_optional, parse_event, insert_row, save, claim_one, extend_lease, finalize_with_lease,
  mark_for_retry, fail_expired, set_id, update_status,
}
use feedium.Outbox.Invariant.{IsConsistent}
use feedium.Outbox.Preserve.{guarded-keeps, terminated-keeps, changed-keeps}
use feedium.Outbox.Absorb.{parse_id-other}
use feedium.Outbox.Once.{parse_id-ok}
use feedium.Outbox.Run.{
  status_of, Call, enqueue, claim, extend, finalize, retry, reap, set_status, ends, after,
  claimed-snd, run, after-IsConsistent,
}

-- A call that is not the holder's: a claim or a reap before the lease's end, a guarded write of
-- another worker, or UpdateStatus of an event other than `i`, with a terminal status.
abbrev pub Elsewhere : UuidCodec → ℕ → String → ℕ → Call → Type 0
Elsewhere codec i w u (enqueue fault id now ty source post) = Unit
Elsewhere codec i w u (claim fault skip now worker ttl) = now ≤ u
Elsewhere codec i w u (extend fault now event worker ttl) = worker ≢ w
Elsewhere codec i w u (finalize fault now event worker outcome sid error) = worker ≢ w
Elsewhere codec i w u (retry fault now event worker at error) = worker ≢ w
Elsewhere codec i w u (reap fault now event most grace error) = now ≤ u
Elsewhere codec i w u (set_status fault now event status sid error) =
    (is_terminal status ≡ true) × (is_some_eq (codec.parse event) i ≡ false)

-- `r` is in processing under the lease of `w` until `u`.
pub record Held (w : String) (u : ℕ) (r : Row) : Type 0 where
  pub processing : is_processing r.status ≡ true
  pub until : r.locked_until ≡ some u
  pub holder : r.locked_by ≡ some w

module _ (w : String) (u : ℕ) (r : Row) (held : Held w u r) where
  not_claimable : (skip : ℕ → Bool) (now : ℕ) → now ≤ u → claimable skip now r ≡ true → ⊥
  unfolding claimable
  not_claimable skip now early h = ground arith

  not_lease :
      (id : ℕ) (worker : String) (now : ℕ) → worker ≢ w → holds_lease id worker now r ≡ false
  unfolding holds_lease
  not_lease id worker now other = ground (arith, str_eq_iff w worker)

  not_stuck : (id most grace now : ℕ) → now ≤ u → is_stuck id most grace now r ≡ false
  unfolding is_stuck
  not_stuck id most grace now early = ground arith

  has_lease : (now : ℕ) → now < u → holds_lease r.id w now r ≡ true
  unfolding holds_lease
  has_lease now early = ground (arith, str_eq_iff w w)

  module _ (t : List Row) (m : Memᴰ r t) where
    extend_id-mem :
        (fault : Option Fault) (now : ℕ) (worker : String) (ttl : ℕ) (p : Result ℕ)
        → worker ≢ w
        → Memᴰ r (with_parsed p (extend_id fault now worker ttl t) t).1
    extend_id-mem fault now worker ttl (err x) other = m
    extend_id-mem fault now worker ttl (ok id) other =
        guarded-keeps (Memᴰ r) "extend lease" "extend lease rows affected" fault _ _ t m
          (mem-update_where (holds_lease id worker now) _ t r (not_lease id worker now other) m)

    finalize_id-mem :
        (fault : Option Fault) (now : ℕ) (worker : String) (status : SummaryEventStatus)
        (error : Option String) (p : Result ℕ) (q : Result (Option ℕ))
        → worker ≢ w
        → Memᴰ r
            (with_parsed p
              (λ id. with_parsed q (finalize_id fault now worker status error t id) t)
              t).1
    finalize_id-mem fault now worker status error (err x) q other = m
    finalize_id-mem fault now worker status error (ok id) (err x) other = m
    finalize_id-mem fault now worker status error (ok id) (ok sid) other =
        guarded-keeps (Memᴰ r) "finalize with lease" "finalize rows affected" fault _ _ t m
          (mem-update_where (holds_lease id worker now) _ t r (not_lease id worker now other) m)

    retry_id-mem :
        (fault : Option Fault) (now : ℕ) (worker : String) (at : ℕ) (error : String) (p : Result ℕ)
        → worker ≢ w
        → Memᴰ r (with_parsed p (retry_id fault now worker at error t) t).1
    retry_id-mem fault now worker at error (err x) other = m
    retry_id-mem fault now worker at error (ok id) other =
        guarded-keeps (Memᴰ r) "mark for retry" "mark for retry rows affected" fault _ _ t m
          (mem-update_where (holds_lease id worker now) _ t r (not_lease id worker now other) m)

    fail_id-mem :
        (fault : Option Fault) (now most grace : ℕ) (error : String) (p : Result ℕ)
        → now ≤ u
        → Memᴰ r (with_parsed p (fail_id fault now most grace error t) t).1
    fail_id-mem fault now most grace error (err x) early = m
    fail_id-mem fault now most grace error (ok id) early =
        terminated-keeps (Memᴰ r) "fail expired" "fail expired rows affected" fault _ _ t m (
          mem-update_where (is_stuck id most (microseconds grace) now) _ t r
            (not_stuck id most (microseconds grace) now early) m)

    claim_row-mem :
        IsConsistent t
        → (skip : ℕ → Bool) (worker : String) (ttl now : ℕ) (o : Option Row) → now ≤ u
        → first_by claim_key (claimable skip now) t ≡ o
        → Memᴰ r (claim_row worker ttl now t o).1
    claim_row-mem c skip worker ttl now none early e = m
    claim_row-mem c skip worker ttl now (some x) early e =
        let (fits, mx) = first_by-Memᴰ claim_key (claimable skip now) t x e in
        let only = All-unique (λ q. q.id == x.id) t x (c.ids x.id) mx ((==_iff x.id x.id).1 refl) in
        elim (Bool-cases (r.id == x.id)) [
          | inl same ↦ absurd (
              not_claimable skip now early
                (rw (All-mem (λ q. (q.id == x.id) ≡ true → q ≡ x) t r only m same) fits))
          | inr apart ↦ mem-update_where (λ q. q.id == x.id) _ t r apart m
        ]

    insert_row-mem :
        (codec : UuidCodec) (fault : Option Err) (p : Result Row)
        → Memᴰ r (with_parsed p (λ n. insert_row codec fault n t) t).1
    insert_row-mem codec fault (err x) = m
    insert_row-mem codec (some e) (ok n) = m
    insert_row-mem codec none (ok n) = elim (Bool-cases (violates_unique n t)) [
      | inl clash ↦ rw clash m
      | inr free ↦ rw free (mem-append t (n ∷ []) r m)
    ]

    set_id-mem :
        (fault : Option Err) (now : ℕ) (status : SummaryEventStatus) (error : Option String)
        (p : Result ℕ) (q : Result (Option ℕ))
        → ((k : ℕ) → p ≡ ok k → (k == r.id) ≡ false)
        → Memᴰ r (with_parsed p (λ k. with_parsed q (set_id fault now status error t k) t) t).1
    set_id-mem fault now status error (err x) q other = m
    set_id-mem fault now status error (ok k) (err x) other = m
    set_id-mem fault now status error (ok k) (ok sid) other =
        let apart : (r.id == k) ≡ false = ground (arith, other k refl) in
        changed-keeps (Memᴰ r) fault _ _ _ t m (mem-update_where (λ q. q.id == k) _ t r apart m)

finalize_ids_ok :
    (w : String) (now : ℕ) (status : SummaryEventStatus) (error : Option String) (id : ℕ)
    (sid : Option ℕ) (t : List Row) (p : Result ℕ) (q : Result (Option ℕ))
    → p ≡ ok id
    → q ≡ ok sid
    → any (holds_lease id w now) t ≡ true
    → (with_parsed p (λ i. with_parsed q (finalize_id none now w status error t i) t) t).0 ≡ ok tt
finalize_ids_ok w now status error id sid t p q ep eq found = rw (ep, eq, found)

module _ (codec : UuidCodec) (w : String) (u : ℕ) (r : Row) (held : Held w u r) where
  after-Held :
      (call : Call) (t : List Row)
      → Elsewhere codec r.id w u call
      → IsConsistent t
      → Memᴰ r t
      → Memᴰ r (after codec call t)
  unfolding after save claim_one extend_lease finalize_with_lease mark_for_retry fail_expired
      claim_statement update_status
  after-Held (enqueue fault id now ty source post) t away c m =
      insert_row-mem w u r held t m codec fault
        (parse_event codec (new_summary_event id now ty source post))
  after-Held (claim (some e) skip now worker ttl) t away c m = m
  after-Held (claim none skip now worker ttl) t away c m = rw claimed-snd (
      claim_row-mem w u r held t m c skip worker (microseconds ttl) now
        (first_by claim_key (claimable skip now) t) away refl)
  after-Held (extend fault now event worker ttl) t away c m =
      extend_id-mem w u r held t m fault now worker ttl (parse_id codec "invalid event id" event)
        away
  after-Held (finalize fault now event worker outcome sid error) t away c m =
      finalize_id-mem w u r held t m fault now worker (status_of outcome) error
        (parse_id codec "invalid event id" event) (parse_optional codec "invalid summary id" sid)
        away
  after-Held (retry fault now event worker at error) t away c m =
      retry_id-mem w u r held t m fault now worker at error
        (parse_id codec "invalid event id" event) away
  after-Held (reap fault now event most grace error) t away c m =
      fail_id-mem w u r held t m fault now most grace error
        (parse_id codec "invalid event id" event) away
  after-Held (set_status fault now event status sid error) t away c m =
      set_id-mem w u r held t m fault now status error (parse_id codec "invalid event id" event)
        (parse_optional codec "invalid summary id" sid)
        (λ k. parse_id-other codec r.id "invalid event id" event k away.1)

  Elsewhere-ends : (call : Call) → Elsewhere codec r.id w u call → ends call ≡ true
  Elsewhere-ends (set_status fault now event status sid error) away = away.0
  Elsewhere-ends (enqueue fault id now ty source post) away = refl
  Elsewhere-ends (claim fault skip now worker ttl) away = refl
  Elsewhere-ends (extend fault now event worker ttl) away = refl
  Elsewhere-ends (finalize fault now event worker outcome sid error) away = refl
  Elsewhere-ends (retry fault now event worker at error) away = refl
  Elsewhere-ends (reap fault now event most grace error) away = refl

  -- In a consistent table with a row that `w` holds under a lease until `u`, any calls of other
  -- processes, which claim and reap at `u` or before, enqueue, write under other workers' names, and
  -- call UpdateStatus on other events only, with terminal statuses, leave the row as it is.
  pub run-Held :
      (calls : List Call) (t : List Row)
      → All (Elsewhere codec r.id w u) calls
      → IsConsistent t
      → Memᴰ r t
      → Memᴰ r (run codec calls t)
  unfolding run
  run-Held [] t away c m = m
  run-Held (call ∷ calls) t away c m =
      run-Held calls (after codec call t) away.1
        (after-IsConsistent codec call t (Elsewhere-ends call away.0) c)
        (after-Held call t away.0 c m)

  -- In a consistent table with a row that `w` holds under a lease until `u`: after any calls of other
  -- processes, which claim and reap at `u` or before, enqueue, write under other workers' names, and
  -- call UpdateStatus on other events only, with terminal statuses,
  -- FinalizeWithLease by `w` before `u` succeeds, where it meets no driver error and the identifier of
  -- the summary is absent or parses.
  pub finalize-after_others :
      (calls : List Call) (t : List Row) (now : ℕ) (status : SummaryEventStatus)
      (summary_id error : Option String) (sid : Option ℕ)
      → All (Elsewhere codec r.id w u) calls
      → IsConsistent t
      → Memᴰ r t
      → now < u
      → parse_optional codec "invalid summary id" summary_id ≡ ok sid
      → (finalize_with_lease codec none now
          (codec.to_string r.id)
          w
          status
          summary_id
          error
          (run codec calls t)).0
        ≡ ok tt
  unfolding finalize_with_lease
  finalize-after_others calls t now status summary_id error sid away c m early parsed =
      let kept = run-Held calls t away c m in
      let found =
        any-mem (holds_lease r.id w now) (run codec calls t) r kept
          (has_lease w u r held now early) in
      finalize_ids_ok w now status error r.id sid (run codec calls t)
        (parse_id codec "invalid event id" (codec.to_string r.id))
        (parse_optional codec "invalid summary id" summary_id)
        (parse_id-ok codec "invalid event id" (codec.to_string r.id) r.id
          (codec.parse-to_string r.id))
        parsed found
