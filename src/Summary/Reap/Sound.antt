-- ===== src/Summary/Reap/Sound.antt =====
-- ReapStuckEvents (internal/biz/summary_usecase.go) over the outbox's table.
use mathlib.Core.List.{Memᴰ}
use feedium.Prelude.{
  ℕ, ◌+◌, ◌<◌, ◌≡◌, sym, subst, ◌⊎◌, inl, inr, String, Bool, true, false, Option, List, [], ◌∷◌,
  arith, ltb, Bool-cases,
}
use feedium.Errors.{Err, Result, ok, err}
use feedium.Config.{SummaryConfig, reaper_batch_limit}
use feedium.Uuid.{UuidCodec}
use feedium.Outbox.Event.{SummaryEvent, Row, is_processing}
use feedium.Outbox.Table.Members.{mem-update_where}
use feedium.Outbox.Statements.{is_stuck, fail_set}
use feedium.Outbox.Repo.{Fault, microseconds, with_parsed, parse_id, fail_id, fail_expired}
use feedium.Outbox.Preserve.{terminated-keeps}
use feedium.Summary.Ports.{Ports}
use feedium.Summary.Reap.{
  counted, reap_loop, reap_listed, reap_stuck_events, reaper_attempts_of, reaper_grace_of,
}

-- A row that the reaper has no business with.
abbrev pub Spared : ℕ → Row → Type 0
Spared most r = (r.attempt_count < most) ⊎ (is_processing r.status ≡ false)

Spared-stuck :
    (r : Row) (id most grace now : ℕ) → Spared most r → is_stuck id most grace now r ≡ false
unfolding is_stuck
Spared-stuck r id most grace now (inl few) = ground arith
Spared-stuck r id most grace now (inr idle) = ground arith

fail_id-mem :
    (r : Row) (t : List Row) (fault : Option Fault) (now most grace : ℕ) (error : String)
    (p : Result ℕ)
    → Spared most r
    → Memᴰ r t
    → Memᴰ r (with_parsed p (fail_id fault now most grace error t) t).1
fail_id-mem r t fault now most grace error (err x) sp m = m
fail_id-mem r t fault now most grace error (ok id) sp m =
    terminated-keeps (λ u. Memᴰ r u) "fail expired" "fail expired rows affected" fault _ _ t m
      (mem-update_where (is_stuck id most (microseconds grace) now) (fail_set error now) t r
        (Spared-stuck r id most (microseconds grace) now sp) m)

-- The two ports, over the outbox's table: the list is only read, and FailExpired is that of the
-- repository, at some clock and with some driver error.
pub record OnTable {S : Type 0} (codec : UuidCodec) (ports : Ports S) (table : S → List Row)
    : Type 0 where
  pub reads : (grace limit : ℕ) (s : S) → table (ports.list_lease_expired grace limit s).1 ≡ table s
  pub fails :
      (id : String) (most grace : ℕ) (error : String) (s : S)
      → (fault : Option Fault) × (now : ℕ) × (table (ports.fail_expired id most grace error s).1
          ≡ (fail_expired codec fault now id most grace error (table s)).1)

module _ {S : Type 0} (codec : UuidCodec) (ports : Ports S) (table : S → List Row)
    (on : OnTable codec ports table) (r : Row) (most grace : ℕ) (sp : Spared most r) where
  fail-mem :
      (id : String) (error : String) (s : S)
      → Memᴰ r (table s)
      → Memᴰ r (table (ports.fail_expired id most grace error s).1)
  unfolding fail_expired
  fail-mem id error s m =
      let (fault, now, e) = on.fails id most grace error s in
      subst (λ t. Memᴰ r t) (sym e)
        (fail_id-mem r (table s) fault now most grace error (parse_id codec "invalid event id" id)
          sp m)

  counted-mem :
      (next : ℕ → S → (ℕ × Option Err) × S) (terminated : ℕ) (p : Result Bool × S)
      → ((n : ℕ) (s : S) → Memᴰ r (table s) → Memᴰ r (table (next n s).1))
      → Memᴰ r (table p.1)
      → Memᴰ r (table (counted ports most grace next terminated p).1)
  counted-mem next terminated (err e, s) h m = m
  counted-mem next terminated (ok true, s) h m = h (terminated + 1) s m
  counted-mem next terminated (ok false, s) h m = h terminated s m

  reap_loop-mem :
      (events : List SummaryEvent) (terminated : ℕ) (s : S)
      → Memᴰ r (table s)
      → Memᴰ r (table (reap_loop ports most grace events terminated s).1)
  unfolding reap_loop
  reap_loop-mem [] terminated s m = m
  reap_loop-mem (ev ∷ events) terminated s m = elim (Bool-cases (ltb ev.attempt_count most)) [
    | inl few ↦ rw few (reap_loop-mem events terminated s m)
    | inr spent ↦ rw spent (
        counted-mem (reap_loop ports most grace events) terminated
          (ports.fail_expired ev.id most grace "max attempts exceeded" s)
          (λ n s' m'. reap_loop-mem events n s' m') (fail-mem ev.id "max attempts exceeded" s m))
  ]

  listed-mem :
      (p : Result (List SummaryEvent) × S)
      → Memᴰ r (table p.1)
      → Memᴰ r (table (reap_listed ports most grace p).1)
  listed-mem (err e, s) m = m
  listed-mem (ok events, s) m = reap_loop-mem events 0 s m

-- Over the outbox's table, whatever the clocks and driver errors of its statements, ReapStuckEvents
-- leaves each row as it is that has fewer than `max_attempts` attempts or is not in processing.
pub reap_stuck_events-Spared :
    {S : Type 0} (codec : UuidCodec) (ports : Ports S) (table : S → List Row) (cfg : SummaryConfig)
    (s : S) (r : Row)
    → OnTable codec ports table
    → Spared (reaper_attempts_of cfg) r
    → Memᴰ r (table s)
    → Memᴰ r (table (reap_stuck_events ports cfg s).1)
unfolding reap_stuck_events
reap_stuck_events-Spared codec ports table cfg s r on sp m =
    listed-mem codec ports table on r (reaper_attempts_of cfg) (reaper_grace_of cfg) sp
      (ports.list_lease_expired (reaper_grace_of cfg) reaper_batch_limit s)
      (subst (λ t. Memᴰ r t) (sym (on.reads (reaper_grace_of cfg) reaper_batch_limit s)) m)
