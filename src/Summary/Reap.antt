-- ===== src/Summary/Reap.antt =====
-- ReapStuckEvents (internal/biz/summary_usecase.go).
pub mod Sound
use feedium.Prelude.{
  ℕ, ◌+◌, String, Bool, true, false, Option, none, some, List, [], ◌∷◌, ltb, if◌then◌else◌,
}
use feedium.Errors.{Err, wrap, Result, ok, err}
use feedium.Exec.{Exec}
use feedium.Config.{
  SummaryConfig, positive_or, default_reaper_grace_period, default_reaper_max_attempts,
  reaper_batch_limit,
}
use feedium.Outbox.Event.{SummaryEvent}
use feedium.Summary.Ports.{Ports}

abbrev pub reaper_grace_of : SummaryConfig → ℕ
reaper_grace_of cfg = positive_or cfg.reaper_grace default_reaper_grace_period

abbrev pub reaper_attempts_of : SummaryConfig → ℕ
reaper_attempts_of cfg = positive_or cfg.max_attempts default_reaper_max_attempts

-- The number of terminated events is returned beside the error.
module _ {S : Type 0} (ports : Ports S) (max_attempts grace : ℕ) where
  abbrev pub counted : (ℕ → S → (ℕ × Option Err) × S) → ℕ → Result Bool × S → (ℕ × Option Err) × S
  counted next terminated (err e, s) = ((terminated, some (wrap "fail expired" e)), s)
  counted next terminated (ok true, s) = next (terminated + 1) s
  counted next terminated (ok false, s) = next terminated s

  unfoldable pub reap_loop : List SummaryEvent → ℕ → S → (ℕ × Option Err) × S
  reap_loop [] terminated s = ((terminated, none), s)
  reap_loop (ev ∷ events) terminated s =
      let skipped = reap_loop events terminated s in
      let tried =
        counted (reap_loop events) terminated
          (ports.fail_expired ev.id max_attempts grace "max attempts exceeded" s) in
      if ltb ev.attempt_count max_attempts then skipped else tried

  abbrev pub reap_listed : Result (List SummaryEvent) × S → (ℕ × Option Err) × S
  reap_listed (err e, s) = ((0, some (wrap "list lease expired" e)), s)
  reap_listed (ok events, s) = reap_loop events 0 s

unfoldable pub reap_stuck_events : {S : Type 0} → Ports S → SummaryConfig → S → (ℕ × Option Err) × S
unfolding reap_loop
reap_stuck_events ports cfg s =
    reap_listed ports (reaper_attempts_of cfg) (reaper_grace_of cfg)
      (ports.list_lease_expired (reaper_grace_of cfg) reaper_batch_limit s)
