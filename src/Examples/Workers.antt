-- ===== src/Examples/Workers.antt =====
-- A worker at work: the backoff of the default configuration, a failed event that is scheduled again,
-- and rounds on a table with one pending event.
use feedium.Prelude.{
  ℕ, ◌+◌, ◌*◌, ◌^◌, ◌≡◌, refl, false, none, some, List, [], ◌∷◌, min, ◌==◌, arith, All, inl,
}
use feedium.Prelude.Int.{pos, negsuc}
use feedium.Errors.{Err, opaque, wrap, err, is}
use feedium.Config.{SummaryConfig}
use feedium.Retry.{calculate_backoff, retry_policy}
use feedium.Retry.Backoff.{base_of, cap_of, backoff_exact}
use feedium.Examples.Codecs.{codec}
use feedium.Examples.Events.{single}
use feedium.Outbox.Event.{Row, SummaryEvent, summarize_post, pending}
use feedium.Outbox.Invariant.{IsConsistent}
use feedium.Outbox.Statements.{has_active_post, has_active_source}
use feedium.Worker
use feedium.Worker.Attempts.{InBudget, Timely}
use feedium.Worker.Budget.{run_worker-InBudget}

-- Everything unset but the backoff's cap.
abbrev pub cfg : SummaryConfig
cfg = record {
  max_attempts = pos 2;
  backoff_base = pos 0;
  backoff_max = pos 60_000_000_000;
  lease_ttl = negsuc 0;
  reaper_grace = pos 0;
  event_ttl = pos 0;
  cron_interval = pos 0;
  max_window = pos 0;
  max_input_chars = pos 40;
  llm_max_retries = pos 0;
}

backoff_exact_example :
    calculate_backoff (retry_policy cfg) (pos 4) ≡ pos (min (base_of cfg * 2 ^ 3) (cap_of cfg))
backoff_exact_example = backoff_exact cfg 3 (omega arith) (omega arith)

backoff_capped : calculate_backoff (retry_policy cfg) (pos 4) ≡ pos 60_000_000_000
backoff_capped = backoff_exact cfg 3 (omega arith) (omega arith)

abbrev busy : Err
busy = wrap "summarize" (opaque "provider is busy")

abbrev site : Worker.Site
site = record { worker = "a"; fault = none; db_now = 900 }

abbrev waiting : Row
waiting = record {
  id = 1;
  post_id = some 2;
  source_id = 0;
  event_type = summarize_post;
  status = pending;
  summary_id = none;
  error = none;
  created_at = 100;
  processed_at = none;
  locked_until = none;
  locked_by = none;
  attempt_count = 1;
  next_attempt_at = none;
}

abbrev event : SummaryEvent
event = record {
  id = "#i";
  post_id = some "#ii";
  source_id = "#";
  event_type = summarize_post;
  status = pending;
  summary_id = none;
  error = none;
  created_at = 100;
  processed_at = none;
  attempt_count = 1;
}

-- Two rounds: the handler fails twice, and the budget of two attempts is spent.
abbrev failing : ℕ → Worker.Turn
failing now = record {
  claim_fault = none;
  skip = λ i. false;
  claim_now = now;
  handler = λ event. err (wrap "summarize" (opaque "provider is busy"));
  fault = none;
  db_now = now + 10;
  now = now * 1000;
}

failing-Timely : (now : ℕ) → Timely codec 300_000_000_000 (failing now)
unfolding is
failing-Timely now = record {
  written = refl;
  in_time = omega arith;
  returns = λ event. (refl, refl, refl);
}

waiting-IsConsistent : IsConsistent (waiting ∷ [])
waiting-IsConsistent = record {
  ids = λ i. single (λ r. r.id == i) waiting;
  posts = λ p e. single (has_active_post p e) waiting;
  sources = λ s. single (has_active_source s) waiting;
  leases = (record { until = refl; by = refl; done = refl }, tt);
}

abbrev rounds : List Worker.Turn
rounds = failing 1000 ∷ failing 30_000_000 ∷ failing 90_000_000 ∷ []

run_worker-InBudget_example :
    All
      (InBudget 2)
      (Worker.run_worker codec "a" 300_000_000_000 (retry_policy cfg) rounds (waiting ∷ []))
unfolding retry_policy
run_worker-InBudget_example =
    run_worker-InBudget codec "a" 300_000_000_000 (retry_policy cfg) 2 refl rounds (waiting ∷ [])
      waiting-IsConsistent (inl (refl, omega arith), tt)
      (failing-Timely 1000, (failing-Timely 30_000_000, (failing-Timely 90_000_000, tt)))
