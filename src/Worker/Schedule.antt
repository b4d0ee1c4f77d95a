-- ===== src/Worker/Schedule.antt =====
-- What a worker writes after a transient error (internal/task/event_worker_pool.go and
-- internal/biz/summary_retry.go).
use feedium.Prelude.{ℕ}
use feedium.Config.{SummaryConfig, positive_or, default_reaper_max_attempts}
use feedium.Worker

-- The retry budget that the configuration sets.
abbrev pub max_of : SummaryConfig → ℕ
max_of cfg = positive_or cfg.max_attempts default_reaper_max_attempts
