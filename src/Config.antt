-- ===== src/Config.antt =====
-- The configuration values that the code reads through the getters of internal/conf, and the
-- fallbacks for unset ones (internal/biz/summary_usecase.go, internal/task/event_worker_pool.go).
-- A field holds what the getter returns: 0 where the message or the field is absent. Durations
-- are in nanoseconds.
use feedium.Prelude.{ℕ, ltb, if◌then◌else◌}
use feedium.Prelude.Int.{ℤ, pos, negsuc}

pub record SummaryConfig : Type 0 where
  pub max_attempts : ℤ
  pub backoff_base : ℤ
  pub backoff_max : ℤ
  pub lease_ttl : ℤ
  pub reaper_grace : ℤ
  pub event_ttl : ℤ
  pub cron_interval : ℤ
  pub max_window : ℤ
  pub max_input_chars : ℤ
  pub llm_max_retries : ℤ

abbrev pub second : ℕ
second = 1_000_000_000

abbrev pub default_cron_interval : ℕ
default_cron_interval = 3_600_000_000_000

abbrev pub default_event_ttl : ℕ
default_event_ttl = 86_400_000_000_000

abbrev pub default_cumulative_window : ℕ
default_cumulative_window = 259_200_000_000_000

abbrev pub default_cumulative_max_chars : ℕ
default_cumulative_max_chars = 50_000

abbrev pub default_llm_max_retries : ℕ
default_llm_max_retries = 3

abbrev pub default_reaper_max_attempts : ℕ
default_reaper_max_attempts = 5

abbrev pub default_reaper_grace_period : ℕ
default_reaper_grace_period = 30_000_000_000

abbrev pub default_backoff_base : ℕ
default_backoff_base = 10_000_000_000

abbrev pub default_backoff_max : ℕ
default_backoff_max = 600_000_000_000

abbrev pub default_lease_ttl : ℕ
default_lease_ttl = 300_000_000_000

abbrev pub default_list_page_size : ℕ
default_list_page_size = 500

abbrev pub reaper_batch_limit : ℕ
reaper_batch_limit = 100

-- `if v <= 0 { v = fallback }`: the value that is used is a natural number.
abbrev pub positive_or : ℤ → ℕ → ℕ
positive_or (pos n) d = if ltb 0 n then n else d
positive_or (negsuc n) d = d
