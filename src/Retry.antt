-- ===== src/Retry.antt =====
-- The retry policy of the workers (internal/biz/summary_retry.go, and RetryPolicy of
-- internal/biz/summary_usecase.go). Durations are int64 nanoseconds, with Go's wrap-around.
pub mod Backoff
use feedium.Prelude.{
  ℕ, zero, suc, ◌-◌, Bool, true, false, not, ◌||◌, Option, none, some, if◌then◌else◌,
}
use feedium.Prelude.Int.{ℤ, pos, pos_part, mul64, ltb_ℤ, leb_ℤ}
use feedium.Errors.{
  Err, is, context_canceled, deadline_exceeded, summary_validation, summarize_self_contained_src,
  post_not_found, source_not_found,
}
use feedium.Config.{
  SummaryConfig, positive_or, default_reaper_max_attempts, default_backoff_base,
  default_backoff_max,
}

abbrev pub backoff_growth_factor : ℕ
backoff_growth_factor = 2

pub record RetryPolicy : Type 0 where
  pub max_attempts : ℤ
  pub backoff_base : ℤ
  pub backoff_max : ℤ

-- The loop `for i := 1; i < attempt; i++`, by the rounds that are left, and the cap after it.
backoff_loop : ℤ → ℕ → ℤ → ℤ
backoff_loop cap zero d = if ltb_ℤ cap d then cap else d
backoff_loop cap (suc rounds) d =
    let next = mul64 d backoff_growth_factor in
    let rest = backoff_loop cap rounds next in if ltb_ℤ next d || ltb_ℤ cap next then cap else rest

pub calculate_backoff : RetryPolicy → ℤ → ℤ
unfolding backoff_loop
calculate_backoff p attempt =
    if leb_ℤ attempt (pos 0)
    then p.backoff_base
    else backoff_loop p.backoff_max (pos_part attempt - 1) p.backoff_base

-- `err == nil` is `none`.
unfoldable pub is_transient_error : Option Err → Bool
is_transient_error none = false
is_transient_error (some e) =
    if is e context_canceled || is e deadline_exceeded
    then false
    else if is e summary_validation
        || is e summarize_self_contained_src
        || is e post_not_found
        || is e source_not_found
    then false
    else true

unfoldable pub should_retry : RetryPolicy → Option Err → ℤ → Bool
unfolding is_transient_error
should_retry p none attempt = false
should_retry p (some e) attempt =
    if not (is_transient_error (some e)) then false else ltb_ℤ attempt p.max_attempts

-- SummaryUsecase.RetryPolicy
unfoldable pub retry_policy : SummaryConfig → RetryPolicy
retry_policy cfg = record {
  max_attempts = pos (positive_or cfg.max_attempts default_reaper_max_attempts);
  backoff_base = pos (positive_or cfg.backoff_base default_backoff_base);
  backoff_max = pos (positive_or cfg.backoff_max default_backoff_max);
}
