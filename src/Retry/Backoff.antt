-- ===== src/Retry/Backoff.antt =====
-- The loop of CalculateBackoff (internal/biz/summary_retry.go), on int64 durations.
use native.Mathlib.Nat.{pow-suc, one-le-pow}
use feedium.Prelude.{ℕ, zero, suc, ◌-◌, ◌*◌, ◌^◌, ◌≤◌, ◌<◌, min, ◌≡◌, arith}
use feedium.Prelude.Int.{ℤ, pos, negsuc}
use feedium.Config.{SummaryConfig, positive_or, default_backoff_base, default_backoff_max}
use feedium.Retry.{RetryPolicy, backoff_loop, calculate_backoff, retry_policy}

doubled : (d n : ℕ) → d * 2 ^ suc n ≡ d * 2 * 2 ^ n
doubled d n = rw pow-suc (omega arith)

doubled-le : (d n : ℕ) → d ≤ d * 2 ^ n
doubled-le d n = let one : 1 ≤ 2 ^ n = one-le-pow n 2 (omega arith) in grind arith

-- One round: the doubling passes the cap, wrapped or not, or is exact.
capped_min : (m d n : ℕ) → m < d * 2 → min (d * 2 ^ suc n) m ≡ m
capped_min m d n h = rw doubled (omega (arith, doubled-le (d * 2) n))

round :
    (m n d : ℕ)
    → 0 < d
    → d < 2 ^ 63
    → m < 2 ^ 63
    → (d * 2 ≤ m → backoff_loop (pos m) n (pos (d * 2)) ≡ pos (min (d * 2 * 2 ^ n) m))
    → backoff_loop (pos m) (suc n) (pos d) ≡ pos (min (d * 2 ^ suc n) m)
unfolding backoff_loop
round m n d hd hb hm ih = ground (arith, ih, doubled d n, capped_min m d n)

backoff_loop_lem :
    (m n d : ℕ)
    → 0 < d
    → d < 2 ^ 63
    → m < 2 ^ 63
    → backoff_loop (pos m) n (pos d) ≡ pos (min (d * 2 ^ n) m)
unfolding backoff_loop
backoff_loop_lem m zero d hd hb hm = ground arith
backoff_loop_lem m (suc n) d hd hb hm =
    round m n d hd hb hm (λ h. backoff_loop_lem m n (d * 2) (omega arith) (omega arith) hm)

-- A configured duration is an int64, and the fallback is used where it is not positive.
abbrev pub base_of : SummaryConfig → ℕ
base_of cfg = positive_or cfg.backoff_base default_backoff_base

abbrev pub cap_of : SummaryConfig → ℕ
cap_of cfg = positive_or cfg.backoff_max default_backoff_max

base_of_pos : (c : ℤ) → 0 < positive_or c default_backoff_base
base_of_pos (pos n) = ground arith
base_of_pos (negsuc n) = omega arith

enter_loop :
    (p : RetryPolicy) (k : ℕ)
    → calculate_backoff p (pos (suc k)) ≡ backoff_loop p.backoff_max k p.backoff_base
unfolding calculate_backoff
enter_loop p k = let one_less : suc k - 1 ≡ k = omega arith in rw one_less (ground arith)

-- Under any configuration whose durations fit in an int64, the backoff for attempt `k + 1`
-- is the base doubled `k` times and capped: min (base * 2 ^ k, max). The doubling that would wrap
-- past 2 ^ 63 is caught, so the int64 loop agrees with unbounded arithmetic.
pub backoff_exact :
    (cfg : SummaryConfig) (k : ℕ)
    → base_of cfg < 2 ^ 63
    → cap_of cfg < 2 ^ 63
    → calculate_backoff (retry_policy cfg) (pos (suc k))
      ≡ pos (min (base_of cfg * 2 ^ k) (cap_of cfg))
unfolding retry_policy
backoff_exact cfg k hb hm =
    rw enter_loop
      (backoff_loop_lem (cap_of cfg) k (base_of cfg) (base_of_pos cfg.backoff_base) hb hm)
