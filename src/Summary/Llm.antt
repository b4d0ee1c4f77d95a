-- ===== src/Summary/Llm.antt =====
-- summarizeWithLLMRetry (internal/biz/summary_usecase.go).
pub mod Attempts
use Prim.Native.String.{◌++◌ as str_append}
use feedium.Prelude.{ℕ, zero, suc, ◌+◌, ◌^◌, String, Bool, Option, none, some, if◌then◌else◌}
use feedium.Prelude.Int.{pos, mul64}
use feedium.Errors.{Err, opaque, wrap, Result, ok, err}
use feedium.Exec.{Exec, raise, lift, wrapping, continue, ◌>>=◌, ◌>>◌}
use feedium.Config.{SummaryConfig, second, positive_or, default_llm_max_retries}
use feedium.Text.{Text, is_blank, decimal}
use feedium.Source.{ProcessingMode, self_contained, cumulative}
use feedium.Summary.Ports.{Ports}

-- The result of a call to the provider: an error and a blank reply are tried again.
pub data Reply : Type 0 where
  failed : Err → Reply
  empty : Reply
  good : Text → Reply

abbrev pub reply_of : Result Text → Reply
reply_of (err e) = failed e
reply_of (ok text) = if is_blank text then empty else good text

-- time.Duration(math.Pow(2, float64(attempt))) * time.Second, exact for attempt < 63.
abbrev pub pause : ℕ → ℕ
pause attempt = 2 ^ attempt

abbrev pub all_failed : ℕ → Option Err → Err
all_failed max (some e) = wrap (str_append "all " (str_append (decimal max) " attempts failed")) e
all_failed max none =
    opaque (str_append "all " (str_append (decimal max) " attempts failed: %!w(<nil>)"))

module _ {S : Type 0} (ports : Ports S) (llm : Text → Text → Exec S Text) (prompt text : Text)
    (max : ℕ) where
  abbrev pub handle : (Option Err → Exec S Text) → ℕ → Reply → Exec S Text
  handle next attempt (failed e) s =
      continue (ports.wait (mul64 (pos (pause attempt)) second) s) (λ _. next (some e))
  handle next attempt empty s =
      next
        (some
          (opaque (str_append "llm returned empty summary on attempt " (decimal (attempt + 1)))))
        s
  handle next attempt (good t) s = (ok t, s)

  abbrev pub answered : (Option Err → Exec S Text) → ℕ → Result Text × S → Result Text × S
  answered next attempt (r, s) = handle next attempt (reply_of r) s

  -- The loop, with the attempts that are left and the number of the next one.
  unfoldable pub llm_loop : ℕ → ℕ → Option Err → Exec S Text
  unfolding is_blank decimal
  llm_loop zero attempt last s = (err (all_failed max last), s)
  llm_loop (suc left) attempt last s =
      answered (llm_loop left (suc attempt)) attempt (llm prompt text s)

abbrev pub mode_text : ProcessingMode → String
mode_text self_contained = "self_contained"
mode_text cumulative = "cumulative"

abbrev for_mode : String → ProcessingMode → String
for_mode what mode = str_append what (str_append " for mode \"" (str_append (mode_text mode) "\""))

abbrev pub max_retries_of : SummaryConfig → ℕ
max_retries_of cfg = positive_or cfg.llm_max_retries default_llm_max_retries

unfoldable pub summarize_with_llm_retry :
    {S : Type 0} → Ports S → SummaryConfig → ProcessingMode → Text → Exec S Text
unfolding llm_loop
summarize_with_llm_retry ports cfg mode text = do
  system_prompt ← wrapping (for_mode "resolve prompt" mode) (lift (ports.prompt_for mode))
  llm ← wrapping (for_mode "resolve llm provider" mode) (lift (ports.llm_for mode))
  llm_loop ports llm system_prompt text (max_retries_of cfg) (max_retries_of cfg) 0 none
