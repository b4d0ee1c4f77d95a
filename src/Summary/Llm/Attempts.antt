-- ===== src/Summary/Llm/Attempts.antt =====
-- How often a provider is called for one text, and what is taken as its answer.
use feedium.Prelude.{
  ℕ, zero, suc, ◌+◌, ◌≤◌, ◌≡◌, refl, String, false, Option, none, some, arith, Bool-cases, inl, inr,
}
use feedium.Prelude.Int.{ℤ, pos, mul64}
use feedium.Errors.{Err, Result, ok, err}
use feedium.Exec.{Exec, continue, lift, wrapping, ◌>>=◌}
use feedium.Config.{SummaryConfig, second}
use feedium.Text.{Text, is_blank}
use feedium.Source.{ProcessingMode}
use feedium.Summary.Ports.{Ports}
use feedium.Summary.Llm.{
  Reply, failed, empty, good, reply_of, pause, handle, answered, llm_loop, max_retries_of,
  summarize_with_llm_retry,
}

module _ {S : Type 0} (ports : Ports S) (llm : Text → Text → Exec S Text) (prompt text : Text)
    (max : ℕ) where
  module _ (calls : S → ℕ) (once : (p t : Text) (s : S) → calls (llm p t s).1 ≤ suc (calls s))
      (rest : (d : ℤ) (s : S) → calls (ports.wait d s).1 ≤ calls s) where
    waited :
        (next : Option Err → Exec S Text) (left : ℕ) (last : Option Err) (n : ℕ)
        (p : Result (Unit {0}) × S)
        → ((o : Option Err) (s : S) → calls (next o s).1 ≤ calls s + left)
        → calls p.1 ≤ n
        → calls (continue p (λ _. next last)).1 ≤ n + left
    waited next left last n (ok u, s) h b = omega (arith, h last s)
    waited next left last n (err e, s) h b = omega arith

    handle-calls :
        (next : Option Err → Exec S Text) (left attempt : ℕ) (r : Reply) (s : S)
        → ((o : Option Err) (s : S) → calls (next o s).1 ≤ calls s + left)
        → calls (handle ports llm prompt text max next attempt r s).1 ≤ calls s + left
    handle-calls next left attempt (failed e) s h =
        waited next left (some e) (calls s) (ports.wait (mul64 (pos (pause attempt)) second) s) h
          (rest _ s)
    handle-calls next left attempt empty s h = h _ s
    handle-calls next left attempt (good t) s h = omega arith

    llm_loop-calls :
        (left attempt : ℕ) (last : Option Err) (s : S)
        → calls (llm_loop ports llm prompt text max left attempt last s).1 ≤ calls s + left
    unfolding llm_loop
    llm_loop-calls zero attempt last s = omega arith
    llm_loop-calls (suc left) attempt last s = omega (
      arith,
      once prompt text s,
      handle-calls (llm_loop ports llm prompt text max left (suc attempt)) left attempt
          (reply_of (llm prompt text s).0) (llm prompt text s).1
          (llm_loop-calls left (suc attempt)),
    )

  continue-blank :
      (next : Option Err → Exec S Text) (last : Option Err) (p : Result (Unit {0}) × S) (t : Text)
      → ((o : Option Err) (s : S) → (next o s).0 ≡ ok t → is_blank t ≡ false)
      → (continue p (λ _. next last)).0 ≡ ok t
      → is_blank t ≡ false
  continue-blank next last (ok u, s) t h e = h last s e
  continue-blank next last (err x, s) t h e = cc

  handle-blank :
      (next : Option Err → Exec S Text) (attempt : ℕ) (r : Result Text) (s : S) (t : Text)
      → ((o : Option Err) (s : S) → (next o s).0 ≡ ok t → is_blank t ≡ false)
      → (answered ports llm prompt text max next attempt (r, s)).0 ≡ ok t
      → is_blank t ≡ false
  handle-blank next attempt (err x) s t h e =
      continue-blank next (some x) (ports.wait (mul64 (pos (pause attempt)) second) s) t h e
  handle-blank next attempt (ok u) s t h e = elim (Bool-cases (is_blank u)) [
    | inl blank ↦ h _ s (rw blank at e)
    | inr full ↦ let same : ok u ≡ ok t = rw full at e in let eq : u ≡ t = cc in rw (← eq) full
  ]

  llm_loop-blank :
      (left attempt : ℕ) (last : Option Err) (s : S) (t : Text)
      → (llm_loop ports llm prompt text max left attempt last s).0 ≡ ok t
      → is_blank t ≡ false
  unfolding llm_loop
  llm_loop-blank zero attempt (some x) s t e = cc
  llm_loop-blank zero attempt none s t e = cc
  llm_loop-blank (suc left) attempt last s t e =
      handle-blank (llm_loop ports llm prompt text max left (suc attempt)) attempt
        (llm prompt text s).0 (llm prompt text s).1 t
        (λ o s'. llm_loop-blank left (suc attempt) o s' t) e

module _ {S : Type 0} (ports : Ports S) (text : Text) (max : ℕ) where
  abbrev resolved : String → String → Result Text → Result (Text → Text → Exec S Text) → Exec S Text
  resolved m1 m2 prompt llm = wrapping m1 (lift prompt) >>= λ p.
      wrapping m2 (lift llm) >>= λ l. llm_loop ports l p text max max 0 none

  resolved-blank :
      (m1 m2 : String) (prompt : Result Text) (llm : Result (Text → Text → Exec S Text)) (s : S)
      (t : Text)
      → (resolved m1 m2 prompt llm s).0 ≡ ok t
      → is_blank t ≡ false
  resolved-blank m1 m2 (err x) llm s t e = cc
  resolved-blank m1 m2 (ok p) (err x) s t e = cc
  resolved-blank m1 m2 (ok p) (ok l) s t e = llm_loop-blank ports l p text max max 0 none s t e

  resolved-calls :
      (calls : S → ℕ)
      → ((d : ℤ) (s : S) → calls (ports.wait d s).1 ≤ calls s)
      → (m1 m2 : String) (prompt : Result Text) (llm : Result (Text → Text → Exec S Text))
      → ((l : Text → Text → Exec S Text)
          → llm ≡ ok l
          → (p t : Text) (s : S) → calls (l p t s).1 ≤ suc (calls s))
      → (s : S) → calls (resolved m1 m2 prompt llm s).1 ≤ calls s + max
  resolved-calls calls rest m1 m2 (err x) llm once s = omega arith
  resolved-calls calls rest m1 m2 (ok p) (err x) once s = omega arith
  resolved-calls calls rest m1 m2 (ok p) (ok l) once s =
      llm_loop-calls ports l p text max calls (once l refl) rest max 0 none s

-- A text that is returned is not blank.
pub summarize-blank :
    {S : Type 0} (ports : Ports S) (cfg : SummaryConfig) (mode : ProcessingMode) (text : Text)
    (s : S) (t : Text)
    → (summarize_with_llm_retry ports cfg mode text s).0 ≡ ok t
    → is_blank t ≡ false
unfolding summarize_with_llm_retry
summarize-blank ports cfg mode text s t e =
    resolved-blank ports text (max_retries_of cfg) _ _ (ports.prompt_for mode) (ports.llm_for mode)
      s t e

-- Where a provider's call counts at most once in `calls` and a pause does not count, one text costs
-- at most `max_retries` calls, whatever the replies.
pub summarize-calls :
    {S : Type 0} (ports : Ports S) (cfg : SummaryConfig) (mode : ProcessingMode) (text : Text)
    (calls : S → ℕ)
    → ((d : ℤ) (s : S) → calls (ports.wait d s).1 ≤ calls s)
    → ((l : Text → Text → Exec S Text)
        → ports.llm_for mode ≡ ok l
        → (p t : Text) (s : S) → calls (l p t s).1 ≤ suc (calls s))
    → (s : S)
    → calls (summarize_with_llm_retry ports cfg mode text s).1 ≤ calls s + max_retries_of cfg
unfolding summarize_with_llm_retry
summarize-calls ports cfg mode text calls rest once s =
    resolved-calls ports text (max_retries_of cfg) calls rest _ _ (ports.prompt_for mode)
      (ports.llm_for mode) once s
