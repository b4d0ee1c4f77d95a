-- ===== src/Summary/Process.antt =====
-- ProcessPostEvent and ProcessSourceEvent (internal/biz/summary_usecase.go).
pub mod Saved
use feedium.Prelude.{
  ℕ, ◌*◌, ◌-◌, String, Bool, Option, none, some, List, [], ◌∷◌, ltb, if◌then◌else◌,
}
use feedium.Errors.{
  Err, sentinel, detail, summary_event_expired, summary_validation, summary_source_no_posts, Result,
  ok, err,
}
use feedium.Exec.{Exec, pure, raise, wrapping, continue, ◌>>=◌, ◌>>◌}
use feedium.Config.{
  SummaryConfig, positive_or, default_event_ttl, default_cumulative_window,
  default_cumulative_max_chars,
}
use feedium.Text.{Text, word_count}
use feedium.Source.{ProcessingMode, self_contained, cumulative}
use feedium.Outbox.Event.{SummaryEvent}
use feedium.Summary.Ports.{Ports, Summary, reading}
use feedium.Post.{Post}
use feedium.Summary.Window.{collect_window_posts}
use feedium.Summary.Llm.{summarize_with_llm_retry}

abbrev pub nanoseconds : ℕ → ℕ
nanoseconds t = t * 1000

module _ {S : Type 0} (ports : Ports S) (cfg : SummaryConfig) where
  unfoldable pub ensure_not_expired : SummaryEvent → Exec S (Unit {0})
  ensure_not_expired event = do
    now ← reading ports.now
    if ltb (positive_or cfg.event_ttl default_event_ttl) (nanoseconds (now - event.created_at))
        then raise (sentinel summary_event_expired)
        else pure tt

  abbrev pub new_summary : Option String → String → Text → String → ℕ → Summary
  new_summary post_id source_id text id now = record {
    id = id;
    post_id = post_id;
    source_id = source_id;
    text = text;
    word_count = word_count text;
    created_at = now;
  }

  -- The common end of the two handlers: summarize, then save.
  unfoldable pub summarize_and_save : ProcessingMode → Option String → String → Text → Exec S String
  unfolding summarize_with_llm_retry word_count
  summarize_and_save mode post_id source_id input = do
    text ← wrapping "summarize" (summarize_with_llm_retry ports cfg mode input)
    id ← reading ports.new_id
    now ← reading ports.now
    saved ← wrapping "save summary" (ports.save_summary (new_summary post_id source_id text id now))
    pure saved.id

  abbrev pub summarize_post : SummaryEvent → String → List Summary → Exec S String
  summarize_post event post_id (x ∷ xs) = pure x.id
  summarize_post event post_id [] = do
    post ← wrapping "get post" (ports.get_post post_id)
    summarize_and_save self_contained event.post_id event.source_id post.text

  abbrev pub with_post : SummaryEvent → Option String → Exec S String
  with_post event none =
      raise (detail (sentinel summary_validation) "post id is nil for summarize_post event")
  with_post event (some post_id) = do
    existing ← wrapping "check existing summary" (ports.summaries_by_post post_id)
    summarize_post event post_id existing

  unfoldable pub process_post_event : SummaryEvent → Exec S String
  unfolding ensure_not_expired summarize_and_save
  process_post_event event = ensure_not_expired event >> with_post event event.post_id

  -- The window: from the last summary, or max_window back, to now.
  abbrev later_of : ℕ → Option Summary → ℕ
  later_of start none = start
  later_of start (some last) =
      if ltb start (nanoseconds last.created_at) then nanoseconds last.created_at else start

  unfoldable pub window_of : SummaryEvent → Exec S (ℕ × ℕ)
  unfolding ensure_not_expired
  window_of event = do
    _ ← ensure_not_expired event
    last ← wrapping "get last summary" (ports.last_summary event.source_id)
    now ← reading ports.now
    pure (
      later_of (nanoseconds now - positive_or cfg.max_window default_cumulative_window) last,
      nanoseconds now,
    )

  abbrev pub digest : SummaryEvent → Text → Exec S String
  digest event [] = raise (sentinel summary_source_no_posts)
  digest event (b ∷ bs) = summarize_and_save cumulative none event.source_id (b ∷ bs)

  abbrev pub digested : SummaryEvent → Option (Result Text × S) → Option (Result String × S)
  digested event none = none
  digested event (some r) = some (continue r (digest event))

  abbrev pub in_window : ℕ → SummaryEvent → Result (ℕ × ℕ) × S → Option (Result String × S)
  in_window fuel event (err e, s) = some (err e, s)
  in_window fuel event (ok (start, end), s) = digested event (
      collect_window_posts ports fuel event.source_id start end
        (positive_or cfg.max_input_chars default_cumulative_max_chars) s)

  -- `none` where the fuel is too little for the window's pages.
  unfoldable pub process_source_event : ℕ → SummaryEvent → S → Option (Result String × S)
  unfolding window_of collect_window_posts summarize_and_save
  process_source_event fuel event s = in_window fuel event (window_of event s)
