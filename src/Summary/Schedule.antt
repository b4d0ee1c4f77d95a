-- ===== src/Summary/Schedule.antt =====
-- TriggerSourceSummarize and ScheduleNextCumulative (internal/biz/summary_usecase.go).
pub mod Atomic
pub mod Scheduled
use feedium.Prelude.{
  ℕ, ◌+◌, String, Bool, true, false, not, Option, none, some, List, [], ◌∷◌, Option, if◌then◌else◌,
}
use feedium.Errors.{
  Err, sentinel, is, summarize_self_contained_src, summary_already_processing, no_source_due,
  Result, ok, err,
}
use feedium.Exec.{Exec, pure, raise, continue, ◌>>=◌, ◌>>◌}
use feedium.Config.{SummaryConfig, positive_or, default_cron_interval}
use feedium.Source.{
  Source, SourceType, ProcessingMode, self_contained, cumulative, processing_mode_for_type,
}
use feedium.Post.{Post, ListPostsFilter, ListPostsResult, by_created_at, descending}
use feedium.Outbox.Event.{SummaryEvent, SummaryEventType, summarize_source, new_summary_event}
use feedium.Outbox.Repo.{microseconds}
use feedium.Summary.Ports.{Ports, Summary, reading}
use feedium.Summary.Process.{nanoseconds}

abbrev pub is_cumulative : ProcessingMode → Bool
is_cumulative cumulative = true
is_cumulative self_contained = false

module _ {S : Type 0} (ports : Ports S) (cfg : SummaryConfig) where
  -- uc.cronInterval(), after the clock's reading.
  abbrev pub next_at : ℕ → ℕ
  next_at now = microseconds (nanoseconds now + positive_or cfg.cron_interval default_cron_interval)

  abbrev pub new_source_event : String → Exec S SummaryEvent
  new_source_event source_id = do
    id ← reading ports.new_id
    now ← reading ports.now
    pure (new_summary_event id now summarize_source source_id none)

  -- The closure's last call and the variable eventID.
  abbrev bump_after : String → ℕ → SummaryEvent → Exec S (String × Bool)
  bump_after source_id next saved =
      ports.bump_next_summary_at source_id next >> pure (saved.id, false)

  unfoldable pub trigger_tx : String → ℕ → Exec S (String × Bool)
  unfolding new_summary_event
  trigger_tx source_id next = do
    event ← new_source_event source_id
    saved ← ports.save_event event
    bump_after source_id next saved

  abbrev pub trigger_unless : String → Option SummaryEvent → Exec S (String × Bool)
  trigger_unless source_id (some event) = pure (event.id, true)
  trigger_unless source_id none = do
    now ← reading ports.now
    ports.in_tx (trigger_tx source_id (next_at now))

  unfoldable pub trigger_source_summarize : String → Exec S (String × Bool)
  unfolding trigger_tx
  trigger_source_summarize source_id = do
    source ← ports.get_source source_id
    if not (is_cumulative (processing_mode_for_type source.source_type))
        then raise (sentinel summarize_self_contained_src)
        else (ports.has_active_event source_id summarize_source >>= trigger_unless source_id)

  abbrev pub after_last : Option Summary → Option ℕ
  after_last none = none
  after_last (some last) = some (nanoseconds last.created_at)

  abbrev pub one_post : String → Option ℕ → ℕ → ListPostsFilter
  one_post source_id after before = record {
    source_id = source_id;
    page_size = 1;
    page_token = "";
    order_by = by_created_at;
    order_dir = descending;
    created_after = after;
    created_before = some before;
  }

  -- A lost race for the unique index is no error.
  abbrev pub lost_race : Result SummaryEvent × S → Result Bool × S
  lost_race (ok saved, s) = (ok true, s)
  lost_race (err e, s) = if is e summary_already_processing then (ok false, s) else (err e, s)

  abbrev pub enqueue_if : String → List Post → Exec S Bool
  enqueue_if source_id [] = pure false
  enqueue_if source_id (p ∷ ps) =
      new_source_event source_id >>= λ event s. lost_race (ports.save_event event s)

  abbrev pub unless_active : String → Option SummaryEvent → Exec S Bool
  unless_active source_id (some event) = pure false
  unless_active source_id none = do
    last ← ports.last_summary source_id
    now ← reading ports.now
    posts ← ports.list_posts (one_post source_id (after_last last) (nanoseconds now))
    enqueue_if source_id posts.items

  unfoldable pub maybe_enqueue_source_event : String → Exec S Bool
  unfolding new_summary_event is
  maybe_enqueue_source_event source_id =
      ports.has_active_event source_id summarize_source >>= unless_active source_id

  unfoldable pub schedule_tx : Exec S Bool
  unfolding maybe_enqueue_source_event
  schedule_tx = do
    source ← ports.claim_due
    now ← reading ports.now
    ports.bump_next_summary_at source.id (next_at now) >> maybe_enqueue_source_event source.id

  -- ErrNoSourceDue is consumed.
  abbrev pub no_source : Result Bool × S → Result Bool × S
  no_source (ok b, s) = (ok b, s)
  no_source (err e, s) = if is e no_source_due then (ok false, s) else (err e, s)

  unfoldable pub schedule_next_cumulative : Exec S Bool
  unfolding schedule_tx is
  schedule_next_cumulative s = no_source (ports.in_tx schedule_tx s)
