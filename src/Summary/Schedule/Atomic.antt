-- ===== src/Summary/Schedule/Atomic.antt =====
-- TriggerSourceSummarize (internal/biz/summary_usecase.go) that fails.
use feedium.Prelude.{◌≡◌, refl, ◌∙◌, String, not, Option, none, some}
use feedium.Errors.{Err, err}
use feedium.Exec.{Exec}
use feedium.Exec.Unchanged.{continue-unchanged, guarded-unchanged}
use feedium.Config.{SummaryConfig}
use feedium.Source.{processing_mode_for_type}
use feedium.Outbox.Event.{SummaryEvent, SummaryEventType, summarize_source}
use feedium.Summary.Ports.{Ports}
use feedium.Summary.Schedule.{
  is_cumulative, trigger_unless, trigger_tx, next_at, trigger_source_summarize,
}

-- The contract of the ports: what only reads leaves the database as it is, and so does a
-- transaction that returns an error.
pub record Contract {S D : Type 0} (ports : Ports S) (db : S → D) : Type 1 where
  pub get_source : (id : String) (s : S) → db (ports.get_source id s).1 ≡ db s
  pub has_active_event :
      (id : String) (ty : SummaryEventType) (s : S) → db (ports.has_active_event id ty s).1 ≡ db s
  pub now : (s : S) → db (ports.now s).1 ≡ db s
  pub rolled_back :
      {A : Type 0} (m : Exec S A) (s : S) (e : Err)
      → (ports.in_tx m s).0 ≡ err e
      → db (ports.in_tx m s).1 ≡ db s

module _ {S D : Type 0} (ports : Ports S) (db : S → D) (c : Contract ports db)
    (cfg : SummaryConfig) where
  trigger_unless-unchanged :
      (source_id : String) (o : Option SummaryEvent) (s : S) (e : Err)
      → (trigger_unless ports cfg source_id o s).0 ≡ err e
      → db (trigger_unless ports cfg source_id o s).1 ≡ db s
  trigger_unless-unchanged source_id (some event) s e h = refl
  trigger_unless-unchanged source_id none s e h =
      c.rolled_back (trigger_tx ports cfg source_id (next_at ports cfg (ports.now s).0))
        (ports.now s).1 e h
      ∙ c.now s

  -- Over ports that keep the contract: where TriggerSourceSummarize returns an error, the database is
  -- as it was, so that no event is left without the new time of its source, nor a time without the
  -- event.
  pub trigger_source_summarize-unchanged :
      (source_id : String) (s : S) (e : Err)
      → (trigger_source_summarize ports cfg source_id s).0 ≡ err e
      → db (trigger_source_summarize ports cfg source_id s).1 ≡ db s
  unfolding trigger_source_summarize
  trigger_source_summarize-unchanged source_id s e h =
      continue-unchanged db (ports.get_source source_id s) _ e
        (λ source s1 h1.
          guarded-unchanged db (not (is_cumulative (processing_mode_for_type source.source_type))) _
            _ s1 e
            (λ h2.
              continue-unchanged db (ports.has_active_event source_id summarize_source s1)
                (trigger_unless ports cfg source_id) e
                (λ o s2 h3. trigger_unless-unchanged source_id o s2 e h3) h2
              ∙ c.has_active_event source_id summarize_source s1)
            h1)
        h
      ∙ c.get_source source_id s
