-- ===== src/Outbox/Repo/Reads.antt =====
-- The methods of summaryOutboxRepo (internal/data/summary_outbox_repo.go) that only read the table.
use feedium.Prelude.{ℕ, String, ◌&&◌, Option, none, some, List, [], ◌∷◌, map, ◌==◌, select, take}
use feedium.Errors.{Err, sentinel, opaque, wrap, summary_event_not_found, Result, ok, err, ◌>>=◌}
use feedium.Uuid.{UuidCodec}
use feedium.Outbox.Table.{find, order_by}
use feedium.Outbox.Event.{SummaryEvent, SummaryEventType, Row, is_type, is_active, is_processing}
use feedium.Outbox.Statements.{is_past, coalesce}
use feedium.Outbox.Repo.Guards.{microseconds}
use feedium.Outbox.Repo.Mapping.{parse_id, event_of}

module _ (codec : UuidCodec) where
  abbrev found : Option Err → Option Row → Result SummaryEvent
  found (some e) r = err (wrap "get summary event" e)
  found none none = err (sentinel summary_event_not_found)
  found none (some r) = ok (event_of codec r)

  unfoldable pub get : Option Err → String → List Row → Result SummaryEvent
  unfolding event_of
  get fault id t =
      parse_id codec "invalid event id" id >>= λ u. found fault (find (λ r. r.id == u) t)

  -- WHERE status = 'processing' AND locked_until < now() - grace ORDER BY locked_until ASC LIMIT n
  unfoldable pub list_lease_expired : Option Err → ℕ → ℕ → ℕ → List Row → Result (List SummaryEvent)
  unfolding event_of order_by
  list_lease_expired (some e) now grace limit t = err (wrap "list lease expired" e)
  list_lease_expired none now grace limit t = ok (
      map (event_of codec) (
        take limit (
          order_by (λ r. coalesce r.locked_until 0)
            (select (λ r. is_processing r.status && is_past r.locked_until (microseconds grace) now)
              t))))

  -- Only returns the single row, and an error where there are several.
  abbrev only : List Row → Result (Option SummaryEvent)
  only [] = ok none
  only (r ∷ []) = ok (some (event_of codec r))
  only (r ∷ q ∷ rs) = err (wrap "check active event" (opaque "not singular"))

  abbrev active_rows : Option Err → ℕ → SummaryEventType → List Row → Result (Option SummaryEvent)
  active_rows (some e) source event_type t = err (wrap "check active event" e)
  active_rows none source event_type t = only (
      select (λ r. r.source_id == source && is_type r.event_type event_type && is_active r.status)
        t)

  unfoldable pub has_active_event :
      Option Err → String → SummaryEventType → List Row → Result (Option SummaryEvent)
  unfolding event_of
  has_active_event fault source_id event_type t =
      parse_id codec "invalid source id" source_id >>= λ source.
      active_rows fault source event_type t
