-- ===== src/Outbox/Repo/Mapping.antt =====
-- Rows and events (internal/data/summary_outbox_repo.go): the identifiers parsed, in the order of the
-- source, and a row read as an event.
use mathlib.Core.Option
use feedium.Prelude.{ℕ, String, Option, none, some}
use feedium.Errors.{opaque, wrap, Result, ok, err, ◌>>=◌}
use feedium.Uuid.{UuidCodec}
use feedium.Outbox.Event.{SummaryEvent, Row}

module _ (codec : UuidCodec) where
  open codec use {parse, to_string}

  abbrev pub parse_id : String → String → Result ℕ
  parse_id what s = elim (parse s) [
    | none ↦ err (wrap what (opaque "invalid UUID"))
    | some u ↦ ok u
  ]

  abbrev pub parse_optional : String → Option String → Result (Option ℕ)
  parse_optional what none = ok none
  parse_optional what (some s) = parse_id what s >>= λ u. ok (some u)

  -- mapEntToDomain and scanSummaryEvent
  unfoldable pub event_of : Row → SummaryEvent
  event_of r = record {
    id = to_string r.id;
    post_id = Option.map to_string r.post_id;
    source_id = to_string r.source_id;
    event_type = r.event_type;
    status = r.status;
    summary_id = Option.map to_string r.summary_id;
    error = r.error;
    created_at = r.created_at;
    processed_at = r.processed_at;
    attempt_count = r.attempt_count;
  }

  unfoldable pub new_row : SummaryEvent → ℕ → ℕ → Option ℕ → Row
  new_row e id source_id post_id = record {
    id = id;
    post_id = post_id;
    source_id = source_id;
    event_type = e.event_type;
    status = e.status;
    summary_id = none;
    error = none;
    created_at = e.created_at;
    processed_at = none;
    locked_until = none;
    locked_by = none;
    attempt_count = 0;
    next_attempt_at = none;
  }

  -- The three identifiers, parsed in the order of the source.
  unfoldable pub parse_event : SummaryEvent → Result Row
  unfolding new_row
  parse_event e = do
    id ← parse_id "invalid event id" e.id
    source_id ← parse_id "invalid source id" e.source_id
    post_id ← parse_optional "invalid post id" e.post_id
    ok (new_row e id source_id post_id)
