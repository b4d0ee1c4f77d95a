-- ===== src/Outbox/Event.antt =====
-- Summary events (internal/biz/summary.go) and the rows that hold them (table summary_events,
-- migrations/20260415100000 and 20260423100000). Times are in microseconds, the table's resolution.
use feedium.Prelude.{
  ℕ, String, Bool, true, false, ◌||◌, ◌≡◌, refl, ap, Option, none, some, ◌==◌, str_eq, str_eq_iff,
  arith,
}

-- Two constants of a string type, and any other text.
pub data SummaryEventType : Type 0 where
  summarize_post summarize_source : SummaryEventType
  unknown_type : String → SummaryEventType

pub data SummaryEventStatus : Type 0 where
  pending processing completed failed expired : SummaryEventStatus

pub record SummaryEvent : Type 0 where
  pub id : String
  pub post_id : Option String
  pub source_id : String
  pub event_type : SummaryEventType
  pub status : SummaryEventStatus
  pub summary_id : Option String
  pub error : Option String
  pub created_at : ℕ
  pub processed_at : Option ℕ
  pub attempt_count : ℕ

-- The readings of uuid.NewV7 and time.Now come as arguments.
unfoldable pub new_summary_event :
    String → ℕ → SummaryEventType → String → Option String → SummaryEvent
new_summary_event id now event_type source_id post_id = record {
  id = id;
  post_id = post_id;
  source_id = source_id;
  event_type = event_type;
  status = pending;
  summary_id = none;
  error = none;
  created_at = now;
  processed_at = none;
  attempt_count = 0;
}

pub record Row : Type 0 where
  pub id : ℕ
  pub post_id : Option ℕ
  pub source_id : ℕ
  pub event_type : SummaryEventType
  pub status : SummaryEventStatus
  pub summary_id : Option ℕ
  pub error : Option String
  pub created_at : ℕ
  pub processed_at : Option ℕ
  pub locked_until : Option ℕ
  pub locked_by : Option String
  pub attempt_count : ℕ
  pub next_attempt_at : Option ℕ

abbrev pub is_type : SummaryEventType → SummaryEventType → Bool
is_type summarize_post summarize_post = true
is_type summarize_source summarize_source = true
is_type (unknown_type a) (unknown_type b) = str_eq a b
is_type _ _ = false

pub is_type-eq : (a b : SummaryEventType) → is_type a b ≡ true → a ≡ b
is_type-eq summarize_post summarize_post h = refl
is_type-eq summarize_source summarize_source h = refl
is_type-eq (unknown_type a) (unknown_type b) h = ap unknown_type ((str_eq_iff a b).0 h)
is_type-eq summarize_post summarize_source h = cc
is_type-eq summarize_post (unknown_type b) h = cc
is_type-eq summarize_source summarize_post h = cc
is_type-eq summarize_source (unknown_type b) h = cc
is_type-eq (unknown_type a) summarize_post h = cc
is_type-eq (unknown_type a) summarize_source h = cc

abbrev pub is_pending : SummaryEventStatus → Bool
is_pending pending = true
is_pending _ = false

abbrev pub is_processing : SummaryEventStatus → Bool
is_processing processing = true
is_processing _ = false

-- status IN ('pending', 'processing')
abbrev pub is_active : SummaryEventStatus → Bool
is_active s = is_pending s || is_processing s

-- completed, failed or expired
abbrev pub is_terminal : SummaryEventStatus → Bool
is_terminal completed = true
is_terminal failed = true
is_terminal expired = true
is_terminal _ = false

-- A comparison with NULL is not true.
abbrev pub is_some_eq : Option ℕ → ℕ → Bool
is_some_eq none n = false
is_some_eq (some m) n = m == n

abbrev pub is_locked_by : Option String → String → Bool
is_locked_by none w = false
is_locked_by (some v) w = str_eq v w

pub is_some_eq-eq : (o : Option ℕ) (n : ℕ) → is_some_eq o n ≡ true → o ≡ some n
is_some_eq-eq none n h = cc
is_some_eq-eq (some m) n h = ground arith
