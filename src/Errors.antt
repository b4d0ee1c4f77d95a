-- ===== src/Errors.antt =====
-- Errors: the sentinels of internal/biz and of the standard library that the code tests with
-- errors.Is, Go's error values built from them by fmt.Errorf, and fallible results.
use Prim.Native.String.{◌++◌ as str_append}
use feedium.Prelude.{ℕ, String, Bool, false, ◌==◌, ◌||◌}

-- The `errors.New` values.
pub data Sentinel : Type 0 where
  context_canceled deadline_exceeded no_rows : Sentinel
  summary_not_found summary_event_not_found summary_already_processing : Sentinel
  summarize_self_contained_src summary_validation lease_lost no_event_available : Sentinel
  no_source_due summary_event_expired summary_source_no_posts : Sentinel
  unknown_summary_prompt_mode : Sentinel
  source_not_found invalid_source_type invalid_config type_immutable : Sentinel
  post_not_found post_invalid_argument post_source_not_found post_already_exists : Sentinel
  score_validation score_event_not_found no_score_event_available : Sentinel
  post_embedding_not_found interest_not_found interest_validation : Sentinel
  invalid_signal invalid_threshold : Sentinel

abbrev pub sentinel_code : Sentinel → ℕ
sentinel_code context_canceled = 0
sentinel_code deadline_exceeded = 1
sentinel_code no_rows = 2
sentinel_code summary_not_found = 3
sentinel_code summary_event_not_found = 4
sentinel_code summary_already_processing = 5
sentinel_code summarize_self_contained_src = 6
sentinel_code summary_validation = 7
sentinel_code lease_lost = 8
sentinel_code no_event_available = 9
sentinel_code no_source_due = 10
sentinel_code summary_event_expired = 11
sentinel_code summary_source_no_posts = 12
sentinel_code unknown_summary_prompt_mode = 13
sentinel_code source_not_found = 14
sentinel_code invalid_source_type = 15
sentinel_code invalid_config = 16
sentinel_code type_immutable = 17
sentinel_code post_not_found = 18
sentinel_code post_invalid_argument = 19
sentinel_code post_source_not_found = 20
sentinel_code post_already_exists = 21
sentinel_code score_validation = 22
sentinel_code score_event_not_found = 23
sentinel_code no_score_event_available = 24
sentinel_code post_embedding_not_found = 25
sentinel_code interest_not_found = 26
sentinel_code interest_validation = 27
sentinel_code invalid_signal = 28
sentinel_code invalid_threshold = 29

-- A sentinel; an error of a driver or a provider that matches no sentinel; `"msg: %w"`; `"%w: msg"`;
-- and two errors, each after a text.
pub data Err : Type 0 where
  sentinel : Sentinel → Err
  opaque : String → Err
  wrap : String → Err → Err
  detail : Err → String → Err
  joined : String → Err → String → Err → Err

-- The texts that the sentinels are made with.
abbrev pub sentinel_text : Sentinel → String
sentinel_text context_canceled = "context canceled"
sentinel_text deadline_exceeded = "context deadline exceeded"
sentinel_text no_rows = "sql: no rows in result set"
sentinel_text summary_not_found = "summary not found"
sentinel_text summary_event_not_found = "summary event not found"
sentinel_text summary_already_processing = "summary already processing"
sentinel_text summarize_self_contained_src = "cannot summarize self-contained source"
sentinel_text summary_validation = "summary validation failed"
sentinel_text lease_lost = "lease lost"
sentinel_text no_event_available = "no event available"
sentinel_text no_source_due = "no source due"
sentinel_text summary_event_expired = "summary event expired"
sentinel_text summary_source_no_posts = "summary source has no new posts"
sentinel_text unknown_summary_prompt_mode = "biz: unknown summary prompt mode"
sentinel_text source_not_found = "source not found"
sentinel_text invalid_source_type = "invalid source type"
sentinel_text invalid_config = "invalid config"
sentinel_text type_immutable = "source type cannot be changed"
sentinel_text post_not_found = "post not found"
sentinel_text post_invalid_argument = "post invalid argument"
sentinel_text post_source_not_found = "post source not found"
sentinel_text post_already_exists = "post already exists"
sentinel_text score_validation = "score validation failed"
sentinel_text score_event_not_found = "score event not found"
sentinel_text no_score_event_available = "no score event available"
sentinel_text post_embedding_not_found = "post embedding not found"
sentinel_text interest_not_found = "interest not found"
sentinel_text interest_validation = "interest validation failed"
sentinel_text invalid_signal = "invalid reaction signal"
sentinel_text invalid_threshold = "invalid score threshold"

-- err.Error()
unfoldable pub error_text : Err → String
error_text (sentinel s) = sentinel_text s
error_text (opaque m) = m
error_text (wrap m e) = str_append m (str_append ": " (error_text e))
error_text (detail e m) = str_append (error_text e) (str_append ": " m)
error_text (joined m e n f) = str_append m (str_append (error_text e) (str_append n (error_text f)))

-- errors.Is(err, target)
unfoldable pub is : Err → Sentinel → Bool
is (sentinel s) t = sentinel_code s == sentinel_code t
is (opaque m) t = false
is (wrap m e) t = is e t
is (detail e m) t = is e t
is (joined m e n f) t = is e t || is f t

pub data Result {ℓ} (A : Type ℓ) : Type ℓ where
  ok : A → Result A
  err : Err → Result A

-- `a, err := r; if err != nil { return err }; ...`
infixl 10 ◌>>=◌
abbrev pub ◌>>=◌ {ℓ} : {A B : Type ℓ} → Result A → (A → Result B) → Result B
err e >>= next = err e
ok a >>= next = next a
