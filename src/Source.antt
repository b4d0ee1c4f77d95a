-- ===== src/Source.antt =====
-- Sources (internal/biz/source.go): their types and configurations, the validation of both, and the
-- processing mode of a type.
pub mod Config
pub mod Usecase
pub mod Repo
use Prim.Native.String.{◌++◌ as str_append}
use feedium.Prelude.{ℕ, zero, String, Bool, true, false, Option, none, some, str_eq, if◌then◌else◌}
use feedium.Prelude.Int.{ℤ, pos}
use feedium.Errors.{
  Err, error_text, sentinel, detail, invalid_source_type, invalid_config, Result, ok, err,
}

-- The constants of a string type, and any other text.
pub data SourceType : Type 0 where
  telegram_channel telegram_group rss html : SourceType
  unknown_source : String → SourceType

pub data ProcessingMode : Type 0 where
  self_contained cumulative : ProcessingMode

-- SourceConfig: pointers to the four configurations; a nil interface is `none` where one stands.
pub data SourceConfig : Type 0 where
  telegram_channel_config : ℤ → String → SourceConfig
  telegram_group_config : ℤ → String → SourceConfig
  rss_config : String → SourceConfig
  html_config : String → SourceConfig

pub record Source : Type 0 where
  pub id : String
  pub source_type : SourceType
  pub processing_mode : ProcessingMode
  pub config : Option SourceConfig
  pub created_at : ℕ
  pub updated_at : ℕ

abbrev pub is_source_type : SourceType → SourceType → Bool
is_source_type telegram_channel telegram_channel = true
is_source_type telegram_group telegram_group = true
is_source_type rss rss = true
is_source_type html html = true
is_source_type (unknown_source a) (unknown_source b) = str_eq a b
is_source_type _ _ = false

abbrev pub validate_source_type : SourceType → Result (Unit {0})
validate_source_type (unknown_source t) = err (sentinel invalid_source_type)
validate_source_type _ = ok tt

abbrev pub processing_mode_for_type : SourceType → ProcessingMode
processing_mode_for_type telegram_group = cumulative
processing_mode_for_type _ = self_contained

abbrev invalid : String → Err
invalid m = detail (sentinel invalid_config) m

abbrev pub is_zero : ℤ → Bool
is_zero (pos zero) = true
is_zero _ = false

-- net/url's ParseRequestURI, by the error that it returns.
module _ (parse_request_uri : String → Option Err) where
  abbrev pub parsed_uri : String → Option Err → Result (Unit {0})
  parsed_uri m none = ok tt
  parsed_uri m (some e) = err (invalid (str_append m (str_append ": " (error_text e))))

  abbrev validate_url : String → String → String → Result (Unit {0})
  validate_url url required bad =
      if str_eq url "" then err (invalid required) else parsed_uri bad (parse_request_uri url)

  abbrev validate_tg_id : ℤ → Result (Unit {0})
  validate_tg_id id = if is_zero id then err (invalid "tg_id cannot be 0") else ok tt

  abbrev pub validate_typed : SourceType → SourceConfig → Result (Unit {0})
  validate_typed telegram_channel (telegram_channel_config id user) = validate_tg_id id
  validate_typed telegram_channel cfg = err (invalid "expected TelegramChannelConfig")
  validate_typed telegram_group (telegram_group_config id user) = validate_tg_id id
  validate_typed telegram_group cfg = err (invalid "expected TelegramGroupConfig")
  validate_typed rss (rss_config url) =
      validate_url url "feed_url is required" "feed_url is invalid URL"
  validate_typed rss cfg = err (invalid "expected RSSConfig")
  validate_typed html (html_config url) = validate_url url "url is required" "url is invalid URL"
  validate_typed html cfg = err (invalid "expected HTMLConfig")
  validate_typed (unknown_source t) cfg = err (sentinel invalid_source_type)

  unfoldable pub validate_source_config : SourceType → Option SourceConfig → Result (Unit {0})
  unfolding error_text
  validate_source_config t none = err (invalid "config is nil")
  validate_source_config t (some cfg) = validate_typed t cfg
