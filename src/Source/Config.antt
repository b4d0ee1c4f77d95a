-- ===== src/Source/Config.antt =====
-- The configuration of a source as a JSON column (serializeConfig and deserializeConfig of
-- internal/data/source_repo.go). Marshalling and unmarshalling into map[string]any makes each number a
-- float64, which holds the integers up to 2^53 exactly; what becomes of an integer beyond that is a
-- parameter.
use feedium.Prelude.{
  ◌^◌, String, Bool, true, false, Option, none, some, List, [], ◌∷◌, str_eq, leb, ltb,
  if◌then◌else◌,
}
use feedium.Prelude.Int.{ℤ, pos, negsuc}
use feedium.Errors.{opaque, wrap, Result, ok, err, ◌>>=◌}
use feedium.Source.{
  SourceType, telegram_channel, telegram_group, rss, html, unknown_source, SourceConfig,
  telegram_channel_config, telegram_group_config, rss_config, html_config,
}

-- The values that the configurations have.
pub data Json : Type 0 where
  number : ℤ → Json
  text : String → Json

-- map[string]any
abbrev pub ConfigMap : Type 0
ConfigMap = List (String × Json)

-- At most 2^53 in size.
abbrev pub is_exact : ℤ → Bool
is_exact (pos n) = leb n (2 ^ 53)
is_exact (negsuc n) = ltb n (2 ^ 53)

abbrev pub is_int64 : ℤ → Bool
is_int64 (pos n) = ltb n (2 ^ 63)
is_int64 (negsuc n) = ltb n (2 ^ 63)

abbrev pub as_float64 : (ℤ → ℤ) → ℤ → ℤ
as_float64 far n = if is_exact n then n else far n

abbrev tg_map : (ℤ → ℤ) → ℤ → String → ConfigMap
tg_map far id user = ("tg_id", number (as_float64 far id)) ∷ ("username", text user) ∷ []

-- A nil interface is null in JSON, which leaves the map nil.
unfoldable pub serialize_config : (ℤ → ℤ) → Option SourceConfig → ConfigMap
serialize_config far none = []
serialize_config far (some (telegram_channel_config id user)) = tg_map far id user
serialize_config far (some (telegram_group_config id user)) = tg_map far id user
serialize_config far (some (rss_config url)) = ("feed_url", text url) ∷ []
serialize_config far (some (html_config url)) = ("url", text url) ∷ []

abbrev pub lookup : String → ConfigMap → Option Json
lookup key [] = none
lookup key ((k, v) ∷ kvs) = if str_eq k key then some v else lookup key kvs

-- A field that is missing keeps its zero value; one of another kind, or a number that does not fit,
-- is an error of json.Unmarshal.
abbrev pub int_value : Option Json → Result ℤ
int_value none = ok (pos 0)
int_value (some (text s)) = err (opaque "json: cannot unmarshal string into Go struct field")
int_value (some (number n)) =
    if is_int64 n then ok n else err (opaque "json: cannot unmarshal number into Go struct field")

abbrev pub text_value : Option Json → Result String
text_value none = ok ""
text_value (some (text s)) = ok s
text_value (some (number n)) = err (opaque "json: cannot unmarshal number into Go struct field")

abbrev pub unmarshalled : String → Result SourceConfig → Result SourceConfig
unmarshalled what (ok cfg) = ok cfg
unmarshalled what (err e) = err (wrap what e)

abbrev pub tg_value : (ℤ → String → SourceConfig) → ConfigMap → Result SourceConfig
tg_value make m = do
  id ← int_value (lookup "tg_id" m)
  user ← text_value (lookup "username" m)
  ok (make id user)

abbrev pub url_value : String → (String → SourceConfig) → ConfigMap → Result SourceConfig
url_value key make m = text_value (lookup key m) >>= λ url. ok (make url)

unfoldable pub deserialize_config : SourceType → ConfigMap → Result SourceConfig
deserialize_config telegram_channel m =
    unmarshalled "unmarshal telegram channel config"
      (tg_value (λ id user. telegram_channel_config id user) m)
deserialize_config telegram_group m =
    unmarshalled "unmarshal telegram group config"
      (tg_value (λ id user. telegram_group_config id user) m)
deserialize_config rss m =
    unmarshalled "unmarshal rss config" (url_value "feed_url" (λ url. rss_config url) m)
deserialize_config html m =
    unmarshalled "unmarshal html config" (url_value "url" (λ url. html_config url) m)
deserialize_config (unknown_source t) m = err (opaque "unknown source type")

-- The type that a configuration is for, and its number, if it has one.
abbrev pub fits : SourceType → SourceConfig → Bool
fits telegram_channel (telegram_channel_config id user) = is_exact id
fits telegram_group (telegram_group_config id user) = is_exact id
fits rss (rss_config url) = true
fits html (html_config url) = true
fits _ _ = false
