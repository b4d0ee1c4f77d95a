-- ===== src/Source/Usecase.antt =====
-- SourceUsecase (internal/biz/source.go), over its repository and the clock.
pub mod Stored
use feedium.Prelude.{
  ℕ, String, Bool, true, false, not, ◌||◌, Option, none, some, List, ltb, str_eq, if◌then◌else◌,
}
use feedium.Prelude.Int.{ℤ, pos, ltb_ℤ}
use feedium.Errors.{Err, sentinel, type_immutable, Result, ok, err}
use feedium.Exec.{Exec, raise, lift, ◌>>=◌, ◌>>◌}
use feedium.Source.{
  SourceType, SourceConfig, Source, ProcessingMode, is_source_type, validate_source_type,
  validate_source_config, processing_mode_for_type,
}

-- An empty type is `none`; the page size is an int.
pub record ListSourcesFilter : Type 0 where
  pub source_type : Option SourceType
  pub page_size : ℤ
  pub page_token : String
  pub processing_mode : Option ProcessingMode

pub record ListSourcesResult : Type 0 where
  pub items : List Source
  pub next_page_token : String

pub record SourcePorts (S : Type 0) : Type 0 where
  pub save : Source → Exec S Source
  pub update : Source → Exec S Source
  pub delete : String → Exec S (Unit {0})
  pub get : String → Exec S Source
  pub list : ListSourcesFilter → Exec S ListSourcesResult
  pub now : S → ℕ × S

abbrev pub clamp_page_size : ℤ → ℤ
clamp_page_size n = if ltb_ℤ n (pos 1) then pos 1 else if ltb_ℤ (pos 500) n then pos 500 else n

module _ {S : Type 0} (ports : SourcePorts S) (parse_request_uri : String → Option Err) where
  abbrev pub reading_now : Exec S ℕ
  reading_now s = let (t, s') = ports.now s in (ok t, s')

  unfoldable pub create : SourceType → Option SourceConfig → Exec S Source
  unfolding validate_source_config
  create source_type config = do
    _ ← lift (validate_source_type source_type)
    _ ← lift (validate_source_config parse_request_uri source_type config)
    created_at ← reading_now
    updated_at ← reading_now
    ports.save (record {
      id = "";
      source_type = source_type;
      processing_mode = processing_mode_for_type source_type;
      config = config;
      created_at = created_at;
      updated_at = updated_at;
    })

  abbrev pub replace : SourceType → Option SourceConfig → Source → Exec S Source
  replace source_type config existing =
      if not (is_source_type existing.source_type source_type)
      then raise (sentinel type_immutable)
      else (do
        _ ← lift (validate_source_config parse_request_uri source_type config)
        now ← reading_now
        ports.update (record existing { config = config; updated_at = now }))

  unfoldable pub update : String → SourceType → Option SourceConfig → Exec S Source
  unfolding validate_source_config
  update id source_type config = ports.get id >>= replace source_type config

  abbrev valid_type : Option SourceType → Result (Unit {0})
  valid_type none = ok tt
  valid_type (some t) = validate_source_type t

  unfoldable pub list : ListSourcesFilter → Exec S ListSourcesResult
  list filter = do
    _ ← lift (valid_type filter.source_type)
    ports.list (record filter { page_size = clamp_page_size filter.page_size })
