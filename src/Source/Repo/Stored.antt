-- ===== src/Source/Repo/Stored.antt =====
-- What Get answers after Save (internal/data/source_repo.go), and the configuration on its way through
-- JSON.
use feedium.Prelude.{ℕ, ◌≡◌, true, none, some, List}
use feedium.Prelude.Int.{ℤ}
use feedium.Errors.{Result, ok}
use feedium.Uuid.{UuidCodec}
use feedium.Outbox.Repo.{microseconds}
use feedium.Source.{SourceConfig, Source, processing_mode_for_type}
use feedium.Source.Config.{fits}
use feedium.Source.Repo.{SourceRow, source_from, get, new_row, nanoseconds}

module _ (far : ℤ → ℤ) where
  module _ (codec : UuidCodec) where
    -- The source that the row of a source stands for.
    abbrev pub stored_as : Source → SourceConfig → ℕ → Source
    stored_as x cfg id = source_from codec (new_row codec far x id) cfg

    -- A source with its times cut to the microsecond.
    abbrev pub to_microseconds : Source → Source
    to_microseconds y = record y {
      created_at = nanoseconds (microseconds y.created_at);
      updated_at = nanoseconds (microseconds y.updated_at);
    }

    abbrev answered_as : Source → SourceConfig → ℕ → Source
    answered_as x cfg id = record (stored_as x cfg id) {
      created_at = x.created_at;
      updated_at = x.updated_at;
    }

    -- What Save was given, but for the identifier.
    pub record Kept (x : Source) (cfg : SourceConfig) (y : Source) : Type 0 where
      pub config : y.config ≡ some cfg
      pub source_type : y.source_type ≡ x.source_type
      pub mode : y.processing_mode ≡ processing_mode_for_type x.source_type
      pub created_at : y.created_at ≡ x.created_at
      pub updated_at : y.updated_at ≡ x.updated_at

    module _ (x : Source) (cfg : SourceConfig) (t : List SourceRow) (same : x.config ≡ some cfg)
        (h : fits x.source_type cfg ≡ true) where
      Reads : Result Source × List SourceRow → Type 0
      Reads out =
          (y : Source)
          → out.0 ≡ ok y
          → (get codec none y.id out.1 ≡ ok (to_microseconds y)) × Kept x cfg y
