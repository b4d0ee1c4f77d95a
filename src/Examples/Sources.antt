-- ===== src/Examples/Sources.antt =====
-- Sources and posts over small repositories.
use feedium.Prelude.{ℕ, suc, String, refl, Option, none, some, [], ◌∷◌}
use feedium.Prelude.Int.{pos}
use feedium.Errors.{Err, ok}
use feedium.Source.{
  Source, telegram_group, rss, cumulative, self_contained, telegram_group_config, rss_config,
  validate_source_config,
}
use feedium.Source.Usecase.{SourcePorts, create, update}
use feedium.Source.Usecase.Stored.{Created, create-Created, Changed, update-Changed}

-- Every URL parses; the table holds one source.
abbrev parses : String → Option Err
parses url = none

abbrev feed : Source
feed = record {
  id = "#i";
  source_type = rss;
  processing_mode = self_contained;
  config = some (rss_config "https://example.org/feed");
  created_at = 1;
  updated_at = 1;
}

abbrev ports : SourcePorts ℕ
ports = record {
  save = λ x s. (ok x, s);
  update = λ x s. (ok x, s);
  delete = λ id s. (ok tt, s);
  get = λ id s. (ok feed, s);
  list = λ f s. (ok (record { items = feed ∷ []; next_page_token = "" }), s);
  now = λ s. (s, suc s);
}

abbrev group : Source
group = record {
  id = "";
  source_type = telegram_group;
  processing_mode = cumulative;
  config = some (telegram_group_config (pos 7) "readers");
  created_at = 5;
  updated_at = 6;
}

create-Created_example : Created ports parses telegram_group group
unfolding create validate_source_config
create-Created_example =
    create-Created ports parses telegram_group (some (telegram_group_config (pos 7) "readers")) 5
      group refl

update-Changed_example :
    Changed ports parses "#i" rss
      (record feed { config = some (rss_config "https://example.org/all"); updated_at = 5 })
unfolding update validate_source_config
update-Changed_example =
    update-Changed ports parses "#i" rss (some (rss_config "https://example.org/all")) 5
      (record feed { config = some (rss_config "https://example.org/all"); updated_at = 5 }) refl
