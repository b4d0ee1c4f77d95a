-- ===== src/Examples/Repositories.antt =====
-- The repositories of sources, summaries and posts on small tables.
use feedium.Prelude.{
  ℕ, suc, ◌≤◌, ◌≡◌, ◌≢◌, refl, Bool, true, false, none, some, Option, List, [], ◌∷◌, map, length,
  arith, ◌==◌, if◌then◌else◌,
}
use feedium.Prelude.Int.{ℤ, pos, negsuc}
use feedium.Errors.{ok, err}
use feedium.Examples.Codecs.{codec, tokens}
use feedium.Source.{
  SourceType, Source, telegram_group, rss, html, cumulative, telegram_group_config,
}
use feedium.Source.Config.{number, text, deserialize_config}
use feedium.Source.Repo
use feedium.Source.Repo.{SourceRow, source_from}
use feedium.Source.Repo.Due.{claim-after_bump}
use feedium.Source.Repo.Listing.{admitted, answer, sources-Listed}
use feedium.Pages.Follow.{Listed}
use feedium.Summary.Ports.{Summary}
use feedium.Summary.Repo as SummaryRepo
use feedium.Summary.Repo.{SummaryRow}
use feedium.Summary.Repo.Newest.{Last, get_last_by_source-Last}
use feedium.Post.{Post}
use feedium.Post.Repo.{post_of}
use feedium.Post.Repo.Writes as PostWrites
use feedium.Post.Repo.Writes.Again.{save_again}

-- Beyond 2^53 the last bit is lost.
abbrev far : ℤ → ℤ
far n = pos 9_007_199_254_740_992

abbrev new_source : Source
new_source = record {
  id = "";
  source_type = telegram_group;
  processing_mode = cumulative;
  config = some (telegram_group_config (negsuc 1_001_234_567_890) "group");
  created_at = 5_000_007;
  updated_at = 5_000_007;
}

abbrev feed : SourceRow
feed = record {
  id = 1;
  source_type = rss;
  config = ("feed_url", text "https://example.org/feed") ∷ [];
  next_summary_at = none;
  created_at = 3;
  updated_at = 3;
}

abbrev group : SourceRow
group = record {
  id = 2;
  source_type = telegram_group;
  config = ("tg_id", number (pos 7)) ∷ ("username", text "group") ∷ [];
  next_summary_at = some 40;
  created_at = 1;
  updated_at = 1;
}

abbrev sources : List SourceRow
sources = feed ∷ group ∷ []

abbrev saved_source : Source
saved_source = record new_source { id = "#iii" }

-- A source with an identifier beyond 2^53 comes back with another one.
abbrev far_source : Source
far_source = record new_source {
  config = some (telegram_group_config (pos 9_007_199_254_740_993) "group");
}

abbrev far_saved : Source
far_saved = record saved_source {
  config = some (telegram_group_config (pos 9_007_199_254_740_992) "group");
}

identifier_lost : (Repo.save codec far none 3 far_source sources).0 ≡ ok far_saved
unfolding Repo.save deserialize_config
identifier_lost = refl

abbrev nobody : ℕ → Bool
nobody i = false

abbrev other_group : SourceRow
other_group = record group { id = 3; next_summary_at = none; created_at = 9 }

abbrev groups : List SourceRow
groups = group ∷ other_group ∷ []

-- At 50 the other group is due; the first was scheduled for 90.
claim-after_bump_example : codec.parse "#iii" ≢ some 2
unfolding Repo.bump_next_summary_at Repo.claim_due_cumulative
claim-after_bump_example =
    claim-after_bump codec none none "#ii" 2 90 groups refl refl none nobody 50
      (source_from codec other_group (telegram_group_config (pos 7) "group")) (omega arith) refl

abbrev read_as : SourceRow → Source
read_as r = elim (Repo.source_of codec r) [ ok x ↦ x | err e ↦ new_source ]

sources-Listed_example :
    (n : ℕ) × Listed
      (λ p. p.items)
      (λ p. p.next_page_token)
      (answer codec tokens none none 0 read_as sources)
      n
      ""
      (map read_as (admitted codec tokens none none 0 read_as sources))
    × (n ≤ suc (length (admitted codec tokens none none 0 read_as sources)))
unfolding Repo.source_of Repo.matches deserialize_config
sources-Listed_example =
    sources-Listed codec tokens none none 0 read_as sources ((refl, tt), (tt, tt))
      (refl, (refl, tt))

abbrev summary : SummaryRow
summary = record {
  id = 1;
  post_id = none;
  source_id = 2;
  text = 65 ∷ [];
  word_count = 1;
  created_at = 10;
}

abbrev summaries : List SummaryRow
summaries =
    summary
    ∷ record summary { id = 2; created_at = 30 }
    ∷ record summary { id = 3; source_id = 4; created_at = 50 }
    ∷ record summary { id = 4; created_at = 20 }
    ∷ []

abbrev newest : Summary
newest = record {
  id = "#ii";
  post_id = none;
  source_id = "#ii";
  text = 65 ∷ [];
  word_count = 1;
  created_at = 30;
}

get_last_by_source-Last_example : Last codec 2 summaries (some newest)
unfolding SummaryRepo.get_last_by_source
get_last_by_source-Last_example =
    get_last_by_source-Last codec 2 summaries none "#ii" (some newest) refl refl

abbrev item : Post
item = record {
  id = "#iiiii";
  source_id = "#";
  source_type = html;
  external_id = "first";
  published_at = 5;
  author = none;
  text = 65 ∷ [];
  metadata = [];
  created_at = 6;
  updated_at = 6;
}

abbrev known_sources : ℕ → Option SourceType
known_sources source = if source == 0 then some html else none

-- The same item, collected again with another text.
abbrev item_again : Post
item_again = record item { id = "#iiiiiii"; text = 66 ∷ []; created_at = 9 }

abbrev item_saved : Post
item_saved = item

save_again_example :
    PostWrites.save codec none none known_sources item_again
      (PostWrites.save codec none none known_sources item []).1
    ≡ (ok (item_saved, false), (PostWrites.save codec none none known_sources item []).1)
unfolding PostWrites.save post_of
save_again_example =
    save_again codec known_sources item item_again refl refl 7 refl none none [] item_saved true
      refl
