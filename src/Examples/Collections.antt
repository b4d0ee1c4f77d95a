-- ===== src/Examples/Collections.antt =====
-- Two collections of the same items of a page, one of which has no text.
use feedium.Prelude.{
  ℕ, ◌≡◌, refl, String, none, some, Option, List, [], ◌∷◌, ◌==◌, length, any, inr, true,
  if◌then◌else◌,
}
use feedium.Errors.{Result, ok}
use feedium.Examples.Codecs.{codec, tokens}
use feedium.Text.{is_blank, space_width}
use feedium.Source.{SourceType, Source, html, self_contained, html_config}
use feedium.Outbox.Event.{new_summary_event}
use feedium.Outbox.Repo
use feedium.Tx.{in_tx}
use feedium.Post.{Post, validate_create_post}
use feedium.Post.Repo.{post_of}
use feedium.Post.Repo.Writes
use feedium.Post.Usecase.{create}
use feedium.Collect.{CollectedItem, request_of, filter_text_items, collect_items}
use feedium.Collect.Twice.{Created}
use feedium.Collect.Stored.{Collected, tables, ports}
use feedium.Collect.Again.{collect_twice}
use feedium.Collect.Known.{events, posts, ports-Known, ports-Contract}
use feedium.Post.Usecase.Events.{create-outbox}

abbrev page : Source
page = record {
  id = "#i";
  source_type = html;
  processing_mode = self_contained;
  config = some (html_config "https://example.org");
  created_at = 0;
  updated_at = 0;
}

abbrev find_source : String → Result Source
find_source id = ok page

abbrev types : ℕ → Option SourceType
types source = if source == 1 then some html else none

abbrev item : String → List ℕ → CollectedItem
item external_id text = record {
  external_id = external_id;
  published_at = some 5;
  author = none;
  text = text;
  metadata = none;
}

-- The second has no text, and the third repeats the first.
abbrev items : List CollectedItem
items = item "first" (65 ∷ []) ∷ item "image" [] ∷ item "first" (66 ∷ []) ∷ []

abbrev start : Collected
start = record { posts = []; events = []; tick = 7 }

abbrev step : CollectedItem → Collected → Result Post × Collected
step x s = create codec (ports codec find_source types tokens) "#i" (request_of x) s

abbrev once : Collected
once = (step (item "first" (65 ∷ [])) start).1

abbrev twice : Collected
twice = (step (item "first" (66 ∷ [])) once).1

abbrev later : Collected
later = record twice { tick = 90 }

abbrev saved : Post
saved = record {
  id = "#iiiiiii";
  source_id = "#i";
  source_type = html;
  external_id = "first";
  published_at = 5;
  author = none;
  text = 65 ∷ [];
  metadata = [];
  created_at = 7;
  updated_at = 7;
}

one_event : length twice.events ≡ 1
unfolding create in_tx validate_create_post is_blank space_width new_summary_event Writes.save
    Repo.save post_of
one_event = refl

created :
    Created tables
      (create codec (ports codec find_source types tokens))
      "#i"
      (filter_text_items items)
      start
      twice
unfolding create in_tx validate_create_post is_blank space_width new_summary_event Writes.save
    Repo.save post_of filter_text_items
created =
    Created.next (item "first" (65 ∷ [])) (item "first" (66 ∷ []) ∷ []) saved start once twice refl
      (Created.next (item "first" (66 ∷ [])) [] saved once twice twice refl (Created.done twice))

collect_twice_example :
    ((collect_items (create codec (ports codec find_source types tokens)) page items later).0
      ≡ ok tt)
    × (tables
          (collect_items (create codec (ports codec find_source types tokens)) page items later).1
        ≡ tables twice)
collect_twice_example =
    collect_twice codec find_source types tokens page items start twice later created refl

has_first : any (Writes.has_key 1 "first") later.posts ≡ true
unfolding create in_tx validate_create_post is_blank space_width new_summary_event Writes.save
    Repo.save post_of
has_first = refl

-- A third creation of the first item, whose post the table has.
create-outbox_example :
    events
      (create codec
        (ports codec find_source types tokens)
        "#i"
        (request_of (item "first" (65 ∷ [])))
        later).1
    ≡ events later
create-outbox_example =
    create-outbox codec (ports codec find_source types tokens) events posts
      (ports-Contract codec types find_source tokens) "#i" (request_of (item "first" (65 ∷ [])))
      later
      (inr (
        ports-Known codec types find_source tokens "#i" (request_of (item "first" (65 ∷ []))) later
          1 refl has_first))
