-- ===== src/Collect.antt =====
-- CollectUsecase (internal/biz/collect.go): fetched items become posts.
pub mod Twice
pub mod Stored
pub mod Again
pub mod Known
use feedium.Prelude.{ℕ, String, Bool, not, Option, List, [], ◌∷◌, select, if◌then◌else◌}
use feedium.Errors.{Err, is, wrap, post_source_not_found, Result, ok, err}
use feedium.Exec.{Exec, wrapping, ◌>>=◌}
use feedium.Text.{Text, is_blank}
use feedium.Source.{Source}
use feedium.Post.{Post}
use feedium.Post.Usecase.{PostRequest}

-- A missing time is the zero time, a missing map is nil.
pub record CollectedItem : Type 0 where
  pub external_id : String
  pub published_at : Option ℕ
  pub author : Option String
  pub text : Text
  pub metadata : Option (List (String × String))

-- The arguments of PostCreator.Create, after the identifier of the source.
abbrev pub request_of : CollectedItem → PostRequest
request_of item = record {
  external_id = item.external_id;
  text = item.text;
  published_at = item.published_at;
  author = item.author;
  metadata = item.metadata;
}

unfoldable pub filter_text_items : List CollectedItem → List CollectedItem
unfolding is_blank
filter_text_items items = select (λ item. not (is_blank item.text)) items

module _ {S : Type 0} (create : String → PostRequest → Exec S Post) where
  -- What the loop does with the answer to one item.
  abbrev pub after_item : Exec S (Unit {0}) → Result Post × S → Result (Unit {0}) × S
  after_item next (ok saved, s) = next s
  after_item next (err e, s) =
      let skipped = next s in
      if is e post_source_not_found then skipped else (err (wrap "create post for source" e), s)

  abbrev pub create_all : String → List CollectedItem → Exec S (Unit {0})
  create_all source_id [] s = (ok tt, s)
  create_all source_id (item ∷ items) s =
      after_item (create_all source_id items) (create source_id (request_of item) s)

  unfoldable pub collect_items : Source → List CollectedItem → Exec S (Unit {0})
  unfolding filter_text_items
  collect_items source items = create_all source.id (filter_text_items items)

  unfoldable pub collect_source :
      Source → (Source → Exec S (List CollectedItem)) → Exec S (Unit {0})
  unfolding collect_items
  collect_source source fetch = wrapping "fetch source" (fetch source) >>= collect_items source
