-- ===== src/Post/Repo/Writes.antt =====
-- The writing side of internal/data/post_repo.go on the table posts: Save, Update and Delete.
pub mod Again
use feedium.Prelude.{
  ℕ, String, Bool, true, false, not, ◌&&◌, ◌==◌, Option, none, some, List, [], ◌∷◌, ◌++◌, any,
  select, str_eq, if◌then◌else◌,
}
use feedium.Errors.{
  Err, sentinel, opaque, wrap, post_not_found, post_source_not_found, post_already_exists, Result,
  ok, err, ◌>>=◌,
}
use feedium.Uuid.{UuidCodec}
use feedium.Outbox.Table.{find, update_where}
use feedium.Outbox.Repo.{parse_id, with_parsed}
use feedium.Source.{SourceType}
use feedium.Post.{Post}
use feedium.Post.Repo.{PostRow, post_of}

-- The unique index of (source_id, external_id).
abbrev pub has_key : ℕ → String → PostRow → Bool
has_key source external r = r.source_id == source && str_eq r.external_id external

abbrev pub duplicate : Err
duplicate = opaque "duplicate key value violates unique constraint"

-- INSERT ... ON CONFLICT (source_id, external_id) DO NOTHING: whether it has made the row. The table
-- sources gives the type of the source, if there is one.
abbrev pub referencing :
    Option SourceType → (SourceType → PostRow) → List PostRow → Result Bool × List PostRow
referencing none n t = (err (sentinel post_source_not_found), t)
referencing (some source_type) n t = (ok true, t ++ n source_type ∷ [])

abbrev pub insert :
    Option Err
    → (ℕ → Option SourceType)
    → ℕ
    → ℕ
    → String
    → (SourceType → PostRow)
    → List PostRow
    → Result Bool × List PostRow
insert (some e) sources id source external n t = (err (wrap "save post" e), t)
insert none sources id source external n t =
    if any (has_key source external) t
    then (ok false, t)
    else if any (λ r. r.id == id) t
    then (err (wrap "save post" duplicate), t)
    else referencing (sources source) n t

module _ (codec : UuidCodec) where
  abbrev pub new_row : Post → ℕ → ℕ → SourceType → PostRow
  new_row x id source source_type = record {
    id = id;
    source_id = source;
    source_type = source_type;
    external_id = x.external_id;
    published_at = x.published_at;
    author = x.author;
    text = x.text;
    metadata = x.metadata;
    created_at = x.created_at;
    updated_at = x.updated_at;
  }

  -- getBySourceAndExternalID
  abbrev pub fetched : Option Err → Option PostRow → Result Post
  fetched (some e) o = err (wrap "fetch existing post" e)
  fetched none none = err (sentinel post_not_found)
  fetched none (some r) = ok (post_of codec r)

  abbrev pub with_created : Bool → Result Post → Result (Post × Bool)
  with_created created (err e) = err e
  with_created created (ok saved) = ok (saved, created)

  abbrev pub read_back :
      Option Err → ℕ → String → Result Bool × List PostRow → Result (Post × Bool) × List PostRow
  read_back fault source external (err e, t) = (err e, t)
  read_back fault source external (ok created, t) =
      (with_created created (fetched fault (find (has_key source external) t)), t)

  abbrev pub save_row :
      Option Err
      → Option Err
      → (ℕ → Option SourceType)
      → Post
      → ℕ
      → ℕ
      → List PostRow
      → Result (Post × Bool) × List PostRow
  save_row fault read_fault sources x source id t =
      read_back read_fault source x.external_id
        (insert fault sources id source x.external_id (new_row x id source) t)

  unfoldable pub save :
      Option Err
      → Option Err
      → (ℕ → Option SourceType)
      → Post
      → List PostRow
      → Result (Post × Bool) × List PostRow
  save fault read_fault sources x t =
      with_parsed (parse_id codec "invalid source id" x.source_id)
        (λ source.
          with_parsed (parse_id codec "invalid post id" x.id)
            (λ id. save_row fault read_fault sources x source id t) t)
        t

  abbrev pub set_post : Post → PostRow → PostRow
  set_post x r = record r {
    external_id = x.external_id;
    published_at = x.published_at;
    author = x.author;
    text = x.text;
    metadata = x.metadata;
    updated_at = x.updated_at;
  }

  abbrev pub updated : Option Err → Option PostRow → Result Post
  updated source_fault none = err (sentinel post_not_found)
  updated none (some r) = ok (post_of codec r)
  updated (some e) (some r) = err (wrap "get source for post" e)

  -- Another post of the source with the external id.
  abbrev pub clashes : Option PostRow → ℕ → String → List PostRow → Bool
  clashes none id external t = false
  clashes (some r) id external t = any (λ q. has_key r.source_id external q && not (q.id == id)) t

  abbrev pub update_row :
      Option Err → Option Err → Post → ℕ → List PostRow → Result Post × List PostRow
  update_row (some e) source_fault x id t = (err (wrap "update post" e), t)
  update_row none source_fault x id t =
      if clashes (find (λ r. r.id == id) t) id x.external_id t
      then (err (sentinel post_already_exists), t)
      else (let t' = update_where (λ r. r.id == id) (set_post x) t in
          (updated source_fault (find (λ r. r.id == id) t'), t'))

  unfoldable pub update : Option Err → Option Err → Post → List PostRow → Result Post × List PostRow
  update fault source_fault x t =
      with_parsed (parse_id codec "invalid post id" x.id)
        (λ id. update_row fault source_fault x id t) t

  abbrev pub delete_row : Option Err → ℕ → List PostRow → Result (Unit {0}) × List PostRow
  delete_row (some e) id t = (err (wrap "delete post" e), t)
  delete_row none id t =
      if any (λ r. r.id == id) t
      then (ok tt, select (λ r. not (r.id == id)) t)
      else (err (sentinel post_not_found), t)

  unfoldable pub delete : Option Err → String → List PostRow → Result (Unit {0}) × List PostRow
  delete fault id t =
      with_parsed (parse_id codec "invalid post id" id) (λ i. delete_row fault i t) t
