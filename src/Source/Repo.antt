-- ===== src/Source/Repo.antt =====
-- sourceRepo (internal/data/source_repo.go) on the table sources. Its next_summary_at is read and set by
-- the scheduler of cumulative sources. The times of a source are in nanoseconds; its row has them in
-- microseconds.
pub mod Stored
pub mod Listing
pub mod Due
use feedium.Prelude.{
  ℕ, suc, ◌*◌, String, Bool, true, false, ◌&&◌, ◌||◌, not, ◌==◌, Option, none, some, List, [], ◌∷◌,
  ◌++◌, any, take, select, leb, str_eq, if◌then◌else◌,
}
use feedium.Prelude.Int.{ℤ}
use feedium.Errors.{
  Err, sentinel, opaque, detail, wrap, source_not_found, no_source_due, invalid_config, Result, ok,
  err, ◌>>=◌,
}
use feedium.Uuid.{UuidCodec}
use feedium.Outbox.Table.{find, update_where, first_by}
use feedium.Outbox.Repo.{parse_id, with_parsed, microseconds}
use feedium.Outbox.Statements.{is_due, coalesce}
use feedium.Pages.{sort, TokenCodec, parse_page_token, fetch, next_token}
use feedium.Source.{
  SourceType, telegram_channel, telegram_group, rss, html, ProcessingMode, self_contained,
  cumulative, SourceConfig, Source, is_source_type, validate_source_type, processing_mode_for_type,
}
use feedium.Source.Config.{ConfigMap, serialize_config, deserialize_config}
use feedium.Source.Usecase.{ListSourcesResult}

pub record SourceRow : Type 0 where
  pub id : ℕ
  pub source_type : SourceType
  pub config : ConfigMap
  pub next_summary_at : Option ℕ
  pub created_at : ℕ
  pub updated_at : ℕ

abbrev pub nanoseconds : ℕ → ℕ
nanoseconds n = n * 1000

abbrev pub created_at : SourceRow → ℕ
created_at r = r.created_at

abbrev pub row_id : SourceRow → ℕ
row_id r = r.id

abbrev pub invalid_token : Err
invalid_token = detail (sentinel invalid_config) "invalid page token"

-- The filters of List.
abbrev of_type : Option SourceType → SourceRow → Bool
of_type none r = true
of_type (some t) r = is_source_type r.source_type t

abbrev of_mode : Option ProcessingMode → SourceRow → Bool
of_mode none r = true
of_mode (some cumulative) r = is_source_type r.source_type telegram_group
of_mode (some self_contained) r =
    is_source_type r.source_type telegram_channel
    || is_source_type r.source_type rss
    || is_source_type r.source_type html

unfoldable pub matches : Option SourceType → Option ProcessingMode → SourceRow → Bool
matches source_type mode r = of_type source_type r && of_mode mode r

-- The WHERE and ORDER BY of ClaimDueCumulative, where `skip` are the rows that others lock.
unfoldable pub is_cumulative_due : (ℕ → Bool) → ℕ → SourceRow → Bool
is_cumulative_due skip now r =
    is_source_type r.source_type telegram_group && is_due r.next_summary_at now && not (skip r.id)

abbrev pub due_key : SourceRow → ℕ
due_key r = coalesce r.next_summary_at r.created_at

module _ (codec : UuidCodec) where
  abbrev pub source_from : SourceRow → SourceConfig → Source
  source_from r cfg = record {
    id = codec.to_string r.id;
    source_type = r.source_type;
    processing_mode = processing_mode_for_type r.source_type;
    config = some cfg;
    created_at = nanoseconds r.created_at;
    updated_at = nanoseconds r.updated_at;
  }

  abbrev pub with_config : SourceRow → Result SourceConfig → Result Source
  with_config r (ok cfg) = ok (source_from r cfg)
  with_config r (err e) = err (wrap "deserialize config" e)

  abbrev pub typed : SourceRow → Result (Unit {0}) → Result Source
  typed r (ok u) = with_config r (deserialize_config r.source_type r.config)
  typed r (err e) = err (wrap "invalid source type in database" e)

  -- mapEntToDomain
  unfoldable pub source_of : SourceRow → Result Source
  source_of r = typed r (validate_source_type r.source_type)

  abbrev pub found : String → Option Err → Option SourceRow → Result Source
  found what (some e) o = err (wrap what e)
  found what none none = err (sentinel source_not_found)
  found what none (some r) = source_of r

  unfoldable pub get : Option Err → String → List SourceRow → Result Source
  unfolding source_of
  get fault id t = parse_id codec "invalid source id" id >>= λ i.
      found "get source" fault (find (λ r. r.id == i) t)

  abbrev pub delete_row : Option Err → ℕ → List SourceRow → Result (Unit {0}) × List SourceRow
  delete_row (some e) id t = (err (wrap "delete source" e), t)
  delete_row none id t =
      if any (λ r. r.id == id) t
      then (ok tt, select (λ r. not (r.id == id)) t)
      else (err (sentinel source_not_found), t)

  unfoldable pub delete : Option Err → String → List SourceRow → Result (Unit {0}) × List SourceRow
  delete fault id t =
      with_parsed (parse_id codec "invalid source id" id) (λ i. delete_row fault i t) t

  module _ (far : ℤ → ℤ) where
    abbrev pub new_row : Source → ℕ → SourceRow
    new_row x id = record {
      id = id;
      source_type = x.source_type;
      config = serialize_config far x.config;
      next_summary_at = none;
      created_at = microseconds x.created_at;
      updated_at = microseconds x.updated_at;
    }

    -- What the builder answers: the row that was sent, with the times that it was given.
    abbrev pub built : Source → Result Source → Result Source
    built x (err e) = err e
    built x (ok y) = ok (record y { created_at = x.created_at; updated_at = x.updated_at })

    abbrev pub insert :
        Option Err → Source → SourceRow → List SourceRow → Result Source × List SourceRow
    insert (some e) x n t = (err (wrap "save source" e), t)
    insert none x n t =
        if any (λ r. r.id == n.id) t
        then (err (wrap "save source" (opaque "duplicate key value violates unique constraint")), t)
        else (built x (source_of n), t ++ n ∷ [])

    -- The identifier, which is a new one where the source has none.
    abbrev pub given_id : String → ℕ → String
    given_id id new_id = if str_eq id "" then codec.to_string new_id else id

    unfoldable pub save : Option Err → ℕ → Source → List SourceRow → Result Source × List SourceRow
    unfolding source_of serialize_config
    save fault new_id x t =
        with_parsed (parse_id codec "invalid source id" (given_id x.id new_id))
          (λ id. insert fault x (new_row x id) t) t

    abbrev pub set_config : Source → SourceRow → SourceRow
    set_config x r = record r {
      config = serialize_config far x.config;
      updated_at = microseconds x.updated_at;
    }

    abbrev pub update_row :
        Option Err → Source → ℕ → List SourceRow → Result Source × List SourceRow
    update_row (some e) x id t = (err (wrap "update source" e), t)
    update_row none x id t =
        let t' = update_where (λ r. r.id == id) (set_config x) t in
        (found "update source" none (find (λ r. r.id == id) t'), t')

    unfoldable pub update : Option Err → Source → List SourceRow → Result Source × List SourceRow
    unfolding source_of serialize_config
    update fault x t =
        with_parsed (parse_id codec "invalid source id" x.id) (λ id. update_row fault x id t) t

  abbrev pub picked : Option SourceRow → Result Source
  picked none = err (sentinel no_source_due)
  picked (some r) = with_config r (deserialize_config r.source_type r.config)

  -- The row stays locked until the caller's transaction ends.
  unfoldable pub claim_due_cumulative : Option Err → (ℕ → Bool) → ℕ → List SourceRow → Result Source
  unfolding is_cumulative_due first_by deserialize_config
  claim_due_cumulative (some e) skip now t = err (wrap "claim due cumulative" e)
  claim_due_cumulative none skip now t = picked (first_by due_key (is_cumulative_due skip now) t)

  abbrev pub bump_row :
      Option Err → Option Err → ℕ → ℕ → List SourceRow → Result (Unit {0}) × List SourceRow
  bump_row (some e) affected at id t = (err (wrap "bump next_summary_at" e), t)
  bump_row none (some e) at id t = (
    err (wrap "bump rows affected" e),
    update_where (λ r. r.id == id) (λ r. record r { next_summary_at = some at }) t,
  )
  bump_row none none at id t =
      if any (λ r. r.id == id) t
      then (ok tt, update_where (λ r. r.id == id) (λ r. record r { next_summary_at = some at }) t)
      else (err (sentinel source_not_found), t)

  unfoldable pub bump_next_summary_at :
      Option Err → Option Err → String → ℕ → List SourceRow → Result (Unit {0}) × List SourceRow
  bump_next_summary_at fault affected id at t =
      with_parsed (parse_id codec "invalid source id" id) (λ i. bump_row fault affected at i t) t

  -- The rows of a page, up to the first that is not a source.
  abbrev pub read_rows : List SourceRow → Result (List Source)
  read_rows [] = ok []
  read_rows (r ∷ rs) = source_of r >>= λ x. read_rows rs >>= λ xs. ok (x ∷ xs)

  module _ (tokens : TokenCodec) where
    abbrev pub page_of : ℕ → List SourceRow → Result ListSourcesResult
    page_of page_size rows = read_rows (take page_size rows) >>= λ xs. ok (record {
      items = xs;
      next_page_token = next_token created_at row_id tokens page_size rows;
    })

    abbrev pub listed : Option Err → ℕ → Option (ℕ × ℕ) → List SourceRow → Result ListSourcesResult
    listed (some e) page_size cursor rows = err (wrap "list sources" e)
    listed none page_size cursor rows =
        page_of page_size (fetch created_at row_id false cursor (suc page_size) rows)

    -- SourceUsecase.List has clamped the page size.
    unfoldable pub list :
        Option Err
        → Option SourceType
        → Option ProcessingMode
        → ℕ
        → String
        → List SourceRow
        → Result ListSourcesResult
    unfolding matches source_of sort
    list fault source_type mode page_size token t =
        parse_page_token tokens invalid_token token >>= λ cursor.
        listed fault page_size cursor (select (matches source_type mode) t)
