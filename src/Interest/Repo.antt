-- ===== src/Interest/Repo.antt =====
-- interestRepo (internal/data/interest_repo.go) on the table interests. It reads and writes through its
-- own connection, in a transaction of the caller too.
pub mod Outside
pub mod Listing
use feedium.Prelude.{
  ℕ, suc, String, Bool, ◌==◌, Option, none, some, List, [], ◌∷◌, ◌++◌, map, any, take, select, not,
  if◌then◌else◌,
}
use feedium.Errors.{
  Err, sentinel, opaque, detail, wrap, interest_not_found, interest_validation, Result, ok, err,
  ◌>>=◌,
}
use feedium.Uuid.{UuidCodec}
use feedium.Text.{Text}
use feedium.Outbox.Table.{find, update_where}
use feedium.Outbox.Repo.{parse_id, with_parsed}
use feedium.Pages.{TokenCodec, parse_page_token, fetch, next_token}
use feedium.Scoring.Relevance.{Floats, Vector}
use feedium.Scoring.Ports.{InterestVector}
use feedium.Interest.{Interest, ListInterestsResult}

module _ (floats : Floats) where
  pub record InterestRow : Type 0 where
    pub id : ℕ
    pub topic : Text
    pub embedding : Vector floats
    pub model : String
    pub created_at : ℕ
    pub updated_at : ℕ

abbrev pub invalid_token : Err
invalid_token = detail (sentinel interest_validation) "invalid page token"

module _ {floats : Floats} where
  abbrev pub created_at : InterestRow floats → ℕ
  created_at r = r.created_at

  abbrev pub row_id : InterestRow floats → ℕ
  row_id r = r.id

  unfoldable pub list_interest_vectors :
      Option Err → List (InterestRow floats) → Result (List (InterestVector floats))
  list_interest_vectors (some e) t = err (wrap "list interest vectors" e)
  list_interest_vectors none t =
      ok (map (λ r. record { embedding = r.embedding; model = r.model }) t)

  module _ (codec : UuidCodec) where
    abbrev pub interest_of : InterestRow floats → Interest floats
    interest_of r = record {
      id = codec.to_string r.id;
      topic = r.topic;
      embedding = r.embedding;
      model = r.model;
      created_at = r.created_at;
      updated_at = r.updated_at;
    }

    abbrev pub row_of : Interest floats → ℕ → InterestRow floats
    row_of x id = record {
      id = id;
      topic = x.topic;
      embedding = x.embedding;
      model = x.model;
      created_at = x.created_at;
      updated_at = x.updated_at;
    }

    -- INSERT, with the primary key.
    abbrev pub insert :
        Option Err
        → InterestRow floats
        → List (InterestRow floats)
        → Result (Interest floats) × List (InterestRow floats)
    insert (some e) n t = (err (wrap "save interest" e), t)
    insert none n t =
        if any (λ r. r.id == n.id) t
        then (
          err (wrap "save interest" (opaque "duplicate key value violates unique constraint")),
          t,
        )
        else (ok (interest_of n), t ++ n ∷ [])

    unfoldable pub save :
        Option Err
        → Interest floats
        → List (InterestRow floats)
        → Result (Interest floats) × List (InterestRow floats)
    save fault x t =
        with_parsed (parse_id codec "invalid interest id" x.id) (λ id. insert fault (row_of x id) t)
          t

    abbrev pub set_interest : Interest floats → InterestRow floats → InterestRow floats
    set_interest x r = record r {
      topic = x.topic;
      embedding = x.embedding;
      model = x.model;
      updated_at = x.updated_at;
    }

    abbrev pub found : String → Option Err → Option (InterestRow floats) → Result (Interest floats)
    found what (some e) o = err (wrap what e)
    found what none none = err (sentinel interest_not_found)
    found what none (some r) = ok (interest_of r)

    -- UPDATE, and the row that it leaves; a statement that fails changes nothing.
    abbrev pub update_row :
        Option Err
        → Interest floats
        → ℕ
        → List (InterestRow floats)
        → Result (Interest floats) × List (InterestRow floats)
    update_row (some e) x id t = (err (wrap "update interest" e), t)
    update_row none x id t =
        let t' = update_where (λ r. r.id == id) (set_interest x) t in
        (found "update interest" none (find (λ r. r.id == id) t'), t')

    unfoldable pub update :
        Option Err
        → Interest floats
        → List (InterestRow floats)
        → Result (Interest floats) × List (InterestRow floats)
    update fault x t =
        with_parsed (parse_id codec "invalid interest id" x.id) (λ id. update_row fault x id t) t

    abbrev pub delete_row :
        Option Err → ℕ → List (InterestRow floats) → Result (Unit {0}) × List (InterestRow floats)
    delete_row (some e) id t = (err (wrap "delete interest" e), t)
    delete_row none id t =
        if any (λ r. r.id == id) t
        then (ok tt, select (λ r. not (r.id == id)) t)
        else (err (sentinel interest_not_found), t)

    unfoldable pub delete :
        Option Err
        → String
        → List (InterestRow floats)
        → Result (Unit {0}) × List (InterestRow floats)
    delete fault id t =
        with_parsed (parse_id codec "invalid interest id" id) (λ i. delete_row fault i t) t

    unfoldable pub get : Option Err → String → List (InterestRow floats) → Result (Interest floats)
    get fault id t = parse_id codec "invalid interest id" id >>= λ i.
        found "get interest" fault (find (λ r. r.id == i) t)

    module _ (tokens : TokenCodec) where
      abbrev pub page_of : ℕ → List (InterestRow floats) → ListInterestsResult floats
      page_of page_size rows = record {
        items = map interest_of (take page_size rows);
        next_page_token = next_token created_at row_id tokens page_size rows;
      }

      abbrev pub listed :
          Option Err
          → ℕ
          → Option (ℕ × ℕ)
          → List (InterestRow floats)
          → Result (ListInterestsResult floats)
      listed (some e) page_size cursor t = err (wrap "list interests" e)
      listed none page_size cursor t =
          ok (page_of page_size (fetch created_at row_id Bool.false cursor (suc page_size) t))

      -- InterestUsecase.List has clamped the page size.
      unfoldable pub list :
          Option Err → ℕ → String → List (InterestRow floats) → Result (ListInterestsResult floats)
      list fault page_size token t =
          parse_page_token tokens invalid_token token >>= λ cursor. listed fault page_size cursor t
