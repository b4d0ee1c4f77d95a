-- ===== src/Scoring/Embeddings.antt =====
-- postEmbeddingRepo (internal/data/post_embedding_repo.go) on the table post_embeddings: Get and Upsert.
-- A vector is stored as JSON.
pub mod Stored
use mathlib.Core.Option
use feedium.Prelude.{ℕ, ◌≡◌, String, Bool, Option, none, some, List, [], ◌∷◌, if◌then◌else◌}
use feedium.Errors.{Err, sentinel, opaque, wrap, post_embedding_not_found, Result, ok, err, ◌>>=◌}
use feedium.Uuid.{UuidCodec}
use feedium.Outbox.Table.{find}
use feedium.Outbox.Table.Upsert.{upsert}
use feedium.Outbox.Event.{is_some_eq}
use feedium.Outbox.Invariant.{is_some}
use feedium.Outbox.Repo.{parse_id, with_parsed}
use feedium.Scoring.Relevance.{Floats, Vector}
use feedium.Scoring.Ports.{ScoreKey, PostEmbedding}

-- json.Marshal and json.Unmarshal on a vector.
pub record VectorCodec (floats : Floats) : Type 0 where
  pub encode : Vector floats → Result String
  pub decode : String → Result (Vector floats)
  -- A number is printed so that it is read back.
  pub decode-encode : (v : Vector floats) (s : String) → encode v ≡ ok s → decode s ≡ ok v

pub record EmbeddingRow : Type 0 where
  pub id : ℕ
  pub post_id : Option ℕ
  pub summary_id : Option ℕ
  pub vector : String
  pub model : String
  pub input_hash : String
  pub created_at : ℕ
  pub updated_at : ℕ

pub data Column : Type 0 where
  by_post by_summary : Column

abbrev pub column_name : Column → String
column_name by_post = "post_id"
column_name by_summary = "summary_id"

abbrev pub key_column : Option String → Option String → Result (Column × String)
key_column (some post) summary = ok (by_post, post)
key_column none (some summary) = ok (by_summary, summary)
key_column none none = err (opaque "score key has neither post_id nor summary_id")

unfoldable pub embedding_key_column : ScoreKey → Result (Column × String)
embedding_key_column key = key_column key.post_id key.summary_id

-- WHERE column = $1
abbrev pub has_key : Column → ℕ → EmbeddingRow → Bool
has_key by_post k r = is_some_eq r.post_id k
has_key by_summary k r = is_some_eq r.summary_id k

abbrev invalid : Column → String
invalid by_post = "invalid post_id"
invalid by_summary = "invalid summary_id"

module _ {floats : Floats} (uuids : UuidCodec) (vectors : VectorCodec floats) where
  abbrev pub parse_key : Column × String → Result (Column × ℕ)
  parse_key (column, id) = parse_id uuids (invalid column) id >>= λ k. ok (column, k)

  unfoldable pub key_of : ScoreKey → Result (Column × ℕ)
  unfolding embedding_key_column
  key_of key = embedding_key_column key >>= parse_key

  abbrev pub embedding_from : EmbeddingRow → Vector floats → PostEmbedding floats
  embedding_from r v = record {
    post_id = Option.map uuids.to_string r.post_id;
    summary_id = Option.map uuids.to_string r.summary_id;
    vector = v;
    model = r.model;
    input_hash = r.input_hash;
    created_at = r.created_at;
    updated_at = r.updated_at;
  }

  abbrev pub decoded : EmbeddingRow → Result (Vector floats) → Result (PostEmbedding floats)
  decoded r (err e) = err (wrap "decode vector" e)
  decoded r (ok v) = ok (embedding_from r v)

  abbrev pub read_row : EmbeddingRow → Result (PostEmbedding floats)
  read_row r = decoded r (vectors.decode r.vector)

  abbrev pub found : Option Err → Option EmbeddingRow → Result (PostEmbedding floats)
  found (some e) o = err (wrap "get post embedding" e)
  found none none = err (sentinel post_embedding_not_found)
  found none (some r) = read_row r

  abbrev pub get_key : Option Err → List EmbeddingRow → Column × ℕ → Result (PostEmbedding floats)
  get_key fault t (column, k) = found fault (find (has_key column k) t)

  unfoldable pub get_embedding :
      Option Err → ScoreKey → List EmbeddingRow → Result (PostEmbedding floats)
  unfolding key_of
  get_embedding fault key t = key_of key >>= λ k. get_key fault t k

  abbrev pub encoded : Result String → Result String
  encoded (err e) = err (wrap "encode vector" e)
  encoded (ok s) = ok s

  -- The query is that of the digest where the embedding has a summary id; the new row and the
  -- columns that ON CONFLICT sets.
  abbrev pub target : Option String → Column
  target none = by_post
  target (some summary) = by_summary

  abbrev pub post_key : Column → ℕ → Option ℕ
  post_key by_post k = some k
  post_key by_summary k = none

  abbrev pub summary_key : Column → ℕ → Option ℕ
  summary_key by_post k = none
  summary_key by_summary k = some k

  abbrev pub new_embedding : Column → ℕ → ℕ → ℕ → String → PostEmbedding floats → EmbeddingRow
  new_embedding column k id now json pe = record {
    id = id;
    post_id = post_key column k;
    summary_id = summary_key column k;
    vector = json;
    model = pe.model;
    input_hash = pe.input_hash;
    created_at = now;
    updated_at = now;
  }

  abbrev pub set_embedding : ℕ → String → PostEmbedding floats → EmbeddingRow → EmbeddingRow
  set_embedding now json pe r = record r {
    vector = json;
    model = pe.model;
    input_hash = pe.input_hash;
    updated_at = now;
  }

  abbrev pub returned : Option EmbeddingRow → Result (PostEmbedding floats)
  returned none = err (opaque "sql: no rows in result set")
  returned (some r) = read_row r

  -- The statement, with the row that it returns read back.
  abbrev pub upsert_key :
      Option Err
      → ℕ
      → ℕ
      → PostEmbedding floats
      → ℕ
      → List EmbeddingRow
      → String
      → Result (PostEmbedding floats) × List EmbeddingRow
  upsert_key (some e) now id pe k t json = (err (wrap "upsert post embedding" e), t)
  upsert_key none now id pe k t json =
      let column = target pe.summary_id in
      let t' =
        upsert (has_key column k) (set_embedding now json pe)
          (new_embedding column k id now json pe) t in
      (returned (find (has_key column k) t'), t')

  -- `id` is the new uuid, and `now` the database's clock.
  unfoldable pub upsert_embedding :
      Option Err
      → ℕ
      → ℕ
      → PostEmbedding floats
      → List EmbeddingRow
      → Result (PostEmbedding floats) × List EmbeddingRow
  unfolding key_of
  upsert_embedding fault now id pe t =
      with_parsed (key_of (record { post_id = pe.post_id; summary_id = pe.summary_id }))
        (λ key.
          with_parsed (encoded (vectors.encode pe.vector)) (upsert_key fault now id pe key.1 t) t)
        t
