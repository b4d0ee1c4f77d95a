-- ===== src/Scoring/Embeddings/Stored.antt =====
-- What Get answers after Upsert (internal/data/post_embedding_repo.go).
use feedium.Prelude.{
  ℕ, ◌≡◌, refl, sym, ap, subst, ◌∙◌, String, Bool, true, false, Option, none, some, List, arith,
}
use feedium.Errors.{Result, ok, err, ◌>>=◌}
use feedium.Exec.Ok.{ok_inj}
use feedium.Uuid.{UuidCodec}
use feedium.Outbox.Table.{find}
use feedium.Outbox.Table.Upsert.{changed_or, find-upsert}
use feedium.Outbox.Repo.{with_parsed, parse_id}
use feedium.Scoring.Relevance.{Floats, Vector}
use feedium.Scoring.Ports.{ScoreKey, PostEmbedding}
use feedium.Scoring.Embeddings.{
  VectorCodec, EmbeddingRow, Column, by_post, by_summary, key_column, embedding_key_column, has_key,
  parse_key, key_of, embedding_from, read_row, found, get_embedding, encoded, target, new_embedding,
  set_embedding, returned, upsert_key, upsert_embedding,
}

-- Exactly one of the two identifiers is given.
abbrev pub is_one : Option String → Option String → Bool
is_one (some post) none = true
is_one none (some summary) = true
is_one _ _ = false

parsed_column :
    (c : Column) (r : Result ℕ) (column : Column) (k : ℕ)
    → ◌>>=◌ {B = Column × ℕ} r (λ i. ok (c, i)) ≡ ok (column, k)
    → c ≡ column
parsed_column c (err e) column k h = cc
parsed_column c (ok i) column k h = ap (λ p. p.0) (ok_inj h)

module _ {floats : Floats} (uuids : UuidCodec) (vectors : VectorCodec floats) where
  -- The column of the statement is that of the key.
  target_column :
      (p q : Option String) (column : Column) (k : ℕ)
      → is_one p q ≡ true
      → (key_column p q >>= parse_key uuids vectors) ≡ ok (column, k)
      → target uuids vectors q ≡ column
  target_column (some post) none column k one e =
      parsed_column by_post (parse_id uuids "invalid post_id" post) column k e
  target_column none (some summary) column k one e =
      parsed_column by_summary (parse_id uuids "invalid summary_id" summary) column k e
  target_column (some post) (some summary) column k one e = cc
  target_column none none column k one e = cc

  -- The row that the statement leaves under its key.
  record Left (pe : PostEmbedding floats) (column : Column) (k : ℕ) (json : String)
      (t : List EmbeddingRow) : Type 0 where
    row : EmbeddingRow
    here : find (has_key column k) t ≡ some row
    vector : row.vector ≡ json
    model : row.model ≡ pe.model
    hash : row.input_hash ≡ pe.input_hash

  row-Left :
      (now id : ℕ) (pe : PostEmbedding floats) (column : Column) (k : ℕ) (json : String)
      (o : Option EmbeddingRow) (t' : List EmbeddingRow)
      → find (has_key column k) t'
        ≡ some (
            changed_or
              (set_embedding uuids vectors now json pe)
              (new_embedding uuids vectors column k id now json pe)
              o)
      → Left pe column k json t'
  row-Left now id pe column k json none t' e = record {
    row = _;
    here = e;
    vector = refl;
    model = refl;
    hash = refl;
  }
  row-Left now id pe column k json (some r) t' e = record {
    row = _;
    here = e;
    vector = refl;
    model = refl;
    hash = refl;
  }

  new-has_key :
      (now id : ℕ) (pe : PostEmbedding floats) (column : Column) (k : ℕ) (json : String)
      → has_key column k (new_embedding uuids vectors column k id now json pe) ≡ true
  new-has_key now id pe by_post k json = ground arith
  new-has_key now id pe by_summary k json = ground arith

  set-has_key :
      (now : ℕ) (pe : PostEmbedding floats) (column : Column) (k : ℕ) (json : String)
      (r : EmbeddingRow)
      → has_key column k (set_embedding uuids vectors now json pe r) ≡ has_key column k r
  set-has_key now pe by_post k json r = refl
  set-has_key now pe by_summary k json r = refl

  upsert_key-Left :
      (now id : ℕ) (pe : PostEmbedding floats) (k : ℕ) (json : String) (t : List EmbeddingRow)
      → Left pe
          (target uuids vectors pe.summary_id)
          k
          json
          (upsert_key uuids vectors none now id pe k t json).1
  upsert_key-Left now id pe k json t =
      let column = target uuids vectors pe.summary_id in
      row-Left now id pe column k json (find (has_key column k) t) _ (
        find-upsert (has_key column k) (set_embedding uuids vectors now json pe)
          (new_embedding uuids vectors column k id now json pe) t
          (λ r h. set-has_key now pe column k json r ∙ h) (new-has_key now id pe column k json))

  -- The stored vector is read back.
  read-new :
      (r : EmbeddingRow) (v : Vector floats) (json : String)
      → r.vector ≡ json
      → vectors.encode v ≡ ok json
      → read_row uuids vectors r ≡ ok (embedding_from uuids vectors r v)
  read-new r v json e enc = rw (e, vectors.decode-encode v json enc) refl

  -- The key of an embedding.
  abbrev pub score_key : PostEmbedding floats → ScoreKey
  score_key pe = record { post_id = pe.post_id; summary_id = pe.summary_id }

  -- What was stored comes back.
  pub record Same (pe e : PostEmbedding floats) : Type 0 where
    pub vector : e.vector ≡ pe.vector
    pub model : e.model ≡ pe.model
    pub hash : e.input_hash ≡ pe.input_hash

  abbrev Kept : PostEmbedding floats → Result (PostEmbedding floats) × List EmbeddingRow → Type 0
  Kept pe out =
      (e : PostEmbedding floats)
      → out.0 ≡ ok e
      → (get_embedding uuids vectors none (score_key pe) out.1 ≡ ok e) × Same pe e

  module _ (now id : ℕ) (pe : PostEmbedding floats) (t : List EmbeddingRow) where
    upsert_key-Kept :
        (k : ℕ) (json : String)
        → key_of uuids vectors (score_key pe) ≡ ok (target uuids vectors pe.summary_id, k)
        → vectors.encode pe.vector ≡ ok json
        → Kept pe (upsert_key uuids vectors none now id pe k t json)
    unfolding get_embedding
    upsert_key-Kept k json ek enc e h =
        let l = upsert_key-Left now id pe k json t in
        let read = read-new l.row pe.vector json l.vector enc in
        let same : embedding_from uuids vectors l.row pe.vector ≡ e =
          ok_inj (sym read ∙ ap (returned uuids vectors) (sym l.here) ∙ h) in
        (
          rw (get_embedding, ek) (ap (found uuids vectors none) l.here ∙ read ∙ ap ok same),
          subst (Same pe) same (record { vector = refl; model = l.model; hash = l.hash }),
        )

    encoded-Kept :
        (k : ℕ) (r : Result String)
        → key_of uuids vectors (score_key pe) ≡ ok (target uuids vectors pe.summary_id, k)
        → vectors.encode pe.vector ≡ r
        → Kept pe
            (with_parsed (encoded uuids vectors r) (upsert_key uuids vectors none now id pe k t) t)
    encoded-Kept k (err x) ek enc e h = cc
    encoded-Kept k (ok json) ek enc e h = upsert_key-Kept k json ek enc e h

    with_parsed-Kept :
        (r : Result (Column × ℕ))
        → key_of uuids vectors (score_key pe) ≡ r
        → ((column : Column) (k : ℕ)
            → r ≡ ok (column, k)
            → target uuids vectors pe.summary_id ≡ column)
        → Kept pe (
            with_parsed r
              (λ key.
                with_parsed
                  (encoded uuids vectors (vectors.encode pe.vector))
                  (upsert_key uuids vectors none now id pe key.1 t)
                  t)
              t)
    with_parsed-Kept (err x) er et e h = cc
    with_parsed-Kept (ok (column, k)) er et e h =
        encoded-Kept k (vectors.encode pe.vector)
          (er ∙ ap (λ c. ok (c, k)) (sym (et column k refl))) refl e h

    -- Where an embedding for exactly one of a post and a digest is stored without a driver error,
    -- Get for its key answers what Upsert has answered, with the vector, the model and the hash that
    -- were stored, whether or not the table had an embedding for the key.
    pub get-upsert_embedding :
        is_one pe.post_id pe.summary_id ≡ true
        → (e : PostEmbedding floats) → (upsert_embedding uuids vectors none now id pe t).0 ≡ ok e
        → (get_embedding uuids vectors none
              (score_key pe)
              (upsert_embedding uuids vectors none now id pe t).1
            ≡ ok e)
          × Same pe e
    unfolding upsert_embedding key_of embedding_key_column
    get-upsert_embedding one e h =
        with_parsed-Kept (key_of uuids vectors (score_key pe)) refl
          (λ column k q. target_column pe.post_id pe.summary_id column k one q) e h
