-- ===== src/Scoring/Usecase.antt =====
-- ScoreUsecase (internal/biz/score.go).
pub mod Scored
use feedium.Prelude.{
  ℕ, ◌+◌, String, Bool, true, false, not, ◌&&◌, ◌||◌, Option, none, some, List, [], ◌∷◌, ◌++◌, ltb,
  length, str_eq, if◌then◌else◌,
}
use feedium.Prelude.Int.{ℤ, pos}
use feedium.Errors.{
  Err, sentinel, opaque, detail, wrap, is, context_canceled, deadline_exceeded, score_validation,
  post_embedding_not_found, Result, ok, err,
}
use feedium.Exec.{Exec, pure, raise, lift, wrapping, continue, ◌>>=◌, ◌>>◌}
use feedium.Config.{
  positive_or, default_reaper_max_attempts, default_reaper_grace_period, default_backoff_base,
  default_backoff_max, reaper_batch_limit,
}
use feedium.Retry.{RetryPolicy}
use feedium.Text.{Text}
use feedium.Summary.Ports.{Summary, reading}
use feedium.Scoring.Outbox.Event.{ScoreEvent}
use feedium.Scoring.Relevance.{Floats, Vector, relevance}
use feedium.Scoring.Ports.{
  ScoreKey, ScoringConfig, Score, PostEmbedding, InterestVector, ScorePorts,
}

-- `err == nil` is `none`.
unfoldable pub is_transient_score_error : Option Err → Bool
is_transient_score_error none = false
is_transient_score_error (some e) =
    if is e context_canceled || is e deadline_exceeded
    then false
    else if is e score_validation
    then false
    else true

unfoldable pub retry_policy : ScoringConfig → RetryPolicy
retry_policy cfg = record {
  max_attempts = pos (positive_or cfg.max_attempts default_reaper_max_attempts);
  backoff_base = pos (positive_or cfg.backoff_base default_backoff_base);
  backoff_max = pos (positive_or cfg.backoff_max default_backoff_max);
}

module _ {floats : Floats} {S : Type 0} (ports : ScorePorts floats S) where
  abbrev pub latest : String → List Summary → Exec S (ScoreKey × Text)
  latest post_id [] = raise (detail (sentinel score_validation) "post has no summary")
  latest post_id (x ∷ xs) = pure (record { post_id = some post_id; summary_id = none }, x.text)

  -- No row of the table has neither key; the code dereferences a nil pointer there.
  abbrev pub input_of : Option String → Option String → Exec S (ScoreKey × Text)
  input_of post_id (some summary_id) = do
    summary ← wrapping "get digest summary" (ports.get_summary summary_id)
    pure (record { post_id = none; summary_id = some summary_id }, summary.text)
  input_of (some post_id) none = do
    summaries ← wrapping "list post summaries" (ports.summaries_by_post post_id)
    latest post_id summaries
  input_of none none = raise (opaque "nil pointer dereference")

  unfoldable pub resolve_score_input : ScoreEvent → Exec S (ScoreKey × Text)
  resolve_score_input event = input_of event.post_id event.summary_id

  -- The two times are left to the database.
  abbrev pub embedding_of : ScoreKey → Text → Vector floats → PostEmbedding floats
  embedding_of key text vector = record {
    post_id = key.post_id;
    summary_id = key.summary_id;
    vector = vector;
    model = ports.model;
    input_hash = ports.hash_input text;
    created_at = 0;
    updated_at = 0;
  }

  abbrev pub persist : ScoreKey → Text → Vector floats → Exec S (Vector floats)
  persist key text vector = do
    _ ← wrapping "persist embedding" (ports.upsert_embedding (embedding_of key text vector))
    pure vector

  unfoldable pub recompute : ScoreKey → Text → Exec S (Vector floats)
  recompute key text = do
    vector ← wrapping "embed summary" (ports.embed text)
    persist key text vector

  -- The switch on the stored embedding.
  abbrev pub reuse :
      ScoreKey → Text → Result (PostEmbedding floats) × S → Result (Vector floats) × S
  reuse key text (ok stored, s) =
      if str_eq stored.model ports.model && str_eq stored.input_hash (ports.hash_input text)
      then (ok stored.vector, s)
      else recompute key text s
  reuse key text (err e, s) =
      if not (is e post_embedding_not_found)
      then (err (wrap "get embedding" e), s)
      else recompute key text s

  unfoldable pub resolve_vector : ScoreKey → Text → Exec S (Vector floats)
  unfolding recompute
  resolve_vector key text s = reuse key text (ports.get_embedding key s)

  abbrev pub with_vector :
      Vector floats → Result (List (Vector floats)) → Result (List (Vector floats))
  with_vector v (err e) = err e
  with_vector v (ok vs) = ok (v ∷ vs)

  -- The loop over the interests, which stops at one of another model.
  abbrev pub same_model : List (InterestVector floats) → Result (List (Vector floats))
  same_model [] = ok []
  same_model (iv ∷ ivs) =
      if not (str_eq iv.model ports.model)
      then err (detail (sentinel score_validation) "interest embedded with model")
      else with_vector iv.embedding (same_model ivs)

  abbrev pub value_of : ScoreKey → Text → List (Vector floats) → Exec S floats.Float64
  value_of key text [] = pure floats.zero
  value_of key text (v ∷ vs) = do
    post ← resolve_vector key text
    lift (relevance floats post (v ∷ vs))

  abbrev pub new_score : ScoreKey → floats.Float64 → ℕ → String → Score floats
  new_score key value now id = record {
    id = id;
    post_id = key.post_id;
    summary_id = key.summary_id;
    value = value;
    model = ports.model;
    created_at = now;
    updated_at = now;
  }

  abbrev pub upsert : Score floats → Exec S String
  upsert score = do saved ← wrapping "upsert score" (ports.upsert_score score); pure saved.id

  abbrev pub save_at : ScoreKey → floats.Float64 → ℕ → Exec S String
  save_at key value now = do id ← reading ports.new_id; upsert (new_score key value now id)

  abbrev pub save_value : ScoreKey → floats.Float64 → Exec S String
  save_value key value = do now ← reading ports.now; save_at key value now

  abbrev pub score_with : ScoreKey → Text → List (Vector floats) → Exec S String
  score_with key text embeddings = do value ← value_of key text embeddings; save_value key value

  abbrev pub score_against : ScoreKey → Text → List (InterestVector floats) → Exec S String
  score_against key text interests = do
    embeddings ← lift (same_model interests)
    score_with key text embeddings

  abbrev pub score_input : ScoreKey × Text → Exec S String
  score_input (key, text) = do
    interests ← wrapping "list interest vectors" ports.interest_vectors
    score_against key text interests

  unfoldable pub score_post : ScoreEvent → Exec S String
  unfolding resolve_score_input resolve_vector relevance
  score_post event = resolve_score_input event >>= score_input

  -- EnqueueDue: the counts are lost where one of the two fails.
  abbrev plus : ℕ → (ℕ × Option Err) × S → Result ℕ × S
  plus posts ((digests, none), s) = (ok (posts + digests), s)
  plus posts ((digests, some e), s) = (err (wrap "enqueue due digests" e), s)

  abbrev then_digests : (ℕ × Option Err) × S → Result ℕ × S
  then_digests ((posts, none), s) = plus posts (ports.enqueue_due_digests s)
  then_digests ((posts, some e), s) = (err (wrap "enqueue due posts" e), s)

  unfoldable pub enqueue_due : Exec S ℕ
  enqueue_due s = then_digests (ports.enqueue_due_posts s)

  module _ (max_attempts grace : ℕ) where
    abbrev terminated : (ℕ → S → (ℕ × Option Err) × S) → ℕ → Result Bool × S → (ℕ × Option Err) × S
    terminated next n (err e, s) = ((n, some (wrap "fail expired" e)), s)
    terminated next n (ok true, s) = next (n + 1) s
    terminated next n (ok false, s) = next n s

    unfoldable pub reap_loop : List ScoreEvent → ℕ → S → (ℕ × Option Err) × S
    reap_loop [] n s = ((n, none), s)
    reap_loop (ev ∷ events) n s =
        let skipped = reap_loop events n s in
        let tried =
          terminated (reap_loop events) n
            (ports.fail_expired ev.id max_attempts grace "max attempts exceeded" s) in
        if ltb ev.attempt_count max_attempts then skipped else tried

    abbrev reap_listed : Result (List ScoreEvent) × S → (ℕ × Option Err) × S
    reap_listed (err e, s) = ((0, some (wrap "list lease expired" e)), s)
    reap_listed (ok events, s) = reap_loop events 0 s

  unfoldable pub reap_stuck_score_events : ScoringConfig → S → (ℕ × Option Err) × S
  unfolding reap_loop
  reap_stuck_score_events cfg s =
      let grace = positive_or cfg.reaper_grace default_reaper_grace_period in
      reap_listed (positive_or cfg.max_attempts default_reaper_max_attempts) grace
        (ports.list_lease_expired grace reaper_batch_limit s)
