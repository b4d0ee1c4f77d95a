-- ===== src/Interest/Repo/Outside.antt =====
-- Create of an interest over the repositories that the program gives it: interestRepo
-- (internal/data/interest_repo.go) writes outside the transaction of txManager.InTx
-- (internal/data/tx_manager.go), which holds the passes of internal/data/score_outbox_repo.go.
use feedium.Prelude.{
  ℕ, ◌≤◌, ◌≡◌, refl, true, false, ◌==◌, Option, none, some, List, [], ◌∷◌, ◌++◌, any, length,
  String,
}
use feedium.Prelude.Int.{ℤ, pos, negsuc}
use feedium.Errors.{Err, Result, ok, err}
use feedium.Exec.{Exec, continue}
use feedium.Uuid.{UuidCodec}
use feedium.Text.{Text, is_blank}
use feedium.Tx.{Held, Driver, in_tx, ended}
use feedium.Tx.Atomic.{in_tx-Atomic}
use feedium.Pages.{TokenCodec}
use feedium.Outbox.Once.{parse_id-ok}
use feedium.Scoring.Outbox.Statements.{has_active_post}
use feedium.Scoring.Relevance.{Floats, Vector}
use feedium.Scoring.Enqueue.{
  enqueue_scan_limit, ScoreDb, Pass, Enqueued, enqueue_scored_posts, enqueue_scored_digests,
}
use feedium.Scoring.Enqueue.Lists.{has}
use feedium.Scoring.Enqueue.Nulls.{is_null, Fails, enqueue_scored_posts-Fails}
use feedium.Interest.{
  Interest, InterestPorts, validate_interest_topic, passed, new_interest, create,
}
use feedium.Interest.Rescored.{Contract}
use feedium.Interest.Repo
use feedium.Interest.Repo.{InterestRow, row_of, interest_of}

abbrev size_of : ℤ → ℕ
size_of (pos n) = n
size_of (negsuc n) = 0

-- The table of interests, and what a transaction holds.
pub record Database (floats : Floats) : Type 0 where
  pub interests : List (InterestRow floats)
  pub held : ScoreDb

-- What the environment of a change answers: the provider of embeddings, the clock, the new
-- identifier, the driver's errors, the two passes, and what scanning a NULL as a uuid gives.
pub record Change (floats : Floats) : Type 0 where
  pub embed : Text → Result (Vector floats)
  pub model : String
  pub now : ℕ
  pub new_id : ℕ
  pub fault : Option Err
  pub driver : Driver (Database floats)
  pub posts : Pass
  pub digests : Pass
  pub null : Result ℕ

module _ {floats : Floats} (codec : UuidCodec) (tokens : TokenCodec) (c : Change floats) where
  abbrev pub tx : Held (Database floats) ScoreDb
  tx = record {
    db = λ s. s.held;
    restore = λ d s. record s { held = d };
    db-restore = λ d s. λ i. d;
  }

  abbrev with_rows :
      {A : Type 0}
      → Database floats
      → Result A × List (InterestRow floats)
      → Result A × Database floats
  with_rows s (r, t) = (r, record s { interests = t })

  abbrev with_events : Database floats → Enqueued → (ℕ × Option Err) × Database floats
  with_events s (r, t) = (r, record s { held = record (s.held) { events = t } })

  abbrev pub ports : InterestPorts floats (Database floats)
  ports = record {
    save = λ x s. with_rows s (Repo.save codec c.fault x s.interests);
    update = λ x s. with_rows s (Repo.update codec c.fault x s.interests);
    delete = λ id s. with_rows s (Repo.delete codec c.fault id s.interests);
    get = λ id s. (Repo.get codec c.fault id s.interests, s);
    list =
        λ f s. (Repo.list codec tokens c.fault (size_of f.page_size) f.page_token s.interests, s);
    embed = λ topic s. (c.embed topic, s);
    model = c.model;
    enqueue_scored_posts = λ s. with_events s (enqueue_scored_posts c.posts s.held c.null);
    enqueue_scored_digests = λ s. with_events s (enqueue_scored_digests c.digests s.held);
    in_tx = λ m. in_tx tx c.driver m;
    now = λ s. (c.now, s);
    new_id = λ s. (codec.to_string c.new_id, s);
  }

  -- The tables that the transaction holds keep the contract that InterestUsecase relies on.
  pub ports-Contract : Contract ports (λ s. s.held)
  ports-Contract = record {
    get = λ id s. refl;
    embed = λ topic s. refl;
    now = λ s. refl;
    new_id = λ s. refl;
    atomic = λ m s. in_tx-Atomic tx c.driver m s;
  }

  -- The answer is an error, the interest is in the table, and the transaction has left nothing.
  pub record Left (row : InterestRow floats) (s : Database floats)
      (out : Result (Interest floats) × Database floats) : Type 0 where
    pub error : Err
    pub fails : out.0 ≡ err error
    pub kept : out.1.interests ≡ s.interests ++ row ∷ []
    pub unqueued : out.1.held ≡ s.held

  abbrev stored : InterestRow floats → Database floats → Database floats
  stored row s = record s { interests = s.interests ++ row ∷ [] }

  failed-Left :
      (row : InterestRow floats) (s : Database floats) (r : Enqueued)
      (k : Unit {0} → Exec (Database floats) (Interest floats))
      → Fails r
      → Left row s (
          ended tx c.driver s
            (continue (passed ports "enqueue rescore" (with_events (stored row s) r)) k))
  failed-Left row s ((n, none), t) k f = cc
  failed-Left row s ((n, some e), t) k f = record {
    error = _;
    fails = refl;
    kept = refl;
    unqueued = refl;
  }

  -- The row of the new interest.
  abbrev pub new_row : Text → Vector floats → InterestRow floats
  new_row topic v =
      row_of codec (new_interest ports topic v c.now (codec.to_string c.new_id)) c.new_id

  module _ (topic : Text) (v : Vector floats) (s : Database floats) where
    saved :
        c.fault ≡ none
        → any (λ r. r.id == c.new_id) s.interests ≡ false
        → Repo.save codec c.fault
            (new_interest ports topic v c.now (codec.to_string c.new_id))
            s.interests
          ≡ (ok (interest_of codec (new_row topic v)), s.interests ++ new_row topic v ∷ [])
    unfolding Repo.save
    saved quiet fresh =
        rw
          (
            quiet,
            parse_id-ok codec "invalid interest id" (codec.to_string c.new_id) c.new_id
                (codec.parse-to_string c.new_id),
            fresh,
          )
          refl

    -- Where a digest has a score and there are at most 500 scores, Create of an interest whose save
    -- meets no error answers an error, and still leaves the interest in its table while the
    -- transaction with the events of the re-scoring is rolled back: the repository of interests
    -- writes outside the transaction. A NULL scanned as a uuid is taken to fail, or to leave the
    -- identifier of no post and no active event.
    pub create-Left :
        is_blank topic ≡ false
        → c.embed topic ≡ ok v
        → c.fault ≡ none
        → any (λ r. r.id == c.new_id) s.interests ≡ false
        → c.driver.begin s ≡ none
        → length s.held.scores ≤ enqueue_scan_limit
        → any (λ x. is_null x.post_id) s.held.scores ≡ true
        → ((z : ℕ)
            → c.null ≡ ok z
            → (has z s.held.posts ≡ false) × (any (has_active_post z) s.held.events ≡ false))
        → Left (new_row topic v) s (create ports topic s)
    unfolding create validate_interest_topic in_tx
    create-Left filled embedded quiet fresh begun few digest nowhere =
        rw (filled, embedded, begun, saved quiet fresh)
          (failed-Left (new_row topic v) s (enqueue_scored_posts c.posts s.held c.null) _
            (enqueue_scored_posts-Fails c.posts s.held c.null few digest nowhere))
