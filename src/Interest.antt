-- ===== src/Interest.antt =====
-- Interests (internal/biz/interest.go): topics whose vectors posts are scored against.
pub mod Rescored
pub mod Repo
use feedium.Prelude.{ℕ, String, Bool, Option, none, some, List, if◌then◌else◌}
use feedium.Prelude.Int.{ℤ}
use feedium.Errors.{Err, sentinel, detail, wrap, interest_validation, Result, ok, err}
use feedium.Exec.{Exec, pure, raise, lift, wrapping, ◌>>=◌, ◌>>◌}
use feedium.Text.{Text, is_blank}
use feedium.Summary.Ports.{reading}
use feedium.Source.Usecase.{clamp_page_size}
use feedium.Scoring.Relevance.{Floats, Vector}

pub record ListInterestsFilter : Type 0 where
  pub page_size : ℤ
  pub page_token : String

module _ (floats : Floats) where
  pub record Interest : Type 0 where
    pub id : String
    pub topic : Text
    pub embedding : Vector floats
    pub model : String
    pub created_at : ℕ
    pub updated_at : ℕ

  pub record ListInterestsResult : Type 0 where
    pub items : List Interest
    pub next_page_token : String

  -- InterestRepo, Scorer, the two enqueue passes of ScoreOutboxRepo, TxManager, and the clock and
  -- the source of identifiers.
  pub record InterestPorts (S : Type 0) : Type 1 where
    pub save : Interest → Exec S Interest
    pub update : Interest → Exec S Interest
    pub delete : String → Exec S (Unit {0})
    pub get : String → Exec S Interest
    pub list : ListInterestsFilter → Exec S ListInterestsResult
    pub embed : Text → Exec S (Vector floats)
    pub model : String
    pub enqueue_scored_posts : S → (ℕ × Option Err) × S
    pub enqueue_scored_digests : S → (ℕ × Option Err) × S
    pub in_tx : {A : Type 0} → Exec S A → Exec S A
    pub now : S → ℕ × S
    pub new_id : S → String × S

unfoldable pub validate_interest_topic : Text → Result (Unit {0})
validate_interest_topic topic =
    if is_blank topic then err (detail (sentinel interest_validation) "topic is empty") else ok tt

module _ {floats : Floats} {S : Type 0} (ports : InterestPorts floats S) where
  -- A pass whose count is not read: `if _, e = pass(); e != nil { return fmt.Errorf(what, e) }`.
  abbrev pub passed : String → (ℕ × Option Err) × S → Result (Unit {0}) × S
  passed what ((n, none), s) = (ok tt, s)
  passed what ((n, some e), s) = (err (wrap what e), s)

  abbrev pub rescore_posts : Exec S (Unit {0})
  rescore_posts s = passed "enqueue rescore" (ports.enqueue_scored_posts s)

  abbrev pub rescore_digests : Exec S (Unit {0})
  rescore_digests s = passed "enqueue digest rescore" (ports.enqueue_scored_digests s)

  -- The end of the three transactions, after the change `a`.
  abbrev pub rescored : {A : Type 0} → A → Exec S A
  rescored a = do _ ← rescore_posts; _ ← rescore_digests; pure a

  abbrev pub new_interest : Text → Vector floats → ℕ → String → Interest floats
  new_interest topic embedding now id = record {
    id = id;
    topic = topic;
    embedding = embedding;
    model = ports.model;
    created_at = now;
    updated_at = now;
  }

  abbrev pub save_new : Text → Vector floats → Exec S (Interest floats)
  save_new topic embedding = do
    now ← reading ports.now
    id ← reading ports.new_id
    ports.in_tx (ports.save (new_interest topic embedding now id) >>= rescored)

  unfoldable pub create : Text → Exec S (Interest floats)
  unfolding validate_interest_topic
  create topic = do
    _ ← lift (validate_interest_topic topic)
    embedding ← wrapping "embed topic" (ports.embed topic)
    save_new topic embedding

  abbrev pub changed : Interest floats → Text → Vector floats → ℕ → Interest floats
  changed existing topic embedding now = record existing {
    topic = topic;
    embedding = embedding;
    model = ports.model;
    updated_at = now;
  }

  abbrev pub save_changed : Interest floats → Text → Vector floats → Exec S (Interest floats)
  save_changed existing topic embedding = do
    now ← reading ports.now
    ports.in_tx (ports.update (changed existing topic embedding now) >>= rescored)

  abbrev pub embed_changed : Text → Interest floats → Exec S (Interest floats)
  embed_changed topic existing = do
    embedding ← wrapping "embed topic" (ports.embed topic)
    save_changed existing topic embedding

  unfoldable pub update : String → Text → Exec S (Interest floats)
  unfolding validate_interest_topic
  update id topic = do
    _ ← lift (validate_interest_topic topic)
    existing ← ports.get id
    embed_changed topic existing

  unfoldable pub delete : String → Exec S (Unit {0})
  delete id = ports.in_tx (ports.delete id >>= rescored)

  unfoldable pub list : ListInterestsFilter → Exec S (ListInterestsResult floats)
  list filter = ports.list (record filter { page_size = clamp_page_size filter.page_size })
