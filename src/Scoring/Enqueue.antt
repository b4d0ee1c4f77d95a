-- ===== src/Scoring/Enqueue.antt =====
-- The passes that enqueue score events (internal/data/score_outbox_repo.go): EnqueueDuePosts,
-- EnqueueDueDigests, EnqueueScoredPosts and EnqueueScoredDigests, with the queries for their
-- candidates. A LIMIT without an ORDER BY takes the first rows in the order of the table.
pub mod Lists
pub mod Insert
pub mod Covers
pub mod Nulls
use feedium.Prelude.{
  ℕ, zero, suc, ◌+◌, String, Bool, true, false, not, ◌&&◌, Option, none, some, List, [], ◌∷◌, ◌==◌,
  any, take, select, if◌then◌else◌,
}
use feedium.Errors.{Err, opaque, wrap, Result, ok, err, ◌>>=◌}
use feedium.Outbox.Event.{is_some_eq}
use feedium.Scoring.Outbox.Event.{ScoreRow}
use feedium.Scoring.Outbox.Statements.{has_active_post, has_active_summary}
use feedium.Scoring.Outbox.Repo.{insert_post, insert_digest}

abbrev pub enqueue_scan_limit : ℕ
enqueue_scan_limit = 500

-- The columns of summaries and of scores that the queries read.
pub record SummaryKeys : Type 0 where
  pub id : ℕ
  pub post_id : Option ℕ

pub record ScoreKeys : Type 0 where
  pub post_id : Option ℕ
  pub summary_id : Option ℕ

-- The ids of the posts, and the tables summaries, scores and score_events.
pub record ScoreDb : Type 0 where
  pub posts : List ℕ
  pub summaries : List SummaryKeys
  pub scores : List ScoreKeys
  pub events : List ScoreRow

-- NOT EXISTS (SELECT 1 FROM scores sc WHERE sc.post_id = p), and for a summary.
abbrev pub unscored_post : List ScoreKeys → ℕ → Bool
unscored_post scores p = not (any (λ s. is_some_eq s.post_id p) scores)

abbrev pub unscored_summary : List ScoreKeys → ℕ → Bool
unscored_summary scores p = not (any (λ s. is_some_eq s.summary_id p) scores)

-- The identifiers that a column has in the rows, without NULL.
abbrev pub present : {R : Type 0} → (R → Option ℕ) → List R → List ℕ
present column [] = []
present column (r ∷ rs) = some_first (column r) (present column rs)
  where
    some_first : Option ℕ → List ℕ → List ℕ
    some_first none ps = ps
    some_first (some p) ps = p ∷ ps

-- SELECT DISTINCT
abbrev pub distinct : List ℕ → List ℕ
distinct [] = []
distinct (x ∷ xs) = x ∷ select (λ y. not (y == x)) (distinct xs)

abbrev digest_key : SummaryKeys → Option ℕ
digest_key s = elim s.post_id [ none ↦ some s.id | some p ↦ none ]

unfoldable pub due_candidate_post_ids : ScoreDb → List ℕ
unfolding has_active_post
due_candidate_post_ids db = take enqueue_scan_limit (
    distinct (
      select (λ p. unscored_post db.scores p && not (any (has_active_post p) db.events))
        (present (λ s. s.post_id) db.summaries)))

unfoldable pub due_candidate_summary_ids : ScoreDb → List ℕ
unfolding has_active_summary
due_candidate_summary_ids db = take enqueue_scan_limit (
    select (λ p. unscored_summary db.scores p && not (any (has_active_summary p) db.events))
      (present digest_key db.summaries))

unfoldable pub scored_candidate_summary_ids : ScoreDb → List ℕ
unfolding has_active_summary
scored_candidate_summary_ids db = take enqueue_scan_limit (
    select (λ p. not (any (has_active_summary p) db.events))
      (present (λ s. s.summary_id) db.scores))

-- The query of scoredCandidatePostIDs does not leave out NULL, for which no event exists.
abbrev pub unqueued : List ScoreRow → Option ℕ → Bool
unqueued events none = true
unqueued events (some p) = not (any (has_active_post p) events)

abbrev pub columns : (Option ℕ → Bool) → List ScoreKeys → List (Option ℕ)
columns p [] = []
columns p (s ∷ ss) = let rest = columns p ss in if p s.post_id then s.post_id ∷ rest else rest

unfoldable pub scored_candidate_columns : ScoreDb → List (Option ℕ)
unfolding has_active_post
scored_candidate_columns db = take enqueue_scan_limit (columns (unqueued db.events) db.scores)

-- What uuid.UUID.Scan does with a NULL is given: the value that it leaves, or its error.
abbrev scan_id : Result ℕ → Option ℕ → Result ℕ
scan_id (err e) none = err (wrap "scan scored post" e)
scan_id (ok p) none = ok p
scan_id null (some p) = ok p

abbrev pub scan_ids : Result ℕ → List (Option ℕ) → Result (List ℕ)
scan_ids null [] = ok []
scan_ids null (c ∷ cs) = scan_id null c >>= λ p. scan_ids null cs >>= λ ps. ok (p ∷ ps)

-- What the environment answers in a pass: the driver's errors to the query and to reading its rows,
-- and for the n-th insert the new id, the database's clock, and the driver's errors to the
-- statement and to RowsAffected.
pub record Pass : Type 0 where
  pub query_fault : Option Err
  pub rows_fault : Option Err
  pub new_id : ℕ → ℕ
  pub now : ℕ → ℕ
  pub insert_fault : ℕ → Option Err
  pub affected_fault : ℕ → Option Err

-- The number of enqueued events is returned beside the error.
abbrev pub Enqueued : Type 0
Enqueued = (ℕ × Option Err) × List ScoreRow

-- The foreign key of an inserted event.
abbrev pub referencing : Bool → List ScoreRow → Result ℕ × List ScoreRow → Result ℕ × List ScoreRow
referencing exists t (err e, t') = (err e, t')
referencing exists t (ok zero, t') = (ok 0, t')
referencing true t (ok (suc n), t') = (ok (suc n), t')
referencing false t (ok (suc n), t') = (err (opaque "violates foreign key constraint"), t)

abbrev pub counted :
    String
    → String
    → Option Err
    → (ℕ → List ScoreRow → Enqueued)
    → ℕ
    → Result ℕ × List ScoreRow
    → Enqueued
counted insert affected fault next enqueued (err e, t) = ((enqueued, some (wrap insert e)), t)
counted insert affected (some e) next enqueued (ok n, t) = ((enqueued, some (wrap affected e)), t)
counted insert affected none next enqueued (ok n, t) = next (enqueued + n) t

-- The loop over the candidates, with an insert that takes its place in the pass and a candidate.
unfoldable pub insert_all :
    String
    → String
    → Pass
    → (ℕ → ℕ → List ScoreRow → Result ℕ × List ScoreRow)
    → List ℕ
    → ℕ
    → ℕ
    → List ScoreRow
    → Enqueued
insert_all insert affected pass put [] k enqueued t = ((enqueued, none), t)
insert_all insert affected pass put (p ∷ ps) k enqueued t =
    counted insert affected (pass.affected_fault k) (insert_all insert affected pass put ps (suc k))
      enqueued (put k p t)

-- A candidate query, which fails at once or while its rows are read.
abbrev pub answered : String → Option Err → Result (List ℕ) → Result (List ℕ)
answered query none r = r
answered query (some e) r = err (wrap query e)

abbrev pub all_read : String → Option Err → List ℕ → Result (List ℕ)
all_read reading none ps = ok ps
all_read reading (some e) ps = err (wrap reading e)

abbrev pub candidates : String → String → Pass → Result (List ℕ) → Result (List ℕ)
candidates query reading pass ids =
    answered query pass.query_fault (ids >>= all_read reading pass.rows_fault)

abbrev pub queried : Result (List ℕ) → (List ℕ → Enqueued) → List ScoreRow → Enqueued
queried (err e) insert t = ((0, some e), t)
queried (ok ps) insert t = insert ps

module _ (pass : Pass) (db : ScoreDb) where
  abbrev pub put_post : ℕ → ℕ → List ScoreRow → Result ℕ × List ScoreRow
  put_post k p t =
      referencing (any (λ q. q == p) db.posts) t
        (insert_post (pass.insert_fault k) (pass.new_id k) (pass.now k) p t)

  abbrev pub put_digest : ℕ → ℕ → List ScoreRow → Result ℕ × List ScoreRow
  put_digest k p t =
      referencing (any (λ s. s.id == p) db.summaries) t
        (insert_digest (pass.insert_fault k) (pass.new_id k) (pass.now k) p t)

  unfoldable pub enqueue_due_posts : Enqueued
  unfolding insert_all insert_post due_candidate_post_ids
  enqueue_due_posts =
      queried (candidates "query due posts" "rows due posts" pass (ok (due_candidate_post_ids db)))
        (λ ps.
          insert_all "insert score event" "insert rows affected" pass put_post ps 0 0 db.events)
        db.events

  abbrev insert_digest_events : List ℕ → Enqueued
  insert_digest_events ps =
      insert_all "insert digest score event" "digest insert rows affected" pass put_digest ps 0 0
        db.events

  unfoldable pub enqueue_due_digests : Enqueued
  unfolding insert_all insert_digest due_candidate_summary_ids
  enqueue_due_digests =
      queried
        (candidates "query due digests" "rows due digests" pass (ok (due_candidate_summary_ids db)))
        insert_digest_events db.events

  unfoldable pub enqueue_scored_digests : Enqueued
  unfolding insert_all insert_digest scored_candidate_summary_ids
  enqueue_scored_digests =
      queried
        (candidates "query scored digests" "rows scored digests" pass
          (ok (scored_candidate_summary_ids db)))
        insert_digest_events db.events

  -- `null` is what scanning a NULL as a uuid gives.
  unfoldable pub enqueue_scored_posts : Result ℕ → Enqueued
  unfolding insert_all insert_post scored_candidate_columns
  enqueue_scored_posts null =
      queried
        (candidates "query scored posts" "rows scored posts" pass
          (scan_ids null (scored_candidate_columns db)))
        (λ ps.
          insert_all "insert rescore event" "rescore rows affected" pass put_post ps 0 0 db.events)
        db.events
