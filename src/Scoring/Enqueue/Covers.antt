-- ===== src/Scoring/Enqueue/Covers.antt =====
-- What the passes of EnqueueDuePosts and EnqueueDueDigests (internal/data/score_outbox_repo.go) add.
use feedium.Prelude.{
  ℕ, suc, ◌<◌, ◌≡◌, refl, Bool, true, false, not, ◌&&◌, none, List, [], ◌∷◌, ◌++◌, arith, any,
  length, ◌==◌, All, Bool-cases, All-select, All-take, inl, inr,
}
use feedium.Outbox.Table.Tests.{any-append}
use feedium.Outbox.Event.{is_some_eq}
use feedium.Scoring.Outbox.Event.{ScoreRow}
use feedium.Scoring.Outbox.Statements.{has_active_post}
use feedium.Scoring.Outbox.Repo.{post_row, insert_post}
use feedium.Scoring.Enqueue.{
  enqueue_scan_limit, ScoreDb, Pass, unscored_post, present, due_candidate_post_ids,
  enqueue_due_posts,
}
use feedium.Scoring.Enqueue.Lists.{
  has, IsDistinct, All-distinct, selected, weaken, distinct-IsDistinct, take-IsDistinct, has-select,
  has-distinct, has-present, take_under,
}
use feedium.Scoring.Enqueue.Insert.{Quiet, Fresh, rows, insert_all_lem, queried_ok}

pub active-post_row : (q id now p : ℕ) → has_active_post q (post_row id now p) ≡ (p == q)
unfolding has_active_post post_row
active-post_row q id now p = refl

id-post_row : (id now p : ℕ) → (post_row id now p).id ≡ id
unfolding post_row
id-post_row id now p = refl

-- The rows that the pass adds: one pending event for each candidate, in order.
abbrev pub post_rows : Pass → List ℕ → List ScoreRow
post_rows pass ps = rows post_row pass 0 ps

-- The foreign key of summaries: the post of a summary exists.
abbrev pub PostsExist : ScoreDb → Type 0
PostsExist db = All (λ p. has p db.posts ≡ true) (present (λ s. s.post_id) db.summaries)

module _ (pass : Pass) (db : ScoreDb) where
  wanted : ℕ → Bool
  wanted p = unscored_post db.scores p && not (any (has_active_post p) db.events)

  due_idle : All (λ p. any (has_active_post p) db.events ≡ false) (due_candidate_post_ids db)
  unfolding due_candidate_post_ids wanted
  due_idle = All-take _ enqueue_scan_limit _ (
      All-distinct _ _
        (weaken _ (λ p h. ground arith) (selected wanted (present (λ s. s.post_id) db.summaries))))

  due_exist : PostsExist db → All (λ p. has p db.posts ≡ true) (due_candidate_post_ids db)
  unfolding due_candidate_post_ids
  due_exist there = All-take _ enqueue_scan_limit _ (All-distinct _ _ (All-select _ _ _ there))

  due-IsDistinct : IsDistinct (due_candidate_post_ids db)
  unfolding due_candidate_post_ids
  due-IsDistinct = take-IsDistinct enqueue_scan_limit _ (distinct-IsDistinct _)

  -- Where the driver fails at nothing and the new ids are fresh, EnqueueDuePosts adds one pending
  -- event for each of the first 500 distinct posts that have a summary, no score and no active
  -- event, changes no other row, and answers their number.
  enqueue_due_posts_lem :
      Quiet pass
      → Fresh pass db.events
      → PostsExist db
      → enqueue_due_posts pass db ≡ (
        (length (due_candidate_post_ids db), none),
        db.events ++ post_rows pass (due_candidate_post_ids db),
      )
  unfolding enqueue_due_posts insert_post
  enqueue_due_posts_lem quiet fresh there =
      queried_ok "query due posts" "rows due posts" pass (due_candidate_post_ids db) _ db.events _
        quiet
        (insert_all_lem has_active_post post_row active-post_row id-post_row
          (λ p. any (λ q. q == p) db.posts) pass "insert score event" "insert rows affected"
          (due_candidate_post_ids db) 0 0 db.events quiet fresh.apart (λ j later. fresh.unused j)
          (due_exist there) due_idle due-IsDistinct)

  due_has :
      length (due_candidate_post_ids db) < enqueue_scan_limit
      → (p : ℕ) → any (λ s. is_some_eq s.post_id p) db.summaries ≡ true
      → wanted p ≡ true
      → has p (due_candidate_post_ids db) ≡ true
  unfolding due_candidate_post_ids wanted
  due_has few p summarized want = rw (take_under enqueue_scan_limit _ few) (
      has-distinct p _
        (has-select wanted p _ want (has-present (λ s. s.post_id) p db.summaries summarized)))

  queued_rows :
      (p k : ℕ) (ps : List ℕ)
      → has p ps ≡ true
      → any (has_active_post p) (rows post_row pass k ps) ≡ true
  queued_rows p k [] h = cc
  queued_rows p k (q ∷ qs) h =
      rw (active-post_row p (pass.new_id k) (pass.now k) q) (elim (Bool-cases (q == p)) [
        | inl e ↦ rw e refl
        | inr e ↦ rw e (queued_rows p (suc k) qs (rw e at h))
      ])

  any-append_right :
      (f : ScoreRow → Bool) (t u : List ScoreRow) → any f u ≡ true → any f (t ++ u) ≡ true
  any-append_right f [] u h = h
  any-append_right f (r ∷ rs) u h = ground (arith, any-append_right f rs u)

  is_wanted :
      (p : ℕ)
      → unscored_post db.scores p ≡ true
      → any (has_active_post p) db.events ≡ false
      → wanted p ≡ true
  unfolding wanted
  is_wanted p u i = ground arith

  -- After a pass of EnqueueDuePosts in which the driver fails at nothing, the new ids are fresh and
  -- the limit of 500 candidates is not reached, each post that has a summary and no score has an
  -- active event.
  pub enqueue_due_posts-queued :
      Quiet pass
      → Fresh pass db.events
      → PostsExist db
      → length (due_candidate_post_ids db) < enqueue_scan_limit
      → (p : ℕ) → any (λ s. is_some_eq s.post_id p) db.summaries ≡ true
      → unscored_post db.scores p ≡ true
      → any (has_active_post p) (enqueue_due_posts pass db).1 ≡ true
  enqueue_due_posts-queued quiet fresh there few p summarized unscored =
      rw (enqueue_due_posts_lem quiet fresh there)
        (elim (Bool-cases (any (has_active_post p) db.events)) [
          | inl active ↦ any-append (has_active_post p) db.events _ active
          | inr idle ↦ any-append_right (has_active_post p) db.events _ (
              queued_rows p 0 (due_candidate_post_ids db)
                (due_has few p summarized (is_wanted p unscored idle)))
        ])
