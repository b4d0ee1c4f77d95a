-- ===== src/Scoring/Enqueue/Nulls.antt =====
-- EnqueueScoredPosts (internal/data/score_outbox_repo.go) where a digest has a score: the post of such a
-- score is NULL, and the query does not leave it out.
use native.Mathlib.Nat.{le_trans}
use feedium.Prelude.{
  ℕ, suc, ◌+◌, ◌≤◌, ◌≡◌, refl, subst, ◌∙◌, Bool, true, false, Option, none, some, List, [], ◌∷◌,
  arith, any, length, take_all, ◌==◌, Bool-cases, inl, inr, String, ==_iff, Option-cases,
}
use feedium.Errors.{Err, Result, ok, err, ◌>>=◌}
use feedium.Outbox.Invariant.{is_some}
use feedium.Scoring.Outbox.Event.{ScoreRow}
use feedium.Scoring.Outbox.Statements.{has_active_post}
use feedium.Scoring.Outbox.Repo.{post_row, insert_unless, insert_post}
use feedium.Scoring.Enqueue.{
  enqueue_scan_limit, ScoreKeys, ScoreDb, Pass, Enqueued, unqueued, columns, scan_ids,
  scored_candidate_columns, insert_all, referencing, put_post, counted, answered, all_read, queried,
  enqueue_scored_posts,
}
use feedium.Scoring.Enqueue.Lists.{has}
use feedium.Scoring.Enqueue.Covers.{active-post_row}
use feedium.Scoring.Enqueue.Insert.{any-snoc}

abbrev pub is_null : Option ℕ → Bool
is_null none = true
is_null (some p) = false

-- The answer carries an error.
abbrev pub Fails : Enqueued → Type 0
Fails out = is_some out.0.1 ≡ true

columns_null :
    (events : List ScoreRow) (scores : List ScoreKeys)
    → any (λ s. is_null s.post_id) scores ≡ true
    → any is_null (columns (unqueued events) scores) ≡ true
columns_null events [] h = cc
columns_null events (s ∷ ss) h = elim (Option-cases s.post_id) [
  | inl e ↦ rw e refl
  | inr (p, e) ↦
      let later : any (λ q. is_null q.post_id) ss ≡ true = rw e at h in
      rw e (elim (Bool-cases (any (has_active_post p) events)) [
        | inl active ↦ rw active (columns_null events ss later)
        | inr idle ↦ rw idle (columns_null events ss later)
      ])
]

length-columns :
    (p : Option ℕ → Bool) (scores : List ScoreKeys) → length (columns p scores) ≤ length scores
length-columns p [] = omega arith
length-columns p (s ∷ ss) = ground (arith, length-columns p ss)

-- What is scanned, where a NULL is among the columns: an error, or a list with the value that NULL
-- is read as.
abbrev Scanned : Result ℕ → Result (List ℕ) → Type 0
Scanned null (err e) = Unit
Scanned null (ok ps) = (z : ℕ) × (null ≡ ok z) × (has z ps ≡ true)

here-Scanned : (z : ℕ) (r : Result (List ℕ)) → Scanned (ok z) (r >>= λ ps. ok (z ∷ ps))
here-Scanned z (err e) = tt
here-Scanned z (ok ps) = (z, refl, ground arith)

later-Scanned :
    (null : Result ℕ) (p : ℕ) (r : Result (List ℕ))
    → Scanned null r
    → Scanned null (r >>= λ ps. ok (p ∷ ps))
later-Scanned null p (err e) s = tt
later-Scanned null p (ok ps) s = let (z, e, h) = s in (z, e, ground (arith, h))

scan_null :
    (null : Result ℕ) (cs : List (Option ℕ))
    → any is_null cs ≡ true
    → Scanned null (scan_ids null cs)
scan_null null [] h = cc
scan_null (err e) (none ∷ cs) h = tt
scan_null (ok z) (none ∷ cs) h = here-Scanned z (scan_ids (ok z) cs)
scan_null null (some p ∷ cs) h = later-Scanned null p (scan_ids null cs) (scan_null null cs h)

-- A result that is an error.
abbrev pub IsErr {ℓ} : {A : Type ℓ} → Result A → Type 0
IsErr (err e) = Unit
IsErr (ok a) = ⊥

module _ (z : ℕ) (n : ScoreRow) (t : List ScoreRow) where
  -- An event for a post that does not exist is refused.
  refused :
      (b clash : Bool) (fault : Option Err)
      → b ≡ false
      → any (λ r. r.id == n.id) t ≡ clash
      → IsErr (referencing false t (insert_unless b fault n t)).0
  refused true clash fault e c = cc
  refused false clash (some e) eb c = tt
  refused false true none eb c = rw c tt
  refused false false none eb c = rw c tt

  -- An insert for another post leaves no active event for `z`.
  kept_idle :
      (exists b clash : Bool) (fault : Option Err)
      → any (λ r. r.id == n.id) t ≡ clash
      → any (has_active_post z) t ≡ false
      → has_active_post z n ≡ false
      → any (has_active_post z) (referencing exists t (insert_unless b fault n t)).1 ≡ false
  kept_idle exists b clash (some e) c idle other = idle
  kept_idle exists true clash none c idle other = idle
  kept_idle exists false true none c idle other = rw c idle
  kept_idle true false false none c idle other = rw c (any-snoc (has_active_post z) t n idle other)
  kept_idle false false false none c idle other = rw c idle

module _ (pass : Pass) (db : ScoreDb) (z : ℕ) (missing : has z db.posts ≡ false)
    (insert affected : String) where
  counted_err :
      (k enqueued : ℕ) (next : ℕ → List ScoreRow → Enqueued) (r : Result ℕ × List ScoreRow)
      → IsErr r.0
      → Fails (counted insert affected (pass.affected_fault k) next enqueued r)
  counted_err k enqueued next (err e, t) h = refl
  counted_err k enqueued next (ok n, t) h = elim h [ ]

  counted_next :
      (fault : Option Err) (enqueued : ℕ) (next : ℕ → List ScoreRow → Enqueued)
      (r : Result ℕ × List ScoreRow)
      → ((m : ℕ) → Fails (next m r.1))
      → Fails (counted insert affected fault next enqueued r)
  counted_next fault enqueued next (err e, t) h = refl
  counted_next (some e) enqueued next (ok n, t) h = refl
  counted_next none enqueued next (ok n, t) h = h (enqueued + n)

  insert_all-Fails :
      (ps : List ℕ) (k enqueued : ℕ) (t : List ScoreRow)
      → has z ps ≡ true
      → any (has_active_post z) t ≡ false
      → Fails (insert_all insert affected pass (put_post pass db) ps k enqueued t)
  unfolding insert_all insert_post
  insert_all-Fails [] k enqueued t h idle = cc
  insert_all-Fails (p ∷ ps) k enqueued t h idle = elim (Bool-cases (p == z)) [
    | inl here ↦
        let same : p ≡ z = (==_iff p z).0 here in
        counted_err k enqueued _ _ (
          rw (same, missing)
            (refused z (post_row (pass.new_id k) (pass.now k) z) t (any (has_active_post z) t) _
              (pass.insert_fault k) idle refl))
    | inr later ↦ counted_next (pass.affected_fault k) enqueued _ (put_post pass db k p t) (λ m.
        insert_all-Fails ps (suc k) m _ (rw later at h) (
          kept_idle z (post_row (pass.new_id k) (pass.now k) p) t _ _ _ (pass.insert_fault k) refl
            idle (active-post_row z (pass.new_id k) (pass.now k) p ∙ later)))
  ]

queried-Fails :
    (query reading : String) (faulty unread : Option Err) (r : Result (List ℕ))
    (loop : List ℕ → Enqueued) (t : List ScoreRow)
    → ((ps : List ℕ) → r ≡ ok ps → Fails (loop ps))
    → Fails (queried (answered query faulty (r >>= all_read reading unread)) loop t)
queried-Fails query reading (some e) unread r loop t f = refl
queried-Fails query reading none unread (err e) loop t f = refl
queried-Fails query reading none (some e) (ok ps) loop t f = refl
queried-Fails query reading none none (ok ps) loop t f = f ps refl

module _ (pass : Pass) (db : ScoreDb) (null : Result ℕ) where
  null_column :
      length db.scores ≤ enqueue_scan_limit
      → any (λ s. is_null s.post_id) db.scores ≡ true
      → any is_null (scored_candidate_columns db) ≡ true
  unfolding scored_candidate_columns
  null_column few digest =
      rw
        (take_all enqueue_scan_limit (columns (unqueued db.events) db.scores)
          (le_trans (length-columns (unqueued db.events) db.scores) few))
        (columns_null db.events db.scores digest)

  -- Where a digest has a score, and there are at most 500 scores, EnqueueScoredPosts answers an
  -- error, whatever the driver answers, if scanning a NULL as a uuid fails or leaves a value that is
  -- the identifier of no post and of no active event.
  pub enqueue_scored_posts-Fails :
      length db.scores ≤ enqueue_scan_limit
      → any (λ s. is_null s.post_id) db.scores ≡ true
      → ((z : ℕ)
          → null ≡ ok z
          → (has z db.posts ≡ false) × (any (has_active_post z) db.events ≡ false))
      → Fails (enqueue_scored_posts pass db null)
  unfolding enqueue_scored_posts
  enqueue_scored_posts-Fails few digest nowhere =
      queried-Fails "query scored posts" "rows scored posts" pass.query_fault pass.rows_fault
        (scan_ids null (scored_candidate_columns db)) _ db.events
        (λ ps e.
          let (z, en, held) =
            subst (Scanned null) e
              (scan_null null (scored_candidate_columns db) (null_column few digest)) in
          insert_all-Fails pass db z (nowhere z en).0 "insert rescore event" "rescore rows affected"
            ps 0 0 db.events held (nowhere z en).1)
