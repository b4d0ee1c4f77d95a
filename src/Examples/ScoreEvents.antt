-- ===== src/Examples/ScoreEvents.antt =====
-- The outbox of score events at work: events that passes enqueue and two workers handle.
use feedium.Prelude.{
  ℕ, ◌+◌, ◌≡◌, refl, Bool, true, false, none, some, List, [], ◌∷◌, ==_iff, any, map, arith, subst,
}
use feedium.Errors.{opaque, wrap, Result, ok, err, is}
use feedium.Exec.Ok.{ok_inj}
use feedium.Scoring.Enqueue.Lists.{has}
use feedium.Retry.{RetryPolicy}
use feedium.Prelude.Int.{pos}
use feedium.Examples.Codecs.{codec}
use feedium.Outbox.Run
use feedium.Scoring.Outbox.Event.{ScoreRow, ScoreEvent, pending, processing}
use feedium.Scoring.Outbox.Statements.{
  has_active_post, claim_statement, claimable, claimed_by, eligible,
}
use feedium.Scoring.Outbox.Repo.{claim_one, event_of}
use feedium.Scoring.Outbox.Mirror.{row_as}
use feedium.Scoring.Outbox.Run.{
  Call, enqueue_post, enqueue_digest, claim, extend, finalize, retry, reap, complete, fail, call_as,
  run,
}
use feedium.Scoring.Outbox.Run.Refines.{run_refines}
use feedium.Scoring.Outbox.Run.Invariant.{IsConsistent, run_scores-IsConsistent}
use feedium.Scoring.Enqueue.{
  ScoreDb, Pass, due_candidate_post_ids, enqueue_due_posts, enqueue_scored_posts,
}
use feedium.Scoring.Enqueue.Insert.{Quiet, Fresh}
use feedium.Scoring.Enqueue.Covers.{enqueue_due_posts-queued}
use feedium.Scoring.Enqueue.Nulls.{Fails, enqueue_scored_posts-Fails}
use feedium.Scoring.Worker.{Turn, round}
use feedium.Scoring.Worker.Settled.{stays, round_settles}

abbrev nobody : ℕ → Bool
nobody i = false

-- Events for a post and a digest, the first one twice; worker a completes one, and the reaper fails
-- the other after worker b has left it.
abbrev calls : List Call
calls =
    enqueue_post none 1 100 2
    ∷ enqueue_post none 3 101 2
    ∷ enqueue_digest none 4 102 2
    ∷ claim none nobody 200 "a" 50_000
    ∷ extend none 210 "#i" "a" 50_000
    ∷ finalize none 220 "#i" "a" complete none
    ∷ finalize none 230 "#i" "a" fail (some "late")
    ∷ claim none nobody 240 "b" 50_000
    ∷ retry none 250 "#iiii" "b" 300 "busy"
    ∷ claim none nobody 310 "b" 50_000
    ∷ reap none 9_000 "#iiii" 2 1_000 "max attempts exceeded"
    ∷ []

run_refines_example : map row_as (run codec calls []) ≡ Run.run codec (map (call_as codec) calls) []
run_refines_example = run_refines codec calls [] tt

no_rows-IsConsistent : IsConsistent []
no_rows-IsConsistent = record {
  ids = λ i. omega arith;
  posts = λ p. omega arith;
  summaries = λ s. omega arith;
  leases = tt;
  keyed = tt;
}

run_scores-IsConsistent_example : IsConsistent (run codec calls [])
run_scores-IsConsistent_example = run_scores-IsConsistent codec calls [] no_rows-IsConsistent

-- Posts 2, 3 and 4 with two summaries of post 2 and one of post 3, which has an event already.
abbrev held : ScoreRow
held = record {
  id = 1;
  post_id = some 3;
  summary_id = none;
  status = pending;
  error = none;
  attempt_count = 0;
  locked_by = none;
  locked_until = none;
  next_attempt_at = none;
  created_at = 10;
  processed_at = none;
}

abbrev pub held_db : ScoreDb
held_db = record {
  posts = 2 ∷ 3 ∷ 4 ∷ [];
  summaries =
      record { id = 10; post_id = some 2 }
      ∷ record { id = 11; post_id = some 2 }
      ∷ record { id = 12; post_id = some 3 }
      ∷ record { id = 13; post_id = none }
      ∷ [];
  scores = [];
  events = held ∷ [];
}

abbrev pub pass : Pass
pass = record {
  query_fault = none;
  rows_fault = none;
  new_id = λ k. 100 + k;
  now = λ k. 50 + k;
  insert_fault = λ k. none;
  affected_fault = λ k. none;
}

pass-Quiet : Quiet pass
pass-Quiet = record { query = refl; rows = refl; insert = λ k. refl; affected = λ k. refl }

pass-Fresh : Fresh pass (held ∷ [])
pass-Fresh = record {
  unused = λ k. ground arith;
  apart = λ j k h. let e : 100 + j ≡ 100 + k = (==_iff (100 + j) (100 + k)).0 h in omega arith;
}

due : due_candidate_post_ids held_db ≡ 2 ∷ []
unfolding due_candidate_post_ids has_active_post
due = refl

enqueue_due_posts-queued_example : any (has_active_post 2) (enqueue_due_posts pass held_db).1 ≡ true
unfolding due_candidate_post_ids has_active_post
enqueue_due_posts-queued_example =
    enqueue_due_posts-queued pass held_db pass-Quiet pass-Fresh (refl, (refl, (refl, tt)))
      (omega arith) 2 refl refl

-- The digest 13 has a score, and a NULL is read as the nil uuid, which no post has.
abbrev pub scored_db : ScoreDb
scored_db = record held_db {
  scores =
      record { post_id = some 2; summary_id = none }
      ∷ record { post_id = none; summary_id = some 13 }
      ∷ [];
}

pub scored_nowhere :
    (z : ℕ)
    → ok 0 ≡ ok z
    → (has z held_db.posts ≡ false) × (any (has_active_post z) held_db.events ≡ false)
unfolding has_active_post
scored_nowhere z h =
    let e : 0 ≡ z = ok_inj h in
    subst (λ z. (has z held_db.posts ≡ false) × (any (has_active_post z) held_db.events ≡ false)) e
      (refl, refl)

enqueue_scored_posts-Fails_example : Fails (enqueue_scored_posts pass scored_db (ok 0))
enqueue_scored_posts-Fails_example =
    enqueue_scored_posts-Fails pass scored_db (ok 0) (omega arith) refl scored_nowhere

-- A round in which the handler fails, with attempts left.
abbrev policy : RetryPolicy
policy = record {
  max_attempts = pos 3;
  backoff_base = pos 30_000_000_000;
  backoff_max = pos 600_000_000_000;
}

abbrev turn : Turn
turn = record {
  claim_fault = none;
  skip = nobody;
  claim_now = 1_000;
  handler = λ event. err (wrap "score" (opaque "provider is busy"));
  fault = none;
  db_now = 2_000;
  now = 2_000_000;
}

abbrev claimed_event : ScoreEvent
claimed_event = record {
  id = "#i";
  post_id = some "#iii";
  summary_id = none;
  status = processing;
  error = none;
  attempt_count = 1;
  created_at = 10;
  processed_at = none;
}

abbrev after_claim : Result ScoreEvent × List ScoreRow
after_claim =
    claim_one codec turn.claim_fault turn.skip turn.claim_now "a" 300_000_000_000 (held ∷ [])

claimed_it : after_claim ≡ (ok claimed_event, after_claim.1)
unfolding claim_one claim_statement claimable claimed_by eligible event_of
claimed_it = refl

round_settles_example :
    any (stays 1) (round codec "a" 300_000_000_000 policy turn (held ∷ [])) ≡ false
unfolding is
round_settles_example =
    round_settles codec "a" 300_000_000_000 policy turn (held ∷ []) after_claim.1 claimed_event 1
      claimed_it refl (refl, refl, refl) refl (omega arith)
